-- ===== src/Storage/FinalizeGroup/Bound.antt =====
-- What one group can earn.
use wcwcpp_backend.Base.{
  ℕ, ◌+◌, ◌*◌, ◌≤◌, ◌≡◌, ◌≢◌, refl, sym, arith, Bool, Option, some, none, List, [], ◌∷◌, lookup,
  Dict, select, ◌&&◌, nat_eq, if◌then◌else◌, ◌==◌,
}
use wcwcpp_backend.Base.Int.{ℤ, pos, ◌+ℤ◌, ◌*ℤ◌, ◌≤ℤ◌, mul32, to_int32, int_eq}
use wcwcpp_backend.Entity.{Uuid}
use wcwcpp_backend.Rows.{GroupPickRow}
use wcwcpp_backend.Storage.FinalizeGroup.{base_points, multiplier, total_of, score_picks}
use wcwcpp_backend.Storage.FinalizeGroup.Totals.{pick_worth, worth_of, total_for-score_picks}

-- The base points as a number.
abbrev earned : ℤ → ℕ
earned r =
    if r == pos 1
    then 10
    else if r == pos 2
    then 6
    else if r == pos 3
    then 3
    else if r == pos 4
    then 1
    else 0

base_points-earned : (r : ℤ) → base_points r ≡ pos (earned r)
unfolding base_points
base_points-earned r = ground arith

earned-le : (r : ℤ) → earned r ≤ 10
earned-le r = ground arith

most : (r1 r2 r3 : ℤ) → r1 ≢ r2 → r1 ≢ r3 → r2 ≢ r3 → earned r1 * 3 + earned r2 * 2 + earned r3 ≤ 45
most r1 r2 r3 a b c = ground (arith, a, b, c)

times_three : (b : ℕ) → b ≤ 10 → mul32 (pos b) (pos 3) ≡ pos (b * 3)
unfolding mul32 ◌*ℤ◌ to_int32
times_three b h = ground (arith, h)

times_two : (b : ℕ) → b ≤ 10 → mul32 (pos b) (pos 2) ≡ pos (b * 2)
unfolding mul32 ◌*ℤ◌ to_int32
times_two b h = ground (arith, h)

times_one : (b : ℕ) → b ≤ 10 → mul32 (pos b) (pos 1) ≡ pos b
unfolding mul32 ◌*ℤ◌ to_int32
times_one b h = ground (arith, h)

times_zero : (b : ℕ) → mul32 (pos b) (pos 0) ≡ pos 0
unfolding mul32 ◌*ℤ◌ to_int32
times_zero b = ground arith

abbrev factor : ℤ → ℕ
factor place =
    if place == pos 1 then 3 else if place == pos 2 then 2 else if place == pos 3 then 1 else 0

-- What a pick is worth, as a number.
abbrev worth : ℤ → ℤ → ℕ
worth rank place =
    if place == pos 1
    then earned rank * 3
    else if place == pos 2
    then earned rank * 2
    else if place == pos 3
    then earned rank
    else 0

pick_worth-some :
    (rank : ℤ) (p : GroupPickRow) → pick_worth (some rank) p ≡ pos (worth rank p.place)
unfolding multiplier
pick_worth-some rank p = rw (base_points-earned rank) (
    let a = times_three (earned rank) (earned-le rank) in
    let b = times_two (earned rank) (earned-le rank) in
    let c = times_one (earned rank) (earned-le rank) in
    let d = times_zero (earned rank) in ground arith)

abbrev worth_in : Option ℤ → ℤ → ℕ
worth_in none place = 0
worth_in (some rank) place = worth rank place

pick_worth-nat : (o : Option ℤ) (p : GroupPickRow) → pick_worth o p ≡ pos (worth_in o p.place)
pick_worth-nat none p = refl
pick_worth-nat (some rank) p = pick_worth-some rank p

-- The user's picks for a place, and what countries they are of.
abbrev pub picked_for : Uuid → ℤ → GroupPickRow → Bool
picked_for user place p = p.user_id == user && p.place == place

abbrev earned_by : Option ℤ → ℕ
earned_by none = 0
earned_by (some rank) = earned rank

abbrev sum_of : Dict Uuid ℤ → List GroupPickRow → ℕ
sum_of ranks [] = 0
sum_of ranks (p ∷ ps) = earned_by (lookup p.country_id ranks) + sum_of ranks ps

add_nat : (a b : ℕ) → pos a +ℤ pos b ≡ pos (a + b)
unfolding ◌+ℤ◌
add_nat a b = ground arith

-- What a pick adds to the three sums.
worth_split :
    (o : Option ℤ) (place : ℤ)
    → worth_in o place
      ≡ (if place == pos 1 then earned_by o else 0) * 3
        + (if place == pos 2 then earned_by o else 0) * 2
        + (if place == pos 3 then earned_by o else 0)
worth_split none place = ground arith
worth_split (some rank) place = ground arith

sum_of-select :
    (ranks : Dict Uuid ℤ) (user : Uuid) (place : ℤ) (p : GroupPickRow) (ps : List GroupPickRow)
    → sum_of ranks (select (picked_for user place) (p ∷ ps))
      ≡ (if p.user_id == user
          then (if p.place == place then earned_by (lookup p.country_id ranks) else 0)
          else 0)
        + sum_of ranks (select (picked_for user place) ps)
sum_of-select ranks user place p ps = ground arith

worth_of-sums :
    (ranks : Dict Uuid ℤ) (user : Uuid) (ps : List GroupPickRow)
    → worth_of ranks user ps
      ≡ pos (
          sum_of ranks (select (picked_for user (pos 1)) ps) * 3
          + sum_of ranks (select (picked_for user (pos 2)) ps) * 2
          + sum_of ranks (select (picked_for user (pos 3)) ps))
worth_of-sums ranks user [] = refl
worth_of-sums ranks user (p ∷ ps) =
    rw
      (
        sum_of-select ranks user (pos 1) p ps,
        sum_of-select ranks user (pos 2) p ps,
        sum_of-select ranks user (pos 3) p ps,
        worth_of-sums ranks user ps,
        pick_worth-nat (lookup p.country_id ranks) p,
        worth_split (lookup p.country_id ranks) p.place,
        add_nat,
      )
      (ground arith)

small : (n : ℕ) → n ≤ 45 → to_int32 (pos n) ≡ pos n
unfolding to_int32
small n h = ground (arith, h)

within : (x : ℤ) (n : ℕ) → n ≤ 45 → x ≡ pos n → (pos 0 ≤ℤ to_int32 x) × (to_int32 x ≤ℤ pos 45)
within x n h e = rw (e, small n h) (omega arith, omega (arith, h))

-- A user who has picked one country for each of the places 1, 2 and 3 of a group, all of them with
-- ranks of their own, gets a total of 0 to 45 points for the group, whatever other picks there are.
pub score_picks-bounds :
    (ranks : Dict Uuid ℤ) (user : Uuid) (ps : List GroupPickRow) (p1 p2 p3 : GroupPickRow)
    (r1 r2 r3 : ℤ)
    → select (picked_for user (pos 1)) ps ≡ p1 ∷ []
    → select (picked_for user (pos 2)) ps ≡ p2 ∷ []
    → select (picked_for user (pos 3)) ps ≡ p3 ∷ []
    → lookup p1.country_id ranks ≡ some r1
    → lookup p2.country_id ranks ≡ some r2
    → lookup p3.country_id ranks ≡ some r3
    → r1 ≢ r2
    → r1 ≢ r3
    → r2 ≢ r3
    → (pos 0 ≤ℤ total_of (lookup user (score_picks ranks ps [])))
      × (total_of (lookup user (score_picks ranks ps [])) ≤ℤ pos 45)
score_picks-bounds ranks user ps p1 p2 p3 r1 r2 r3 s1 s2 s3 l1 l2 l3 a b c =
    rw (total_for-score_picks ranks user ps [] (pos 0) (sym (small 0 (omega arith)))) (
      within (pos 0 +ℤ worth_of ranks user ps) (earned r1 * 3 + earned r2 * 2 + earned r3)
        (most r1 r2 r3 a b c)
        (rw (worth_of-sums ranks user ps, s1, s2, s3, l1, l2, l3, add_nat) (ground arith)))
