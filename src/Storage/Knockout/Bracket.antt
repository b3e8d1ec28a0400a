-- ===== src/Storage/Knockout/Bracket.antt =====
-- The bracket: who meets whom in the next round.
use wcwcpp_backend.Base.{
  ℕ, suc, Bool-cases, ◌+◌, ◌*◌, ◌<◌, ◌≡◌, ◌≢◌, inl, inr, Bool, true, false, not, Option, some, List,
  [], ◌∷◌, All, arith, ◌==◌, nat_eq,
}
use wcwcpp_backend.Base.Int.{ℤ, pos, ◌+ℤ◌, ltb_ℤ, int_eq, half, is_even, to_int32}
use wcwcpp_backend.Entity.{Uuid}
use wcwcpp_backend.Rows.{Db, MatchRow, GroupStandingRow}
use wcwcpp_backend.Sql.{World, ok, update_where}
use wcwcpp_backend.Sql.Post.{
  Yields, write-Yields, on_error-Yields, then-Yields, pure-Yields, Yields_ok, OnOk-pair,
}
use wcwcpp_backend.Storage.Existing.{at_slot}
use wcwcpp_backend.Storage.Knockout.Elsewhere.{reward_winner-elsewhere, reward_loser-elsewhere}
use wcwcpp_backend.Storage.Knockout.{seat, set_country, advance_winner, seat_loser, progress}

-- One of the two countries of a match.
abbrev pub country_at : Bool → MatchRow → Option Uuid
country_at true m = m.country1_id
country_at false m = m.country2_id

-- Every match at a round and index of a contest has a given country on one side.
abbrev pub Seated : Uuid → ℤ → ℤ → Bool → Uuid → Db → Type 0
Seated contest round index side c db =
    All (λ m. at_slot contest round index m ≡ true → country_at side m ≡ some c) db.matches

seat-Seated_rows :
    (contest : Uuid) (round index : ℤ) (side : Bool) (c : Uuid) (rows : List MatchRow)
    → All
        (λ m. at_slot contest round index m ≡ true → country_at side m ≡ some c)
        (update_where (at_slot contest round index) (set_country side c) rows)
seat-Seated_rows contest round index side c [] = tt
seat-Seated_rows contest round index true c (m ∷ rows) =
    (λ e. ground arith, seat-Seated_rows contest round index true c rows)
seat-Seated_rows contest round index false c (m ∷ rows) =
    (λ e. ground arith, seat-Seated_rows contest round index false c rows)

-- Seating the other side, anywhere, keeps a side.
seat-keeps_side :
    (contest : Uuid) (round index round' index' : ℤ) (side : Bool) (c c' : Uuid)
    (rows : List MatchRow)
    → All (λ m. at_slot contest round index m ≡ true → country_at side m ≡ some c) rows
    → All
        (λ m. at_slot contest round index m ≡ true → country_at side m ≡ some c)
        (update_where (at_slot contest round' index') (set_country (not side) c') rows)
seat-keeps_side contest round index round' index' side c c' [] h = tt
seat-keeps_side contest round index round' index' true c c' (m ∷ rows) h =
    (λ e. ground (arith, h.0), seat-keeps_side contest round index round' index' true c c' rows h.1)
seat-keeps_side contest round index round' index' false c c' (m ∷ rows) h = (
  λ e. ground (arith, h.0),
  seat-keeps_side contest round index round' index' false c c' rows h.1,
)

-- Seating at another index keeps both sides.
seat-keeps_index :
    (contest : Uuid) (round index round' index' : ℤ) (side side' : Bool) (c c' : Uuid)
    (rows : List MatchRow)
    → index ≢ index'
    → All (λ m. at_slot contest round index m ≡ true → country_at side m ≡ some c) rows
    → All
        (λ m. at_slot contest round index m ≡ true → country_at side m ≡ some c)
        (update_where (at_slot contest round' index') (set_country side' c') rows)
seat-keeps_index contest round index round' index' side side' c c' [] ne h = tt
seat-keeps_index contest round index round' index' true true c c' (m ∷ rows) ne h = (
  λ e. ground (arith, h.0),
  seat-keeps_index contest round index round' index' true true c c' rows ne h.1,
)
seat-keeps_index contest round index round' index' true false c c' (m ∷ rows) ne h = (
  λ e. ground (arith, h.0),
  seat-keeps_index contest round index round' index' true false c c' rows ne h.1,
)
seat-keeps_index contest round index round' index' false true c c' (m ∷ rows) ne h = (
  λ e. ground (arith, h.0),
  seat-keeps_index contest round index round' index' false true c c' rows ne h.1,
)
seat-keeps_index contest round index round' index' false false c c' (m ∷ rows) ne h = (
  λ e. ground (arith, h.0),
  seat-keeps_index contest round index round' index' false false c c' rows ne h.1,
)

-- Where the winner of a match below round 5 goes.
next_round : (r : ℕ) → r < 5 → to_int32 (pos r +ℤ pos 1) ≡ pos (suc r)
unfolding to_int32 ◌+ℤ◌
next_round r h = ground arith

next_index :
    (j : ℕ)
    → j < 8
    → (to_int32 (half (pos (2 * j))) ≡ pos j) × (to_int32 (half (pos (2 * j + 1))) ≡ pos j)
unfolding to_int32 half
next_index j h = ground arith

sides : (j : ℕ) → (is_even (pos (2 * j)) ≡ true) × (is_even (pos (2 * j + 1)) ≡ false)
unfolding is_even
sides j = ground arith

module _ (contest : Uuid) (r j : ℕ) (below : r < 5) (small : j < 8) (final : r ≡ 4 → j ≡ 0) where
  abbrev Meets : Bool → Uuid → Db → Type 0
  Meets side c = Seated contest (pos (suc r)) (pos j) side c

  advance_first :
      (c : Uuid)
      → Yields (λ _. Unit {0}) (advance_winner contest (pos r) (pos (2 * j)) c) (λ _. Meets true c)
  unfolding advance_winner seat
  advance_first c =
      rw (ltb_below, next_round r below, (next_index j small).0, (sides j).0)
        (on_error-Yields _
          (write-Yields _ λ db p. seat-Seated_rows contest (pos (suc r)) (pos j) true c db.matches))
    where
      ltb_below : ltb_ℤ (pos r) (pos 5) ≡ true
      ltb_below = ground arith

  advance_second :
      (a c : Uuid)
      → Yields
          (Meets true a)
          (advance_winner contest (pos r) (pos (2 * j + 1)) c)
          (λ _ db. Meets true a db × Meets false c db)
  unfolding advance_winner seat
  advance_second a c =
      rw (ltb_below, next_round r below, (next_index j small).1, (sides j).1)
        (on_error-Yields _ (
          write-Yields _ λ db p. (
            seat-keeps_side contest (pos (suc r)) (pos j) (pos (suc r)) (pos j) true a c db.matches
                p,
            seat-Seated_rows contest (pos (suc r)) (pos j) false c db.matches,
          )))
    where
      ltb_below : ltb_ℤ (pos r) (pos 5) ≡ true
      ltb_below = ground arith

  -- The match after a semifinal is the final, at index 0; the third place match has index 1.
  other_index : (pos r == pos 4) ≡ true → pos j ≢ pos 1
  other_index e = ground (arith, final)

  seat_loser-Meets :
      (index : ℤ) (loser : Uuid) (side : Bool) (c : Uuid)
      → Yields (Meets side c) (seat_loser contest (pos r) index loser) (λ _. Meets side c)
  unfolding seat_loser seat
  seat_loser-Meets index loser side c = elim (Bool-cases (pos r == pos 4)) [
    | inl semifinal ↦ rw semifinal (
        on_error-Yields _ (
          write-Yields _ λ db p.
            seat-keeps_index contest (pos (suc r)) (pos j) (pos 5) (pos 1) side (index == pos 0) c
              loser db.matches (other_index semifinal) p))
    | inr earlier ↦ rw earlier (pure-Yields tt)
  ]

  progress_first :
      (a x : Uuid)
      → Yields (λ _. Unit {0}) (progress contest (pos r) (pos (2 * j)) (a, x)) (λ _. Meets true a)
  unfolding progress
  progress_first a x =
      let P : List MatchRow → List GroupStandingRow → Type 0 = λ rows _.
        All (λ m. at_slot contest (pos (suc r)) (pos j) m ≡ true → m.country1_id ≡ some a) rows in
      then-Yields (Meets true a) (advance_first a) (
        then-Yields (Meets true a) (seat_loser-Meets (pos (2 * j)) x true a) (
          then-Yields (Meets true a) (reward_winner-elsewhere P contest a _ _)
            (reward_loser-elsewhere P contest (pos r) x)))

  seat_loser-MeetBoth :
      (index : ℤ) (loser a b : Uuid)
      → Yields
          (λ db. Meets true a db × Meets false b db)
          (seat_loser contest (pos r) index loser)
          (λ _ db. Meets true a db × Meets false b db)
  seat_loser-MeetBoth index loser a b = record {
    run = λ w p.
        OnOk-pair (Meets true a) (Meets false b) (seat_loser contest (pos r) index loser w)
          ((seat_loser-Meets index loser true a).run w p.0)
          ((seat_loser-Meets index loser false b).run w p.1);
  }

  progress_second :
      (a b y : Uuid)
      → Yields
          (Meets true a)
          (progress contest (pos r) (pos (2 * j + 1)) (b, y))
          (λ _ db. Meets true a db × Meets false b db)
  unfolding progress
  progress_second a b y =
      let P : List MatchRow → List GroupStandingRow → Type 0 = λ rows _.
        All (λ m. at_slot contest (pos (suc r)) (pos j) m ≡ true → m.country1_id ≡ some a) rows
        × All (λ m. at_slot contest (pos (suc r)) (pos j) m ≡ true → m.country2_id ≡ some b) rows in
      then-Yields _ (advance_second a b) (
        then-Yields _ (seat_loser-MeetBoth (pos (2 * j + 1)) y a b) (
          then-Yields _ (reward_winner-elsewhere P contest b _ _)
            (reward_loser-elsewhere P contest (pos r) y)))

-- After the two matches 2j and 2j + 1 of a round below 5 have been decided, one after the other,
-- match j of the next round has their winners, the first on side 1 and the second on side 2. In
-- round 4 there is only j = 0.
pub progress_meets :
    (contest : Uuid) (r j : ℕ)
    → r < 5
    → j < 8
    → (r ≡ 4 → j ≡ 0)
    → (a x b y : Uuid) (w : World) {w1 w2 : World}
    → progress contest (pos r) (pos (2 * j)) (a, x) w ≡ (ok tt, w1)
    → progress contest (pos r) (pos (2 * j + 1)) (b, y) w1 ≡ (ok tt, w2)
    → Seated contest (pos (suc r)) (pos j) true a w2.db
      × Seated contest (pos (suc r)) (pos j) false b w2.db
progress_meets contest r j below small final a x b y w {w1} e1 e2 =
    Yields_ok (progress_second contest r j below small final a b y) w1
      (Yields_ok (progress_first contest r j below small final a x) w tt e1) e2
