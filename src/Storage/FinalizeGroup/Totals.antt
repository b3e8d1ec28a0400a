-- ===== src/Storage/FinalizeGroup/Totals.antt =====
-- The map of points that `FinalizeGroupRankings` collects, against the sum over a user's picks.
use wcwcpp_backend.Base.{
  ◌≡◌, refl, sym, ap, ◌∙◌, Bool, true, false, Option, none, some, List, [], ◌∷◌, arith, lookup,
  insert, Dict, ◌==◌, nat_eq, if◌then◌else◌,
}
use wcwcpp_backend.Base.Int.{ℤ, pos, ◌+ℤ◌, add32, mul32, to_int32, to_int32-add_left, int_laws}
use wcwcpp_backend.Entity.{Uuid}
use wcwcpp_backend.Rows.{GroupPickRow}
use wcwcpp_backend.Storage.FinalizeGroup.{
  multiplier, base_points, total_of, add_to, score_pick, score_picks,
}

-- What one pick of a user is worth: the points of the country's rank times the factor of its place.
abbrev pub pick_worth : Option ℤ → GroupPickRow → ℤ
pick_worth none p = pos 0
pick_worth (some rank) p = mul32 (base_points rank) (multiplier p.place)

-- The worth of all of a user's picks.
abbrev pub worth_of : Dict Uuid ℤ → Uuid → List GroupPickRow → ℤ
worth_of ranks user [] = pos 0
worth_of ranks user (p ∷ ps) =
    let rest = worth_of ranks user ps in
    if p.user_id == user then pick_worth (lookup p.country_id ranks) p +ℤ rest else rest

lookup-insert :
    (j k : Uuid) (v : ℤ) (d : Dict Uuid ℤ)
    → lookup j (insert k v d) ≡ (if j == k then some v else lookup j d)
lookup-insert j k v [] = refl
lookup-insert j k v ((i, w) ∷ d) = ground (arith, lookup-insert j k v d)

-- No key twice.
abbrev pub NodupKeys : Dict Uuid ℤ → Type 0
NodupKeys [] = Unit
NodupKeys ((k, v) ∷ d) = (lookup k d ≡ none) × NodupKeys d

insert-NodupKeys : (k : Uuid) (v : ℤ) (d : Dict Uuid ℤ) → NodupKeys d → NodupKeys (insert k v d)
insert-NodupKeys k v [] h = (refl, tt)
insert-NodupKeys k v ((j, w) ∷ d) h =
    ground (arith, insert-NodupKeys k v d h.1, lookup-insert j k v d)

pub score_picks-NodupKeys :
    (ranks : Dict Uuid ℤ) (ps : List GroupPickRow) (t : Dict Uuid ℤ)
    → NodupKeys t
    → NodupKeys (score_picks ranks ps t)
unfolding score_picks
score_picks-NodupKeys ranks [] t h = h
score_picks-NodupKeys ranks (p ∷ ps) t h =
    score_picks-NodupKeys ranks ps _ (go (lookup p.country_id ranks))
  where
    go : (r : Option ℤ) → NodupKeys (score_pick r p t)
    go none = h
    go (some rank) = insert-NodupKeys p.user_id _ t h

abbrev pub total_for : Uuid → Dict Uuid ℤ → ℤ
total_for user t = total_of (lookup user t)

total_for-add_to :
    (user u : Uuid) (x : ℤ) (t : Dict Uuid ℤ)
    → total_for user (add_to u x t)
      ≡ (if u == user then add32 (total_for user t) x else total_for user t)
total_for-add_to user u x t =
    ground (arith, lookup-insert user u (add32 (total_of (lookup u t)) x) t)

+ℤ_zero : (x : ℤ) → x +ℤ pos 0 ≡ x
+ℤ_zero x = omega int_laws

+ℤ_assoc : (a b c : ℤ) → a +ℤ b +ℤ c ≡ a +ℤ (b +ℤ c)
+ℤ_assoc a b c = omega int_laws

total_for-score_pick :
    (user : Uuid) (p : GroupPickRow) (t : Dict Uuid ℤ) (x : ℤ) (r : Option ℤ)
    → total_for user t ≡ to_int32 x
    → total_for user (score_pick r p t)
      ≡ to_int32 (if p.user_id == user then x +ℤ pick_worth r p else x)
unfolding add32
total_for-score_pick user p t x none e = ground (arith, +ℤ_zero x)
total_for-score_pick user p t x (some rank) e =
    let v = mul32 (base_points rank) (multiplier p.place) in
    ground (arith, total_for-add_to user p.user_id v t, to_int32-add_left x v)

sum-head :
    (b : Bool) (x v rest : ℤ)
    → (if b then x +ℤ v else x) +ℤ rest ≡ x +ℤ (if b then v +ℤ rest else rest)
sum-head true x v rest = +ℤ_assoc x v rest
sum-head false x v rest = refl

-- A total is the int32 value of the sum.
pub total_for-score_picks :
    (ranks : Dict Uuid ℤ) (user : Uuid) (ps : List GroupPickRow) (t : Dict Uuid ℤ) (x : ℤ)
    → total_for user t ≡ to_int32 x
    → total_for user (score_picks ranks ps t) ≡ to_int32 (x +ℤ worth_of ranks user ps)
unfolding score_picks
total_for-score_picks ranks user [] t x e = e ∙ ap to_int32 (sym (+ℤ_zero x))
total_for-score_picks ranks user (p ∷ ps) t x e =
    let r = lookup p.country_id ranks in
    total_for-score_picks ranks user ps (score_pick r p t) _ (total_for-score_pick user p t x r e)
    ∙ ap to_int32 (sum-head (p.user_id == user) x (pick_worth r p) (worth_of ranks user ps))
