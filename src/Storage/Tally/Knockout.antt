-- ===== src/Storage/Tally/Knockout.antt =====
-- The knockout part of an update leaves the group table and the group matches alone.
use wcwcpp_backend.Base.{
  ◌≡◌, refl, sym, ap, ◌∙◌, arith, Bool, true, Bool-cases, inl, inr, Option, none, some, List, [],
  ◌∷◌, All, ◌==◌, nat_eq,
}
use wcwcpp_backend.Base.Int.{ℤ, pos, ltb_ℤ, int_eq}
use wcwcpp_backend.Entity.{Uuid}
use wcwcpp_backend.Rows.{Db, MatchRow, GroupStandingRow}
use wcwcpp_backend.Sql.{update_where}
use wcwcpp_backend.Sql.Post.{
  Yields, then-Yields, write-Yields, on_error-Yields, pure-Yields, fail-Yields, if-Yields,
}
use wcwcpp_backend.Storage.Existing.{at_slot}
use wcwcpp_backend.Storage.Knockout.{
  seat, set_country, advance_winner, seat_loser, progress, progress_if, decide_for, decide_if,
  decide_knockout,
}
use wcwcpp_backend.Storage.Knockout.Elsewhere.{reward_winner-elsewhere, reward_loser-elsewhere}
use wcwcpp_backend.Storage.Tally.{no_share, share, IsTallied}
use wcwcpp_backend.Storage.Tally.Rows.{
  IsDistinct, IsShaped, All-update, IsDistinct-update, total-update,
}

-- Matches with distinct identifiers, in shape, and a group table that they give.
abbrev pub Kept : List MatchRow → List GroupStandingRow → Type 0
Kept ms rows = IsDistinct ms × All IsShaped ms × All (IsTallied ms) rows

abbrev pub IsKept : Db → Type 0
IsKept db = Kept db.matches db.group_standings

-- A match at a slot is no group match.
pub slot-knockout :
    (contest : Uuid) (round index : ℤ) (m : MatchRow)
    → IsShaped m
    → at_slot contest round index m ≡ true
    → ltb_ℤ (pos 0) m.round ≡ true
slot-knockout contest round index m h at = elim (Bool-cases (ltb_ℤ (pos 0) m.round)) [
  | inl yes_ ↦ yes_
  | inr group ↦ absurd (go m.round_index refl (h group).0)
]
  where
    go : (o : Option ℤ) → m.round_index ≡ o → m.round_index ≡ none → ⊥
    go none e n = ground (arith, at, e)
    go (some i) e n = ground (arith, e, n)

pub share-knockout :
    (contest c : Uuid) (m : MatchRow) → ltb_ℤ (pos 0) m.round ≡ true → share contest c m ≡ no_share
unfolding share
share-knockout contest c m h = ground (arith, h)

module _ (contest : Uuid) (round index : ℤ) (side : Bool) (w : Uuid) where
  set_country-same :
      (m : MatchRow) → ((set_country side w m).round ≡ m.round) × ((set_country side w m).id ≡ m.id)
  set_country-same m = ground arith

  seat-IsShaped :
      (m : MatchRow)
      → IsShaped m
      → at_slot contest round index m ≡ true
      → IsShaped (set_country side w m)
  seat-IsShaped m h at group =
      let up = slot-knockout contest round index m h at in
      absurd (ground (arith, up, group, (set_country-same m).0))

  seat-share :
      (k c : Uuid) (m : MatchRow)
      → IsShaped m
      → at_slot contest round index m ≡ true
      → share k c (set_country side w m) ≡ share k c m
  seat-share k c m h at =
      let up = slot-knockout contest round index m h at in
      share-knockout k c (set_country side w m) (ap (ltb_ℤ (pos 0)) (set_country-same m).0 ∙ up)
      ∙ sym (share-knockout k c m up)

  seat-IsTallied :
      (ms : List MatchRow) (rows : List GroupStandingRow)
      → All IsShaped ms
      → All (IsTallied ms) rows
      → All (IsTallied (update_where (at_slot contest round index) (set_country side w) ms)) rows
  seat-IsTallied ms [] h k = tt
  seat-IsTallied ms (s ∷ rows) h k = (
    k.0
        ∙ sym (
            total-update s.contest_id s.country_id IsShaped (at_slot contest round index)
              (set_country side w) (seat-share s.contest_id s.country_id) ms h),
    seat-IsTallied ms rows h k.1,
  )

  seat-IsKept : (db : Db) → IsKept db → IsKept (seat contest round index side w db)
  unfolding seat
  seat-IsKept db (d, h, k) = (
    IsDistinct-update _ _ (λ m. (set_country-same m).1) db.matches d,
    All-update IsShaped _ _ db.matches seat-IsShaped h,
    seat-IsTallied db.matches db.group_standings h k,
  )

progress-Yields :
    (contest : Uuid) (round index : ℤ) (r : Uuid × Uuid)
    → Yields IsKept (progress contest round index r) (λ _. IsKept)
unfolding progress advance_winner seat_loser
progress-Yields contest round index (winner, loser) =
    then-Yields IsKept
      (if-Yields (ltb_ℤ round (pos 5))
        (on_error-Yields _ (write-Yields _ (seat-IsKept contest _ _ _ winner))) (pure-Yields tt))
      (then-Yields IsKept
        (if-Yields (round == pos 4)
          (on_error-Yields _ (write-Yields _ (seat-IsKept contest _ _ _ loser))) (pure-Yields tt))
        (then-Yields IsKept (reward_winner-elsewhere Kept contest winner _ _)
          (reward_loser-elsewhere Kept contest round loser)))

progress_if-Yields :
    (m : MatchRow) (index : Option ℤ) (r : Option (Uuid × Uuid))
    → Yields IsKept (progress_if m index r) (λ _. IsKept)
progress_if-Yields m none r = pure-Yields tt
progress_if-Yields m (some index) none = pure-Yields tt
progress_if-Yields m (some index) (some r) = progress-Yields m.contest_id m.round index r

decide_for-Yields :
    (old new : MatchRow) (o1 o2 : Option Uuid) (g1 g2 : ℤ)
    → Yields IsKept (decide_for old new o1 o2 g1 g2) (λ _. IsKept)
decide_for-Yields old new (some c1) (some c2) g1 g2 = progress_if-Yields old old.round_index _
decide_for-Yields old new none o2 g1 g2 = fail-Yields _ _ _
decide_for-Yields old new (some c1) none g1 g2 = fail-Yields _ _ _

decide_if-Yields :
    (old new : MatchRow) (g1 g2 : Option ℤ) → Yields IsKept (decide_if old new g1 g2) (λ _. IsKept)
decide_if-Yields old new none g2 = pure-Yields tt
decide_if-Yields old new (some g1) none = pure-Yields tt
decide_if-Yields old new (some g1) (some g2) =
    decide_for-Yields old new new.country1_id new.country2_id g1 g2

pub decide_knockout-Yields :
    (old new : MatchRow) → Yields IsKept (decide_knockout old new) (λ _. IsKept)
unfolding decide_knockout
decide_knockout-Yields old new = decide_if-Yields old new new.country1_goals new.country2_goals
