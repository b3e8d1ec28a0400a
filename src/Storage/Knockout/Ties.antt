-- ===== src/Storage/Knockout/Ties.antt =====
-- A knockout match that ends level and is not decided on penalties.
use wcwcpp_backend.Base.{◌≡◌, ◌⊎◌, refl, true, Option, none, some, arith}
use wcwcpp_backend.Base.Int.{ℤ}
use wcwcpp_backend.Entity.{Uuid}
use wcwcpp_backend.Rows.{MatchRow}
use wcwcpp_backend.Sql.{World, ok, pure}
use wcwcpp_backend.Storage.Existing.{is_completed}
use wcwcpp_backend.Storage.Knockout.{decide_knockout, match_result, penalty_result, progress_if}

-- The penalties are not both known, or are level.
abbrev pub Level : Option ℤ → Option ℤ → Type 0
Level p1 p2 = (p1 ≡ none) ⊎ (p2 ≡ none) ⊎ (p1 ≡ p2)

penalty_result-Level :
    (c1 c2 : Uuid) (p1 p2 : Option ℤ) → Level p1 p2 → penalty_result c1 c2 p1 p2 ≡ none
penalty_result-Level c1 c2 none p2 h = refl
penalty_result-Level c1 c2 (some p1) none h = refl
penalty_result-Level c1 c2 (some p1) (some p2) h = ground (arith, h)

match_result-tie :
    (c1 c2 : Uuid) (g : ℤ) (p1 p2 : Option ℤ) → Level p1 p2 → match_result c1 c2 g g p1 p2 ≡ none
unfolding match_result
match_result-tie c1 c2 g p1 p2 h = ground (arith, penalty_result-Level c1 c2 p1 p2 h)

progress_if-none :
    (m : MatchRow) (index : Option ℤ) (w : World) → progress_if m index none w ≡ (ok tt, w)
unfolding pure
progress_if-none m none w = refl
progress_if-none m (some index) w = refl

-- A knockout match that is saved with level goals, where the penalties are not both known or are
-- level, counts as completed, while the part of the update that moves countries on and pays points
-- does nothing.
pub decide_knockout-Level :
    (old new : MatchRow) (c1 c2 : Uuid) (g : ℤ) (w : World)
    → new.country1_id ≡ some c1
    → new.country2_id ≡ some c2
    → new.country1_goals ≡ some g
    → new.country2_goals ≡ some g
    → Level new.country1_penalties new.country2_penalties
    → (is_completed new ≡ true) × (decide_knockout old new w ≡ (ok tt, w))
unfolding is_completed decide_knockout
decide_knockout-Level old new c1 c2 g w e1 e2 g1 g2 h = (
  rw (g1, g2) refl,
  rw (g1, g2, e1, e2, match_result-tie c1 c2 g _ _ h) (progress_if-none old old.round_index w),
)
