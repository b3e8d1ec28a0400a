-- ===== src/Storage/Tally/Score.antt =====
-- The arithmetic of `apply_score` adds the two shares of a match.
use mathlib.Core.Path.{subst}
use wcwcpp_backend.Base.{
  ==_refl, ◌≡◌, refl, sym, ap, ◌∙◌, ◌⊎◌, inl, inr, ==_comm, arith, true, false, Option, none, some,
  ◌==◌, nat_eq, if◌then◌else◌,
}
use wcwcpp_backend.Base.Int.{ℤ, pos, ltb_ℤ, int_eq}
use wcwcpp_backend.Entity.{Uuid}
use wcwcpp_backend.Rows.{MatchRow, GroupStandingRow}
use wcwcpp_backend.Storage.Score.{Score, apply_score, add_goals, win, draw, lose, conduct}
use wcwcpp_backend.Storage.Standings.{score_of_match}
use wcwcpp_backend.Storage.Tally.{Share, no_share, plus, share, outcome, columns}
use wcwcpp_backend.Storage.Tally.Sum.{Fits, add32_comm, add32_zero}

-- The two sides of a score.
abbrev pub first_share : Score → Share
first_share g = outcome g.goals1 g.goals2 g.conduct1

abbrev pub second_share : Score → Share
second_share g = outcome g.goals2 g.goals1 g.conduct2

result_of : ℤ → ℤ → ℤ → ℤ → ℤ → ℤ → ℤ → Share
result_of points wins draws losses own other cs = record {
  points = points;
  wins = wins;
  draws = draws;
  losses = losses;
  gf = own;
  ga = other;
  cs = cs;
}

outcome-win :
    (a b c : ℤ) → ltb_ℤ b a ≡ true → outcome a b c ≡ result_of (pos 3) (pos 1) (pos 0) (pos 0) a b c
unfolding result_of
outcome-win a b c h = ground (arith, h)

outcome-draw :
    (a b c : ℤ) → (a == b) ≡ true → outcome a b c ≡ result_of (pos 1) (pos 0) (pos 1) (pos 0) a b c
unfolding result_of
outcome-draw a b c h = ground (arith, h)

outcome-lose :
    (a b c : ℤ) → ltb_ℤ a b ≡ true → outcome a b c ≡ result_of (pos 0) (pos 0) (pos 0) (pos 1) a b c
unfolding result_of
outcome-lose a b c h = ground (arith, h)

module _ (a b c : ℤ) (s : GroupStandingRow) (h : Fits (columns s)) where
  columns-win :
      ltb_ℤ b a ≡ true → columns (win (add_goals a b c s)) ≡ plus (outcome a b c) (columns s)
  unfolding win add_goals result_of
  columns-win w = go ∙ ap (λ o. plus o (columns s)) (sym (outcome-win a b c w))
    where
      go :
          columns (win (add_goals a b c s))
          ≡ plus (result_of (pos 3) (pos 1) (pos 0) (pos 0) a b c) (columns s)
      go i = record {
        points = add32_comm s.points (pos 3) i;
        wins = add32_comm s.wins (pos 1) i;
        draws = sym (add32_zero s.draws h.draws) i;
        losses = sym (add32_zero s.losses h.losses) i;
        gf = add32_comm s.gf a i;
        ga = add32_comm s.ga b i;
        cs = add32_comm s.cs c i;
      }

  columns-draw :
      (a == b) ≡ true → columns (draw (add_goals a b c s)) ≡ plus (outcome a b c) (columns s)
  unfolding draw add_goals result_of
  columns-draw d = go ∙ ap (λ o. plus o (columns s)) (sym (outcome-draw a b c d))
    where
      go :
          columns (draw (add_goals a b c s))
          ≡ plus (result_of (pos 1) (pos 0) (pos 1) (pos 0) a b c) (columns s)
      go i = record {
        points = add32_comm s.points (pos 1) i;
        wins = sym (add32_zero s.wins h.wins) i;
        draws = add32_comm s.draws (pos 1) i;
        losses = sym (add32_zero s.losses h.losses) i;
        gf = add32_comm s.gf a i;
        ga = add32_comm s.ga b i;
        cs = add32_comm s.cs c i;
      }

  columns-lose :
      ltb_ℤ a b ≡ true → columns (lose (add_goals a b c s)) ≡ plus (outcome a b c) (columns s)
  unfolding lose add_goals result_of
  columns-lose l = go ∙ ap (λ o. plus o (columns s)) (sym (outcome-lose a b c l))
    where
      go :
          columns (lose (add_goals a b c s))
          ≡ plus (result_of (pos 0) (pos 0) (pos 0) (pos 1) a b c) (columns s)
      go i = record {
        points = sym (add32_zero s.points h.points) i;
        wins = sym (add32_zero s.wins h.wins) i;
        draws = sym (add32_zero s.draws h.draws) i;
        losses = add32_comm s.losses (pos 1) i;
        gf = add32_comm s.gf a i;
        ga = add32_comm s.ga b i;
        cs = add32_comm s.cs c i;
      }

trichotomy :
    (a b : ℤ)
    → (ltb_ℤ b a ≡ true)
      ⊎ ((ltb_ℤ b a ≡ false) × ((a == b) ≡ true))
      ⊎ ((ltb_ℤ b a ≡ false) × ((a == b) ≡ false) × (ltb_ℤ a b ≡ true))
trichotomy a b = ground arith

module _ (g : Score) (s1 s2 : GroupStandingRow) where
  abbrev left : GroupStandingRow
  left = add_goals g.goals1 g.goals2 g.conduct1 s1

  abbrev right : GroupStandingRow
  right = add_goals g.goals2 g.goals1 g.conduct2 s2

  apply_score-won : ltb_ℤ g.goals2 g.goals1 ≡ true → apply_score g (s1, s2) ≡ (win left, lose right)
  unfolding apply_score
  apply_score-won h = rw h refl

  apply_score-tie :
      ltb_ℤ g.goals2 g.goals1 ≡ false
      → (g.goals1 == g.goals2) ≡ true
      → apply_score g (s1, s2) ≡ (draw left, draw right)
  unfolding apply_score
  apply_score-tie h k = rw (h, k) refl

  apply_score-lost :
      ltb_ℤ g.goals2 g.goals1 ≡ false
      → (g.goals1 == g.goals2) ≡ false
      → apply_score g (s1, s2) ≡ (lose left, win right)
  unfolding apply_score
  apply_score-lost h k = rw (h, k) refl

-- `apply_score` adds to each side its share of the score.
pub apply_score-columns :
    (g : Score) (s1 s2 : GroupStandingRow)
    → Fits (columns s1)
    → Fits (columns s2)
    → (columns (apply_score g (s1, s2)).0 ≡ plus (first_share g) (columns s1))
      × (columns (apply_score g (s1, s2)).1 ≡ plus (second_share g) (columns s2))
apply_score-columns g s1 s2 h1 h2 = elim (trichotomy g.goals1 g.goals2) [
  | inl won ↦ subst Added (sym (apply_score-won g s1 s2 won)) (
    columns-win g.goals1 g.goals2 g.conduct1 s1 h1 won,
    columns-lose g.goals2 g.goals1 g.conduct2 s2 h2 won,
  )
  | inr rest ↦ elim rest [
    | inl (no_win, tie) ↦ subst Added (sym (apply_score-tie g s1 s2 no_win tie)) (
      columns-draw g.goals1 g.goals2 g.conduct1 s1 h1 tie,
      columns-draw g.goals2 g.goals1 g.conduct2 s2 h2 (==_comm g.goals2 g.goals1 ∙ tie),
    )
    | inr (no_win, no_tie, lost) ↦ subst Added (sym (apply_score-lost g s1 s2 no_win no_tie)) (
      columns-lose g.goals1 g.goals2 g.conduct1 s1 h1 lost,
      columns-win g.goals2 g.goals1 g.conduct2 s2 h2 lost,
    )
  ]
]
  where
    Added : GroupStandingRow × GroupStandingRow → Type 0
    Added t =
        (columns t.0 ≡ plus (first_share g) (columns s1))
        × (columns t.1 ≡ plus (second_share g) (columns s2))

-- The shares of a group match with a score.
module _ (m : MatchRow) (g : Score) (c1 c2 : Uuid) (group : ltb_ℤ (pos 0) m.round ≡ false)
    (e1 : m.country1_id ≡ some c1) (e2 : m.country2_id ≡ some c2)
    (scored : score_of_match m ≡ some g) where
  pub share-score :
      (c : Uuid)
      → share m.contest_id c m
        ≡ (if c1 == c then first_share g else if c2 == c then second_share g else no_share)
  unfolding share
  share-score c =
      let (g1, g2, d1, d2, same) = goals_of m.country1_goals m.country2_goals refl refl in
      rw (group, e1, e2, d1, d2, ==_refl m.contest_id, same) refl
    where
      goals_of :
          (o1 o2 : Option ℤ)
          → m.country1_goals ≡ o1
          → m.country2_goals ≡ o2
          → (g1 : ℤ) × (g2 : ℤ) × (m.country1_goals ≡ some g1)
            × (m.country2_goals ≡ some g2)
            × (g ≡ record {
              goals1 = g1;
              goals2 = g2;
              conduct1 = conduct m.country1_conduct_score;
              conduct2 = conduct m.country2_conduct_score;
            })
      goals_of none o2 d1 d2 = absurd (ground (arith, scored, d1, d2))
      goals_of (some g1) none d1 d2 = absurd (ground (arith, scored, d1, d2))
      goals_of (some g1) (some g2) d1 d2 = (g1, g2, d1, d2, ground (arith, scored, d1, d2))
