-- ===== src/Storage/Score.antt =====
-- The arithmetic of group standings in `UpdateMatch` of adapters/storage/postgres/contest.go, on
-- int32 fields that wrap.
pub mod Sound
pub mod Undo
use wcwcpp_backend.Base.{Bool, Option, none, some, if◌then◌else◌, ◌==◌}
use wcwcpp_backend.Base.Int.{ℤ, pos, add32, sub32, ltb_ℤ, int_eq}
use wcwcpp_backend.Rows.{GroupStandingRow}

-- `newCs := int32(0); if cs != nil { newCs = *cs }`.
abbrev pub conduct : Option ℤ → ℤ
conduct none = pos 0
conduct (some c) = c

-- Goals for, goals against and conduct of one country.
unfoldable pub add_goals : ℤ → ℤ → ℤ → GroupStandingRow → GroupStandingRow
add_goals scored conceded cs s = record s {
  gf = add32 s.gf scored;
  ga = add32 s.ga conceded;
  gd = sub32 (add32 s.gf scored) (add32 s.ga conceded);
  cs = add32 s.cs cs;
}

unfoldable pub remove_goals : ℤ → ℤ → ℤ → GroupStandingRow → GroupStandingRow
remove_goals scored conceded cs s = record s {
  gf = sub32 s.gf scored;
  ga = sub32 s.ga conceded;
  gd = sub32 (sub32 s.gf scored) (sub32 s.ga conceded);
  cs = sub32 s.cs cs;
}

unfoldable pub win : GroupStandingRow → GroupStandingRow
win s = record s { wins = add32 s.wins (pos 1); points = add32 s.points (pos 3) }

unfoldable pub draw : GroupStandingRow → GroupStandingRow
draw s = record s { draws = add32 s.draws (pos 1); points = add32 s.points (pos 1) }

unfoldable pub lose : GroupStandingRow → GroupStandingRow
lose s = record s { losses = add32 s.losses (pos 1) }

unfoldable pub undo_win : GroupStandingRow → GroupStandingRow
undo_win s = record s { wins = sub32 s.wins (pos 1); points = sub32 s.points (pos 3) }

unfoldable pub undo_draw : GroupStandingRow → GroupStandingRow
undo_draw s = record s { draws = sub32 s.draws (pos 1); points = sub32 s.points (pos 1) }

unfoldable pub undo_lose : GroupStandingRow → GroupStandingRow
undo_lose s = record s { losses = sub32 s.losses (pos 1) }

-- The scores of a match as the standings count them.
pub record Score : Type 0 where
  pub goals1 : ℤ
  pub goals2 : ℤ
  pub conduct1 : ℤ
  pub conduct2 : ℤ

-- "Add the new score contributions": the standings of country 1 and of country 2.
unfoldable pub apply_score :
    Score → GroupStandingRow × GroupStandingRow → GroupStandingRow × GroupStandingRow
apply_score g (s1, s2) =
    let t1 = add_goals g.goals1 g.goals2 g.conduct1 s1 in
    let t2 = add_goals g.goals2 g.goals1 g.conduct2 s2 in
    if ltb_ℤ g.goals2 g.goals1
    then (win t1, lose t2)
    else if g.goals1 == g.goals2
    then (draw t1, draw t2)
    else (lose t1, win t2)

-- "Subtract previous score contributions".
unfoldable pub revert_score :
    Score → GroupStandingRow × GroupStandingRow → GroupStandingRow × GroupStandingRow
revert_score g (s1, s2) =
    let t1 = remove_goals g.goals1 g.goals2 g.conduct1 s1 in
    let t2 = remove_goals g.goals2 g.goals1 g.conduct2 s2 in
    if ltb_ℤ g.goals2 g.goals1
    then (undo_win t1, undo_lose t2)
    else if g.goals1 == g.goals2
    then (undo_draw t1, undo_draw t2)
    else (undo_lose t1, undo_win t2)
