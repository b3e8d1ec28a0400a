-- ===== src/Storage/UpdateMatch/Sound.antt =====
-- `UpdateMatch` keeps every group standing sound, whatever is asked and whatever the server refuses.
use wcwcpp_backend.Base.{
  String, ◌≡◌, Bool, Option, none, some, List, [], ◌∷◌, All, if_elim, ◌==◌, nat_eq,
}
use wcwcpp_backend.Base.Int.{ℤ, pos, ltb_ℤ, int_eq}
use wcwcpp_backend.Entity.{Uuid, Match}
use wcwcpp_backend.Rows.{Db, MatchRow}
use wcwcpp_backend.Sql.{Action, Done, Error, World, wrap, write, on_error, Result, ok, err, driver}
use wcwcpp_backend.Sql.Laws.{Reads}
use wcwcpp_backend.Sql.Hoare.{
  Ensures, Any, After, Holds, Ensures_db, bind-Ensures, then-Ensures, exec-Ensures, query-Ensures,
  write-Ensures, on_error-Ensures, pure-Ensures, fail-Ensures, in_tx-Ensures, if-Ensures,
}
use wcwcpp_backend.Storage.Score.Sound.{IsSound}
use wcwcpp_backend.Storage.Award.{Stage, award, award_all, paid, is_refused}
use wcwcpp_backend.Storage.Standings.Sound.{AllSound, update_standings-Ensures}
use wcwcpp_backend.Storage.Knockout.{
  seat, set_reached, progress, progress_if, decide_for, decide_if, decide_knockout, advance_winner,
  seat_loser, reward_winner, reward_loser,
}
use wcwcpp_backend.Storage.Existing.{has_updates}
use wcwcpp_backend.Storage.UpdateMatch.{save_match, match_effects, apply_update, update_match}
use wcwcpp_backend.Storage.UpdateMatch.Atomic.{
  find_existing-Reads, fail_if-Reads, get_country_code_to_id_map-Reads,
}

-- A write to another table.
elsewhere :
    (f : Db → Db) (text : String)
    → ((db : Db) → AllSound db → AllSound (f db))
    → Ensures AllSound (on_error (wrap text) (write f)) Any
elsewhere f text h = on_error-Ensures AllSound _ (write-Ensures AllSound f h)

seat-Ensures :
    (contest : Uuid) (round index : ℤ) (slot : Bool) (c : Uuid) (text : String)
    → Ensures AllSound (on_error (wrap text) (write (seat contest round index slot c))) Any
unfolding seat
seat-Ensures contest round index slot c text = elsewhere _ text (λ db p. p)

set_reached-Ensures :
    (contest c : Uuid) (round : ℤ) (text : String)
    → Ensures AllSound (on_error (wrap text) (write (set_reached contest c round))) Any
unfolding set_reached
set_reached-Ensures contest c round text = elsewhere _ text (λ db p. p)

award-After :
    (st : Stage) (contest user : Uuid) (points : ℤ) (db : Db)
    → AllSound db
    → After AllSound Any (award st contest user points db)
unfolding award
award-After st contest user points db p =
    if_elim (After {A = Done} AllSound Any) (is_refused st contest user points db)
      (err (driver "integer out of range")) (ok (tt, paid st contest user points db)) tt (p, tt)

award_all-Ensures :
    (f : Error → Error) (st : Stage) (contest : Uuid) (points : ℤ) (us : List Uuid)
    → Ensures AllSound (award_all f st contest points us) Any
unfolding award_all
award_all-Ensures f st contest points [] = pure-Ensures AllSound Any tt tt
award_all-Ensures f st contest points (u ∷ us) =
    then-Ensures AllSound
      (on_error-Ensures AllSound f (exec-Ensures AllSound Any _ (award-After st contest u points)))
      (award_all-Ensures f st contest points us)

reward_winner-Ensures :
    (contest winner : Uuid) (round points : ℤ)
    → Ensures AllSound (reward_winner contest winner round points) Any
unfolding reward_winner
reward_winner-Ensures contest winner round points =
    if-Ensures AllSound (ltb_ℤ (pos 0) round)
      (then-Ensures AllSound (set_reached-Ensures contest winner round _) (
        if-Ensures AllSound (ltb_ℤ (pos 0) points)
          (bind-Ensures AllSound Any
            (on_error-Ensures AllSound _ (query-Ensures AllSound Any _ (λ _ _. tt)))
            (λ users _. award_all-Ensures _ _ contest points users))
          (pure-Ensures AllSound Any tt tt)))
      (pure-Ensures AllSound Any tt tt)

progress-Ensures :
    (contest : Uuid) (round index : ℤ) (r : Uuid × Uuid)
    → Ensures AllSound (progress contest round index r) Any
unfolding progress advance_winner seat_loser reward_loser
progress-Ensures contest round index (winner, loser) =
    then-Ensures AllSound
      (if-Ensures AllSound (ltb_ℤ round (pos 5)) (seat-Ensures contest _ _ _ winner _)
        (pure-Ensures AllSound Any tt tt))
      (then-Ensures AllSound
        (if-Ensures AllSound (round == pos 4) (seat-Ensures contest _ _ _ loser _)
          (pure-Ensures AllSound Any tt tt))
        (then-Ensures AllSound (reward_winner-Ensures contest winner _ _) (
          if-Ensures AllSound (round == pos 4) (set_reached-Ensures contest loser _ _)
            (pure-Ensures AllSound Any tt tt))))

progress_if-Ensures :
    (m : MatchRow) (index : Option ℤ) (r : Option (Uuid × Uuid))
    → Ensures AllSound (progress_if m index r) Any
progress_if-Ensures m none r = pure-Ensures AllSound Any tt tt
progress_if-Ensures m (some index) none = pure-Ensures AllSound Any tt tt
progress_if-Ensures m (some index) (some r) = progress-Ensures m.contest_id m.round index r

decide_for-Ensures :
    (old new : MatchRow) (c1 c2 : Option Uuid) (g1 g2 : ℤ)
    → Ensures AllSound (decide_for old new c1 c2 g1 g2) Any
decide_for-Ensures old new (some c1) (some c2) g1 g2 = progress_if-Ensures old _ _
decide_for-Ensures old new none c2 g1 g2 = fail-Ensures AllSound Any _
decide_for-Ensures old new (some c1) none g1 g2 = fail-Ensures AllSound Any _

decide_if-Ensures :
    (old new : MatchRow) (g1 g2 : Option ℤ) → Ensures AllSound (decide_if old new g1 g2) Any
decide_if-Ensures old new none g2 = pure-Ensures AllSound Any tt tt
decide_if-Ensures old new (some g1) none = pure-Ensures AllSound Any tt tt
decide_if-Ensures old new (some g1) (some g2) = decide_for-Ensures old new _ _ g1 g2

match_effects-Ensures :
    (knockout : Bool) (old new : MatchRow) → Ensures AllSound (match_effects knockout old new) Any
unfolding match_effects save_match decide_knockout
match_effects-Ensures knockout old new = then-Ensures AllSound (elsewhere _ _ (λ db p. p)) (
    then-Ensures AllSound
      (if-Ensures AllSound knockout (decide_if-Ensures old new _ _)
        (update_standings-Ensures old new))
      (pure-Ensures AllSound Any _ tt))

Reads-Ensures : {A : Type 0} (m : Action A) → Reads m → Ensures AllSound m Any
Reads-Ensures {A} m h = record { run = λ w p. go w p (m w) (h w) }
  where
    go : (w : World) → AllSound w.db → (r : Result A × World) → r.1.db ≡ w.db → Holds AllSound Any r
    go w p (ok a, v) e = (rw e p, tt)
    go w p (err x, v) e = rw e p

apply_update-Ensures :
    (m : Match) (c1 c2 : Option Uuid) (e : MatchRow × Bool)
    → Ensures AllSound (apply_update m c1 c2 e) Any
unfolding apply_update
apply_update-Ensures m c1 c2 (old, knockout) =
    then-Ensures AllSound (Reads-Ensures _ (fail_if-Reads _ _)) (
      if-Ensures AllSound (has_updates knockout c1 c2 m)
        (in_tx-Ensures AllSound _ _ (match_effects-Ensures knockout old _))
        (pure-Ensures AllSound Any tt tt))

-- If every group standing is sound, every one still is after an update, whether it succeeds or not.
pub update_match-IsSound :
    (contest : Uuid) (m : Match) (w : World)
    → All IsSound w.db.group_standings
    → All IsSound (update_match contest m w).1.db.group_standings
unfolding update_match
update_match-IsSound contest m w =
    Ensures_db
      (bind-Ensures AllSound Any (Reads-Ensures _ get_country_code_to_id_map-Reads) λ codes _.
        bind-Ensures AllSound Any (Reads-Ensures _ (find_existing-Reads contest m _ _))
          λ e _. apply_update-Ensures m _ _ e)
      w
