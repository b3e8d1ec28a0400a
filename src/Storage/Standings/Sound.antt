-- ===== src/Storage/Standings/Sound.antt =====
-- Every group standing stays sound under `UpdateMatch`.
use wcwcpp_backend.Base.{String, Bool, Option, none, some, List, [], ◌∷◌, All, select, if_elim}
use wcwcpp_backend.Entity.{Uuid}
use wcwcpp_backend.Rows.{Db, GroupStandingRow, MatchRow}
use wcwcpp_backend.Sql.{wrap, write, query_one, update_where, on_error}
use wcwcpp_backend.Sql.Hoare.{
  Ensures, Any, All-First, bind-Ensures, then-Ensures, query_one-Ensures, write-Ensures,
  on_error-Ensures, pure-Ensures, fail-Ensures,
}
use wcwcpp_backend.Storage.Score.{Score}
use wcwcpp_backend.Storage.Score.Sound.{
  IsSound, BothSound, apply_score-IsSound, revert_score-IsSound,
}
use wcwcpp_backend.Storage.Standings.{
  group_key, set_counts, save_standing, standing_rows, count_score, count_if, update_standings,
  revert_if,
}

abbrev pub AllSound : Db → Type 0
AllSound db = All IsSound db.group_standings

All-select {ℓ κ} :
    {A : Type ℓ} (P : A → Type κ) (p : A → Bool) (xs : List A) → All P xs → All P (select p xs)
All-select P p [] h = tt
All-select P p (x ∷ xs) h =
    if_elim (All P) (p x) _ _ (h.0, All-select P p xs h.1) (All-select P p xs h.1)

All-update_where :
    {A : Type 0} (P : A → Type 0) (p : A → Bool) (f : A → A) (xs : List A)
    → ((x : A) → P x → P (f x))
    → All P xs
    → All P (update_where p f xs)
All-update_where P p f [] k h = tt
All-update_where P p f (x ∷ xs) k h =
    (if_elim P (p x) _ _ (k x h.0) h.0, All-update_where P p f xs k h.1)

set_counts-IsSound : (new s : GroupStandingRow) → IsSound new → IsSound (set_counts new s)
set_counts-IsSound new s h = record { difference = h.difference; league = h.league }

save_standing-AllSound :
    (contest country : Uuid) (new : GroupStandingRow) (db : Db)
    → IsSound new
    → AllSound db
    → AllSound (save_standing contest country new db)
unfolding save_standing
save_standing-AllSound contest country new db h p =
    All-update_where IsSound _ _ _ (λ s _. set_counts-IsSound new s h) p

save-Ensures :
    (contest country : Uuid) (new : GroupStandingRow) (text : String)
    → IsSound new
    → Ensures AllSound (on_error (wrap text) (write (save_standing contest country new))) Any
save-Ensures contest country new text h =
    on_error-Ensures AllSound _
      (write-Ensures AllSound _ (λ db p. save_standing-AllSound contest country new db h p))

fetch-Ensures :
    (contest country : Uuid) (text : String)
    → Ensures AllSound (on_error (wrap text) (query_one (standing_rows contest country))) IsSound
unfolding standing_rows
fetch-Ensures contest country text = on_error-Ensures AllSound _ (
    query_one-Ensures AllSound IsSound _ (λ db p.
      All-First IsSound _ (All-select IsSound (group_key contest country) db.group_standings p)))

revert_if-IsSound :
    (old : Option Score) (s1 s2 : GroupStandingRow)
    → IsSound s1
    → IsSound s2
    → BothSound (revert_if old (s1, s2))
revert_if-IsSound none s1 s2 h1 h2 = (h1, h2)
revert_if-IsSound (some g) s1 s2 h1 h2 = revert_score-IsSound g s1 s2 h1 h2

count_score-Ensures :
    (contest c1 c2 : Uuid) (old : Option Score) (new : Score)
    → Ensures AllSound (count_score contest c1 c2 old new) Any
unfolding count_score
count_score-Ensures contest c1 c2 old new =
    bind-Ensures AllSound IsSound (fetch-Ensures contest c1 _) λ s1 h1.
      bind-Ensures AllSound IsSound (fetch-Ensures contest c2 _) λ s2 h2.
        let r = revert_if old (s1, s2) in
        let k = revert_if-IsSound old s1 s2 h1 h2 in
        let t = apply_score-IsSound new r.0 r.1 k.0 k.1 in
        then-Ensures AllSound (save-Ensures contest c1 _ _ t.0) (save-Ensures contest c2 _ _ t.1)

count_if-Ensures :
    (contest : Uuid) (c1 c2 : Option Uuid) (old new : Option Score)
    → Ensures AllSound (count_if contest c1 c2 old new) Any
count_if-Ensures contest c1 c2 old none = pure-Ensures AllSound Any tt tt
count_if-Ensures contest (some c1) (some c2) old (some new) =
    count_score-Ensures contest c1 c2 old new
count_if-Ensures contest none c2 old (some new) = fail-Ensures AllSound Any _
count_if-Ensures contest (some c1) none old (some new) = fail-Ensures AllSound Any _

pub update_standings-Ensures :
    (old new : MatchRow) → Ensures AllSound (update_standings old new) Any
unfolding update_standings
update_standings-Ensures old new = count_if-Ensures _ _ _ _ _
