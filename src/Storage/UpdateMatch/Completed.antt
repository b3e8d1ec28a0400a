-- ===== src/Storage/UpdateMatch/Completed.antt =====
-- A completed match stays as it is.
use wcwcpp_backend.Base.{◌≡◌, refl, Bool, true, Option, some, List, ◌∷◌, select, String, Dict}
use wcwcpp_backend.Base.Int.{ℤ, pos, to_int32, ltb_ℤ}
use wcwcpp_backend.Entity.{Uuid, Match}
use wcwcpp_backend.Rows.{Db, MatchRow}
use wcwcpp_backend.Sql.{World, err, Error, ◌>>=◌, ◌>>◌, fail_if}
use wcwcpp_backend.Sql.Hoare.{
  Ensures, Any, bind-Ensures, query_one-Ensures, query-Ensures, on_error-Ensures, pure-Ensures,
  Ensures_never,
}
use wcwcpp_backend.Storage.Search.{get_country_code_to_id_map, resolve}
use wcwcpp_backend.Storage.Existing.{at_slot, find_existing, find_by_slot, is_completed}
use wcwcpp_backend.Storage.UpdateMatch.{apply_update, update_match}

abbrev Completed : MatchRow × Bool → Type 0
Completed (m, knockout) = is_completed m ≡ true

module _ (d : Db) where
  abbrev Same : Db → Type 0
  Same db = db ≡ d

  find_by_slot-Completed :
      (contest : Uuid) (round index : ℤ) (old : MatchRow) (rest : List MatchRow)
      → select (at_slot contest (to_int32 round) (to_int32 index)) d.matches ≡ old ∷ rest
      → is_completed old ≡ true
      → Ensures Same (find_by_slot contest round index) Completed
  unfolding find_by_slot
  find_by_slot-Completed contest round index old rest e c =
      bind-Ensures Same (λ m. is_completed m ≡ true)
        (on_error-Ensures Same _ (query_one-Ensures Same _ _ (λ db p. rw (p, e) c)))
        (λ m h. pure-Ensures Same Completed (m, true) h)

  apply_update-Completed :
      (m : Match) (c1 c2 : Option Uuid) (e : MatchRow × Bool)
      → Completed e
      → Ensures Same (apply_update m c1 c2 e) (λ _. ⊥)
  unfolding apply_update fail_if ◌>>◌ ◌>>=◌
  apply_update-Completed m c1 c2 (old, knockout) h = record { run = λ w p. rw h p }

-- An update at the round and index of a completed match reports an error and changes nothing.
pub update_match_completed :
    (contest : Uuid) (m : Match) (index : ℤ) (w : World) (old : MatchRow) (rest : List MatchRow)
    → m.round_index ≡ some index
    → ltb_ℤ (pos 0) m.round ≡ true
    → select (at_slot contest (to_int32 m.round) (to_int32 index)) w.db.matches ≡ old ∷ rest
    → is_completed old ≡ true
    → (e : Error) × ((update_match contest m w).0 ≡ err e)
      × ((update_match contest m w).1.db ≡ w.db)
unfolding update_match find_existing get_country_code_to_id_map
update_match_completed contest m index w old rest at round found done =
    Ensures_never (update_match contest m)
      (bind-Ensures Same (Any {A = Dict String Uuid}) (query-Ensures Same Any _ (λ _ _. tt))
        λ codes _.
          let c1 = resolve codes m.country1 in
          let c2 = resolve codes m.country2 in
          bind-Ensures Same Completed
            (rw (at, round) (find_by_slot-Completed w.db contest m.round index old rest found done))
            (apply_update-Completed w.db m c1 c2))
      w refl
  where
    Same : Db → Type 0
    Same db = db ≡ w.db
