-- ===== src/Storage/UpdateMatch/Atomic.antt =====
-- An update of a match that reports an error has changed nothing.
use wcwcpp_backend.Base.{◌≡◌, refl, Option, none, some, Bool, true, false, if_elim, arith}
use wcwcpp_backend.Entity.{Uuid, Match}
use wcwcpp_backend.Base.Int.{ℤ}
use wcwcpp_backend.Rows.{MatchRow}
use wcwcpp_backend.Sql.{err, World, Error, ◌>>◌, fail_if, pure, monad}
use wcwcpp_backend.Sql.Laws.{
  Reads, query-Reads, in_tx-FailsClean, FailsClean, FailsClean_lem, Reads-FailsClean,
}
use wcwcpp_backend.Storage.Search.{get_country_code_to_id_map, resolve}
use wcwcpp_backend.Storage.Existing.{
  find_existing, find_by_slot, find_by_countries, find_by, merge_match, is_completed, has_updates,
}
use wcwcpp_backend.Storage.UpdateMatch.{apply_update, update_match, match_effects}

pub get_country_code_to_id_map-Reads : Reads get_country_code_to_id_map
unfolding get_country_code_to_id_map
get_country_code_to_id_map-Reads = query-Reads _

find_by_slot-Reads : (contest : Uuid) (round index : ℤ) → Reads (find_by_slot contest round index)
unfolding find_by_slot monad
find_by_slot-Reads contest round index w = ground arith

find_by_countries-Reads :
    (contest : Uuid) (round : ℤ) (c1 c2 : Option Uuid)
    → Reads (find_by_countries contest round c1 c2)
unfolding find_by_countries monad
find_by_countries-Reads contest round (some a) (some b) w = ground arith
find_by_countries-Reads contest round none c2 w = refl
find_by_countries-Reads contest round (some a) none w = refl

find_by-Reads :
    (contest : Uuid) (round : ℤ) (index : Option ℤ) (c1 c2 : Option Uuid)
    → Reads (find_by contest round index c1 c2)
find_by-Reads contest round none c1 c2 w = find_by_countries-Reads contest round c1 c2 w
find_by-Reads contest round (some index) c1 c2 w =
    ground (
      arith,
      find_by_countries-Reads contest round c1 c2 w,
      find_by_slot-Reads contest round index w,
    )

pub find_existing-Reads :
    (contest : Uuid) (m : Match) (c1 c2 : Option Uuid) → Reads (find_existing contest m c1 c2)
unfolding find_existing
find_existing-Reads contest m c1 c2 = find_by-Reads contest m.round m.round_index c1 c2

pub fail_if-Reads : (b : Bool) (e : Error) → Reads (fail_if b e)
unfolding fail_if
fail_if-Reads true e w = refl
fail_if-Reads false e w = refl

apply_update-FailsClean :
    (m : Match) (c1 c2 : Option Uuid) (e : MatchRow × Bool) → FailsClean (apply_update m c1 c2 e)
unfolding apply_update ◌>>◌ pure
apply_update-FailsClean m c1 c2 (old, knockout) =
    Reads-FailsClean (fail_if (is_completed old) _) _ (fail_if-Reads _ _) λ _.
      if_elim FailsClean (has_updates knockout c1 c2 m) _ _
        (in_tx-FailsClean _ _ (match_effects knockout old (merge_match knockout c1 c2 m old)))
        (λ w. tt)

-- An update that reports an error leaves the database as it was.
pub update_match-atomic :
    (contest : Uuid) (m : Match) (w : World) {e : Error}
    → (update_match contest m w).0 ≡ err e
    → (update_match contest m w).1.db ≡ w.db
unfolding update_match
update_match-atomic contest m w = FailsClean_lem (update_match contest m) w (
    Reads-FailsClean get_country_code_to_id_map _ get_country_code_to_id_map-Reads λ codes.
      let c1 = resolve codes m.country1 in
      let c2 = resolve codes m.country2 in
      Reads-FailsClean (find_existing contest m c1 c2) (apply_update m c1 c2)
        (find_existing-Reads contest m c1 c2) (apply_update-FailsClean m c1 c2))
