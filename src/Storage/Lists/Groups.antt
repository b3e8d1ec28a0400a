-- ===== src/Storage/Lists/Groups.antt =====
-- `ListGroupPicks` of adapters/storage/postgres/picks.go: rows, gathered by letter.
use Prim.Native.Nat.{Ordering}
use wcwcpp_backend.Base.{
  String, Bool, none, some, List, [], ◌∷◌, ◌++◌, ◌&&◌, ◌==◌, nat_eq, string_eq, select, Dict,
  lookup, insert, false,
}
use wcwcpp_backend.Entity.{Uuid, GroupPick, GroupPickEntry}
use wcwcpp_backend.Rows.{Db, CountryRow, GroupPickRow}
use wcwcpp_backend.Sql.{Action, query}
use wcwcpp_backend.Sql.Order.{order_by}
use wcwcpp_backend.Sql.Keys.{key_int, key_text, in_order}
use wcwcpp_backend.Storage.Lists.{with_countries, country_entity}

abbrev pub PickRow : Type 0
PickRow = GroupPickRow × CountryRow

abbrev pub entry_of : PickRow → GroupPickEntry
entry_of (p, c) = record { country = country_entity c; place = p.place }

-- `grouped[letter].Entries = append(…)` and `grouped[letter].ExtraQualifier = …`.
abbrev pub add_entry : PickRow → GroupPick → GroupPick
add_entry (p, c) g = record g {
  entries = g.entries ++ entry_of (p, c) ∷ [];
  extra_qualifier = p.extra_qualifier;
}

abbrev pub no_entries : String → GroupPick
no_entries letter = record { letter = letter; entries = []; extra_qualifier = false }

-- `grouped` and `order`.
pub record Gathered : Type 0 where
  pub grouped : Dict String GroupPick
  pub order : List String

abbrev pub gather_row : PickRow → Gathered → Gathered
gather_row (p, c) g = elim (lookup p.letter g.grouped) [
  | some pick ↦ record g { grouped = insert p.letter (add_entry (p, c) pick) g.grouped }
  | none ↦ record {
    grouped = insert p.letter (add_entry (p, c) (no_entries p.letter)) g.grouped;
    order = g.order ++ p.letter ∷ [];
  }
]

abbrev pub gather : List PickRow → Gathered → Gathered
gather [] g = g
gather (r ∷ rs) g = gather rs (gather_row r g)

-- The last loop. Each letter of `order` is a key of `grouped`.
abbrev pub picks_in : List String → Dict String GroupPick → List GroupPick
picks_in [] grouped = []
picks_in (l ∷ ls) grouped =
    let rest = picks_in ls grouped in
    elim (lookup l grouped) [ some pick ↦ pick ∷ rest | none ↦ rest ]

-- `sort.Strings(order)`.
abbrev pub letter_before : String → String → Bool
letter_before a b = in_order (key_text a b ∷ [])

unfoldable pub group_picks_of : List PickRow → List GroupPick
group_picks_of rows =
    let g = gather rows (record { grouped = []; order = [] }) in
    picks_in (order_by letter_before g.order) g.grouped

module _ (collation : String → String → Ordering) where
  abbrev pub place_before : PickRow → PickRow → Bool
  place_before (p, c) (q, d) = in_order (collation p.letter q.letter ∷ key_int p.place q.place ∷ [])

  abbrev pub own_group_picks : Uuid → Uuid → Db → List PickRow
  own_group_picks user contest db =
      with_countries (λ p. p.country_id) db.countries
        (select (λ p. p.user_id == user && p.contest_id == contest) db.group_picks)

  unfoldable pub list_group_picks : Uuid → Uuid → Action (List GroupPick)
  list_group_picks user contest =
      query (λ db. group_picks_of (order_by place_before (own_group_picks user contest db)))
