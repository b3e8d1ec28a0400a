-- ===== src/Storage/Picks/Replace.antt =====
-- What `CreateGroupPicks` leaves in `group_picks`.
use wcwcpp_backend.Base.{
  String, ◌≡◌, refl, sym, ap, ◌∙◌, Bool, false, List, [], ◌∷◌, ◌++◌, arith, any, Dict, ◌==◌, nat_eq,
  string_eq, ◌&&◌,
}
use wcwcpp_backend.Entity.{Uuid, GroupPick}
use wcwcpp_backend.Rows.{Db, GroupPickRow}
use wcwcpp_backend.Sql.{World, Result, ok, err, TxEnd, commit, no_commit, insert_rows, delete_where}
use wcwcpp_backend.Sql.Post.{
  Yields, AtEnd, Then, bind-Yields, then-Yields, query-Yields, exec-Yields, write-Yields,
  pure-Yields, in_tx-Yields, weaken-Yields, fact-Yields, Yields_ok,
}
use wcwcpp_backend.Storage.Search.{country_map, get_country_code_to_id_map}
use wcwcpp_backend.Storage.Picks.{
  insert_group_picks, set_group_picks, group_pick_error, letters_from, in_letters,
  delete_group_picks, delete_letters, enter_standings, save_group_rows, group_pick_statements,
  create_group_picks,
}
use wcwcpp_backend.Storage.Picks.Chosen.{
  insert_rows-Then, letters_from-any, chosen, AreKnown, pick_rows-Yields,
}

-- An old row of the user, in the contest, for a letter that is submitted.
abbrev pub is_submitted : Uuid → Uuid → List GroupPick → GroupPickRow → Bool
is_submitted user contest picks r =
    r.user_id == user && r.contest_id == contest && any (λ p. r.letter == p.letter) picks

-- The table afterwards: the submitted letters' rows give way to the new rows, if there are any.
abbrev pub replaced :
    List GroupPickRow → (GroupPickRow → Bool) → List GroupPickRow → List GroupPickRow
replaced [] gone old = old
replaced (r ∷ rows) gone old = delete_where gone old ++ r ∷ rows

delete_where-ext :
    (p q : GroupPickRow → Bool)
    → ((r : GroupPickRow) → p r ≡ q r)
    → (rows : List GroupPickRow) → delete_where p rows ≡ delete_where q rows
delete_where-ext p q h [] = refl
delete_where-ext p q h (r ∷ rows) = ground (arith, h r, delete_where-ext p q h rows)

delete_where-none :
    (p : GroupPickRow → Bool)
    → ((r : GroupPickRow) → p r ≡ false)
    → (rows : List GroupPickRow) → delete_where p rows ≡ rows
delete_where-none p h [] = refl
delete_where-none p h (r ∷ rows) = ground (arith, h r, delete_where-none p h rows)

AtEnd-and :
    (P R : Db → Type 0) {F : Type 0}
    → F
    → (t : TxEnd) (db : Db) → AtEnd P R t db
    → AtEnd P (λ db. R db × F) t db
AtEnd-and P R f commit db r = (r, f)
AtEnd-and P R f no_commit db h = λ before p. (h before p, f)

module _ (user contest : Uuid) (picks : List GroupPick) (d : Db) where
  abbrev gone : GroupPickRow → Bool
  gone = is_submitted user contest picks

  in_letters-gone : (r : GroupPickRow) → in_letters user contest (letters_from [] picks) r ≡ gone r
  in_letters-gone r = ground (arith, letters_from-any r.letter [] picks)

  abbrev Deleted : Db → Type 0
  Deleted db = db.group_picks ≡ delete_where gone d.group_picks

  delete_letters-Yields :
      Yields (λ db. db ≡ d) (delete_letters user contest (letters_from [] picks)) (λ _. Deleted)
  unfolding delete_group_picks
  delete_letters-Yields = go (letters_from [] picks) in_letters-gone
    where
      go :
          (ls : List String)
          → ((r : GroupPickRow) → in_letters user contest ls r ≡ gone r)
          → Yields (λ db. db ≡ d) (delete_letters user contest ls) (λ _. Deleted)
      go [] h =
          weaken-Yields
            (λ db p.
              ap (λ x. x.group_picks) p
              ∙ sym (delete_where-none gone (λ r. ground (arith, h r)) d.group_picks))
            (λ _ db p. p) (pure-Yields tt)
      go (l ∷ ls) h =
          write-Yields _ (λ db p.
            rw p (delete_where-ext (in_letters user contest (l ∷ ls)) gone h d.group_picks))

  abbrev Replaced : List GroupPickRow → Db → Type 0
  Replaced rows db = db.group_picks ≡ replaced rows gone d.group_picks

  insert_group_picks-Then :
      (r : GroupPickRow) (rows : List GroupPickRow) (db : Db)
      → Deleted db
      → Then (λ _. Replaced (r ∷ rows)) (insert_group_picks (r ∷ rows) db)
  unfolding insert_group_picks
  insert_group_picks-Then r rows db p =
      go (insert_rows (group_pick_error db) (r ∷ rows) db.group_picks)
        (λ u e. insert_rows-Then (group_pick_error db) (r ∷ rows) db.group_picks u e)
    where
      go :
          (o : Result (List GroupPickRow))
          → ((u : List GroupPickRow) → o ≡ ok u → u ≡ db.group_picks ++ r ∷ rows)
          → Then (λ _. Replaced (r ∷ rows)) (set_group_picks db o)
      go (ok u) h = h u refl ∙ ap (λ old. old ++ r ∷ rows) p
      go (err e) h = tt

  save_group_rows-Yields :
      (rows : List GroupPickRow)
      → Yields Deleted (save_group_rows user contest rows) (AtEnd (λ db. db ≡ d) (Replaced rows))
  unfolding save_group_rows enter_standings
  save_group_rows-Yields [] =
      weaken-Yields (λ db p before e. ap (λ x. x.group_picks) e) (λ _ db p. p)
        (pure-Yields no_commit)
  save_group_rows-Yields (r ∷ rows) =
      then-Yields (Replaced (r ∷ rows))
        (exec-Yields (insert_group_picks (r ∷ rows)) (insert_group_picks-Then r rows))
        (then-Yields (Replaced (r ∷ rows)) (write-Yields _ (λ db p. p)) (pure-Yields commit))

  group_pick_statements-Yields :
      (codes : Dict String Uuid)
      → Yields
          (λ db. db ≡ d)
          (group_pick_statements codes user contest picks)
          (AtEnd
            (λ db. db ≡ d)
            (λ db.
              Replaced (chosen codes user contest picks) db × AreKnown codes user contest picks))
  unfolding group_pick_statements
  group_pick_statements-Yields codes = then-Yields Deleted delete_letters-Yields (
      bind-Yields
        (λ rows db.
          Deleted db
          × ((rows ≡ chosen codes user contest picks) × AreKnown codes user contest picks))
        (pick_rows-Yields codes user contest Deleted picks)
        λ rows. fact-Yields λ (e, known). rw e (
          weaken-Yields (λ db p. p) (AtEnd-and _ _ known)
            (save_group_rows-Yields (chosen codes user contest picks))))

-- When a user's group picks for a contest have been saved, the country of every submitted entry is
-- known, and in the table of group picks the user's old rows for the submitted letters have given
-- way to one row for each submitted entry, in order, with its country, letter and place; the other
-- rows of that table have not changed. If there is no entry in the submission, no row of it has.
pub create_group_picks-replaced :
    (user contest : Uuid) (picks : List GroupPick) (w : World) {w' : World}
    → create_group_picks user contest picks w ≡ (ok tt, w')
    → AreKnown (country_map w.db) user contest picks
      × (w'.db.group_picks
          ≡ replaced
              (chosen (country_map w.db) user contest picks)
              (is_submitted user contest picks)
              w.db.group_picks)
unfolding create_group_picks get_country_code_to_id_map
create_group_picks-replaced user contest picks w e =
    let codes = country_map w.db in
    let (rows, known) =
      Yields_ok
        {R = λ _ db.
          Replaced user contest picks w.db (chosen codes user contest picks) db
          × AreKnown codes user contest picks}
        (bind-Yields (λ found db. (db ≡ w.db) × (found ≡ codes))
          (query-Yields country_map (λ db p. (p, ap country_map p)))
          λ found. fact-Yields λ same.
            rw same (in_tx-Yields _ _ (group_pick_statements-Yields user contest picks w.db codes)))
        w refl e in
    (known, rows)
