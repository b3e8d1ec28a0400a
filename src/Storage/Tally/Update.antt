-- ===== src/Storage/Tally/Update.antt =====
-- `UpdateMatch` keeps the group table what the matches give.
use wcwcpp_backend.Base.{
  ◌≡◌, refl, sym, ap, ◌∙◌, arith, Bool, true, false, Option, none, some, List, ◌∷◌, All, select,
  if◌then◌else◌, ◌==◌, nat_eq,
}
use wcwcpp_backend.Base.Int.{ℤ, pos, to_int32, ltb_ℤ, int_eq}
use wcwcpp_backend.Entity.{Uuid, Match}
use wcwcpp_backend.Rows.{Db, MatchRow}
use wcwcpp_backend.Sql.{World, Result, ok, err, commit, wrap, write, on_error, update_where}
use wcwcpp_backend.Sql.Post.{
  Yields, AtEnd, OnOk, bind-Yields, then-Yields, query-Yields, query_one-Yields, write-Yields,
  on_error-Yields, pure-Yields, fail-Yields, fail_if-Yields, if-Yields, weaken-Yields, fact-Yields,
  in_tx-Yields,
}
use wcwcpp_backend.Storage.Search.{get_country_code_to_id_map}
use wcwcpp_backend.Storage.Existing.{
  at_slot, is_pair, find_by_slot, find_by_countries, find_by, find_existing, is_completed,
  merge_match, has_updates,
}
use wcwcpp_backend.Storage.Standings.{score_of_match, update_standings}
use wcwcpp_backend.Storage.Knockout.{decide_knockout}
use wcwcpp_backend.Storage.UpdateMatch.{
  set_match, save_match, match_effects, apply_update, update_match,
}
use wcwcpp_backend.Storage.UpdateMatch.Atomic.{update_match-atomic}
use wcwcpp_backend.Storage.Tally.{plus, share, total, IsTallied}
use wcwcpp_backend.Storage.Tally.Rows.{
  IsShaped, Only, All-selected, select-Only, IsDistinct-update, total-save, All-save,
}
use wcwcpp_backend.Storage.Tally.Count.{share-open, unshared_all, update_standings-Yields}
use wcwcpp_backend.Storage.Tally.Knockout.{
  IsKept, slot-knockout, share-knockout, decide_knockout-Yields,
}

not_completed-score : (m : MatchRow) → is_completed m ≡ false → score_of_match m ≡ none
unfolding is_completed
not_completed-score m h = go m.country1_goals m.country2_goals refl refl
  where
    go :
        (o1 o2 : Option ℤ) → m.country1_goals ≡ o1 → m.country2_goals ≡ o2 → score_of_match m ≡ none
    go none o2 e1 e2 = rw e1 refl
    go (some g) none e1 e2 = rw (e1, e2) refl
    go (some g) (some k) e1 e2 = absurd (ground (arith, h, e1, e2))

module _ (d : Db) (kept : IsKept d) where
  Same : Db → Type 0
  Same db = db ≡ d

  same : Same d
  unfolding Same
  same = refl

  unchanged : (db : Db) → Same db → IsKept db
  unfolding Same
  unchanged db e = rw e kept

  -- What the lookup finds: a match of the table, and whether it is a knockout match.
  abbrev Found : MatchRow × Bool → Type 0
  Found e = (e.1 ≡ ltb_ℤ (pos 0) e.0.round) × Only e.0 d.matches × IsShaped e.0

  selected :
      (p : MatchRow → Bool) (db : Db) (m : MatchRow) (rest : List MatchRow)
      → db ≡ d
      → select p db.matches ≡ m ∷ rest
      → Only m d.matches × IsShaped m × (p m ≡ true)
  selected p db m rest same e =
      let e' : select p d.matches ≡ m ∷ rest = ap (λ x. select p x.matches) (sym same) ∙ e in
      let (shape, passed) = All-selected IsShaped p d.matches m rest kept.1 e' in
      (select-Only p d.matches m rest kept.0 e', shape, passed)

  find_by_slot-Found :
      (contest : Uuid) (round index : ℤ)
      → Yields Same (find_by_slot contest round index) (λ e db. Same db × Found e)
  unfolding find_by_slot Same
  find_by_slot-Found contest round index =
      bind-Yields (λ m db. (db ≡ d) × Found (m, true))
        (on_error-Yields _ (
          query_one-Yields _ (λ db m rest p e.
            let (o, h, at) =
              selected (at_slot contest (to_int32 round) (to_int32 index)) db m rest p e in
            (p, (sym (slot-knockout contest (to_int32 round) (to_int32 index) m h at), o, h)))))
        λ m. pure-Yields (m, true)

  find_by_countries-Found :
      (contest : Uuid) (round : ℤ) (o1 o2 : Option Uuid)
      → Yields Same (find_by_countries contest round o1 o2) (λ e db. Same db × Found e)
  unfolding find_by_countries Same
  find_by_countries-Found contest round (some a) (some b) =
      bind-Yields (λ m db. (db ≡ d) × Found (m, ltb_ℤ (pos 0) m.round))
        (on_error-Yields _ (
          query_one-Yields _ (λ db m rest p e.
            let (o, h, at) = selected (is_pair contest (to_int32 round) a b) db m rest p e in
            (p, (refl, o, h)))))
        λ m. pure-Yields (m, ltb_ℤ (pos 0) m.round)
  find_by_countries-Found contest round none o2 = fail-Yields _ _ _
  find_by_countries-Found contest round (some a) none = fail-Yields _ _ _

  find_existing-Found :
      (contest : Uuid) (m : Match) (o1 o2 : Option Uuid)
      → Yields Same (find_existing contest m o1 o2) (λ e db. Same db × Found e)
  unfolding find_existing
  find_existing-Found contest m o1 o2 = go m.round_index
    where
      go :
          (index : Option ℤ)
          → Yields Same (find_by contest m.round index o1 o2) (λ e db. Same db × Found e)
      go none = find_by_countries-Found contest m.round o1 o2
      go (some index) =
          if-Yields (ltb_ℤ (pos 0) m.round) (find_by_slot-Found contest m.round index)
            (find_by_countries-Found contest m.round o1 o2)

  -- The transaction, for a match of the table without a score.
  module _ (old new : MatchRow) (found : Only old d.matches) (fresh : is_completed old ≡ false)
      (same_id : new.id ≡ old.id) (same_row : set_match new old ≡ new) (shape : IsShaped new) where
    abbrev saved : List MatchRow
    saved = update_where (λ m. m.id == new.id) (set_match new) d.matches

    total-saved :
        (contest c : Uuid)
        → total contest c saved ≡ plus (share contest c new) (total contest c d.matches)
    total-saved contest c =
        total-save contest c old new d.matches found same_id same_row
          (share-open contest c old (not_completed-score old fresh))

    Saved : Db → Type 0
    Saved db = (db.matches ≡ saved) × All (IsTallied d.matches) db.group_standings

    -- Saved, with the group table not yet brought up to date.
    save_match-Saved :
        Yields Same (on_error (wrap "failed to update match") (write (save_match new))) (λ _. Saved)
    unfolding save_match Saved Same
    save_match-Saved = on_error-Yields _ (
        write-Yields _ (λ db p. (
          ap (λ x. update_where (λ m. m.id == new.id) (set_match new) x.matches) p,
          (rw p kept.2),
        )))

    saved-IsKept :
        (db : Db) → db.matches ≡ saved → All (IsTallied saved) db.group_standings → IsKept db
    saved-IsKept db e h = (
      rw e (IsDistinct-update _ _ (λ m. refl) d.matches kept.0),
      rw e (All-save IsShaped old new d.matches found same_id same_row shape kept.1),
      rw e h,
    )

    knockout-effects :
        ltb_ℤ (pos 0) new.round ≡ true → Yields Saved (decide_knockout old new) (λ _. IsKept)
    unfolding Saved
    knockout-effects up =
        weaken-Yields
          (λ db p. saved-IsKept db p.0 (
            unshared_all new d.matches saved total-saved
              (λ contest c. share-knockout contest c new up) db.group_standings p.1))
          (λ _ db p. p) (decide_knockout-Yields old new)

    group-effects :
        ltb_ℤ (pos 0) new.round ≡ false
        → new.contest_id ≡ old.contest_id
        → new.country1_id ≡ old.country1_id
        → new.country2_id ≡ old.country2_id
        → Yields Saved (update_standings old new) (λ _. IsKept)
    unfolding Saved
    group-effects group k e1 e2 =
        weaken-Yields (λ db p. p) (λ _ db p. saved-IsKept db p.0 p.1)
          (update_standings-Yields new d.matches saved total-saved old group
            (not_completed-score old fresh) k e1 e2 (shape group).1)

  -- The merged match, in place of the one that was found.
  module _ (m : Match) (o1 o2 : Option Uuid) (old : MatchRow) where
    abbrev merged : Bool → MatchRow
    merged k = merge_match k o1 o2 m old

    merged_same :
        (k : Bool)
        → ((merged k).id ≡ old.id)
          × ((merged k).contest_id ≡ old.contest_id)
          × ((merged k).round ≡ old.round)
          × (set_match (merged k) old ≡ merged k)
          × ((merged k).round_index ≡ old.round_index)
    unfolding merge_match
    merged_same k = (refl, refl, refl, refl, refl)

    merged_countries :
        ((merged false).country1_id ≡ old.country1_id)
        × ((merged false).country2_id ≡ old.country2_id)
    unfolding merge_match
    merged_countries = (refl, refl)

    merged-IsShaped : (k : Bool) → k ≡ ltb_ℤ (pos 0) old.round → IsShaped old → IsShaped (merged k)
    merged-IsShaped true e h group = absurd (ground (arith, e, group, (merged_same true).2))
    merged-IsShaped false e h group =
        let (index, apart) = h (sym e) in
        (
          (merged_same false).4 ∙ index,
          λ c a b. apart c (sym merged_countries.0 ∙ a) (sym merged_countries.1 ∙ b),
        )

    branch :
        (k : Bool) (f : Found (old, k)) (fresh : is_completed old ≡ false)
        → Yields
            (Saved old
              (merged k)
              f.1
              fresh
              (merged_same k).0
              (merged_same k).3
              (merged-IsShaped k f.0 f.2))
            (if k then decide_knockout old (merged k) else update_standings old (merged k))
            (λ _. IsKept)
    branch true f fresh =
        knockout-effects old (merged true) f.1 fresh (merged_same true).0 (merged_same true).3
          (merged-IsShaped true f.0 f.2) (ap (ltb_ℤ (pos 0)) (merged_same true).2 ∙ sym f.0)
    branch false f fresh =
        group-effects old (merged false) f.1 fresh (merged_same false).0 (merged_same false).3
          (merged-IsShaped false f.0 f.2) (ap (ltb_ℤ (pos 0)) (merged_same false).2 ∙ sym f.0)
          (merged_same false).1 merged_countries.0 merged_countries.1

    match_effects-IsKept :
        (k : Bool)
        → Found (old, k)
        → is_completed old ≡ false
        → Yields Same (match_effects k old (merged k)) (AtEnd Same IsKept)
    unfolding match_effects
    match_effects-IsKept k (e, found, h) fresh =
        let (id, contest, round, row, index) = merged_same k in
        let shape = merged-IsShaped k e h in
        then-Yields (Saved old (merged k) found fresh id row shape)
          (save_match-Saved old (merged k) found fresh id row shape)
          (then-Yields IsKept (branch k (e, found, h) fresh) (pure-Yields commit))

  apply_update-IsKept :
      (m : Match) (o1 o2 : Option Uuid) (e : MatchRow × Bool)
      → Found e
      → Yields Same (apply_update m o1 o2 e) (λ _. IsKept)
  unfolding apply_update
  apply_update-IsKept m o1 o2 (old, k) f =
      then-Yields (λ db. Same db × (is_completed old ≡ false)) (fail_if-Yields Same _ _)
        (fact-Yields λ fresh.
          if-Yields (has_updates k o1 o2 m)
            (in_tx-Yields _ _ (match_effects-IsKept m o1 o2 old k f fresh))
            (weaken-Yields unchanged (λ _ db p. p) (pure-Yields tt)))

  update_match-Yields :
      (contest : Uuid) (m : Match) → Yields Same (update_match contest m) (λ _. IsKept)
  unfolding update_match get_country_code_to_id_map
  update_match-Yields contest m =
      bind-Yields (λ _. Same) (query-Yields _ (λ db p. p))
        λ codes.
          bind-Yields (λ e db. Same db × Found e) (find_existing-Found contest m _ _)
            λ e. fact-Yields λ f. apply_update-IsKept m _ _ e f

-- An update keeps the group table what the matches give, whether it succeeds or reports an error: if
-- before it every group standing holds the points, wins, draws, losses, goals and conduct score of
-- its country's played group matches, summed as int32, then after it every one does. Group matches
-- are those of no round above 0. Both before and after it identifiers of matches are distinct, and
-- group matches have no index and two different countries.
pub update_match-IsKept :
    (contest : Uuid) (m : Match) (w : World) → IsKept w.db → IsKept (update_match contest m w).1.db
update_match-IsKept contest m w kept =
    go (update_match contest m w) refl
      ((update_match-Yields w.db kept contest m).run w (same w.db kept))
  where
    go :
        (r : Result Unit × World)
        → update_match contest m w ≡ r
        → OnOk (λ _. IsKept) r
        → IsKept (update_match contest m w).1.db
    go (ok a, v) e k = rw e k
    go (err x, v) e k = rw (update_match-atomic contest m w (ap (λ r. r.0) e)) kept
