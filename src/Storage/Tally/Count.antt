-- ===== src/Storage/Tally/Count.antt =====
-- Counting the score of a group match brings the table up to date with the matches.
use mathlib.Core.Path.{subst}
use wcwcpp_backend.Base.{
  ◌≡◌, ◌≢◌, refl, sym, ap, ◌∙◌, inl, inr, arith, true, false, Bool-cases, Option, none, some, List,
  [], ◌∷◌, All, ◌==◌, nat_eq, ==_iff, ==_refl, if◌then◌else◌,
}
use wcwcpp_backend.Base.Int.{ℤ, pos, ltb_ℤ, int_eq}
use wcwcpp_backend.Entity.{Uuid}
use wcwcpp_backend.Rows.{Db, MatchRow, GroupStandingRow}
use wcwcpp_backend.Sql.{wrap, query_one, on_error}
use wcwcpp_backend.Sql.Post.{
  Yields, bind-Yields, then-Yields, query_one-Yields, write-Yields, on_error-Yields, pure-Yields,
  fail-Yields, weaken-Yields, fact-Yields,
}
use wcwcpp_backend.Storage.Score.{Score, apply_score}
use wcwcpp_backend.Storage.Standings.{
  group_key, set_counts, save_standing, standing_rows, count_score, count_if, update_standings,
  score_of_match,
}
use wcwcpp_backend.Storage.Tally.{Share, no_share, plus, share, total, columns, IsTallied}
use wcwcpp_backend.Storage.Tally.Sum.{Fits, total-Fits, plus_none}
use wcwcpp_backend.Storage.Tally.Rows.{All-selected, All-update_to}
use wcwcpp_backend.Storage.Tally.Score.{apply_score-columns, first_share, second_share, share-score}

group_key-true :
    (contest c : Uuid) (s : GroupStandingRow)
    → group_key contest c s ≡ true
    → (s.contest_id ≡ contest) × (s.country_id ≡ c)
group_key-true contest c s h = ground (arith, h)

pub share-elsewhere :
    (contest c : Uuid) (m : MatchRow) → m.contest_id ≢ contest → share contest c m ≡ no_share
unfolding share
share-elsewhere contest c m ne = ground (arith, ne)

pub share-open :
    (contest c : Uuid) (m : MatchRow) → score_of_match m ≡ none → share contest c m ≡ no_share
unfolding share
share-open contest c m h =
    go m.country1_id m.country2_id m.country1_goals m.country2_goals refl refl refl refl
  where
    go :
        (o1 o2 : Option Uuid) (p1 p2 : Option ℤ)
        → m.country1_id ≡ o1
        → m.country2_id ≡ o2
        → m.country1_goals ≡ p1
        → m.country2_goals ≡ p2
        → share contest c m ≡ no_share
    go o1 o2 p1 p2 a b d e = ground (arith, h, a, b, d, e)

-- The match `new` has been saved: `before` are the matches without it, `ms` those with it.
module _ (new : MatchRow) (before ms : List MatchRow)
    (saved : (contest c : Uuid)
      → total contest c ms ≡ plus (share contest c new) (total contest c before)) where
  unshared :
      (s : GroupStandingRow)
      → share s.contest_id s.country_id new ≡ no_share
      → IsTallied before s
      → IsTallied ms s
  unshared s none_here h =
      h
      ∙ sym (
          saved s.contest_id s.country_id
          ∙ ap (λ x. plus x (total s.contest_id s.country_id before)) none_here
          ∙ plus_none _ (total-Fits s.contest_id s.country_id before))

  pub unshared_all :
      ((contest c : Uuid) → share contest c new ≡ no_share)
      → (rows : List GroupStandingRow) → All (IsTallied before) rows
      → All (IsTallied ms) rows
  unshared_all h [] k = tt
  unshared_all h (s ∷ rows) k =
      (unshared s (h s.contest_id s.country_id) k.0, unshared_all h rows k.1)

  module _ (g : Score) (c1 c2 : Uuid) (group : ltb_ℤ (pos 0) new.round ≡ false)
      (e1 : new.country1_id ≡ some c1) (e2 : new.country2_id ≡ some c2)
      (scored : score_of_match new ≡ some g) (two : c1 ≢ c2) where
    abbrev contest : Uuid
    contest = new.contest_id

    share_of :
        (c : Uuid)
        → share contest c new
          ≡ (if c1 == c then first_share g else if c2 == c then second_share g else no_share)
    share_of c = share-score new g c1 c2 group e1 e2 scored c

    share_first : share contest c1 new ≡ first_share g
    share_first = share_of c1 ∙ ground (arith, ==_refl c1)

    share_second : share contest c2 new ≡ second_share g
    share_second = share_of c2 ∙ ground (arith, ==_refl c2, two)

    share_third :
        (s : GroupStandingRow)
        → group_key contest c1 s ≡ false
        → group_key contest c2 s ≡ false
        → share s.contest_id s.country_id new ≡ no_share
    share_third s n1 n2 = elim (Bool-cases (s.contest_id == contest)) [
      | inl same ↦
          let here = (==_iff s.contest_id contest).0 same in
          ap (λ k. share k s.country_id new) here
          ∙ share_of s.country_id
          ∙ ground (arith, n1, n2, same)
      | inr other ↦ share-elsewhere s.contest_id s.country_id new (λ k. ground (arith, other, k))
    ]

    -- The row that `apply_score` makes for a country, put into a standing of that country.
    counted :
        (c : Uuid) (side : Share) (t s : GroupStandingRow)
        → share contest c new ≡ side
        → columns t ≡ plus side (total contest c before)
        → group_key contest c s ≡ true
        → IsTallied ms (set_counts t s)
    counted c side t s is_side e key =
        let (k, j) = group_key-true contest c s key in
        e
        ∙ sym (
            ap (λ x. total x s.country_id ms) k
            ∙ ap (λ x. total contest x ms) j
            ∙ saved contest c
            ∙ ap (λ x. plus x (total contest c before)) is_side)

    abbrev Halfway : GroupStandingRow → Type 0
    Halfway s =
        (group_key contest c1 s ≡ true → IsTallied ms s)
        × (group_key contest c1 s ≡ false → IsTallied before s)

    abbrev Old : Db → Type 0
    Old db = (db.matches ≡ ms) × All (IsTallied before) db.group_standings

    abbrev Half : Db → Type 0
    Half db = (db.matches ≡ ms) × All Halfway db.group_standings

    abbrev New : Db → Type 0
    New db = (db.matches ≡ ms) × All (IsTallied ms) db.group_standings

    fetch-Yields :
        (c : Uuid) (text : _)
        → Yields Old
            (on_error (wrap text) (query_one (standing_rows contest c)))
            (λ s db. Old db × (columns s ≡ total contest c before))
    unfolding standing_rows
    fetch-Yields c text = on_error-Yields _ (
        query_one-Yields _ (λ db s rest p e.
          let (t, key) =
            All-selected (IsTallied before) (group_key contest c) db.group_standings s rest p.1 e in
          let (k, j) = group_key-true contest c s key in
          (p, t ∙ ap (λ x. total x s.country_id before) k ∙ ap (λ x. total contest x before) j)))

    count_score-Yields : Yields Old (count_score contest c1 c2 none g) (λ _. New)
    unfolding count_score save_standing
    count_score-Yields =
        bind-Yields (λ s1 db. Old db × (columns s1 ≡ total contest c1 before)) (fetch-Yields c1 _)
          λ s1. fact-Yields λ f1.
            bind-Yields (λ s2 db. Old db × (columns s2 ≡ total contest c2 before))
              (fetch-Yields c2 _)
              λ s2. fact-Yields λ f2.
                let (a1, a2) =
                  apply_score-columns g s1 s2 (subst Fits (sym f1) (total-Fits contest c1 before))
                    (subst Fits (sym f2) (total-Fits contest c2 before)) in
                let t1 = (apply_score g (s1, s2)).0 in
                let t2 = (apply_score g (s1, s2)).1 in
                then-Yields Half
                  (on_error-Yields _ (
                    write-Yields _ (λ db p. (
                      p.0,
                      All-update_to (IsTallied before) Halfway (group_key contest c1)
                          (set_counts t1) db.group_standings
                          (λ s h key. (
                            λ _.
                                counted c1 (first_share g) t1 s share_first
                                  (a1 ∙ ap (plus (first_share g)) f1) key,
                            λ no. absurd (cc),
                          ))
                          (λ s h no. (λ key. absurd (cc), λ _. h)) p.1,
                    ))))
                  (on_error-Yields _ (
                    write-Yields _ (λ db p. (
                      p.0,
                      All-update_to Halfway (IsTallied ms) (group_key contest c2) (set_counts t2)
                          db.group_standings
                          (λ s h key.
                            counted c2 (second_share g) t2 s share_second
                              (a2 ∙ ap (plus (second_share g)) f2) key)
                          (λ s h no. elim (Bool-cases (group_key contest c1 s)) [
                            | inl yes1 ↦ h.0 yes1
                            | inr no1 ↦ unshared s (share_third s no1 no) (h.1 no1)
                          ])
                          p.1,
                    ))))

  -- `update_standings`, for a match that had no score and keeps its countries.
  pub update_standings-Yields :
      (old : MatchRow)
      → ltb_ℤ (pos 0) new.round ≡ false
      → score_of_match old ≡ none
      → new.contest_id ≡ old.contest_id
      → new.country1_id ≡ old.country1_id
      → new.country2_id ≡ old.country2_id
      → ((c : Uuid) → new.country1_id ≡ some c → new.country2_id ≢ some c)
      → Yields
          (λ db. (db.matches ≡ ms) × All (IsTallied before) db.group_standings)
          (update_standings old new)
          (λ _ db. (db.matches ≡ ms) × All (IsTallied ms) db.group_standings)
  unfolding update_standings
  update_standings-Yields old group fresh k e1 e2 apart =
      rw (fresh, ← k, ← e1, ← e2)
        (go new.country1_id new.country2_id (score_of_match new) refl refl refl)
    where
      go :
          (o1 o2 : Option Uuid) (score : Option Score)
          → new.country1_id ≡ o1
          → new.country2_id ≡ o2
          → score_of_match new ≡ score
          → Yields
              (λ db. (db.matches ≡ ms) × All (IsTallied before) db.group_standings)
              (count_if new.contest_id o1 o2 none score)
              (λ _ db. (db.matches ≡ ms) × All (IsTallied ms) db.group_standings)
      go o1 o2 none d1 d2 d =
          weaken-Yields
            (λ db p.
              (p.0, unshared_all (λ contest c. share-open contest c new d) db.group_standings p.1))
            (λ _ db p. p) (pure-Yields tt)
      go none o2 (some g) d1 d2 d = fail-Yields _ _ _
      go (some c1) none (some g) d1 d2 d = fail-Yields _ _ _
      go (some c1) (some c2) (some g) d1 d2 d =
          count_score-Yields g c1 c2 group d1 d2 d (λ same. apart c1 d1 (d2 ∙ ap some (sym same)))
