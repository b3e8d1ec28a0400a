-- ===== src/Storage/Tally/Setup.antt =====
-- The matches of a new contest.
use wcwcpp_backend.Base.{
  ◌≡◌, refl, arith, ap, sym, ◌∙◌, Option, none, some, String, List, [], ◌∷◌, ◌++◌, All, Dict,
  if_elim, ℕ, suc,
}
use wcwcpp_backend.Base.Int.{int_eq, pos}
use wcwcpp_backend.Entity.{Uuid, Match}
use wcwcpp_backend.Rows.{Db, GroupStandingRow, MatchRow}
use wcwcpp_backend.Sql.{World, Result, ok, err, Error, insert_rows}
use wcwcpp_backend.Sql.Post.{
  Yields, Then, Yields_ok, bind-Yields, query-Yields, exec-Yields, weaken-Yields, pure-Yields,
}
use wcwcpp_backend.Storage.Tally.{IsTallied, no_share, share, share_between, total, plus}
use wcwcpp_backend.Storage.Tally.Sum.{plus_none, total-Fits}
use wcwcpp_backend.Storage.Contests.Setup.{
  create_matches, insert_matches, match_error, made_matches, made_match, cons_match, set_matches,
}

pub All-append :
    {A : Type 0} (P : A → Type 0) (xs ys : List A) → All P xs → All P ys → All P (xs ++ ys)
All-append P [] ys h k = k
All-append P (x ∷ xs) ys h k = (h.0, All-append P xs ys h.1 k)

-- What each inserted row keeps, all of them keep.
pub insert_rows-keeps :
    {A : Type 0} (R : List A → Type 0) (P : A → Type 0) (check : A → List A → Option Error)
    → ((rows : List A) (x : A) → P x → R rows → R (rows ++ x ∷ []))
    → (new rows : List A) {rows' : List A} → All P new
    → R rows
    → insert_rows check new rows ≡ ok rows'
    → R rows'
insert_rows-keeps R P check h [] rows {rows'} p r e =
    let same : rows ≡ rows' = ground (arith, e) in rw same at r
insert_rows-keeps R P check h (x ∷ xs) rows p r e =
    insert_rows-keeps R P check h xs (rows ++ x ∷ []) p.1 (h rows x p.0 r) (ground (arith, e))

-- A match that adds to no country.
abbrev pub IsUnplayed : Uuid → MatchRow → Type 0
IsUnplayed contest m = (c : Uuid) → share contest c m ≡ no_share

total-IsUnplayed :
    (contest c : Uuid) (ms : List MatchRow) (m : MatchRow)
    → share contest c m ≡ no_share
    → total contest c (ms ++ m ∷ []) ≡ total contest c ms
unfolding total
total-IsUnplayed contest c [] m e = rw e (plus_none no_share (total-Fits contest c []))
total-IsUnplayed contest c (n ∷ ns) m e =
    ap (plus (share contest c n)) (total-IsUnplayed contest c ns m e)

share_between-none :
    (c : Uuid) (c1 c2 : Option Uuid) → share_between c c1 c2 none none (pos 0) (pos 0) ≡ no_share
share_between-none c none c2 = refl
share_between-none c (some c1) none = refl
share_between-none c (some c1) (some c2) = refl

pub total-no_share :
    (contest c : Uuid) (ms : List MatchRow)
    → All (IsUnplayed contest) ms
    → total contest c ms ≡ no_share
unfolding total
total-no_share contest c [] h = refl
total-no_share contest c (m ∷ ms) h =
    rw (h.0 c, total-no_share contest c ms h.1) (plus_none no_share (total-Fits contest c []))

blank-IsUnplayed :
    (contest : Uuid) (m : MatchRow)
    → m.country1_goals ≡ none
    → m.country2_goals ≡ none
    → m.country1_conduct_score ≡ none
    → m.country2_conduct_score ≡ none
    → IsUnplayed contest m
unfolding share
blank-IsUnplayed contest m g1 g2 s1 s2 c =
    rw (g1, g2, s1, s2)
      (if_elim (λ r. r ≡ no_share) _ _ no_share (share_between-none c m.country1_id m.country2_id)
        refl)

made_match-IsUnplayed :
    (codes : Dict String Uuid) (id ct contest : Uuid) (m : Match) (row : MatchRow)
    → made_match codes id ct m ≡ ok row
    → IsUnplayed contest row
made_match-IsUnplayed codes id ct contest m row e =
    blank-IsUnplayed contest row (ground (arith, e)) (ground (arith, e)) (ground (arith, e))
      (ground (arith, e))

made_matches-IsUnplayed :
    (codes : Dict String Uuid) (ids : ℕ → Uuid) (n : ℕ) (ct contest : Uuid) (ms : List Match)
    {rows : List MatchRow}
    → made_matches codes ids n ct ms ≡ ok rows
    → All (IsUnplayed contest) rows
made_matches-IsUnplayed codes ids n ct contest [] {rows} e =
    let same : [] ≡ rows = ground (arith, e) in rw (← same) tt
made_matches-IsUnplayed codes ids n ct contest (m ∷ ms) {rows} e =
    go (made_match codes (ids n) ct m) (made_matches codes ids (suc n) ct ms)
      (made_match-IsUnplayed codes (ids n) ct contest m)
      (λ rest k. made_matches-IsUnplayed codes ids (suc n) ct contest ms k) e
  where
    go :
        (a : Result MatchRow) (b : Result (List MatchRow))
        → ((row : MatchRow) → a ≡ ok row → IsUnplayed contest row)
        → ((rest : List MatchRow) → b ≡ ok rest → All (IsUnplayed contest) rest)
        → cons_match a b ≡ ok rows
        → All (IsUnplayed contest) rows
    go (err x) b h k e = absurd (cc)
    go (ok a) (err x) h k e = absurd (cc)
    go (ok a) (ok b) h k e =
        let same : a ∷ b ≡ rows = ground (arith, e) in rw (← same) (h a refl, k b refl)

-- The same table, and the same tally.
abbrev IsSameTally : Db → Db → Type 0
IsSameTally before after =
    ((contest c : Uuid) → total contest c after.matches ≡ total contest c before.matches)
    × (after.group_standings ≡ before.group_standings)

insert_matches-tally :
    (db : Db) (new : Result (List MatchRow))
    → ((contest : Uuid) (rows : List MatchRow) → new ≡ ok rows → All (IsUnplayed contest) rows)
    → Then (λ _ db'. IsSameTally db db') (insert_matches new db)
unfolding insert_matches match_error
insert_matches-tally db (err e) h = tt
insert_matches-tally db (ok new) h = go (insert_rows (match_error db) new db.matches) refl
  where
    go :
        (r : Result (List MatchRow))
        → insert_rows (match_error db) new db.matches ≡ r
        → Then (λ _ db'. IsSameTally db db') (set_matches db r)
    go (err x) e = tt
    go (ok rows) e = (
      λ contest c.
          insert_rows-keeps (λ ms. total contest c ms ≡ total contest c db.matches)
            (IsUnplayed contest) (match_error db)
            (λ ms m u k. total-IsUnplayed contest c ms m (u c) ∙ k) new db.matches
            (h contest new refl) refl e,
      refl,
    )

create_matches-Yields :
    (ids : ℕ → Uuid) (ct : Uuid) (ms : List Match) (before : Db)
    → Yields (λ db. db ≡ before) (create_matches ids ct ms) (λ _ db. IsSameTally before db)
unfolding create_matches
create_matches-Yields ids ct [] before =
    weaken-Yields (λ db e. rw e ((λ contest c. refl), refl)) (λ _ db p. p) (pure-Yields tt)
create_matches-Yields ids ct (m ∷ ms) before =
    bind-Yields (λ _ db. db ≡ before) (query-Yields _ (λ db e. e))
      λ codes. exec-Yields _ λ db e. rw e (
        insert_matches-tally before (made_matches codes ids 0 ct (m ∷ ms))
          (λ contest rows k. made_matches-IsUnplayed codes ids 0 ct contest (m ∷ ms) k))

IsTallied-same :
    (before after : Db) (rows : List GroupStandingRow)
    → ((contest c : Uuid) → total contest c after.matches ≡ total contest c before.matches)
    → All (IsTallied before.matches) rows
    → All (IsTallied after.matches) rows
IsTallied-same before after [] h k = tt
IsTallied-same before after (r ∷ rs) h k =
    (k.0 ∙ sym (h r.contest_id r.country_id), IsTallied-same before after rs h k.1)

-- If every group standing holds what its country's played group matches give, it does after a
-- successful CreateMatches: a new match counts for nobody.
pub create_matches-IsTallied :
    (ids : ℕ → Uuid) (ct : Uuid) (ms : List Match) (w : World) {w' : World}
    → create_matches ids ct ms w ≡ (ok tt, w')
    → All (IsTallied w.db.matches) w.db.group_standings
    → All (IsTallied w'.db.matches) w'.db.group_standings
create_matches-IsTallied ids ct ms w {w'} e k =
    let (same, rows) =
      Yields_ok {R = λ _ db. IsSameTally w.db db} (create_matches-Yields ids ct ms w.db) w refl e in
    rw rows (IsTallied-same w.db w'.db w.db.group_standings same k)
