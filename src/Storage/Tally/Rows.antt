-- ===== src/Storage/Tally/Rows.antt =====
-- The matches of a contest: distinct identifiers, and which rows are group matches.
use mathlib.Core.Path.{subst}
use wcwcpp_backend.Base.{
  ◌≡◌, ◌≢◌, ◌⊎◌, inl, inr, refl, sym, ap, ◌∙◌, arith, Bool, true, false, Bool-cases, none, some,
  List, [], ◌∷◌, All, select, ◌==◌, nat_eq, ==_iff, if_elim,
}
use wcwcpp_backend.Base.Int.{pos, ltb_ℤ, int_eq}
use wcwcpp_backend.Entity.{Uuid}
use wcwcpp_backend.Rows.{MatchRow}
use wcwcpp_backend.Sql.{update_where}
use wcwcpp_backend.Storage.UpdateMatch.{set_match}
use wcwcpp_backend.Storage.Tally.{no_share, plus, share, total}
use wcwcpp_backend.Storage.Tally.Sum.{plus_swap, plus_none, total-Fits}

abbrev pub IsDistinct : List MatchRow → Type 0
IsDistinct [] = Unit
IsDistinct (m ∷ ms) = All (λ x. x.id ≢ m.id) ms × IsDistinct ms

-- A group match has no index, and two different countries.
abbrev pub IsShaped : MatchRow → Type 0
IsShaped m =
    ltb_ℤ (pos 0) m.round ≡ false
    → (m.round_index ≡ none) × ((c : Uuid) → m.country1_id ≡ some c → m.country2_id ≢ some c)

-- A row stands in the list, and no other has its identifier.
abbrev pub Only : MatchRow → List MatchRow → Type 0
Only old [] = ⊥
Only old (m ∷ ms) = ((m ≡ old) × All (λ x. x.id ≢ old.id) ms) ⊎ ((m.id ≢ old.id) × Only old ms)

pub All-selected :
    {A : Type 0} (P : A → Type 0) (p : A → Bool) (xs : List A) (y : A) (rest : List A)
    → All P xs
    → select p xs ≡ y ∷ rest
    → P y × (p y ≡ true)
All-selected P p [] y rest h e = absurd (cc)
All-selected {A} P p (x ∷ xs) y rest h e = elim (Bool-cases (p x)) [
  | inl t ↦ let same : x ≡ y = ground (arith, e, t) in rw (← same) (h.0, t)
  | inr f ↦ All-selected P p xs y rest h.1 (ground (arith, e, f))
]

pub select-Only :
    (p : MatchRow → Bool) (ms : List MatchRow) (old : MatchRow) (rest : List MatchRow)
    → IsDistinct ms
    → select p ms ≡ old ∷ rest
    → Only old ms
select-Only p [] old rest d e = absurd (cc)
select-Only p (m ∷ ms) old rest d e = elim (Bool-cases (p m)) [
  | inl t ↦ let same : m ≡ old = ground (arith, e, t) in inl (same, rw same at d.0)
  | inr f ↦
      let later : select p ms ≡ old ∷ rest = ground (arith, e, f) in
      inr (
        (λ k. (All-selected (λ x. x.id ≢ m.id) p ms old rest d.0 later).0 (sym k)),
        select-Only p ms old rest d.1 later,
      )
]

-- What an update makes of the rows that it changes, and of the others.
pub All-update_to :
    {A : Type 0} (P Q : A → Type 0) (p : A → Bool) (f : A → A) (xs : List A)
    → ((x : A) → P x → p x ≡ true → Q (f x))
    → ((x : A) → P x → p x ≡ false → Q x)
    → All P xs
    → All Q (update_where p f xs)
All-update_to P Q p f [] k n h = tt
All-update_to P Q p f (x ∷ xs) k n h = elim (Bool-cases (p x)) [
  | inl t ↦ (rw t (k x h.0 t), All-update_to P Q p f xs k n h.1)
  | inr e ↦ (rw e (n x h.0 e), All-update_to P Q p f xs k n h.1)
]

pub All-update :
    {A : Type 0} (P : A → Type 0) (p : A → Bool) (f : A → A) (xs : List A)
    → ((x : A) → P x → p x ≡ true → P (f x))
    → All P xs
    → All P (update_where p f xs)
All-update P p f xs k h = All-update_to P P p f xs k (λ x q n. q) h

update_where-none :
    (k : Uuid) (f : MatchRow → MatchRow) (ms : List MatchRow)
    → All (λ x. x.id ≢ k) ms
    → update_where (λ m. m.id == k) f ms ≡ ms
update_where-none k f [] h = refl
update_where-none k f (m ∷ ms) h = ground (arith, h.0, update_where-none k f ms h.1)

pub IsDistinct-update :
    (p : MatchRow → Bool) (f : MatchRow → MatchRow)
    → ((m : MatchRow) → (f m).id ≡ m.id)
    → (ms : List MatchRow) → IsDistinct ms
    → IsDistinct (update_where p f ms)
IsDistinct-update p f same [] h = tt
IsDistinct-update p f same (m ∷ ms) h = (
  if_elim (λ y. All (λ x. x.id ≢ y.id) (update_where p f ms)) (p m) (f m) m (rw (same m) others)
      others,
  IsDistinct-update p f same ms h.1,
)
  where
    others : All (λ x. x.id ≢ m.id) (update_where p f ms)
    others = All-update (λ x. x.id ≢ m.id) p f ms (λ x ne t. rw (same x) ne) h.0

-- A change of rows that adds to no row's share leaves the totals.
pub total-update :
    (contest c : Uuid) (P : MatchRow → Type 0) (p : MatchRow → Bool) (f : MatchRow → MatchRow)
    → ((m : MatchRow) → P m → p m ≡ true → share contest c (f m) ≡ share contest c m)
    → (ms : List MatchRow) → All P ms
    → total contest c (update_where p f ms) ≡ total contest c ms
unfolding total
total-update contest c P p f same [] h = refl
total-update contest c P p f same (m ∷ ms) h = elim (Bool-cases (p m)) [
  | inl t ↦ rw (t, same m h.0 t, total-update contest c P p f same ms h.1) refl
  | inr n ↦ rw (n, total-update contest c P p f same ms h.1) refl
]

update_where-here :
    (old new m : MatchRow) (ms : List MatchRow)
    → m ≡ old
    → All (λ x. x.id ≢ old.id) ms
    → new.id ≡ old.id
    → set_match new old ≡ new
    → update_where (λ x. x.id == new.id) (set_match new) (m ∷ ms) ≡ new ∷ ms
update_where-here old new m ms here rest e s =
    let found : (m.id == new.id) ≡ true = (==_iff m.id new.id).1 (ap (λ x. x.id) here ∙ sym e) in
    let apart : All (λ x. x.id ≢ new.id) ms = rw e rest in
    rw (found, update_where-none new.id (set_match new) ms apart)
      (ap (λ x. x ∷ ms) (ap (set_match new) here ∙ s))

update_where-later :
    (new m : MatchRow) (ms : List MatchRow)
    → m.id ≢ new.id
    → update_where (λ x. x.id == new.id) (set_match new) (m ∷ ms)
      ≡ m ∷ update_where (λ x. x.id == new.id) (set_match new) ms
update_where-later new m ms ne = ground (arith, ne)

-- Saving a row that had no share adds the share that it has now.
pub total-save :
    (contest c : Uuid) (old new : MatchRow) (ms : List MatchRow)
    → Only old ms
    → new.id ≡ old.id
    → set_match new old ≡ new
    → share contest c old ≡ no_share
    → total contest c (update_where (λ m. m.id == new.id) (set_match new) ms)
      ≡ plus (share contest c new) (total contest c ms)
unfolding total
total-save contest c old new [] o e s none_yet = absurd o
total-save contest c old new (m ∷ ms) (inl (here, rest)) e s none_yet =
    ap (total contest c) (update_where-here old new m ms here rest e s)
    ∙ ap (plus (share contest c new)) (
        sym (
          ap (λ x. plus (share contest c x) (total contest c ms)) here
          ∙ ap (λ x. plus x (total contest c ms)) none_yet
          ∙ plus_none (total contest c ms) (total-Fits contest c ms)))
total-save contest c old new (m ∷ ms) (inr (ne, later)) e s none_yet =
    ap (total contest c) (update_where-later new m ms (λ k. ne (k ∙ e)))
    ∙ ap (plus (share contest c m)) (total-save contest c old new ms later e s none_yet)
    ∙ plus_swap (share contest c m) (share contest c new) (total contest c ms)

pub All-save :
    (P : MatchRow → Type 0) (old new : MatchRow) (ms : List MatchRow)
    → Only old ms
    → new.id ≡ old.id
    → set_match new old ≡ new
    → P new
    → All P ms
    → All P (update_where (λ m. m.id == new.id) (set_match new) ms)
All-save P old new [] o e s q h = absurd o
All-save P old new (m ∷ ms) (inl (here, rest)) e s q h =
    subst (All P) (sym (update_where-here old new m ms here rest e s)) (q, h.1)
All-save P old new (m ∷ ms) (inr (ne, later)) e s q h =
    subst (All P) (sym (update_where-later new m ms (λ k. ne (k ∙ e))))
      (h.0, All-save P old new ms later e s q h.1)
