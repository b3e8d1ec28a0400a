-- ===== src/Sql/Keys.antt =====
-- The keys of an ORDER BY: the first key that tells two rows apart decides.
use Prim.Native.Nat.{Ordering, compare}
use Prim.Native.String.{compare as compare_text}
use wcwcpp_backend.Base.{◌+◌, String, Bool, true, false, Option, none, some, List, [], ◌∷◌}
use wcwcpp_backend.Base.Int.{ℤ, pos_part, neg_part}

abbrev pub key_int : ℤ → ℤ → Ordering
key_int a b = compare (pos_part a + neg_part b) (pos_part b + neg_part a)

-- NULLs come last.
abbrev pub key_null : Option ℤ → Option ℤ → Ordering
key_null none none = Ordering.eq
key_null none (some b) = Ordering.gt
key_null (some a) none = Ordering.lt
key_null (some a) (some b) = key_int a b

-- By code point, as Go's `sort.Strings` orders letters.
abbrev pub key_text : String → String → Ordering
key_text a b = compare_text a b

abbrev pub in_order : List Ordering → Bool
in_order [] = true
in_order (o ∷ os) =
    let rest = in_order os in
    elim o [ Ordering.lt ↦ true | Ordering.eq ↦ rest | Ordering.gt ↦ false ]
