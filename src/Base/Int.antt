-- ===== src/Base/Int.antt =====
-- Go's integers: a signed value is an integer, and an `int32` is kept in range by wrapping.
use Prim.Native.Nat.{ℕ, suc, ◌+◌, ◌-◌, ◌*◌, ◌/◌, ◌%◌, ◌≤◌, ◌<◌}
use mathlib.Core.Path.{◌≡◌, refl, sym, ap}
use mathlib.Core.Logic.{◌↔◌}
use mathlib.Core.Bool.{Bool, true, ◌&&◌}
use native.Mathlib.Omega.{arith}
use wcwcpp_backend.Base.Tests.{ltb, leb, nat_beq, if◌then◌else◌, Eq}

-- `negsuc n` is -(n + 1).
pub data ℤ : Type 0 where
  pos : ℕ → ℤ
  negsuc : ℕ → ℤ

abbrev pub pos_part : ℤ → ℕ
pos_part (pos n) = n
pos_part (negsuc n) = 0

abbrev pub neg_part : ℤ → ℕ
neg_part (pos n) = 0
neg_part (negsuc n) = suc n

abbrev pub sub_ℕ : ℕ → ℕ → ℤ
sub_ℕ a b = if leb b a then pos (a - b) else negsuc (b - a - 1)

infixl 65 ◌+ℤ◌ ◌-ℤ◌
infix 50 ◌≤ℤ◌
unfoldable pub ◌+ℤ◌ : ℤ → ℤ → ℤ
a +ℤ b = sub_ℕ (pos_part a + pos_part b) (neg_part a + neg_part b)

unfoldable pub ◌-ℤ◌ : ℤ → ℤ → ℤ
a -ℤ b = sub_ℕ (pos_part a + neg_part b) (neg_part a + pos_part b)

infixl 70 ◌*ℤ◌
unfoldable pub ◌*ℤ◌ : ℤ → ℤ → ℤ
a *ℤ b =
    sub_ℕ (pos_part a * pos_part b + neg_part a * neg_part b)
      (pos_part a * neg_part b + neg_part a * pos_part b)

abbrev pub ◌≤ℤ◌ : ℤ → ℤ → Type 0
a ≤ℤ b = pos_part a + neg_part b ≤ pos_part b + neg_part a

abbrev pub ltb_ℤ : ℤ → ℤ → Bool
ltb_ℤ a b = ltb (pos_part a + neg_part b) (pos_part b + neg_part a)

abbrev pub leb_ℤ : ℤ → ℤ → Bool
leb_ℤ a b = leb (pos_part a + neg_part b) (pos_part b + neg_part a)

abbrev pub int_beq : ℤ → ℤ → Bool
int_beq a b = nat_beq (pos_part a + neg_part b) (pos_part b + neg_part a)

pub int_beq_iff : (a b : ℤ) → (int_beq a b ≡ true) ↔ (a ≡ b)
int_beq_iff a b = ground arith

instance abbrev pub int_eq : Eq ℤ
int_eq = record { same = int_beq; same_iff = int_beq_iff }

pub +ℤ_parts :
    (a b : ℤ)
    → pos_part (a +ℤ b) + neg_part a + neg_part b ≡ neg_part (a +ℤ b) + pos_part a + pos_part b
unfolding ◌+ℤ◌
+ℤ_parts a b = ground arith

pub -ℤ_parts :
    (a b : ℤ)
    → pos_part (a -ℤ b) + neg_part a + pos_part b ≡ neg_part (a -ℤ b) + pos_part a + neg_part b
unfolding ◌-ℤ◌
-ℤ_parts a b = ground arith

pub eq_of_parts : (a b : ℤ) → pos_part a + neg_part b ≡ pos_part b + neg_part a → a ≡ b
eq_of_parts a b h = ground arith

pub ruleset int_laws = (arith, +ℤ_parts, -ℤ_parts, eq_of_parts)

abbrev pub two31 : ℕ
two31 = 2147483648

abbrev pub two32 : ℕ
two32 = 4294967296

-- The bit pattern of an integer in 32 bits, and the signed value of a bit pattern.
abbrev pub to_u32 : ℤ → ℕ
to_u32 (pos n) = n % two32
to_u32 (negsuc n) = two32 - 1 - n % two32

abbrev pub of_u32 : ℕ → ℤ
of_u32 u = if ltb u two31 then pos u else negsuc (two32 - 1 - u)

-- Go's conversion `int32(x)`.
unfoldable pub to_int32 : ℤ → ℤ
to_int32 z = of_u32 (to_u32 z)

-- `a + b` and `a - b` on int32.
unfoldable pub add32 : ℤ → ℤ → ℤ
add32 a b = to_int32 (a +ℤ b)

unfoldable pub sub32 : ℤ → ℤ → ℤ
sub32 a b = to_int32 (a -ℤ b)

unfoldable pub mul32 : ℤ → ℤ → ℤ
unfolding ◌*ℤ◌
mul32 a b = to_int32 (a *ℤ b)

-- The values of an `int32`.
abbrev pub IsInt32 : ℤ → Type 0
IsInt32 z = (negsuc 2147483647 ≤ℤ z) × (z ≤ℤ pos 2147483647)

-- Conversion changes no value that fits.
pub to_int32_of_fits : (z : ℤ) → IsInt32 z → to_int32 z ≡ z
unfolding to_int32
to_int32_of_fits (pos n) h = ground arith
to_int32_of_fits (negsuc n) h = ground arith

pub to_int32-IsInt32 : (z : ℤ) → IsInt32 (to_int32 z)
unfolding to_int32
to_int32-IsInt32 (pos n) = ground arith
to_int32-IsInt32 (negsuc n) = ground arith

-- The pattern of a sum depends on the patterns of its parts alone.
pub u32-add : (a b : ℤ) → to_u32 (a +ℤ b) ≡ (to_u32 a + to_u32 b) % two32
unfolding ◌+ℤ◌
u32-add (pos m) (pos n) = ground arith
u32-add (pos m) (negsuc n) = ground arith
u32-add (negsuc m) (pos n) = ground arith
u32-add (negsuc m) (negsuc n) = ground arith

pub u32-int32 : (a : ℤ) → to_u32 (to_int32 a) ≡ to_u32 a
unfolding to_int32
u32-int32 (pos m) = ground arith
u32-int32 (negsuc m) = ground arith

pub to_int32-add_left : (a b : ℤ) → to_int32 (to_int32 a +ℤ b) ≡ to_int32 (a +ℤ b)
unfolding to_int32
to_int32-add_left a b = rw (u32-add, u32-add, u32-int32) refl

pub to_int32-add_right : (a b : ℤ) → to_int32 (a +ℤ to_int32 b) ≡ to_int32 (a +ℤ b)
unfolding to_int32
to_int32-add_right a b = rw (u32-add, u32-add, u32-int32) refl

-- Go's `/ 2`, which rounds towards zero, and `% 2 == 0`.
unfoldable pub half : ℤ → ℤ
half (pos n) = pos (n / 2)
half (negsuc n) = sub_ℕ 0 (suc n / 2)

unfoldable pub is_even : ℤ → Bool
is_even (pos n) = nat_beq (n % 2) 0
is_even (negsuc n) = nat_beq (suc n % 2) 0

abbrev pub fits_int32 : ℤ → Bool
fits_int32 z = leb_ℤ (negsuc 2147483647) z && leb_ℤ z (pos 2147483647)

-- The bits of a difference, and the value of an int32 as a function of its bits.
pub u32-sub : (a b : ℤ) → to_u32 (a -ℤ b) ≡ (to_u32 a + two32 - to_u32 b) % two32
unfolding ◌-ℤ◌
u32-sub (pos m) (pos n) = ground arith
u32-sub (pos m) (negsuc n) = ground arith
u32-sub (negsuc m) (pos n) = ground arith
u32-sub (negsuc m) (negsuc n) = ground arith

pub int32_of_u32 : (a b : ℤ) → to_u32 a ≡ to_u32 b → to_int32 a ≡ to_int32 b
unfolding to_int32
int32_of_u32 a b e = ap of_u32 e

pub u32-lt : (a : ℤ) → to_u32 a < two32
u32-lt (pos n) = omega arith
u32-lt (negsuc n) = omega arith

pub int32_self : (a : ℤ) → IsInt32 a → a ≡ to_int32 a
int32_self a h = sym (to_int32_of_fits a h)
