-- ===== src/Storage/Tally/Sum.antt =====
-- Sums of shares.
use wcwcpp_backend.Base.{◌≡◌, arith, List, [], ◌∷◌}
use wcwcpp_backend.Base.Int.{
  ℤ, pos, negsuc, ◌+ℤ◌, to_int32, add32, u32-add, u32-int32, int32_of_u32, to_int32-IsInt32,
  IsInt32,
}
use wcwcpp_backend.Entity.{Uuid}
use wcwcpp_backend.Rows.{MatchRow}
use wcwcpp_backend.Storage.Tally.{Share, no_share, plus, total}

pub add32_swap : (a b c : ℤ) → add32 a (add32 b c) ≡ add32 b (add32 a c)
unfolding add32
add32_swap a b c = int32_of_u32 _ _ (simp (u32-add, u32-int32) (omega arith))

pub add32_comm : (a b : ℤ) → add32 a b ≡ add32 b a
unfolding add32
add32_comm a b = int32_of_u32 _ _ (simp u32-add (omega arith))

-- Ends in an int32.
pub add32_zero : (a : ℤ) → IsInt32 a → add32 (pos 0) a ≡ a
unfolding add32 ◌+ℤ◌ to_int32
add32_zero (pos n) h = ground arith
add32_zero (negsuc n) h = ground arith

pub plus_swap : (a b c : Share) → plus a (plus b c) ≡ plus b (plus a c)
plus_swap a b c i = record {
  points = add32_swap a.points b.points c.points i;
  wins = add32_swap a.wins b.wins c.wins i;
  draws = add32_swap a.draws b.draws c.draws i;
  losses = add32_swap a.losses b.losses c.losses i;
  gf = add32_swap a.gf b.gf c.gf i;
  ga = add32_swap a.ga b.ga c.ga i;
  cs = add32_swap a.cs b.cs c.cs i;
}

-- Every column is an int32.
pub record Fits (a : Share) : Type 0 where
  pub points : IsInt32 a.points
  pub wins : IsInt32 a.wins
  pub draws : IsInt32 a.draws
  pub losses : IsInt32 a.losses
  pub gf : IsInt32 a.gf
  pub ga : IsInt32 a.ga
  pub cs : IsInt32 a.cs

plus-Fits : (a b : Share) → Fits (plus a b)
unfolding add32
plus-Fits a b = record {
  points = to_int32-IsInt32 _;
  wins = to_int32-IsInt32 _;
  draws = to_int32-IsInt32 _;
  losses = to_int32-IsInt32 _;
  gf = to_int32-IsInt32 _;
  ga = to_int32-IsInt32 _;
  cs = to_int32-IsInt32 _;
}

pub total-Fits : (contest c : Uuid) (ms : List MatchRow) → Fits (total contest c ms)
unfolding total
total-Fits contest c [] = record {
  points = omega arith;
  wins = omega arith;
  draws = omega arith;
  losses = omega arith;
  gf = omega arith;
  ga = omega arith;
  cs = omega arith;
}
total-Fits contest c (m ∷ ms) = plus-Fits _ _

pub plus_none : (a : Share) → Fits a → plus no_share a ≡ a
plus_none a h i = record {
  points = add32_zero a.points h.points i;
  wins = add32_zero a.wins h.wins i;
  draws = add32_zero a.draws h.draws i;
  losses = add32_zero a.losses h.losses i;
  gf = add32_zero a.gf h.gf i;
  ga = add32_zero a.ga h.ga i;
  cs = add32_zero a.cs h.cs i;
}
