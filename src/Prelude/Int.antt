-- ===== src/Prelude/Int.antt =====
-- C's `int`: a signed 32-bit number. Sums and products are computed in ℤ and wrapped, as the
-- compiled code wraps them.
use Prim.Native.Nat.{ℕ, suc, ◌+◌, ◌-◌, ◌*◌, ◌^◌, ◌%◌, ◌≤◌, ◌<◌}
use mathlib.Core.Bool.{Bool, true}
use mathlib.Core.Path.{◌≡◌}
use native.Mathlib.Omega.{arith}
use system_programming_team.Prelude.Tests.{ltb, leb, ◌==◌, if◌then◌else◌}

-- `negsuc n` is -(n + 1).
pub data ℤ : Type 0 where
  pos : ℕ → ℤ
  negsuc : ℕ → ℤ

abbrev pub pos_part : ℤ → ℕ
pos_part (pos n) = n
pos_part (negsuc n) = 0

abbrev pub neg_part : ℤ → ℕ
neg_part (pos n) = 0
neg_part (negsuc n) = suc n

-- a - b, as an integer.
abbrev pub sub_ℕ : ℕ → ℕ → ℤ
sub_ℕ a b = if leb b a then pos (a - b) else negsuc (b - a - 1)

infixl 65 ◌+ℤ◌
infixl 70 ◌*ℤ◌
infix 50 ◌≤ℤ◌ ◌<ℤ◌
unfoldable pub ◌+ℤ◌ : ℤ → ℤ → ℤ
a +ℤ b = sub_ℕ (pos_part a + pos_part b) (neg_part a + neg_part b)

unfoldable pub ◌*ℤ◌ : ℤ → ℤ → ℤ
a *ℤ b =
    sub_ℕ (pos_part a * pos_part b + neg_part a * neg_part b)
      (pos_part a * neg_part b + neg_part a * pos_part b)

abbrev pub ◌≤ℤ◌ : ℤ → ℤ → Type 0
a ≤ℤ b = pos_part a + neg_part b ≤ pos_part b + neg_part a

abbrev pub ◌<ℤ◌ : ℤ → ℤ → Type 0
a <ℤ b = pos_part a + neg_part b < pos_part b + neg_part a

abbrev pub leb_ℤ : ℤ → ℤ → Bool
leb_ℤ a b = leb (pos_part a + neg_part b) (pos_part b + neg_part a)

abbrev pub ltb_ℤ : ℤ → ℤ → Bool
ltb_ℤ a b = ltb (pos_part a + neg_part b) (pos_part b + neg_part a)

abbrev pub eqb_ℤ : ℤ → ℤ → Bool
eqb_ℤ a b = pos_part a + neg_part b == pos_part b + neg_part a

pub eqb_ℤ→eq : (a b : ℤ) → eqb_ℤ a b ≡ true → a ≡ b
eqb_ℤ→eq a b h = ground arith

pub eqb_ℤ_self : (a : ℤ) → eqb_ℤ a a ≡ true
eqb_ℤ_self a = ground arith

-- The integer of a 32-bit pattern.
abbrev pub signed32 : ℕ → ℤ
signed32 w = if ltb w (2 ^ 31) then pos w else negsuc (2 ^ 32 - w - 1)

unfoldable pub wrap : ℤ → ℤ
wrap (pos n) = signed32 (n % 2 ^ 32)
wrap (negsuc n) = signed32 (2 ^ 32 - 1 - n % 2 ^ 32)

abbrev pub int_max : ℤ
int_max = pos (2 ^ 31 - 1)

abbrev pub int_min : ℤ
int_min = negsuc (2 ^ 31 - 1)

-- An `int` that is in range.
pub record IsInt (a : ℤ) : Type 0 where
  pub above : int_min ≤ℤ a
  pub below : a ≤ℤ int_max

unfoldable pub add_int : ℤ → ℤ → ℤ
unfolding wrap ◌+ℤ◌
add_int a b = wrap (a +ℤ b)

unfoldable pub mul_int : ℤ → ℤ → ℤ
unfolding wrap ◌*ℤ◌
mul_int a b = wrap (a *ℤ b)

-- In range nothing wraps.
pub wrap_id : (a : ℤ) → IsInt a → wrap a ≡ a
unfolding wrap
wrap_id a h = ground arith

pub wrap-IsInt : (a : ℤ) → IsInt (wrap a)
unfolding wrap
wrap-IsInt a = ground arith

pub wrap-add : (a b : ℤ) → wrap (wrap a +ℤ b) ≡ wrap (a +ℤ b)
unfolding wrap ◌+ℤ◌
wrap-add a b = ground arith
