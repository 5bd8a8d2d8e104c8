-- ===== src/Prelude/Int.antt =====
-- C integers: ℤ for `int` and `int32_t`, and the conversions between an integer and its bit
-- pattern of w bits.
use libllfat.Prelude.{
  ℕ, suc, ◌+◌, ◌-◌, ◌*◌, ◌/◌, ◌%◌, ◌<◌, ◌≤◌, ◌≡◌, Bool, false, arith, ltb, leb, ◌==◌, if◌then◌else◌,
}

-- `negsuc n` is -(n + 1).
pub data ℤ : Type 0 where
  pos : ℕ → ℤ
  negsuc : ℕ → ℤ

abbrev pub pos_part : ℤ → ℕ
pos_part (pos n) = n
pos_part (negsuc n) = 0

abbrev pub neg_part : ℤ → ℕ
neg_part (pos n) = 0
neg_part (negsuc n) = suc n

-- a - b, as an integer.
abbrev pub sub_ℕ : ℕ → ℕ → ℤ
sub_ℕ a b = if leb b a then pos (a - b) else negsuc (b - a - 1)

abbrev pub eqb_ℤ : ℤ → ℤ → Bool
eqb_ℤ (pos a) (pos b) = a == b
eqb_ℤ (negsuc a) (negsuc b) = a == b
eqb_ℤ (pos a) (negsuc b) = false
eqb_ℤ (negsuc a) (pos b) = false

abbrev pub ltb_ℤ : ℤ → ℤ → Bool
ltb_ℤ a b = ltb (pos_part a + neg_part b) (pos_part b + neg_part a)

-- The conversion of an integer to an unsigned type of `w` values: reduction modulo `w`.
abbrev pub wrap : ℕ → ℤ → ℕ
wrap w (pos n) = n % w
wrap w (negsuc n) = w - 1 - n % w

-- The integer that a pattern of a signed type with `2 * h` values stands for.
abbrev pub signed : ℕ → ℕ → ℤ
signed h x = if ltb x h then pos x else negsuc (2 * h - x - 1)

abbrev pub u16 : ℤ → ℕ
u16 = wrap 0x1_0000

abbrev pub u32 : ℤ → ℕ
u32 = wrap 0x1_0000_0000

abbrev pub i8 : ℕ → ℤ
i8 = signed 0x80

abbrev pub i32 : ℕ → ℤ
i32 = signed 0x8000_0000

abbrev pub minus_one : ℤ
minus_one = negsuc 0

-- An `int32_t`.
abbrev pub IsInt32 : ℤ → Type 0
IsInt32 z = (pos_part z < 0x8000_0000) × (neg_part z ≤ 0x8000_0000)

pub i32-u32 : (z : ℤ) → IsInt32 z → i32 (u32 z) ≡ z
i32-u32 (pos n) h = ground arith
i32-u32 (negsuc n) h = ground arith

infixl 70 ◌*ℤ◌
infixl 65 ◌+ℤ◌ ◌-ℤ◌
unfoldable pub ◌+ℤ◌ : ℤ → ℤ → ℤ
a +ℤ b = sub_ℕ (pos_part a + pos_part b) (neg_part a + neg_part b)

unfoldable pub ◌-ℤ◌ : ℤ → ℤ → ℤ
a -ℤ b = sub_ℕ (pos_part a + neg_part b) (neg_part a + pos_part b)

unfoldable pub ◌*ℤ◌ : ℤ → ℤ → ℤ
a *ℤ b =
    sub_ℕ (pos_part a * pos_part b + neg_part a * neg_part b)
      (pos_part a * neg_part b + neg_part a * pos_part b)

-- C's division, which rounds towards 0, by a positive divisor.
unfoldable pub div_ℤ : ℤ → ℕ → ℤ
div_ℤ (pos n) k = pos (n / k)
div_ℤ (negsuc n) k = sub_ℕ 0 (suc n / k)

pub pos-*ℤ : (a b : ℕ) → pos a *ℤ pos b ≡ pos (a * b)
unfolding ◌*ℤ◌
pos-*ℤ a b = ground arith
