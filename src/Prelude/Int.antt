-- ===== src/Prelude/Int.antt =====
-- The signed integers of C: ℤ over the native numbers, and two's complement.
use boring.Prelude.{ℕ, suc, ◌+◌, ◌-◌, ◌/◌, ◌%◌, ◌^◌, ◌≤◌, ◌<◌, Bool, ltb, leb, if◌then◌else◌}

-- `negsuc n` is -(n + 1).
pub data ℤ : Type 0 where
  pos : ℕ → ℤ
  negsuc : ℕ → ℤ

abbrev pub pos_part : ℤ → ℕ
pos_part (pos n) = n
pos_part (negsuc n) = 0

abbrev pub neg_part : ℤ → ℕ
neg_part (pos n) = 0
neg_part (negsuc n) = suc n

-- a - b, as an integer.
abbrev pub sub_ℕ : ℕ → ℕ → ℤ
sub_ℕ a b = if leb b a then pos (a - b) else negsuc (b - a - 1)

infixl 65 ◌+ℤ◌ ◌-ℤ◌
infix 50 ◌≤ℤ◌
unfoldable pub ◌+ℤ◌ : ℤ → ℤ → ℤ
a +ℤ b = sub_ℕ (pos_part a + pos_part b) (neg_part a + neg_part b)

unfoldable pub ◌-ℤ◌ : ℤ → ℤ → ℤ
a -ℤ b = sub_ℕ (pos_part a + neg_part b) (neg_part a + pos_part b)

abbrev pub ◌≤ℤ◌ : ℤ → ℤ → Type 0
a ≤ℤ b = pos_part a + neg_part b ≤ pos_part b + neg_part a

abbrev pub ltb_ℤ : ℤ → ℤ → Bool
ltb_ℤ a b = ltb (pos_part a + neg_part b) (pos_part b + neg_part a)

abbrev pub leb_ℤ : ℤ → ℤ → Bool
leb_ℤ a b = leb (pos_part a + neg_part b) (pos_part b + neg_part a)

-- The two's complement pattern of an integer, and the integer of a pattern, at width `w`.
abbrev pub to_pattern : ℕ → ℤ → ℕ
to_pattern w (pos n) = n % 2 ^ w
to_pattern w (negsuc n) = 2 ^ w - 1 - n % 2 ^ w

abbrev pub of_pattern : ℕ → ℕ → ℤ
of_pattern w n = if ltb n (2 ^ w / 2) then pos n else negsuc (2 ^ w - 1 - n)

-- The integers that a signed type of `w` bits holds.
abbrev pub InSigned : ℕ → ℤ → Type 0
InSigned w (pos n) = n < 2 ^ w / 2
InSigned w (negsuc n) = n < 2 ^ w / 2

abbrev pub is_neg : ℤ → Bool
is_neg a = ltb_ℤ a (pos 0)
