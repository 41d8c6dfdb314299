-- ===== src/Prelude/Bits.antt =====
-- Masks, shifts and unions of bit fields as arithmetic, for every width.
use Prim.Native.Nat.{
  ℕ, zero, suc, ◌+◌, ◌-◌, ◌*◌, ◌/◌, ◌%◌, ◌^◌, ◌≤◌, ◌<◌, min, max, bit_and, bit_or, digits,
  bit_and-bitwise, bit_or-bitwise,
}
use mathlib.Core.Path.{◌≡◌, refl, ap}
use native.Mathlib.Nat.{pow-suc, div-add-mod, mod-lt, div-div-eq-div-mul}
use native.Mathlib.Omega.{arith}

-- One more digit of fuel changes nothing once the first number has run out.
module _ (z : ℕ → ℕ) (f : ℕ → ℕ → ℕ) where
  digits-zero : (n b : ℕ) → digits z f n 0 b ≡ z b
  digits-zero zero b = refl
  digits-zero (suc n) b = refl

  more_fuel : (extra n a b : ℕ) → a ≤ n → digits z f (n + extra) a b ≡ digits z f n a b
  more_fuel extra zero zero b h = digits-zero (0 + extra) b
  more_fuel extra zero (suc a) b h = absurd (omega arith)
  more_fuel extra (suc n) zero b h = let e : suc n + extra ≡ suc (n + extra) = omega arith in rw e
  more_fuel extra (suc n) (suc a) b h =
      let e : suc n + extra ≡ suc (n + extra) = omega arith in
      rw (e, more_fuel extra n (suc a / 2) (b / 2) (omega arith))

  lowest_digit :
      (a b : ℕ) → digits z f a (suc a / 2) (b / 2) ≡ digits z f (suc a / 2) (suc a / 2) (b / 2)
  lowest_digit a b =
      let e : suc a / 2 + (a - suc a / 2) ≡ a = omega arith in
      rw e at (more_fuel (a - suc a / 2) (suc a / 2) (suc a / 2) (b / 2) (omega arith))

pub bit_or_step : (a b : ℕ) → bit_or a b ≡ bit_or (a / 2) (b / 2) * 2 + max (a % 2) (b % 2)
bit_or_step zero b = omega (arith, bit_or-bitwise 0 b, bit_or-bitwise 0 (b / 2))
bit_or_step (suc a) b = omega (
  arith,
  bit_or-bitwise (suc a) b,
  bit_or-bitwise (suc a / 2) (b / 2),
  lowest_digit (λ y. y) max a b,
)

pub bit_and_step : (a b : ℕ) → bit_and a b ≡ bit_and (a / 2) (b / 2) * 2 + min (a % 2) (b % 2)
bit_and_step zero b = omega (arith, bit_and-bitwise 0 b, bit_and-bitwise 0 (b / 2))
bit_and_step (suc a) b = omega (
  arith,
  bit_and-bitwise (suc a) b,
  bit_and-bitwise (suc a / 2) (b / 2),
  lowest_digit (λ y. 0) min a b,
)

halving_or : (n a : ℕ) → a ≤ n → bit_or a 0 ≡ a
halving_or n zero h = refl
halving_or zero (suc a) h = absurd (omega arith)
halving_or (suc n) (suc a) h =
    omega (arith, bit_or_step (suc a) 0, halving_or n (suc a / 2) (omega arith))

pub bit_or-zero : (a : ℕ) → bit_or a 0 ≡ a
bit_or-zero a = halving_or a a (omega arith)

halving_and : (n a : ℕ) → a ≤ n → bit_and a 0 ≡ 0
halving_and n zero h = refl
halving_and zero (suc a) h = absurd (omega arith)
halving_and (suc n) (suc a) h =
    omega (arith, bit_and_step (suc a) 0, halving_and n (suc a / 2) (omega arith))

pub bit_and-zero : (a : ℕ) → bit_and a 0 ≡ 0
bit_and-zero a = halving_and a a (omega arith)

double_pow : (q k : ℕ) → q * 2 ^ suc k ≡ 2 * (q * 2 ^ k)
double_pow q k = omega (arith, ap (λ (t : ℕ). q * t) (pow-suc 2 k))

-- A field shifted clear of the other is added.
pub bit_or-shifted : (k q r : ℕ) → r < 2 ^ k → bit_or (q * 2 ^ k) r ≡ q * 2 ^ k + r
bit_or-shifted zero q r h = ground (arith, bit_or-zero q)
bit_or-shifted (suc k) q r h = ground (
  arith,
  bit_or_step (q * 2 ^ suc k) r,
  double_pow q k,
  pow-suc 2 k,
  bit_or-shifted k q (r / 2) (omega (arith, pow-suc 2 k)),
)

and_below : (k q r m : ℕ) → r < 2 ^ k → m + 1 ≡ 2 ^ k → bit_and (q * 2 ^ k + r) m ≡ r
and_below zero q r zero h e = rw bit_and-zero (omega arith)
and_below zero q r (suc m) h e = absurd (omega arith)
and_below (suc k) q r m h e = ground (
  arith,
  bit_and_step (q * 2 ^ suc k + r) m,
  double_pow q k,
  pow-suc 2 k,
  and_below k q (r / 2) (m / 2) (omega (arith, pow-suc 2 k)) (omega (arith, pow-suc 2 k)),
)

-- A mask of `k` ones is the remainder by `2 ^ k`.
pub bit_and-ones : (k a m : ℕ) → m + 1 ≡ 2 ^ k → bit_and a m ≡ a % 2 ^ k
bit_and-ones k a m e = ground (
  arith,
  div-add-mod a (2 ^ k),
  mod-lt a {m = 2 ^ k} (omega arith),
  and_below k (a / 2 ^ k) (a % 2 ^ k) m,
)

quotient_of_half : (a k : ℕ) → a / 2 / 2 ^ k ≡ a / 2 ^ suc k
quotient_of_half a k = rw (div-div-eq-div-mul, pow-suc) (ap (λ (t : ℕ). a / t) (omega arith))

-- A mask whose `k` low digits are clear.
pub bit_and-shifted : (k a m : ℕ) → bit_and a (m * 2 ^ k) ≡ bit_and (a / 2 ^ k) m * 2 ^ k
bit_and-shifted zero a m = ground arith
bit_and-shifted (suc k) a m = ground (
  arith,
  bit_and_step a (m * 2 ^ suc k),
  double_pow m k,
  double_pow (bit_and (a / 2 ^ suc k) m) k,
  bit_and-shifted k (a / 2) m,
  ap (λ (t : ℕ). bit_and t m * 2 ^ k) (quotient_of_half a k),
)

and_comm_below : (n a b : ℕ) → a + b ≤ n → bit_and a b ≡ bit_and b a
and_comm_below n zero b h = rw bit_and-zero (bit_and-bitwise 0 b)
and_comm_below zero (suc a) b h = absurd (omega arith)
and_comm_below (suc n) (suc a) b h = omega (
  arith,
  bit_and_step (suc a) b,
  bit_and_step b (suc a),
  and_comm_below n (suc a / 2) (b / 2) (omega arith),
)

pub bit_and_comm : (a b : ℕ) → bit_and a b ≡ bit_and b a
bit_and_comm a b = and_comm_below (a + b) a b (omega arith)

-- The field of `a` that a mask on the left of `&` selects: `w` ones above `k` zeros.
pub bit_and_field :
    (k w a m : ℕ) → m + 1 ≡ 2 ^ w → bit_and (m * 2 ^ k) a ≡ a / 2 ^ k % 2 ^ w * 2 ^ k
bit_and_field k w a m e =
    ground (arith, bit_and_comm (m * 2 ^ k) a, bit_and-shifted k a m, bit_and-ones w (a / 2 ^ k) m)
