-- ===== src/Util/Macros.antt =====
-- The BSWAP macros of base/boring.h against the functions of base/util.cpp.
use native.Mathlib.Nat.{mod-eq_of_lt}
use boring.Prelude.{
  ℕ, ◌+◌, ◌*◌, ◌/◌, ◌%◌, ◌^◌, ◌≤◌, ◌<◌, ◌≡◌, refl, sym, ◌∙◌, arith, bit_and-ones, bit_or-shifted,
}
use boring.Util.{little, hton16, hton32, hton64, bswap_16, bswap_32, bswap_64}
use boring.Util.Laws.{hton16_little, hton32_little, hton64_little}

bswap_16_bytes : (w x : ℕ) → 2 ^ 16 ≤ 2 ^ w → bswap_16 w x ≡ x % 256 * 256 + x / 256 % 256
unfolding bswap_16
bswap_16_bytes w x h = ground (
  arith,
  bit_and-ones 8 x 255 refl,
  bit_and-ones 8 (x / 256) 255 refl,
  let p : x % 256 * 256 < 2 ^ w = omega arith in mod-eq_of_lt p,
  bit_or-shifted 8 (x % 256) (x / 256 % 256) (omega arith),
)

bswap_32_bytes :
    (w x : ℕ)
    → 2 ^ 32 ≤ 2 ^ w
    → bswap_32 w x
      ≡ x % 256 * 2 ^ 24 + x / 256 % 256 * 2 ^ 16 + x / 2 ^ 16 % 256 * 2 ^ 8 + x / 2 ^ 24 % 256
unfolding bswap_32
bswap_32_bytes w x h = ground (
  arith,
  bswap_16_bytes w x (omega arith),
  bswap_16_bytes w (x / 2 ^ 16) (omega arith),
  let p : (x % 256 * 256 + x / 256 % 256) * 2 ^ 16 < 2 ^ w = omega arith in mod-eq_of_lt p,
  bit_or-shifted 16 (x % 256 * 256 + x / 256 % 256) (x / 2 ^ 16 % 256 * 256 + x / 2 ^ 24 % 256)
      (omega arith),
)

bswap_64_bytes :
    (x : ℕ)
    → bswap_64 64 x
      ≡ (x % 256 * 2 ^ 24 + x / 256 % 256 * 2 ^ 16 + x / 2 ^ 16 % 256 * 2 ^ 8 + x / 2 ^ 24 % 256)
          * 2 ^ 32
        + (x / 2 ^ 32 % 256 * 2 ^ 24
            + x / 2 ^ 40 % 256 * 2 ^ 16
            + x / 2 ^ 48 % 256 * 2 ^ 8
            + x / 2 ^ 56 % 256)
unfolding bswap_64
bswap_64_bytes x = ground (
  arith,
  bswap_32_bytes 64 x (omega arith),
  bswap_32_bytes 64 (x / 2 ^ 32) (omega arith),
  bit_or-shifted 32
      (x % 256 * 2 ^ 24 + x / 256 % 256 * 2 ^ 16 + x / 2 ^ 16 % 256 * 2 ^ 8 + x / 2 ^ 24 % 256)
      (x / 2 ^ 32 % 256 * 2 ^ 24
        + x / 2 ^ 40 % 256 * 2 ^ 16
        + x / 2 ^ 48 % 256 * 2 ^ 8
        + x / 2 ^ 56 % 256)
      (omega arith),
)

-- On a little-endian host the macros compute what the functions do: `BSWAP_16` and `BSWAP_32` on
-- an operand of 32 bits, `BSWAP_64` on one of 64 bits, for every value that fits the macro's width.
pub bswap-hton :
    (x16 x32 x64 : ℕ)
    → x16 < 2 ^ 16
    → x32 < 2 ^ 32
    → (bswap_16 32 x16 ≡ hton16 little x16)
      × (bswap_32 32 x32 ≡ hton32 little x32)
      × (bswap_64 64 x64 ≡ hton64 little x64)
bswap-hton x16 x32 x64 h16 h32 = (
  omega (arith, bswap_16_bytes 32 x16 (omega arith), hton16_little x16 h16),
  bswap_32_bytes 32 x32 (omega arith) ∙ sym (hton32_little x32 h32),
  bswap_64_bytes x64 ∙ sym (hton64_little x64),
)
