-- ===== src/Util/Laws.antt =====
-- The byte order that `hton16`, `hton32` and `hton64` of base/util.cpp produce.
use boring.Prelude.{
  ℕ, zero, suc, ◌+◌, ◌*◌, ◌/◌, ◌%◌, ◌^◌, ◌<◌, ◌≡◌, refl, arith, List, [], ◌∷◌, bit_or, bit_and-ones,
  bit_and_field, bit_or-shifted,
}
use boring.Util.{up64, Endian, little, big, stored, hton16, hton32, hton64}

-- Most significant byte first, whatever the host.
abbrev pub network : ℕ → ℕ → List ℕ
network zero x = []
network (suc n) x = x / 256 ^ n % 256 ∷ network n x

pub hton16_little : (x : ℕ) → x < 2 ^ 16 → hton16 little x ≡ x % 256 * 256 + x / 256
unfolding hton16
hton16_little x h = ground (
  arith,
  bit_and_field 0 8 x 255 refl,
  bit_and-ones 8 (x / 256) 255 refl,
  bit_or-shifted 8 (x % 256) (x / 256 % 256) (omega arith),
)

-- Four bytes under `|`, each clear of the others.
join4 :
    (a b c d : ℕ)
    → b < 256
    → c < 256
    → d < 256
    → bit_or (bit_or (bit_or (a * 2 ^ 24) (b * 2 ^ 16)) (c * 2 ^ 8)) d
      ≡ a * 2 ^ 24 + b * 2 ^ 16 + c * 2 ^ 8 + d
join4 a b c d hb hc hd = ground (
  arith,
  bit_or-shifted 24 a (b * 2 ^ 16),
  bit_or-shifted 16 (a * 2 ^ 8 + b) (c * 2 ^ 8),
  bit_or-shifted 8 (a * 2 ^ 16 + b * 2 ^ 8 + c) d,
)

pub hton32_little :
    (x : ℕ)
    → x < 2 ^ 32
    → hton32 little x
      ≡ x % 256 * 2 ^ 24 + x / 256 % 256 * 2 ^ 16 + x / 2 ^ 16 % 256 * 2 ^ 8 + x / 2 ^ 24 % 256
unfolding hton32
hton32_little x h = ground (
  arith,
  bit_and_field 0 8 x 255 refl,
  bit_and_field 8 8 x 255 refl,
  bit_and_field 16 8 x 255 refl,
  bit_and_field 24 8 x 255 refl,
  join4 (x % 256) (x / 256 % 256) (x / 2 ^ 16 % 256) (x / 2 ^ 24 % 256),
)

-- Eight bytes: the four that move up, then the four that move down.
join8 :
    (q a b c d : ℕ)
    → a < 256
    → b < 256
    → c < 256
    → d < 256
    → bit_or (bit_or (bit_or (bit_or (q * 2 ^ 32) (a * 2 ^ 24)) (b * 2 ^ 16)) (c * 2 ^ 8)) d
      ≡ q * 2 ^ 32 + (a * 2 ^ 24 + b * 2 ^ 16 + c * 2 ^ 8 + d)
join8 q a b c d ha hb hc hd =
    ground (arith, bit_or-shifted 32 q (a * 2 ^ 24), join4 (q * 2 ^ 8 + a) b c d)

up64_lem :
    (x : ℕ)
    → up64 x
      ≡ (x % 256 * 2 ^ 24 + x / 256 % 256 * 2 ^ 16 + x / 2 ^ 16 % 256 * 2 ^ 8 + x / 2 ^ 24 % 256)
        * 2 ^ 32
up64_lem x = ground (
  arith,
  bit_and_field 0 8 x 255 refl,
  bit_and_field 8 8 x 255 refl,
  bit_and_field 16 8 x 255 refl,
  bit_and_field 24 8 x 255 refl,
  bit_or-shifted 56 (x % 256) (x / 256 % 256 * 2 ^ 48),
  bit_or-shifted 48 (x % 256 * 256 + x / 256 % 256) (x / 2 ^ 16 % 256 * 2 ^ 40),
  bit_or-shifted 40 (x % 256 * 2 ^ 16 + x / 256 % 256 * 256 + x / 2 ^ 16 % 256)
      (x / 2 ^ 24 % 256 * 2 ^ 32),
)

pub hton64_little :
    (x : ℕ)
    → hton64 little x
      ≡ (x % 256 * 2 ^ 24 + x / 256 % 256 * 2 ^ 16 + x / 2 ^ 16 % 256 * 2 ^ 8 + x / 2 ^ 24 % 256)
          * 2 ^ 32
        + (x / 2 ^ 32 % 256 * 2 ^ 24
            + x / 2 ^ 40 % 256 * 2 ^ 16
            + x / 2 ^ 48 % 256 * 2 ^ 8
            + x / 2 ^ 56 % 256)
unfolding hton64
hton64_little x = ground (
  arith,
  up64_lem x,
  bit_and_field 32 8 x 255 refl,
  bit_and_field 40 8 x 255 refl,
  bit_and_field 48 8 x 255 refl,
  bit_and_field 56 8 x 255 refl,
  join8 (x % 256 * 2 ^ 24 + x / 256 % 256 * 2 ^ 16 + x / 2 ^ 16 % 256 * 2 ^ 8 + x / 2 ^ 24 % 256)
      (x / 2 ^ 32 % 256) (x / 2 ^ 40 % 256) (x / 2 ^ 48 % 256) (x / 2 ^ 56 % 256),
)

module _ (x16 x32 x64 : ℕ) (h16 : x16 < 2 ^ 16) (h32 : x32 < 2 ^ 32) (h64 : x64 < 2 ^ 64) where
  -- On a host of either byte order, what the three conversions leave in memory is the value's
  -- bytes, most significant first, for every value of the width.
  pub stored-hton :
      (e : Endian)
      → (stored e 2 (hton16 e x16) ≡ network 2 x16)
        × (stored e 4 (hton32 e x32) ≡ network 4 x32)
        × (stored e 8 (hton64 e x64) ≡ network 8 x64)
  stored-hton little = (
    rw (hton16_little x16 h16) (ground arith),
    rw (hton32_little x32 h32) (ground arith),
    rw (hton64_little x64) (ground arith),
  )
  stored-hton big = unfold hton16 hton32 hton64 in (ground arith, ground arith, ground arith)

  -- Each conversion undoes itself, on a host of either byte order and for every value of the
  -- width, and its result fits the width.
  pub hton-hton :
      (e : Endian)
      → (hton16 e (hton16 e x16) ≡ x16)
        × (hton32 e (hton32 e x32) ≡ x32)
        × (hton64 e (hton64 e x64) ≡ x64)
        × (hton16 e x16 < 2 ^ 16)
        × (hton32 e x32 < 2 ^ 32)
        × (hton64 e x64 < 2 ^ 64)
  hton-hton little =
      let l16 : hton16 little x16 < 2 ^ 16 = omega (arith, hton16_little x16 h16) in
      let l32 : hton32 little x32 < 2 ^ 32 = omega (arith, hton32_little x32 h32) in
      let l64 : hton64 little x64 < 2 ^ 64 = omega (arith, hton64_little x64) in
      (
        omega (arith, hton16_little x16 h16, hton16_little _ l16),
        omega (arith, hton32_little x32 h32, hton32_little _ l32),
        omega (arith, hton64_little x64, hton64_little (hton64 little x64)),
        l16,
        l32,
        l64,
      )
  hton-hton big = unfold hton16 hton32 hton64 in (refl, refl, refl, h16, h32, h64)
