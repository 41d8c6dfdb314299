-- ===== src/Util.antt =====
-- base/util.cpp and the BSWAP macros of base/boring.h: byte order. The host's byte order is an
-- argument; a stored value is the list of its bytes, lowest address first.
pub mod Laws
pub mod Macros
mod Tests
use boring.Prelude.{
  ℕ, zero, suc, ◌*◌, ◌/◌, ◌%◌, ◌^◌, Bool, true, false, List, [], ◌∷◌, bit_and, bit_or, ◌==◌,
  if◌then◌else◌,
}
use mathlib.Core.List.{reverse}

pub data Endian : Type 0 where
  little big : Endian

-- The `n` low bytes of a value, lowest first.
abbrev pub low_bytes : ℕ → ℕ → List ℕ
low_bytes zero x = []
low_bytes (suc n) x = x % 256 ∷ low_bytes n (x / 256)

-- How the host stores a value of `n` bytes.
abbrev pub stored : Endian → ℕ → ℕ → List ℕ
stored little n x = low_bytes n x
stored big n x = reverse (low_bytes n x)

abbrev first_byte : List ℕ → ℕ
first_byte [] = 0
first_byte (b ∷ bs) = b

-- `*(int8*)&p` of `const uint16 p = 0x0001`, as a condition.
unfoldable pub is_big_endian : Endian → Bool
is_big_endian e = if first_byte (stored e 2 0x0001) == 0 then true else false

infixl 75 ◌<<◌ ◌>>◌
abbrev ◌<<◌ : ℕ → ℕ → ℕ
x << k = x * 2 ^ k

abbrev ◌>>◌ : ℕ → ℕ → ℕ
x >> k = x / 2 ^ k

unfoldable pub hton16 : Endian → ℕ → ℕ
unfolding is_big_endian
hton16 e host16 =
    if is_big_endian e
    then host16
    else bit_or (bit_and 0xff host16 << 8) (bit_and (host16 >> 8) 0xff) % 2 ^ 16

unfoldable pub hton32 : Endian → ℕ → ℕ
unfolding is_big_endian
hton32 e host32 =
    if is_big_endian e
    then host32
    else bit_or
        (bit_or
          (bit_or ((bit_and 0x000000ff host32 << 24) % 2 ^ 32)
            ((bit_and 0x0000ff00 host32 << 8) % 2 ^ 32))
          (bit_and 0x00ff0000 host32 >> 8))
        (bit_and 0xff000000 host32 >> 24)

-- The four terms that move a byte up, and the four that move one down.
abbrev pub up64 : ℕ → ℕ
up64 host64 =
    bit_or
      (bit_or
        (bit_or ((bit_and 0x00000000000000ff host64 << 56) % 2 ^ 64)
          ((bit_and 0x000000000000ff00 host64 << 40) % 2 ^ 64))
        ((bit_and 0x0000000000ff0000 host64 << 24) % 2 ^ 64))
      ((bit_and 0x00000000ff000000 host64 << 8) % 2 ^ 64)

unfoldable pub hton64 : Endian → ℕ → ℕ
unfolding is_big_endian
hton64 e host64 =
    if is_big_endian e
    then host64
    else bit_or
        (bit_or
          (bit_or (bit_or (up64 host64) (bit_and 0x000000ff00000000 host64 >> 8))
            (bit_and 0x0000ff0000000000 host64 >> 24))
          (bit_and 0x00ff000000000000 host64 >> 40))
        (bit_and 0xff00000000000000 host64 >> 56)

-- The macros, on an operand of an unsigned type of `w` bits.
unfoldable pub bswap_8 : ℕ → ℕ
bswap_8 x = bit_and x 0xff

unfoldable pub bswap_16 : ℕ → ℕ → ℕ
unfolding bswap_8
bswap_16 w x = bit_or ((bswap_8 x << 8) % 2 ^ w) (bswap_8 (x >> 8))

unfoldable pub bswap_32 : ℕ → ℕ → ℕ
bswap_32 w x = bit_or ((bswap_16 w x << 16) % 2 ^ w) (bswap_16 w (x >> 16))

unfoldable pub bswap_64 : ℕ → ℕ → ℕ
bswap_64 w x = bit_or ((bswap_32 w x << 32) % 2 ^ w) (bswap_32 w (x >> 32))
