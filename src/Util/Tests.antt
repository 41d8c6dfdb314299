-- ===== src/Util/Tests.antt =====
-- The conversions of base/util.cpp on single values.
use boring.Prelude.{◌≡◌, refl, arith, ◌<◌, ◌^◌}
use boring.Util.{little, stored, hton16, hton32, hton64, bswap_16, bswap_32, bswap_64}
use boring.Util.Laws.{network, stored-hton, hton-hton}
use boring.Util.Macros.{bswap-hton}

hton16_little : hton16 little 0x1234 ≡ 0x3412
unfolding hton16
hton16_little = refl

stored-hton_example :
    (stored little 2 (hton16 little 0x1234) ≡ network 2 0x1234)
    × (stored little 4 (hton32 little 0x12345678) ≡ network 4 0x12345678)
    × (stored little 8 (hton64 little 0x123456789abcdef0) ≡ network 8 0x123456789abcdef0)
stored-hton_example =
    stored-hton 0x1234 0x12345678 0x123456789abcdef0 (omega arith) (omega arith) (omega arith)
      little

hton-hton_applied :
    (hton16 little (hton16 little 0x1234) ≡ 0x1234)
    × (hton32 little (hton32 little 0x12345678) ≡ 0x12345678)
    × (hton64 little (hton64 little 0x123456789abcdef0) ≡ 0x123456789abcdef0)
    × (hton16 little 0x1234 < 2 ^ 16)
    × (hton32 little 0x12345678 < 2 ^ 32)
    × (hton64 little 0x123456789abcdef0 < 2 ^ 64)
hton-hton_applied =
    hton-hton 0x1234 0x12345678 0x123456789abcdef0 (omega arith) (omega arith) (omega arith) little

bswap-hton_applied :
    (bswap_16 32 0x1234 ≡ hton16 little 0x1234)
    × (bswap_32 32 0x12345678 ≡ hton32 little 0x12345678)
    × (bswap_64 64 0x123456789abcdef0 ≡ hton64 little 0x123456789abcdef0)
bswap-hton_applied = bswap-hton 0x1234 0x12345678 0x123456789abcdef0 (omega arith) (omega arith)
