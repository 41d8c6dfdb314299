-- ===== src/Text/HexNumber.antt =====
-- `hex2dec` of base/stringutil.cpp: what number a text of digits is read as.
use native.Mathlib.Nat.{pow-le-pow_right, one-le-pow, mod-eq_of_lt}
use native.Mathlib.Numerals.{towards_suc}
use boring.Prelude.{
  ℕ, suc, ◌+◌, ◌*◌, ◌%◌, ◌^◌, ◌≤◌, ◌<◌, ◌≡◌, refl, ap, ◌∙◌, arith, Bool, true, false, ◌&&◌, ◌||◌,
  not, List, [], ◌∷◌, ltb, ◌==◌, holds_below, lookup_table, length, bit_or, bit_or-shifted, All,
}
use boring.Prelude.Int.{ℤ, pos, is_neg, pos_part, of_pattern}
use boring.Outcome.{ok, fault, bad_shift}
use boring.Text.Chars.{IsByte, c2i}
use boring.Text.CharLaws.{hex_value, same}
use boring.Text.Hex.{skip_prefix, hex2dec_loop, hex2dec}

-- The value of a byte as a digit, in either case.
abbrev pub digit_value : ℕ → ℕ
digit_value c = pos_part (hex_value c)

abbrev pub is_hex : ℕ → Bool
is_hex c = not (is_neg (hex_value c))

abbrev pub IsHex : ℕ → Type 0
IsHex c = IsByte c × (is_hex c ≡ true)

-- The number that the digits `cs` spell behind the number `acc`.
abbrev pub spelled : ℕ → List ℕ → ℕ
spelled acc [] = acc
spelled acc (c ∷ cs) = spelled (acc * 16 + digit_value c) cs

digit_test : ℕ → Bool
digit_test c =
    not (is_hex c)
    || same (c2i c) (pos (digit_value c))
      && ltb (digit_value c) 16
      && not (c == b'x')
      && not (c == b'X')

digit_table : holds_below 256 digit_test ≡ true
unfolding holds_below digit_test same c2i
digit_table = refl

record Digit (c : ℕ) : Type 0 where
  value : c2i c ≡ pos (digit_value c)
  small : digit_value c < 16
  no_x : (c == b'x' || c == b'X') ≡ false

row-Digit :
    (c v : ℕ) (d : Bool) (i : ℤ)
    → c2i c ≡ i
    → d ≡ true
    → (not d || same i (pos v) && ltb v 16 && not (c == b'x') && not (c == b'X')) ≡ true
    → (i ≡ pos v) × (v < 16) × ((c == b'x' || c == b'X') ≡ false)
unfolding same
row-Digit c v d i e h row = ground arith

IsHex-Digit : (c : ℕ) → IsHex c → Digit c
unfolding digit_test
IsHex-Digit c (h, d) =
    let (value, small, no_x) =
      row-Digit c (digit_value c) (is_hex c) (c2i c) refl d (lookup_table 256 _ digit_table c h) in
    record { value = value; small = small; no_x = no_x }

sixteen : (k : ℕ) → 2 ^ (k + 4) ≡ 16 * 2 ^ k
sixteen k = simp towards_suc (omega arith)

-- One round, with `k` bits to the right of the digit: the digit fills four clear bits.
round :
    (acc v k : ℕ)
    → v < 16
    → k + 4 ≤ 32
    → bit_or (acc * 2 ^ (k + 4)) ((v * 2 ^ k) % 2 ^ 32) ≡ (acc * 16 + v) * 2 ^ k
round acc v k h small =
    let top : 16 * 2 ^ k ≤ 2 ^ 32 =
      rw (sixteen k) at (pow-le-pow_right {n = 2} (omega arith) small) in
    let low : v * 2 ^ k < 16 * 2 ^ k = grind (arith, one-le-pow k 2) in
    rw (mod-eq_of_lt {n = v * 2 ^ k} {m = 2 ^ 32} (omega (arith, low, top))) (
      bit_or-shifted (k + 4) acc (v * 2 ^ k) (omega (arith, sixteen k, low))
      ∙ omega (arith, ap (λ (t : ℕ). acc * t) (sixteen k)))

-- The loop from the number `acc` on, shifted clear of the digits that are left.
hex2dec_loop-spelled :
    (cs : List ℕ) (acc : ℕ)
    → All IsHex cs
    → length cs ≤ 8
    → hex2dec_loop cs (acc * 2 ^ (length cs * 4)) ≡ ok (spelled acc cs)
unfolding hex2dec_loop
hex2dec_loop-spelled [] acc h small = ap ok (omega arith)
hex2dec_loop-spelled (c ∷ cs) acc (hc, h) small =
    let d : Digit c = IsHex-Digit c hc in
    let e : suc (length cs) * 4 ≡ length cs * 4 + 4 = omega arith in
    let below : ltb (length cs * 4) 32 ≡ true = ground (arith, small) in
    let value : digit_value c % 2 ^ 32 ≡ digit_value c = omega (arith, d.small) in
    rw
      (
        below,
        d.value,
        value,
        e,
        round acc (digit_value c) (length cs * 4) d.small (omega (arith, small)),
      )
      (hex2dec_loop-spelled cs (acc * 16 + digit_value c) h (omega (arith, small)))

no_prefix : (cs : List ℕ) → All IsHex cs → skip_prefix cs ≡ cs
unfolding skip_prefix
no_prefix [] h = refl
no_prefix (c ∷ []) h = refl
no_prefix (c ∷ d ∷ cs) (hc, (hd, h)) = ground (arith, (IsHex-Digit d hd).no_x)

-- A text of at most eight hexadecimal digits of either case, bare or behind `0x` or `0X`, is read as
-- the number that the digits spell, as a bit pattern of the `int` result.
pub hex2dec-spelled :
    (cs : List ℕ)
    → All IsHex cs
    → length cs ≤ 8
    → (hex2dec cs ≡ ok (of_pattern 32 (spelled 0 cs)))
      × (hex2dec (b'0' ∷ b'x' ∷ cs) ≡ ok (of_pattern 32 (spelled 0 cs)))
      × (hex2dec (b'0' ∷ b'X' ∷ cs) ≡ ok (of_pattern 32 (spelled 0 cs)))
unfolding hex2dec
hex2dec-spelled cs h small =
    let e : 0 * 2 ^ (length cs * 4) ≡ 0 = omega arith in
    let run : hex2dec_loop cs 0 ≡ ok (spelled 0 cs) = rw e at (hex2dec_loop-spelled cs 0 h small) in
    (rw (no_prefix cs h, run), rw run, rw run)

-- Of more than eight digits behind `0x` the first is shifted by the width of `int` or more, which is
-- undefined, whatever the characters are.
pub hex2dec_too_long :
    (c : ℕ) (cs : List ℕ) → 8 ≤ length cs → hex2dec (b'0' ∷ b'x' ∷ c ∷ cs) ≡ fault bad_shift
unfolding hex2dec
hex2dec_too_long c cs long = ground arith
