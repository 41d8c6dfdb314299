-- ===== src/Text/Hex.antt =====
-- base/stringutil.cpp: `str2hex`, `hex2str` and `hex2dec`.
use boring.Prelude.{
  ℕ, ◌*◌, ◌/◌, ◌%◌, ◌^◌, true, false, ◌&&◌, ◌||◌, List, [], ◌∷◌, bit_and, bit_or, ltb, ◌==◌,
  if◌then◌else◌, length,
}
use boring.Prelude.Int.{ℤ, to_pattern, of_pattern}
use boring.Outcome.{Outcome, ok, fault, out_of_bounds, bad_shift, ◌>>=◌}
use boring.Text.Chars.{promote, c2i, c2x}

-- A `char` promoted to `int`, as the bit pattern on which `&`, `|` and `<<` work.
abbrev promoted : ℕ → ℕ
promoted c = to_pattern 32 (promote c)

unfoldable pub high_digit : ℕ → ℕ
high_digit c = c2x (bit_and (promoted c) 0xf0 / 2 ^ 4)

unfoldable pub low_digit : ℕ → ℕ
low_digit c = c2x (bit_and (promoted c) 0x0f)

unfoldable pub str2hex : List ℕ → List ℕ
str2hex [] = []
str2hex (c ∷ []) = high_digit c ∷ low_digit c ∷ []
str2hex (c ∷ d ∷ cs) = high_digit c ∷ low_digit c ∷ b':' ∷ str2hex (d ∷ cs)

-- `hig = (hig << 4) | (char)c2i(low)`, cut to a `char`.
unfoldable pub join_digits : ℕ → ℕ → ℕ
join_digits hig low =
    let hig' = to_pattern 8 (c2i hig) in
    let low' = to_pattern 8 (c2i low) in
    bit_or ((promoted hig' * 2 ^ 4) % 2 ^ 32) (promoted low') % 2 ^ 8

-- A lone last character has no `*(it + 1)`.
unfoldable pub hex2str : List ℕ → Outcome (List ℕ)
hex2str [] = ok []
hex2str (c ∷ []) = if c == b':' then ok [] else fault out_of_bounds
hex2str (c ∷ d ∷ cs) = elim (c == b':') [
  | true ↦ hex2str (d ∷ cs)
  | false ↦ hex2str cs >>= λ rest. ok (join_digits c d ∷ rest)
]

-- `p += 2` behind a prefix; the text is that of the C string, without its terminator.
unfoldable pub skip_prefix : List ℕ → List ℕ
skip_prefix (z ∷ x ∷ p) = if z == b'0' && (x == b'x' || x == b'X') then p else z ∷ x ∷ p
skip_prefix p = p

-- The rounds of the loop; `bits` is `(len - i - 1) * 4`, and a shift by the width of `int` or more
-- is undefined.
unfoldable pub hex2dec_loop : List ℕ → ℕ → Outcome ℕ
hex2dec_loop [] num = ok num
hex2dec_loop (c ∷ cs) num =
    let bits = length cs * 4 in
    let temp = (to_pattern 32 (c2i c) * 2 ^ bits) % 2 ^ 32 in
    let rest = hex2dec_loop cs (bit_or num temp) in if ltb bits 32 then rest else fault bad_shift

unfoldable pub hex2dec : List ℕ → Outcome ℤ
unfolding skip_prefix hex2dec_loop
hex2dec hex = do num ← hex2dec_loop (skip_prefix hex) 0; ok (of_pattern 32 num)
