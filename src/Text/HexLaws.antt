-- ===== src/Text/HexLaws.antt =====
-- `str2hex` and `hex2str` of base/stringutil.cpp are inverse to one another.
use boring.Prelude.{
  ℕ, ◌≡◌, refl, ◌∙◌, arith, true, false, ◌&&◌, not, List, [], ◌∷◌, ◌++◌, ◌==◌, holds_below,
  lookup_table,
}
use boring.Outcome.{ok, fault, out_of_bounds, ◌>>=◌}
use boring.Text.Chars.{IsByte, Bytes, c2i, c2x}
use boring.Text.Hex.{high_digit, low_digit, str2hex, join_digits, hex2str}

byte_table :
    holds_below 256
      (λ c. join_digits (high_digit c) (low_digit c) == c && not (high_digit c == b':'))
    ≡ true
unfolding holds_below join_digits high_digit low_digit c2i c2x
byte_table = refl

joined :
    (c : ℕ)
    → IsByte c
    → (join_digits (high_digit c) (low_digit c) ≡ c) × ((high_digit c == b':') ≡ false)
joined c h = ground (arith, lookup_table 256 _ byte_table c h)

pair_step :
    (hi lo : ℕ) (rest : List ℕ)
    → (hi == b':') ≡ false
    → hex2str (hi ∷ lo ∷ rest) ≡ (hex2str rest >>= λ r. ok (join_digits hi lo ∷ r))
unfolding hex2str
pair_step hi lo rest h = rw (h, hex2str)

colon_step : (d : ℕ) (cs : List ℕ) → hex2str (b':' ∷ str2hex (d ∷ cs)) ≡ hex2str (str2hex (d ∷ cs))
unfolding hex2str str2hex
colon_step d [] = refl
colon_step d (e ∷ cs) = refl

colon_step_more :
    (d : ℕ) (cs more : List ℕ)
    → hex2str (b':' ∷ (str2hex (d ∷ cs) ++ more)) ≡ hex2str (str2hex (d ∷ cs) ++ more)
unfolding hex2str str2hex
colon_step_more d [] more = refl
colon_step_more d (e ∷ cs) more = refl

hex2str-nil : hex2str [] ≡ ok []
unfolding hex2str
hex2str-nil = refl

-- `hex2str` takes back what `str2hex` made, for every string of bytes.
pub hex2str-str2hex : (s : List ℕ) → Bytes s → hex2str (str2hex s) ≡ ok s
unfolding str2hex
hex2str-str2hex [] h = hex2str-nil
hex2str-str2hex (c ∷ []) (hc, h) =
    pair_step (high_digit c) (low_digit c) [] (joined c hc).1 ∙ rw (hex2str-nil, (joined c hc).0)
hex2str-str2hex (c ∷ d ∷ cs) (hc, h) =
    pair_step (high_digit c) (low_digit c) (b':' ∷ str2hex (d ∷ cs)) (joined c hc).1
    ∙ rw (colon_step d cs, hex2str-str2hex (d ∷ cs) h, (joined c hc).0)

-- A text that ends within a pair of digits is read past its end: after any encoded string, one more
-- character that is no `:` takes `hex2str` out of bounds.
pub hex2str_odd :
    (s : List ℕ) (c : ℕ)
    → Bytes s
    → (c == b':') ≡ false
    → hex2str (str2hex s ++ c ∷ []) ≡ fault out_of_bounds
unfolding str2hex
hex2str_odd [] c h colon = unfold hex2str in rw colon
hex2str_odd (b ∷ []) c (hb, h) colon =
    pair_step (high_digit b) (low_digit b) (c ∷ []) (joined b hb).1 ∙ (unfold hex2str in rw colon)
hex2str_odd (b ∷ d ∷ cs) c (hb, h) colon =
    pair_step (high_digit b) (low_digit b) (b':' ∷ (str2hex (d ∷ cs) ++ c ∷ [])) (joined b hb).1
    ∙ rw (colon_step_more d cs (c ∷ []), hex2str_odd (d ∷ cs) c h colon)
