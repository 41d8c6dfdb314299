-- ===== src/Ini/Lines.antt =====
-- `load` of base/inifile.cpp on the lines that `write` makes.
use boring.Prelude.{
  ℕ, zero, suc, ◌+◌, ◌<◌, ◌≡◌, refl, ap, ◌∙◌, arith, false, [], ◌∷◌, ◌++◌, ◌==◌, length,
  length-append,
}
use boring.Text.Trim.{has, blanks, trim}
use boring.Text.TrimLaws.{
  trim-strip, strip_left, strip_right, strip_left_fixed, strip_right_fixed, StartsOutside,
  EndsOutside,
}
use boring.Text.Split.{find}
use boring.Text.SplitLaws.{pieces-append, pieces-last, non_empty, fields}
use boring.Text.ListSplit.{until_zero, until_zero_all}
use boring.Text.Words.{has-append}
use boring.Ini.{Str, is_empty}
use boring.Ini.File.{fgets, front}

pub fgets-line :
    (n : ℕ) (line rest : Str)
    → has b'\n' line ≡ false
    → length line < n
    → fgets n (line ++ b'\n' ∷ rest) ≡ (line ++ b'\n' ∷ [], rest)
unfolding fgets
fgets-line zero line rest h k = absurd (omega arith)
fgets-line (suc n) [] rest h k = refl
fgets-line (suc n) (c ∷ cs) rest h k =
    let other : (c == b'\n') ≡ false = ground arith in
    rw (other, fgets-line n cs rest (ground arith) (omega arith)) refl

strip_right-newline : (s : Str) → strip_right blanks (s ++ b'\n' ∷ []) ≡ strip_right blanks s
unfolding strip_right
strip_right-newline [] = refl
strip_right-newline (c ∷ s) = rw (strip_right-newline s) refl

-- What `load` makes of a line: it cuts the end of line off.
pub trim-line :
    (line : Str)
    → length line < 1022
    → has 0 line ≡ false
    → StartsOutside blanks line
    → EndsOutside blanks line
    → trim (until_zero (line ++ b'\n' ∷ [])) blanks ≡ line
trim-line line l z s e =
    ap (λ t. trim t blanks)
      (until_zero_all (line ++ b'\n' ∷ []) (has-append 0 line (b'\n' ∷ []) z refl))
    ∙ trim-strip blanks (line ++ b'\n' ∷ []) (omega (arith, length-append line (b'\n' ∷ [])))
    ∙ ap (strip_left blanks) (strip_right-newline line ∙ strip_right_fixed blanks line e)
    ∙ strip_left_fixed blanks line s

pub find-append :
    (d : ℕ) (p rest : Str) (i : ℕ) → has d p ≡ false → find d (p ++ d ∷ rest) i ≡ i + length p
unfolding find
find-append d [] rest i h = ground arith
find-append d (c ∷ p) rest i h = ground (arith, find-append d p rest (i + 1))

-- A text that can stand on one side of `=`.
pub record IsWord (w : Str) : Type 0 where
  pub some_text : is_empty w ≡ false
  pub no_zero : has 0 w ≡ false
  pub one_line : has b'\n' w ≡ false
  pub no_equals : has b'=' w ≡ false
  pub no_end : has 26 w ≡ false
  pub starts : StartsOutside blanks w
  pub ends : EndsOutside blanks w

-- A pair that `write` makes a line of which `load` reads again.
pub record IsEntry (key value : Str) : Type 0 where
  pub key_word : IsWord key
  pub value_word : IsWord value
  pub no_comment : (front key == b'#') ≡ false
  pub no_section : (front key == b'[') ≡ false
  pub short : length key + length value < 1000

pub record IsName (name : Str) : Type 0 where
  pub some_text : is_empty name ≡ false
  pub no_zero : has 0 name ≡ false
  pub one_line : has b'\n' name ≡ false
  pub no_bracket : has b']' name ≡ false
  pub no_end : has 26 name ≡ false
  pub short : length name < 1000

pub two_fields :
    (key value : Str)
    → IsWord key
    → IsWord value
    → fields b'=' (key ++ b'=' ∷ value) ≡ key ∷ value ∷ []
unfolding non_empty
two_fields [] value k v = let e : is_empty [] ≡ false = k.some_text in absurd cc
two_fields (c ∷ key) [] k v = let e : is_empty [] ≡ false = v.some_text in absurd cc
two_fields (c ∷ key) (d ∷ value) k v = ap non_empty (
    pieces-append b'=' (c ∷ key) (d ∷ value) k.no_equals
    ∙ ap (λ ps. (c ∷ key) ∷ ps) (pieces-last b'=' (d ∷ value) v.no_equals))
