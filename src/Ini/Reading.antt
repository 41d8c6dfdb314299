-- ===== src/Ini/Reading.antt =====
-- `load` of base/inifile.cpp on a header and on a line with a key and a value.
use boring.Prelude.{
  ◌+◌, ◌-◌, ◌<◌, ◌≡◌, refl, ap, ◌∙◌, arith, false, [], ◌∷◌, ◌++◌, ◌==◌, length, take, length-append,
}
use boring.Outcome.{ok, bind-ok}
use boring.Text.Trim.{npos, blanks, trim}
use boring.Text.TrimLaws.{StartsOutside, EndsOutside, trim_fixed}
use boring.Text.Split.{find, str2vector}
use boring.Text.SplitLaws.{str2vector-fields}
use boring.Text.ListSplit.{until_zero}
use boring.Ini.{Str, is_empty}
use boring.Ini.File.{Reader, read_value, read_line, store_value, front}
use boring.Text.Words.{has-append, EndsOutside-append, EndsOutside-cons, starts-append}
use boring.Ini.Lines.{IsEntry, IsName, two_fields, trim-line, find-append}

front-append : (key rest : Str) → is_empty key ≡ false → front (key ++ rest) ≡ front key
front-append [] rest h = cc
front-append (c ∷ key) rest h = refl

module _ (key value : Str) (e : IsEntry key value) where
  abbrev pub line : Str
  line = key ++ b'=' ∷ value

  short_line : length line < 1022
  short_line = omega (arith, length-append key (b'=' ∷ value), e.short)

  line_starts : StartsOutside blanks line
  line_starts = starts-append key (b'=' ∷ value) e.key_word.some_text e.key_word.starts

  line_ends : EndsOutside blanks line
  line_ends =
      EndsOutside-append key b'=' value
        (EndsOutside-cons b'=' value e.value_word.some_text e.value_word.ends)

  read_value-line : (r : Reader) → read_value r line ≡ ok (store_value r key value)
  unfolding read_value
  read_value-line r =
      let cut : trim line blanks ≡ line =
        trim_fixed blanks line (let l : length line < 1022 = short_line in omega arith) line_starts
          line_ends in
      let split : str2vector (trim line blanks) b'=' ≡ ok (key ∷ value ∷ []) =
        ap (λ t. str2vector t b'=') cut
        ∙ str2vector-fields b'=' line (let l : length line < 1022 = short_line in omega arith)
        ∙ ap ok (two_fields key value e.key_word e.value_word) in
      let k : trim key blanks ≡ key =
        trim_fixed blanks key (let s : length key + length value < 1000 = e.short in omega arith)
          e.key_word.starts e.key_word.ends in
      let v : trim value blanks ≡ value =
        trim_fixed blanks value (let s : length key + length value < 1000 = e.short in omega arith)
          e.value_word.starts e.value_word.ends in
      bind-ok _ split ∙ rw (k, v) refl

  pub read_line-entry :
      (r : Reader) → read_line r (line ++ b'\n' ∷ []) ≡ ok (store_value r key value)
  unfolding read_line
  read_line-entry r =
      let t : trim (until_zero (line ++ b'\n' ∷ [])) blanks ≡ line =
        trim-line line short_line
          (has-append 0 key (b'=' ∷ value) e.key_word.no_zero
            (ground (arith, e.value_word.no_zero)))
          line_starts line_ends in
      let f : front line ≡ front key = front-append key (b'=' ∷ value) e.key_word.some_text in
      let at : find b'=' line 0 ≡ 0 + length key =
        find-append b'=' key value 0 e.key_word.no_equals in
      let found : (0 + length key == npos) ≡ false =
        let s : length key + length value < 1000 = e.short in ground arith in
      rw t (rw f (rw (e.no_comment, e.no_section) (rw (at, found) (read_value-line r))))

module _ (name : Str) (n : IsName name) where
  abbrev pub header : Str
  header = b'[' ∷ name ++ b']' ∷ []

  take-name : (s rest : Str) → take (length s) (s ++ rest) ≡ s
  take-name [] rest = refl
  take-name (c ∷ s) rest = ap (λ t. c ∷ t) (take-name s rest)

  pub read_line-name :
      (r : Reader) → read_line r (header ++ b'\n' ∷ []) ≡ ok (record r { current = name })
  unfolding read_line find
  read_line-name r =
      let s : length name < 1000 = n.short in
      let t : trim (until_zero (header ++ b'\n' ∷ [])) blanks ≡ header =
        trim-line header (omega (arith, length-append name (b']' ∷ [])))
          (ground (arith, has-append 0 name (b']' ∷ []) n.no_zero)) refl
          (EndsOutside-append (b'[' ∷ name) b']' [] refl) in
      let at : find b']' (name ++ b']' ∷ []) 1 ≡ 1 + length name =
        find-append b']' name [] 1 n.no_bracket in
      let found : (1 + length name == npos) ≡ false = ground arith in
      let count : 1 + length name - 1 ≡ length name = omega arith in
      rw t (
        rw at (
          rw (found, count)
            (ap ok (ap (λ c. record r { current = c }) (take-name name (b']' ∷ []))))))
