-- ===== src/Text/Tests.antt =====
-- The functions of base/stringutil.cpp on single inputs.
use boring.Prelude.{ℕ, ◌≡◌, refl, arith, List, [], ◌∷◌, ◌++◌}
use boring.Prelude.Int.{of_pattern}
use boring.Outcome.{ok, fault, out_of_bounds, bad_shift}
use boring.Text.Chars.{Bytes, c2i, stolower, stoupper}
use boring.Text.CharLaws.{hex_value, c2i-hex_value, stolower-stoupper}
use boring.Text.Hex.{str2hex, hex2str, hex2dec}
use boring.Text.HexLaws.{hex2str-str2hex, hex2str_odd}
use boring.Text.HexNumber.{spelled, hex2dec-spelled, hex2dec_too_long}
use boring.Text.Trim.{blanks, trim}
use boring.Text.TrimLaws.{Trimmed, trim-Trimmed}
use boring.Text.Split.{str2vector, str2list}
use boring.Text.SplitLaws.{fields, str2vector-fields}
use boring.Text.StrMap.{str2map, str2map_loop}
use boring.Text.StrMapLaws.{IsField, joined, assign_all, str2map-joined}
use boring.Text.ListSplit.{str2list-str2vector}

c2i-hex_value_applied : c2i b'b' ≡ hex_value b'b'
c2i-hex_value_applied = c2i-hex_value b'b' (omega arith)

abbrev word : List ℕ
word = b'a' ∷ b'Z' ∷ b'9' ∷ []

word-Bytes : Bytes word
word-Bytes = (omega arith, (omega arith, (omega arith, tt)))

stolower-stoupper_applied :
    (stolower (stolower word) ≡ stolower word)
    × (stolower (stoupper word) ≡ stolower word)
    × (stoupper (stolower word) ≡ stoupper word)
stolower-stoupper_applied = stolower-stoupper word word-Bytes

hex2str-str2hex_example : hex2str (str2hex word) ≡ ok word
hex2str-str2hex_example = hex2str-str2hex word word-Bytes

hex2str_odd_applied : hex2str (str2hex word ++ b'4' ∷ []) ≡ fault out_of_bounds
hex2str_odd_applied = hex2str_odd word b'4' word-Bytes (ground arith)

abbrev number : List ℕ
number = b'1' ∷ b'f' ∷ []

hex2dec-spelled_applied :
    (hex2dec number ≡ ok (of_pattern 32 (spelled 0 number)))
    × (hex2dec (b'0' ∷ b'x' ∷ number) ≡ ok (of_pattern 32 (spelled 0 number)))
    × (hex2dec (b'0' ∷ b'X' ∷ number) ≡ ok (of_pattern 32 (spelled 0 number)))
hex2dec-spelled_applied =
    hex2dec-spelled number ((omega arith, refl), ((omega arith, refl), tt)) (omega arith)

abbrev eight : List ℕ
eight = b'0' ∷ b'0' ∷ b'0' ∷ b'0' ∷ b'0' ∷ b'0' ∷ b'0' ∷ b'1' ∷ []

hex2dec_too_long_applied : hex2dec (b'0' ∷ b'x' ∷ b'0' ∷ eight) ≡ fault bad_shift
hex2dec_too_long_applied = hex2dec_too_long b'0' eight (omega arith)

abbrev padded : List ℕ
padded = b' ' ∷ b'a' ∷ b' ' ∷ b'b' ∷ b'\t' ∷ []

trimmed : trim padded blanks ≡ b'a' ∷ b' ' ∷ b'b' ∷ []
unfolding trim boring.Text.Trim.first_not_of boring.Text.Trim.last_not_of
trimmed = refl

trim-Trimmed_example : Trimmed blanks padded (trim padded blanks)
trim-Trimmed_example = trim-Trimmed blanks padded (omega arith)

abbrev list_text : List ℕ
list_text = b';' ∷ b'a' ∷ b';' ∷ b';' ∷ b'b' ∷ b'c' ∷ []

split : str2vector list_text b';' ≡ ok ((b'a' ∷ []) ∷ (b'b' ∷ b'c' ∷ []) ∷ [])
unfolding boring.Text.SplitLaws.non_empty boring.Text.SplitLaws.pieces
split = str2vector-fields b';' list_text (omega arith)

str2vector-fields_example : str2vector list_text b';' ≡ ok (fields b';' list_text)
str2vector-fields_example = str2vector-fields b';' list_text (omega arith)

str2list-str2vector_applied : str2list list_text b';' ≡ str2vector list_text b';'
str2list-str2vector_applied = str2list-str2vector list_text b';' (omega arith) (ground arith)

one-IsField : IsField b';' b'=' (b'1' ∷ [])
one-IsField = record {
  some_text = refl;
  no_delim = refl;
  no_split = refl;
  starts = refl;
  ends = refl;
}

a-IsField : IsField b';' b'=' (b'a' ∷ [])
a-IsField = record {
  some_text = refl;
  no_delim = refl;
  no_split = refl;
  starts = refl;
  ends = refl;
}

str2map-joined_example :
    str2map (joined b';' b'=' (b'a' ∷ []) (b'1' ∷ []) ((b'1' ∷ [], b'a' ∷ []) ∷ [])) b';' b'='
    ≡ ok (assign_all ((b'a' ∷ [], b'1' ∷ []) ∷ (b'1' ∷ [], b'a' ∷ []) ∷ []) [])
str2map-joined_example =
    str2map-joined b';' b'=' refl (b'a' ∷ []) (b'1' ∷ []) ((b'1' ∷ [], b'a' ∷ []) ∷ []) a-IsField
      one-IsField (one-IsField, a-IsField, tt) (unfold joined in omega arith)

-- A piece with nothing behind the separator has no `temp[1]`.
str2map_half : str2map (b'a' ∷ b'=' ∷ []) b';' b'=' ≡ fault out_of_bounds
unfolding str2map str2map_loop trim boring.Text.Trim.first_not_of boring.Text.Trim.last_not_of
    boring.Text.Split.find str2vector boring.Text.Split.str2vector_loop
str2map_half = refl
