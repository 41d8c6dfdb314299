-- ===== src/Text/Chars.antt =====
-- base/stringutil.cpp: character classes, case and hexadecimal digits.
use boring.Prelude.{ℕ, ◌<◌, Bool, ◌&&◌, ◌||◌, not, List, map, ◌==◌, if◌then◌else◌, All}
use boring.Prelude.Int.{
  ℤ, pos, negsuc, ◌+ℤ◌, ◌-ℤ◌, leb_ℤ, ltb_ℤ, to_pattern, of_pattern, pos_part, neg_part,
}

-- The `int` that a `char` is promoted to, and the `char` that an `int` is cut to.
abbrev pub promote : ℕ → ℤ
promote c = of_pattern 8 c

abbrev pub to_char : ℤ → ℕ
to_char i = to_pattern 8 i

abbrev pub IsByte : ℕ → Type 0
IsByte c = c < 256

abbrev pub Bytes : List ℕ → Type 0
Bytes s = All IsByte s

-- An `int` as a condition.
abbrev pub truth : ℤ → Bool
truth i = not (pos_part i == 0 && neg_part i == 0)

abbrev within : ℕ → ℕ → ℤ → Bool
within lo hi c = leb_ℤ (pos lo) c && leb_ℤ c (pos hi)

unfoldable pub isdigit : ℤ → ℤ
isdigit c = if within 48 57 c then pos 1 else pos 0

unfoldable pub isalpha : ℤ → ℤ
isalpha c = if within 65 90 c || within 97 122 c then pos 1 else pos 0

unfoldable pub islower : ℤ → ℤ
islower c = if within 97 122 c then pos 1 else pos 0

unfoldable pub isupper : ℤ → ℤ
isupper c = if within 65 90 c then pos 1 else pos 0

unfoldable pub isalnum : ℤ → ℤ
isalnum c = if within 48 57 c || within 65 90 c || within 97 122 c then pos 1 else pos 0

unfoldable pub tolower : ℤ → ℤ
unfolding ◌+ℤ◌
tolower c = if within 65 90 c then c +ℤ pos 32 else c

unfoldable pub toupper : ℤ → ℤ
unfolding ◌-ℤ◌
toupper c = if within 97 122 c then c -ℤ pos 32 else c

-- `std::transform` over the bytes of the string.
unfoldable pub lower_char : ℕ → ℕ
unfolding tolower
lower_char c = to_char (tolower (promote c))

unfoldable pub upper_char : ℕ → ℕ
unfolding toupper
upper_char c = to_char (toupper (promote c))

unfoldable pub stolower : List ℕ → List ℕ
stolower str = map lower_char str

unfoldable pub stoupper : List ℕ → List ℕ
stoupper str = map upper_char str

unfoldable pub c2i : ℕ → ℤ
unfolding isdigit isalpha isupper ◌-ℤ◌
c2i c =
    if truth (isdigit (promote c))
    then promote c -ℤ pos 48
    else if ltb_ℤ (promote c) (pos b'A')
        || (ltb_ℤ (pos b'F') (promote c) && ltb_ℤ (promote c) (pos b'a'))
        || ltb_ℤ (pos b'f') (promote c)
    then negsuc 0
    else if truth (isalpha (promote c))
    then (if truth (isupper (promote c)) then promote c -ℤ pos 55 else promote c -ℤ pos 87)
    else negsuc 0

unfoldable pub c2x : ℕ → ℕ
unfolding ◌+ℤ◌
c2x c =
    if within 0 9 (promote c)
    then to_char (promote c +ℤ pos 48)
    else if within 10 15 (promote c)
    then to_char (promote c +ℤ pos 55)
    else c
