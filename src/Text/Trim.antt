-- ===== src/Text/Trim.antt =====
-- base/stringutil.cpp: `trim`, `ltrim` and `rtrim`. Each changes its argument and returns a copy of
-- it, so one string stands for both.
use boring.Prelude.{
  ℕ, ◌+◌, ◌-◌, ◌%◌, ◌^◌, Bool, false, ◌||◌, List, [], ◌∷◌, ◌==◌, if◌then◌else◌, take, drop,
}

-- `std::string::npos`; positions are a `size_t` of 32 bits.
abbrev pub npos : ℕ
npos = 2 ^ 32 - 1

abbrev pub has : ℕ → List ℕ → Bool
has c [] = false
has c (d ∷ ds) = c == d || has c ds

abbrev pub blanks : List ℕ
blanks = b' ' ∷ b'\t' ∷ b'\n' ∷ b'\r' ∷ []

-- The search of `std::string::find_first_not_of`, at position `i`.
unfoldable pub first_not_of : List ℕ → List ℕ → ℕ → ℕ
first_not_of [] chars i = npos
first_not_of (c ∷ cs) chars i = if has c chars then first_not_of cs chars (i + 1) else i

-- The same for `find_last_not_of`; `last` is the last position found so far.
unfoldable pub last_not_of : List ℕ → List ℕ → ℕ → ℕ → ℕ
last_not_of [] chars i last = last
last_not_of (c ∷ cs) chars i last = last_not_of cs chars (i + 1) (if has c chars then last else i)

-- `str.erase(0, n)` and `str.erase(pos)`.
abbrev erase_front : ℕ → List ℕ → List ℕ
erase_front n str = drop n str

abbrev erase_from : ℕ → List ℕ → List ℕ
erase_from pos str = take pos str

unfoldable pub ltrim : List ℕ → List ℕ → List ℕ
ltrim str chars = erase_front (first_not_of str chars 0) str

unfoldable pub rtrim : List ℕ → List ℕ → List ℕ
rtrim str chars = erase_from ((last_not_of str chars 0 npos + 1) % 2 ^ 32) str

unfoldable pub trim : List ℕ → List ℕ → List ℕ
trim str chars =
    let str' = erase_from ((last_not_of str chars 0 npos + 1) % 2 ^ 32) str in
    erase_front (first_not_of str' chars 0) str'
