-- ===== src/Text/Split.antt =====
-- base/stringutil.cpp: `str2vector` over positions in the string, and `str2list` over a copy of it
-- in which it overwrites each delimiter. A loop has fuel for one round a character and one more.
use boring.Prelude.{
  ℕ, zero, suc, ◌+◌, ◌-◌, Bool, true, false, not, ◌&&◌, List, [], ◌∷◌, ◌++◌, ltb, ◌==◌,
  if◌then◌else◌, length, take, drop, get_elem?,
}
use boring.Outcome.{Outcome, ok, fault, out_of_bounds, out_of_fuel, or_fault, ◌>>=◌}
use boring.Text.Trim.{npos}

-- `std::string::find` of one character, from position `i` on.
unfoldable pub find : ℕ → List ℕ → ℕ → ℕ
find delim [] i = npos
find delim (c ∷ cs) i = if c == delim then i else find delim cs (i + 1)

abbrev pub find_from : List ℕ → ℕ → ℕ → ℕ
find_from str delim start = find delim (drop start str) start

unfoldable pub str2vector_loop : ℕ → List ℕ → ℕ → ℕ → ℕ → List (List ℕ) → Outcome (List (List ℕ))
str2vector_loop zero str delim start pos result = fault out_of_fuel
str2vector_loop (suc fuel) str delim start pos result = elim (pos == npos) [
  | true ↦ ok (if ltb start (length str) then result ++ drop start str ∷ [] else result)
  | false ↦
      str2vector_loop fuel str delim (pos + 1) (find_from str delim (pos + 1))
        (if ltb start pos then result ++ take (pos - start) (drop start str) ∷ [] else result)
]

unfoldable pub str2vector : List ℕ → ℕ → Outcome (List (List ℕ))
unfolding str2vector_loop find
str2vector str delim = str2vector_loop (length str + 1) str delim 0 (find_from str delim 0) []

-- A C string at the head of `buf`: the bytes before the first zero, of which there must be one.
unfoldable pub c_str : List ℕ → Outcome (List ℕ)
c_str [] = fault out_of_bounds
c_str (c ∷ cs) = elim (c == 0) [ true ↦ ok [] | false ↦ c_str cs >>= λ s. ok (c ∷ s) ]

abbrev pub set : List ℕ → ℕ → ℕ → List ℕ
set [] i v = []
set (x ∷ xs) zero v = v ∷ xs
set (x ∷ xs) (suc i) v = x ∷ set xs i v

abbrev pub push_if : Bool → List ℕ → List (List ℕ) → List (List ℕ)
push_if b s out = if b then out ++ s ∷ [] else out

-- The pointers are positions in `pSrc`.
unfoldable pub str2list_loop : ℕ → List ℕ → ℕ → ℕ → ℕ → List (List ℕ) → Outcome (List (List ℕ))
str2list_loop zero src delim cur val out = fault out_of_fuel
str2list_loop (suc fuel) src delim cur val out = do
  c ← or_fault (get_elem? src cur) out_of_bounds
  elim (c == 0) [
    | true ↦ do s ← c_str (drop val src); ok (push_if (not (val == cur) && ltb 0 (length s)) s out)
    | false ↦ elim (c == delim) [
      | true ↦ do
        let src' = set src cur 0
        s ← c_str (drop val src')
        str2list_loop fuel src' delim (cur + 1) (cur + 1) (push_if (ltb 0 (length s)) s out)
      | false ↦ str2list_loop fuel src delim (cur + 1) val out
    ]
  ]

unfoldable pub str2list : List ℕ → ℕ → Outcome (List (List ℕ))
unfolding str2list_loop c_str
str2list str delim = str2list_loop (length str + 1) (str ++ (0 ∷ 0 ∷ [])) delim 0 0 []
