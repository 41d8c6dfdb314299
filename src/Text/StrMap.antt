-- ===== src/Text/StrMap.antt =====
-- base/stringutil.cpp: `str2map`.
use boring.Prelude.{ℕ, List, [], ◌∷◌, get_elem?}
use boring.Outcome.{Outcome, ok, out_of_bounds, or_fault, ◌>>=◌}
use boring.Dict.{Dict, assign}
use boring.Text.Trim.{blanks, trim}
use boring.Text.Split.{str2vector}

unfoldable pub str2map_loop : List (List ℕ) → ℕ → Dict (List ℕ) → Outcome (Dict (List ℕ))
str2map_loop [] split map = ok map
str2map_loop (it ∷ its) split map = do
  temp ← str2vector (trim it blanks) split
  key ← or_fault (get_elem? temp 0) out_of_bounds
  value ← or_fault (get_elem? temp 1) out_of_bounds
  str2map_loop its split (assign (trim key blanks) (trim value blanks) map)

unfoldable pub str2map : List ℕ → ℕ → ℕ → Outcome (Dict (List ℕ))
str2map str delim split = do
  result ← str2vector (trim str blanks) delim
  str2map_loop result split []
