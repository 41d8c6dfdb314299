-- ===== src/Ini/Tests.antt =====
-- `CIniFile` of base/inifile.cpp on single inputs.
use boring.Prelude.{◌≡◌, refl, true, false, not, ◌&&◌, [], ◌∷◌, none, some, if◌then◌else◌}
use boring.Dict.{str_eq, find}
use boring.Ini.{is_empty, IniFile, set, get, del}
use boring.Ini.Valid.{IsValid, set-IsValid}
use boring.Ini.Access.{get-set, get-del}
use boring.Ini.File.{Disk, load, load_loop, fgets, read_line, read_value}
use boring.Text.ListSplit.{until_zero}
use boring.Outcome.{fault, out_of_bounds}
use boring.Ini.TextMode.{text_in}
use boring.Ini.Parsing.{Ends, load-Ends}

-- One section `s` with `k=v`.
abbrev small : IniFile
small = record {
  is_change = false;
  file_name = b'f' ∷ [];
  section = (b's' ∷ [], record { main_key = b's' ∷ []; conf = (b'k' ∷ [], b'v' ∷ []) ∷ [] }) ∷ [];
}

small-IsValid : IsValid small
small-IsValid = record { sorted = (tt, tt); filed = (refl, (tt, tt), tt) }

get-set_example :
    get (set small (b's' ∷ []) (b'j' ∷ []) (b'w' ∷ [])) (b's' ∷ []) (b'k' ∷ []) (b'd' ∷ []) ≡ (
      if not (is_empty (b's' ∷ [])) && not (is_empty (b'j' ∷ [])) && str_eq (b's' ∷ []) (b's' ∷ [])
      then (if str_eq (b'j' ∷ []) (b'k' ∷ [])
          then b'w' ∷ []
          else get small (b's' ∷ []) (b'k' ∷ []) [])
      else get small (b's' ∷ []) (b'k' ∷ []) (b'd' ∷ []))
get-set_example =
    get-set small (b's' ∷ []) (b'j' ∷ []) (b'w' ∷ []) (b's' ∷ []) (b'k' ∷ []) (b'd' ∷ [])

get-del_example : get (del small (b's' ∷ []) (b'k' ∷ [])) (b's' ∷ []) (b'k' ∷ []) (b'd' ∷ []) ≡ (
    if str_eq (b's' ∷ []) (b's' ∷ []) && str_eq (b'k' ∷ []) (b'k' ∷ [])
    then elim (find (b's' ∷ []) small.section) [ none ↦ b'd' ∷ [] | some c ↦ [] ]
    else get small (b's' ∷ []) (b'k' ∷ []) (b'd' ∷ []))
get-del_example =
    get-del small (b's' ∷ []) (b'k' ∷ []) (b's' ∷ []) (b'k' ∷ []) (b'd' ∷ []) small-IsValid

set-IsValid_example : IsValid (set small (b'r' ∷ []) (b'k' ∷ []) (b'v' ∷ []))
set-IsValid_example = set-IsValid small (b'r' ∷ []) (b'k' ∷ []) (b'v' ∷ []) small-IsValid

-- A line with nothing behind its `=`.
abbrev half_line : Disk
half_line = record {
  content = λ _. some (b'k' ∷ b'=' ∷ b'\r' ∷ b'\n' ∷ []);
  writable = λ _. true;
  text_mode = true;
  closes = λ _. true;
  remains = λ _ _. none;
}

load-Ends_example : Ends (load half_line small)
load-Ends_example = load-Ends half_line small

-- The line has one field: `temp[1]` is past its end.
load-half_line : load half_line small ≡ fault out_of_bounds
unfolding load load_loop text_in fgets read_line read_value until_zero boring.Text.Trim.trim
    boring.Text.Trim.first_not_of boring.Text.Trim.last_not_of boring.Text.Split.find
    boring.Text.Split.str2vector boring.Text.Split.str2vector_loop
load-half_line = refl
