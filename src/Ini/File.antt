-- ===== src/Ini/File.antt =====
-- base/inifile.cpp: `load`, `write`, `init`, `save` and the destructor, on a disk. What `fclose`
-- answers after reading is not looked at.
use boring.Prelude.{
  ℕ, zero, suc, ◌+◌, ◌-◌, Bool, false, not, [], ◌∷◌, ◌++◌, Option, none, some, ◌==◌, if◌then◌else◌,
  length, take, drop, get_elem?,
}
use boring.Outcome.{Outcome, ok, fault, out_of_bounds, out_of_fuel, or_fault, ◌>>=◌}
use boring.Prelude.Int.{ℤ, pos, negsuc}
use boring.Text.Trim.{npos, blanks, trim}
use boring.Text.Split.{find, find_from, str2vector}
use boring.Text.ListSplit.{until_zero}
use boring.Dict.{Dict, str_eq, assign}
use boring.Ini.TextMode.{text_in, text_out}
use boring.Ini.{Str, is_empty, Config, config_set, IniFile, section_at}

-- `text_mode` says whether the host makes a difference between text and bytes, as Windows does;
-- `closes`, whether `fclose` of a written file succeeds; `remains`, what the file holds when it fails
-- on a text.
pub record Disk : Type 0 where
  pub content : Str → Option Str
  pub writable : Str → Bool
  pub text_mode : Bool
  pub closes : Str → Bool
  pub remains : Str → Str → Option Str

abbrev pub put_file : Disk → Str → Option Str → Disk
put_file d name bytes = record d { content = λ n. if str_eq name n then bytes else d.content n }

abbrev pub text_of : Disk → Str → Str
text_of d bytes = if d.text_mode then text_in bytes else bytes

abbrev pub bytes_of : Disk → Str → Str
bytes_of d text = if d.text_mode then text_out text else text

abbrev pub buff_len : ℕ
buff_len = 1024

-- `fgets` with room for `n` bytes before the terminating zero: the bytes read, and what is left.
unfoldable pub fgets : ℕ → Str → Str × Str
fgets zero text = ([], text)
fgets (suc n) [] = ([], [])
fgets (suc n) (c ∷ cs) =
    let rest = fgets n cs in if c == b'\n' then (c ∷ [], cs) else (c ∷ rest.0, rest.1)

-- `_line[0]`, which of the empty string is the terminating zero.
abbrev pub front : Str → ℕ
front [] = 0
front (c ∷ cs) = c

-- The local variables that a round of the loop hands on, `_section` and the map.
pub record Reader : Type 0 where
  pub current : Str
  pub sections : Dict Config

unfoldable pub store_value : Reader → Str → Str → Reader
store_value r key val =
    if not (is_empty r.current)
    then record r {
      sections = assign r.current (config_set (section_at r.current r.sections) key val) r.sections;
    }
    else r

unfoldable pub read_value : Reader → Str → Outcome Reader
read_value r line = do
  temp ← str2vector (trim line blanks) b'='
  key ← or_fault (get_elem? temp 0) out_of_bounds
  val ← or_fault (get_elem? temp 1) out_of_bounds
  ok (store_value r (trim key blanks) (trim val blanks))

unfoldable pub read_line : Reader → Str → Outcome Reader
unfolding find
read_line r buf =
    let line = trim (until_zero buf) blanks in
    if front line == b'#'
    then ok r
    else if front line == b'['
    then (let n_pos = find_from line b']' 0 in
        if n_pos == npos then ok r else ok (record r { current = take (n_pos - 1) (drop 1 line) }))
    else if find_from line b'=' 0 == npos
    then ok r
    else read_value r line

unfoldable pub load_loop : ℕ → Reader → Str → Outcome Reader
load_loop zero r text = fault out_of_fuel
load_loop (suc fuel) r [] = ok r
load_loop (suc fuel) r (c ∷ cs) =
    let got = fgets (buff_len - 1) (c ∷ cs) in read_line r got.0 >>= λ r'. load_loop fuel r' got.1

unfoldable pub load : Disk → IniFile → Outcome (IniFile × ℤ)
load d s = elim (d.content s.file_name) [
  | none ↦ ok (s, negsuc 0)
  | some bytes ↦
      let text = text_of d bytes in
      load_loop (length text + 1) (record { current = []; sections = s.section }) text >>= λ r.
      ok (record s { section = r.sections }, pos 0)
]

unfoldable pub init : Disk → IniFile → Str → Outcome (IniFile × ℤ)
init d s file_name = load d (record s { file_name = file_name })

-- `fprintf` with "%s" prints a string up to its first zero.
unfoldable pub write_values : Dict Str → Str
write_values [] = b'\n' ∷ []
write_values ((key, value) ∷ conf) =
    until_zero key ++ b'=' ∷ until_zero value ++ b'\n' ∷ write_values conf

unfoldable pub config_write : Config → Str
config_write c = b'[' ∷ until_zero c.main_key ++ b']' ∷ b'\n' ∷ write_values c.conf

unfoldable pub write_sections : Dict Config → Str
write_sections [] = []
write_sections ((name, c) ∷ m) = config_write c ++ write_sections m

-- The result is that of `fclose`, which is -1 where it fails.
unfoldable pub write : Disk → IniFile → Disk × IniFile × ℤ
write d s =
    let text = write_sections s.section in
    let written = record s { is_change = false } in
    if not (d.writable s.file_name)
    then (d, s, negsuc 0)
    else if d.closes s.file_name
    then (put_file d s.file_name (some (bytes_of d text)), written, pos 0)
    else (put_file d s.file_name (d.remains s.file_name text), written, negsuc 0)

abbrev pub save : Disk → IniFile → Disk × IniFile × ℤ
save = write

-- The destructor leaves the disk.
unfoldable pub destroy : Disk → IniFile → Disk
destroy d s = if s.is_change then (save d s).0 else d

-- What `dump` prints.
unfoldable pub dump_values : Dict Str → Str
dump_values [] = []
dump_values ((key, value) ∷ conf) =
    until_zero key ++ b'=' ∷ until_zero value ++ b'\n' ∷ dump_values conf

unfoldable pub dump : Dict Config → Str
dump [] = []
dump ((name, c) ∷ m) = b'[' ∷ until_zero name ++ b']' ∷ b'\n' ∷ dump_values c.conf ++ dump m
