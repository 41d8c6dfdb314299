-- ===== src/Ini/Text.antt =====
-- `load` of base/inifile.cpp on the text that `write` makes of well-formed sections.
use mathlib.Core.List.{append_assoc}
use boring.Prelude.{
  ℕ, ℕ, zero, suc, ◌+◌, ◌<◌, ◌≡◌, refl, sym, ap, ◌∙◌, arith, Bool, true, false, [], ◌∷◌, ◌++◌,
  length, length-append,
}
use boring.Outcome.{ok, bind-ok}
use boring.Dict.{Dict}
use boring.Dict.Laws.{IsSorted}
use boring.Text.Trim.{has}
use boring.Text.ListSplit.{until_zero, until_zero_all}
use boring.Ini.{Str, Config}
use boring.Ini.File.{
  Reader, read_line, store_value, load_loop, write_values, config_write, write_sections,
}
use boring.Text.Words.{has-append}
use boring.Ini.Lines.{IsEntry, IsName, fgets-line}
use boring.Ini.Reading.{line, header, read_line-entry, read_line-name}

load-line :
    (fuel : ℕ) (r r' : Reader) (text rest : Str)
    → has b'\n' text ≡ false
    → length text < 1023
    → read_line r (text ++ b'\n' ∷ []) ≡ ok r'
    → load_loop (suc fuel) r (text ++ b'\n' ∷ rest) ≡ load_loop fuel r' rest
unfolding load_loop
load-line fuel r r' [] rest h l e =
    rw (fgets-line 1023 [] rest refl l) (bind-ok (λ s. load_loop fuel s rest) e)
load-line fuel r r' (c ∷ text) rest h l e =
    rw (fgets-line 1023 (c ∷ text) rest h l) (bind-ok (λ s. load_loop fuel s rest) e)

-- What the lines of a section, and of all sections, make of the reader.
unfoldable pub store_all : Reader → Dict Str → Reader
store_all r [] = r
store_all r ((key, value) ∷ conf) = store_all (store_value r key value) conf

unfoldable pub store_sections : Reader → Dict Config → Reader
store_sections r [] = r
store_sections r ((name, c) ∷ m) = store_sections (store_all (record r { current = name }) c.conf) m

abbrev pub Entries : Dict Str → Type 0
Entries [] = Unit
Entries ((key, value) ∷ conf) = IsEntry key value × Entries conf

abbrev pub has_pair : Dict Str → Bool
has_pair [] = false
has_pair (p ∷ conf) = true

-- The maps that a file can hold: each section is filed under its own name and has at least one key,
-- and names, keys and values are texts that stay whole in a line.
abbrev pub Writable : Dict Config → Type 0
Writable [] = Unit
Writable ((name, c) ∷ m) =
    IsName name
    × (c.main_key ≡ name)
    × (has_pair c.conf ≡ true)
    × Entries c.conf
    × IsSorted c.conf
    × Writable m

entry_shape :
    (key value w rest : Str)
    → has 0 key ≡ false
    → has 0 value ≡ false
    → (until_zero key ++ b'=' ∷ until_zero value ++ b'\n' ∷ w) ++ rest
      ≡ (key ++ b'=' ∷ value) ++ b'\n' ∷ (w ++ rest)
entry_shape key value w rest k v =
    rw (until_zero_all key k, until_zero_all value v)
      (append_assoc (key ++ b'=' ∷ value) (b'\n' ∷ w) rest)

read_line-blank : (r : Reader) → read_line r (b'\n' ∷ []) ≡ ok r
unfolding read_line boring.Text.Trim.trim boring.Text.Trim.first_not_of boring.Text.Trim.last_not_of
    until_zero boring.Text.Split.find
read_line-blank r = refl

load-values :
    (conf : Dict Str) (rest : Str) (fuel : ℕ) (r : Reader)
    → Entries conf
    → length (write_values conf ++ rest) < fuel
    → (fuel' : ℕ) × (length rest < fuel')
      × (load_loop fuel r (write_values conf ++ rest) ≡ load_loop fuel' (store_all r conf) rest)
unfolding write_values store_all
load-values conf rest zero r e h = absurd (omega arith)
load-values [] rest (suc fuel) r e h =
    (fuel, omega arith, load-line fuel r r [] rest refl (omega arith) (read_line-blank r))
load-values ((key, value) ∷ conf) rest (suc fuel) r (e, es) h =
    let shape =
      entry_shape key value (write_values conf) rest e.key_word.no_zero e.value_word.no_zero in
    let k = e.key_word in
    let v = e.value_word in
    let s : length key + length value < 1000 = e.short in
    let size : length (line key value e ++ b'\n' ∷ (write_values conf ++ rest))
        ≡ length (line key value e) + suc (length (write_values conf ++ rest)) =
      length-append (line key value e) (b'\n' ∷ (write_values conf ++ rest)) in
    let all : length (line key value e ++ b'\n' ∷ (write_values conf ++ rest)) < suc fuel =
      rw shape at h in
    let (fuel', l, run) = load-values conf rest fuel (store_value r key value) es (omega arith) in
    (
      fuel',
      l,
      ap (load_loop (suc fuel) r) shape
          ∙ load-line fuel r (store_value r key value) (line key value e)
              (write_values conf ++ rest)
              (has-append b'\n' key (b'=' ∷ value) k.one_line (ground (arith, v.one_line)))
              (omega (arith, length-append key (b'=' ∷ value))) (read_line-entry key value e r)
          ∙ run,
    )

section_shape :
    (name : Str) (n : IsName name) (w rest : Str)
    → (b'[' ∷ until_zero name ++ b']' ∷ b'\n' ∷ w) ++ rest ≡ header name n ++ b'\n' ∷ (w ++ rest)
section_shape name n w rest = rw (until_zero_all name n.no_zero) (
    append_assoc (b'[' ∷ name) (b']' ∷ b'\n' ∷ w) rest
    ∙ sym (append_assoc (b'[' ∷ name) (b']' ∷ []) (b'\n' ∷ (w ++ rest))))

pub load-sections :
    (m : Dict Config) (fuel : ℕ) (r : Reader)
    → Writable m
    → length (write_sections m) < fuel
    → load_loop fuel r (write_sections m) ≡ ok (store_sections r m)
unfolding write_sections config_write store_sections
load-sections m zero r w h = absurd (omega arith)
load-sections [] (suc fuel) r w h = unfold load_loop in refl
load-sections ((name, c) ∷ m) (suc fuel) r (n, main, some_pair, es, sorted, w) h =
    let body = write_values c.conf in
    let shape : (b'[' ∷ until_zero c.main_key ++ b']' ∷ b'\n' ∷ body) ++ write_sections m
        ≡ header name n ++ b'\n' ∷ (body ++ write_sections m) =
      ap (λ k. (b'[' ∷ until_zero k ++ b']' ∷ b'\n' ∷ body) ++ write_sections m) main
      ∙ section_shape name n body (write_sections m) in
    let s : length name < 1000 = n.short in
    let size : length (header name n ++ b'\n' ∷ (body ++ write_sections m))
        ≡ length (header name n) + suc (length (body ++ write_sections m)) =
      length-append (header name n) (b'\n' ∷ (body ++ write_sections m)) in
    let same_length : length
          ((b'[' ∷ until_zero c.main_key ++ b']' ∷ b'\n' ∷ body) ++ write_sections m)
        ≡ length (header name n ++ b'\n' ∷ (body ++ write_sections m)) =
      ap length shape in
    let h' : length ((b'[' ∷ until_zero c.main_key ++ b']' ∷ b'\n' ∷ body) ++ write_sections m)
        < suc fuel =
      h in
    let (fuel', l, run) =
      load-values c.conf (write_sections m) fuel (record r { current = name }) es (omega arith) in
    ap (load_loop (suc fuel) r) shape
    ∙ load-line fuel r (record r { current = name }) (header name n) (body ++ write_sections m)
        (ground (arith, has-append b'\n' name (b']' ∷ []) n.one_line))
        (omega (arith, length-append name (b']' ∷ []))) (read_line-name name n r)
    ∙ run
    ∙ load-sections m fuel' (store_all (record r { current = name }) c.conf) w l

-- The text has no byte 0x1A.
write_values-no_end : (conf : Dict Str) → Entries conf → has 26 (write_values conf) ≡ false
unfolding write_values
write_values-no_end [] e = refl
write_values-no_end ((key, value) ∷ conf) (e, es) =
    let k = e.key_word in
    let v = e.value_word in
    rw (until_zero_all key k.no_zero, until_zero_all value v.no_zero)
      (has-append 26 (key ++ b'=' ∷ value) (b'\n' ∷ write_values conf)
        (has-append 26 key (b'=' ∷ value) k.no_end (ground (arith, v.no_end)))
        (ground (arith, write_values-no_end conf es)))

pub write_sections-no_end : (m : Dict Config) → Writable m → has 26 (write_sections m) ≡ false
unfolding write_sections config_write
write_sections-no_end [] w = refl
write_sections-no_end ((name, c) ∷ m) (n, main, some_pair, es, sorted, w) =
    let key : until_zero c.main_key ≡ name = ap until_zero main ∙ until_zero_all name n.no_zero in
    has-append 26 (b'[' ∷ until_zero c.main_key ++ b']' ∷ b'\n' ∷ write_values c.conf) _
      (rw key (
        ground (
          arith,
          has-append 26 name (b']' ∷ b'\n' ∷ write_values c.conf) n.no_end
              (ground (arith, write_values-no_end c.conf es)),
        )))
      (write_sections-no_end m w)
