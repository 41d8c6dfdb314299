-- ===== src/Ini/Parsing.antt =====
-- `load` of base/inifile.cpp on any file: it ends, and what it may come to.
use boring.Prelude.{
  ℕ, zero, suc, ◌+◌, ◌≤◌, ◌<◌, ◌≡◌, refl, arith, inl, inr, List, [], ◌∷◌, Option, none, some, ◌==◌,
  length, get_elem?, Bool-cases, Option-cases,
}
use boring.Outcome.{Outcome, ok, fault, out_of_bounds, or_fault, ◌>>=◌}
use boring.Text.Trim.{npos, blanks, trim}
use boring.Text.TrimLaws.{trim-strip, strip_left, strip_right, length-strip_right}
use boring.Text.Split.{find_from}
use boring.Text.SplitLaws.{str2vector-fields, fields}
use boring.Text.ListSplit.{until_zero, length-until_zero}
use boring.Ini.{Str, IniFile}
use boring.Ini.File.{Reader, Disk, text_of, fgets, read_value, read_line, load_loop, load, front}

-- The outcome is a value or an index past the end, nothing else.
abbrev pub Ends {ℓ} : {A : Type ℓ} → Outcome A → Type 0
Ends (ok a) = Unit
Ends (fault e) = e ≡ out_of_bounds

Ends-bind {ℓ κ} :
    {A : Type ℓ} {B : Type κ} (m : Outcome A) (f : A → Outcome B)
    → Ends m
    → ((a : A) → Ends (f a))
    → Ends (m >>= f)
Ends-bind (ok a) f h k = k a
Ends-bind (fault e) f h k = h

Ends-or_fault {ℓ} : {A : Type ℓ} (o : Option A) → Ends (or_fault o out_of_bounds)
Ends-or_fault none = refl
Ends-or_fault (some a) = tt

length-strip_left : (chars cs : List ℕ) → length (strip_left chars cs) ≤ length cs
unfolding strip_left
length-strip_left chars [] = omega arith
length-strip_left chars (c ∷ cs) = ground (arith, length-strip_left chars cs)

length-trim : (str : Str) → length str < npos → length (trim str blanks) ≤ length str
length-trim str h =
    let e : trim str blanks ≡ strip_left blanks (strip_right blanks str) =
      trim-strip blanks str h in
    rw e (
      let l : length (strip_left blanks (strip_right blanks str))
          ≤ length (strip_right blanks str) =
        length-strip_left blanks (strip_right blanks str) in
      let r : length (strip_right blanks str) ≤ length str = length-strip_right blanks str in
      omega arith)

read_value-Ends : (r : Reader) (line : Str) → length line < npos → Ends (read_value r line)
unfolding read_value
read_value-Ends r line h =
    let l : length (trim line blanks) ≤ length line = length-trim line h in
    rw (str2vector-fields b'=' (trim line blanks) (omega arith)) (
      Ends-bind (or_fault (get_elem? (fields b'=' (trim line blanks)) 0) out_of_bounds) _
        (Ends-or_fault (get_elem? (fields b'=' (trim line blanks)) 0))
        (λ key.
          Ends-bind (or_fault (get_elem? (fields b'=' (trim line blanks)) 1) out_of_bounds) _
            (Ends-or_fault (get_elem? (fields b'=' (trim line blanks)) 1)) (λ val. tt)))

read_line-Ends : (r : Reader) (buf : Str) → length buf < npos → Ends (read_line r buf)
unfolding read_line
read_line-Ends r buf h =
    let u : length (until_zero buf) ≤ length buf = length-until_zero buf in
    let t : length (trim (until_zero buf) blanks) ≤ length (until_zero buf) =
      length-trim (until_zero buf) (omega arith) in
    let v : Ends (read_value r (trim (until_zero buf) blanks)) =
      read_value-Ends r (trim (until_zero buf) blanks) (omega arith) in
    elim (Bool-cases (front (trim (until_zero buf) blanks) == b'#')) [
      | inl a ↦ rw a tt
      | inr a ↦ elim (Bool-cases (front (trim (until_zero buf) blanks) == b'[')) [
        | inl b ↦ elim (Bool-cases (find_from (trim (until_zero buf) blanks) b']' 0 == npos)) [
          | inl c ↦ rw (a, b, c) tt
          | inr c ↦ rw (a, b, c) tt
        ]
        | inr b ↦ elim (Bool-cases (find_from (trim (until_zero buf) blanks) b'=' 0 == npos)) [
          | inl c ↦ rw (a, b, c) tt
          | inr c ↦ rw (a, b, c) v
        ]
      ]
    ]

length-fgets :
    (n : ℕ) (text : Str)
    → (length (fgets n text).0 ≤ n)
      × (length (fgets n text).0 + length (fgets n text).1 ≡ length text)
unfolding fgets
length-fgets zero text = ground arith
length-fgets (suc n) [] = ground arith
length-fgets (suc n) (c ∷ cs) = ground (arith, length-fgets n cs)

-- A round of the loop takes at least one byte.
length-fgets_rest : (n : ℕ) (c : ℕ) (cs : Str) → length (fgets (suc n) (c ∷ cs)).1 ≤ length cs
unfolding fgets
length-fgets_rest n c cs = ground (arith, length-fgets n cs)

load_loop-Ends :
    (fuel : ℕ) (r : Reader) (text : Str) → length text < fuel → Ends (load_loop fuel r text)
unfolding load_loop
load_loop-Ends zero r text h = absurd (omega arith)
load_loop-Ends (suc fuel) r [] h = tt
load_loop-Ends (suc fuel) r (c ∷ cs) h =
    let l : length (fgets 1023 (c ∷ cs)).0 ≤ 1023 = (length-fgets 1023 (c ∷ cs)).0 in
    let m : length (fgets 1023 (c ∷ cs)).1 ≤ length cs = length-fgets_rest 1022 c cs in
    Ends-bind (read_line r (fgets 1023 (c ∷ cs)).0) _
      (read_line-Ends r (fgets 1023 (c ∷ cs)).0 (omega arith))
      (λ r'. load_loop-Ends fuel r' (fgets 1023 (c ∷ cs)).1 (omega arith))

-- `load` ends on every file: it returns, or it reads an index past the end of the fields of a line.
-- The fuel of one round a byte and one more is enough.
pub load-Ends : (d : Disk) (s : IniFile) → Ends (load d s)
unfolding load
load-Ends d s = elim (Option-cases (d.content s.file_name)) [
  | inl e ↦ rw (e, Ends) tt
  | inr (bytes, e) ↦
      let text = text_of d bytes in
      rw (e, Ends)
        (Ends-bind
          (load_loop (length text + 1) (record { current = []; sections = s.section }) text) _
          (load_loop-Ends (length text + 1) (record { current = []; sections = s.section }) text
            (omega arith))
          (λ r. tt))
]
