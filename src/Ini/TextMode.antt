-- ===== src/Ini/TextMode.antt =====
-- Files that are opened in text mode, as base/inifile.cpp opens them: on Windows a line ends with two
-- bytes in the file, and the byte 0x1A is the end of the file for reading.
use boring.Prelude.{
  ℕ, ◌≡◌, refl, ap, ◌∙◌, arith, false, ◌&&◌, [], ◌∷◌, ◌==◌, if◌then◌else◌, inl, inr, Bool-cases,
}
use boring.Text.Trim.{has}
use boring.Ini.{Str}

abbrev pub first : Str → ℕ
first [] = 0
first (c ∷ cs) = c

-- What reading delivers of the bytes of a file.
unfoldable pub text_in : Str → Str
text_in [] = []
text_in (c ∷ cs) =
    let rest = text_in cs in
    if c == 26 then [] else if c == b'\r' && first cs == b'\n' then rest else c ∷ rest

-- The bytes that writing a text puts into a file.
unfoldable pub text_out : Str → Str
text_out [] = []
text_out (c ∷ cs) = let rest = text_out cs in if c == b'\n' then b'\r' ∷ b'\n' ∷ rest else c ∷ rest

first-text_out : (t : Str) → (first (text_out t) == b'\n') ≡ false
unfolding text_out
first-text_out [] = refl
first-text_out (c ∷ cs) = elim (Bool-cases (c == b'\n')) [ inl e ↦ rw e refl | inr n ↦ rw n n ]

text_in-byte :
    (c : ℕ) (cs : Str)
    → (c == 26) ≡ false
    → (first cs == b'\n') ≡ false
    → text_in (c ∷ cs) ≡ c ∷ text_in cs
unfolding text_in
text_in-byte c cs h k = ground arith

text_in-line : (cs : Str) → text_in (b'\r' ∷ b'\n' ∷ cs) ≡ b'\n' ∷ text_in cs
unfolding text_in
text_in-line cs = refl

-- A text without the byte 0x1A is read as it was written.
pub text_in-text_out : (t : Str) → has 26 t ≡ false → text_in (text_out t) ≡ t
unfolding text_out
text_in-text_out [] h = unfold text_in in refl
text_in-text_out (c ∷ cs) h =
    let rest : text_in (text_out cs) ≡ cs = text_in-text_out cs (ground arith) in
    elim (Bool-cases (c == b'\n')) [
      | inl e ↦
          let same : b'\n' ≡ c = ground arith in
          rw e (text_in-line (text_out cs) ∙ ap (λ k. b'\n' ∷ k) rest ∙ ap (λ k. k ∷ cs) same)
      | inr n ↦
          rw n
            (text_in-byte c (text_out cs) (ground arith) (first-text_out cs) ∙ ap (λ k. c ∷ k) rest)
    ]
