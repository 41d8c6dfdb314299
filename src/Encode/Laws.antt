-- ===== src/Encode/Laws.antt =====
-- What the conversions of libsouth_interface/transformEncode.cpp return.
use boring.Prelude.{
  ℕ, suc, ◌+◌, ◌≡◌, refl, ap, arith, ◌⊎◌, inl, inr, Bool, true, false, List, [], ◌∷◌, ◌++◌, Option,
  none, some, ◌==◌, if◌then◌else◌, length, length-append, Bool-cases,
}
use boring.Text.Trim.{has}
use boring.Text.ListSplit.{until_zero}
use boring.Encode.{
  Conversions, cp_acp, cp_oemcp, cp_utf8, finish, unicode_to_ansi, unicode_to_utf8, ansi_to_unicode,
  utf8_to_unicode, ansi_to_utf8, utf8_to_ansi, to_utf8,
}

-- The documented answers for a source that can be converted to `text`: room for it and a zero, and
-- these units. No unit of `text` is zero.
pub record WritesBytes (api : Conversions) (page : ℕ) (source text : List ℕ) : Type 0 where
  pub needed : api.bytes_needed page source ≡ suc (length text)
  pub written : api.convert_bytes page source (suc (length text)) ≡ text ++ 0 ∷ []
  pub no_zero : has 0 text ≡ false

pub record WritesWide (api : Conversions) (page : ℕ) (source text : List ℕ) : Type 0 where
  pub needed : api.wide_needed page source ≡ suc (length text)
  pub written : api.convert_wide page source (suc (length text)) ≡ text ++ 0 ∷ []
  pub no_zero : has 0 text ≡ false

until_zero-twice :
    (text : List ℕ) → has 0 text ≡ false → until_zero ((text ++ 0 ∷ []) ++ 0 ∷ []) ≡ text
unfolding until_zero
until_zero-twice [] h = refl
until_zero-twice (c ∷ text) h =
    let n : (c == 0) ≡ false = ground arith in
    rw n (ap (λ t. c ∷ t) (until_zero-twice text (ground arith)))

finish-text :
    (text destination : List ℕ)
    → has 0 text ≡ false
    → finish (suc (length text)) (text ++ 0 ∷ []) destination ≡ (true, text)
finish-text text destination h =
    let l : (length (text ++ 0 ∷ []) == suc (length text)) ≡ true =
      ground (arith, length-append text (0 ∷ [])) in
    rw (l, until_zero-twice text h) refl

if-unchanged :
    (b : Bool) (r : Bool × List ℕ) (destination : List ℕ)
    → (r.0 ≡ true) ⊎ (r.1 ≡ destination)
    → ((if b then r else (false, destination)).0 ≡ true)
      ⊎ ((if b then r else (false, destination)).1 ≡ destination)
if-unchanged true r destination h = h
if-unchanged false r destination h = inr refl

module _ (api : Conversions) where
  ansi_to_unicode-text :
      (source text destination : List ℕ)
      → WritesWide api cp_acp source text
      → ansi_to_unicode api (some source) destination ≡ (true, text)
  unfolding ansi_to_unicode
  ansi_to_unicode-text source text destination w =
      let n : (suc (length text) == 0) ≡ false = ground arith in
      rw (w.needed, n, w.written) (finish-text text destination w.no_zero)

  utf8_to_unicode-text :
      (source text destination : List ℕ)
      → WritesWide api cp_utf8 source text
      → utf8_to_unicode api (some source) destination ≡ (true, text)
  unfolding utf8_to_unicode
  utf8_to_unicode-text source text destination w =
      let n : (suc (length text) == 0) ≡ false = ground arith in
      rw (w.needed, n, w.written) (finish-text text destination w.no_zero)

  unicode_to_ansi-text :
      (source text destination : List ℕ)
      → WritesBytes api cp_oemcp source text
      → unicode_to_ansi api (some source) destination ≡ (true, text)
  unfolding unicode_to_ansi
  unicode_to_ansi-text source text destination w =
      let n : (suc (length text) == 0) ≡ false = ground arith in
      rw (w.needed, n, w.written) (finish-text text destination w.no_zero)

  unicode_to_utf8-text :
      (source text destination : List ℕ)
      → WritesBytes api cp_utf8 source text
      → api.allocates (suc (length text) + 1) ≡ true
      → unicode_to_utf8 api (some source) destination ≡ (true, text)
  unfolding unicode_to_utf8
  unicode_to_utf8-text source text destination w a =
      let n : (suc (length text) == 0) ≡ false = ground arith in
      rw (w.needed, n, a, w.written) (finish-text text destination w.no_zero)

  -- When Windows converts an ANSI string (`CP_ACP`) to wide characters, these to UTF-8 and the UTF-8
  -- back to the same wide characters, and these to bytes of the OEM code page (`CP_OEMCP`), and
  -- there is memory for the UTF-8: `ANSIToUTF8` returns the UTF-8, and `UTF8ToANSI` of that returns
  -- the bytes of the OEM code page, whether or not these are the ANSI string.
  pub utf8_to_ansi-ansi_to_utf8 :
      (ansi wide utf8 oem destination destination' : List ℕ)
      → WritesWide api cp_acp ansi wide
      → WritesBytes api cp_utf8 wide utf8
      → api.allocates (suc (length utf8) + 1) ≡ true
      → WritesWide api cp_utf8 utf8 wide
      → WritesBytes api cp_oemcp wide oem
      → (ansi_to_utf8 api (some ansi) destination ≡ (true, utf8))
        × (utf8_to_ansi api (some utf8) destination' ≡ (true, oem))
  unfolding ansi_to_utf8 utf8_to_ansi
  utf8_to_ansi-ansi_to_utf8 ansi wide utf8 oem destination destination' to_wide to_utf8 a back
        to_oem =
      (
        rw (ansi_to_unicode-text ansi wide [] to_wide)
            (unicode_to_utf8-text wide utf8 destination to_utf8 a),
        rw (utf8_to_unicode-text utf8 wide [] back)
            (unicode_to_ansi-text wide oem destination' to_oem),
      )

  finish-unchanged :
      (num : ℕ) (text destination : List ℕ)
      → ((finish num text destination).0 ≡ true) ⊎ ((finish num text destination).1 ≡ destination)
  finish-unchanged num text destination = elim (Bool-cases (length text == num)) [
    | inl e ↦ rw e (inl refl)
    | inr e ↦ rw e (inr refl)
  ]

  unicode_to_utf8-unchanged :
      (source : Option (List ℕ)) (destination : List ℕ)
      → ((unicode_to_utf8 api source destination).0 ≡ true)
        ⊎ ((unicode_to_utf8 api source destination).1 ≡ destination)
  unfolding unicode_to_utf8
  unicode_to_utf8-unchanged none destination = inr refl
  unicode_to_utf8-unchanged (some source) destination =
      let num = api.bytes_needed cp_utf8 source in
      elim (Bool-cases (num == 0)) [
        | inl e ↦ rw e (inr refl)
        | inr e ↦ elim (Bool-cases (api.allocates (num + 1))) [
          | inl a ↦
              rw (e, a) (finish-unchanged num (api.convert_bytes cp_utf8 source num) destination)
          | inr a ↦ rw (e, a) (inr refl)
        ]
      ]

  -- Whatever Windows answers: `ANSIToUTF8` returns true, or it leaves its destination as it was. So
  -- `toUtf8`, whose destination is static, then returns the text of the call before.
  pub ansi_to_utf8-unchanged :
      (source : Option (List ℕ)) (destination : List ℕ)
      → ((ansi_to_utf8 api source destination).0 ≡ true)
        ⊎ (to_utf8 api destination source ≡ destination)
  unfolding ansi_to_utf8
  ansi_to_utf8-unchanged source destination =
      if-unchanged (ansi_to_unicode api source []).0
        (unicode_to_utf8 api (some (ansi_to_unicode api source []).1) destination) destination
        (unicode_to_utf8-unchanged (some (ansi_to_unicode api source []).1) destination)
