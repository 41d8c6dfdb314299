-- ===== src/Encode/Tests.antt =====
-- libsouth_interface/transformEncode.cpp on a Windows with the code pages 1252 (ANSI) and 437 (OEM)
-- for one letter, and with conversions that fail.
use boring.Prelude.{
  ℕ, ◌+◌, ◌≡◌, refl, true, List, [], ◌∷◌, ◌++◌, none, some, length, ◌⊎◌, ◌==◌, if◌then◌else◌,
}
use boring.Encode.{Conversions, cp_oemcp, cp_utf8, ansi_to_utf8, utf8_to_ansi, to_utf8}
use boring.Encode.Laws.{utf8_to_ansi-ansi_to_utf8, ansi_to_utf8-unchanged}

-- The letter a with two dots is 228 in wide characters and in the code page 1252, the bytes 195 and
-- 164 in UTF-8, and 132 in the code page 437.
abbrev bytes_of : ℕ → List ℕ
bytes_of page =
    if page == cp_utf8 then 195 ∷ 164 ∷ [] else if page == cp_oemcp then 132 ∷ [] else 228 ∷ []

abbrev german : Conversions
german = record {
  bytes_needed = λ page _. length (bytes_of page) + 1;
  convert_bytes = λ page _ _. bytes_of page ++ 0 ∷ [];
  wide_needed = λ _ _. 2;
  convert_wide = λ _ _ _. 228 ∷ 0 ∷ [];
  allocates = λ _. true;
}

utf8_to_ansi-ansi_to_utf8_example :
    (ansi_to_utf8 german (some (228 ∷ [])) [] ≡ (true, 195 ∷ 164 ∷ []))
    × (utf8_to_ansi german (some (195 ∷ 164 ∷ [])) [] ≡ (true, 132 ∷ []))
utf8_to_ansi-ansi_to_utf8_example =
    utf8_to_ansi-ansi_to_utf8 german (228 ∷ []) (228 ∷ []) (195 ∷ 164 ∷ []) (132 ∷ []) [] []
      (record { needed = refl; written = refl; no_zero = refl })
      (record { needed = refl; written = refl; no_zero = refl }) refl
      (record { needed = refl; written = refl; no_zero = refl })
      (record { needed = refl; written = refl; no_zero = refl })

keeps_old_text :
    ((ansi_to_utf8 german none (132 ∷ [])).0 ≡ true) ⊎ (to_utf8 german (132 ∷ []) none ≡ 132 ∷ [])
keeps_old_text = ansi_to_utf8-unchanged german none (132 ∷ [])
