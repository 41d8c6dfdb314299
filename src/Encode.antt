-- ===== src/Encode.antt =====
-- libsouth_interface/transformEncode.cpp, and `toUtf8` of southxml.cpp. The conversions of Windows are
-- a parameter. A string is its units before the terminating zero; a null source is `none`.
pub mod Laws
mod Tests
use boring.Prelude.{
  ℕ, suc, ◌+◌, Bool, true, false, List, [], ◌∷◌, ◌++◌, Option, none, some, ◌==◌, if◌then◌else◌,
  length,
}
use boring.Text.ListSplit.{until_zero}

abbrev pub cp_acp : ℕ
cp_acp = 0

abbrev pub cp_oemcp : ℕ
cp_oemcp = 1

abbrev pub cp_utf8 : ℕ
cp_utf8 = 65001

-- `WideCharToMultiByte` and `MultiByteToWideChar` for a code page and a source with length -1. With no
-- room given they return the room needed, 0 on failure; with room they write units, and return how
-- many. `allocates` says whether memory for so many bytes is got.
pub record Conversions : Type 0 where
  pub bytes_needed : ℕ → List ℕ → ℕ
  pub convert_bytes : ℕ → List ℕ → ℕ → List ℕ
  pub wide_needed : ℕ → List ℕ → ℕ
  pub convert_wide : ℕ → List ℕ → ℕ → List ℕ
  pub allocates : ℕ → Bool

-- The result and the destination after the second call: `text` is what it has written, and
-- `psText[dwNum]` is set to zero.
abbrev pub finish : ℕ → List ℕ → List ℕ → Bool × List ℕ
finish num text destination =
    if length text == num then (true, until_zero (text ++ 0 ∷ [])) else (false, destination)

module _ (api : Conversions) where
  -- `new` throws when there is no memory, which the callers do not catch: the model covers the runs in
  -- which it gets some.
  unfoldable pub unicode_to_ansi : Option (List ℕ) → List ℕ → Bool × List ℕ
  unicode_to_ansi none destination = (false, destination)
  unicode_to_ansi (some source) destination =
      let num = api.bytes_needed cp_oemcp source in
      if num == 0
      then (false, destination)
      else finish num (api.convert_bytes cp_oemcp source num) destination

  unfoldable pub unicode_to_utf8 : Option (List ℕ) → List ℕ → Bool × List ℕ
  unicode_to_utf8 none destination = (false, destination)
  unicode_to_utf8 (some source) destination =
      let num = api.bytes_needed cp_utf8 source in
      if num == 0
      then (false, destination)
      else if api.allocates (num + 1)
      then finish num (api.convert_bytes cp_utf8 source num) destination
      else (false, destination)

  unfoldable pub ansi_to_unicode : Option (List ℕ) → List ℕ → Bool × List ℕ
  ansi_to_unicode none destination = (false, destination)
  ansi_to_unicode (some source) destination =
      let num = api.wide_needed cp_acp source in
      if num == 0
      then (false, destination)
      else finish num (api.convert_wide cp_acp source num) destination

  unfoldable pub utf8_to_unicode : Option (List ℕ) → List ℕ → Bool × List ℕ
  utf8_to_unicode none destination = (false, destination)
  utf8_to_unicode (some source) destination =
      let num = api.wide_needed cp_utf8 source in
      if num == 0
      then (false, destination)
      else finish num (api.convert_wide cp_utf8 source num) destination

  unfoldable pub ansi_to_utf8 : Option (List ℕ) → List ℕ → Bool × List ℕ
  ansi_to_utf8 source destination =
      let wide = ansi_to_unicode source [] in
      if wide.0 then unicode_to_utf8 (some wide.1) destination else (false, destination)

  unfoldable pub utf8_to_ansi : Option (List ℕ) → List ℕ → Bool × List ℕ
  utf8_to_ansi source destination =
      let wide = utf8_to_unicode source [] in
      if wide.0 then unicode_to_ansi (some wide.1) destination else (false, destination)

  -- The two that return the string.
  abbrev pub ansi_to_utf8_string : Option (List ℕ) → List ℕ
  ansi_to_utf8_string source = (ansi_to_utf8 source []).1

  abbrev pub utf8_to_ansi_string : Option (List ℕ) → List ℕ
  utf8_to_ansi_string source = (utf8_to_ansi source []).1

  -- `toUtf8`, whose `str` is static: `last` is what the call before has left there. It returns the new
  -- value of `str`.
  abbrev pub to_utf8 : List ℕ → Option (List ℕ) → List ℕ
  to_utf8 last source = (ansi_to_utf8 source last).1
