-- ===== src/Ini.antt =====
-- base/inifile.cpp: `Config`, a section's keys and values, and `CIniFile`, the sections by name. The
-- shared pointers of the sections never leave the map, so a section stands in it by value.
pub mod TextMode
pub mod File
pub mod Valid
pub mod Access
pub mod Parsing
pub mod Lines
pub mod Reading
pub mod Text
pub mod RoundTrip
mod Tests
use boring.Prelude.{
  ℕ, Bool, true, false, not, ◌&&◌, List, [], ◌∷◌, Option, none, some, if◌then◌else◌,
}
use boring.Text.TrimLaws.{is_nil}
use boring.Dict.{Dict, find, assign, erase}

abbrev pub Str : Type 0
Str = List ℕ

abbrev pub is_empty : Str → Bool
is_empty s = is_nil s

pub record Config : Type 0 where
  pub main_key : Str
  pub conf : Dict Str

unfoldable pub new_config : Str → Config
new_config main_key = record { main_key = main_key; conf = [] }

unfoldable pub config_get : Config → Str → Str
config_get c key = elim (find key c.conf) [ none ↦ [] | some value ↦ value ]

unfoldable pub config_set : Config → Str → Str → Config
config_set c key value =
    if not (is_empty key) then record c { conf = assign key value c.conf } else c

unfoldable pub config_del : Config → Str → Config
config_del c key = elim (find key c.conf) [
  | none ↦ c
  | some value ↦ record c { conf = erase key c.conf }
]

pub record IniFile : Type 0 where
  pub is_change : Bool
  pub file_name : Str
  pub section : Dict Config

unfoldable pub new_ini : Str → IniFile
new_ini file_name = record { is_change = false; file_name = file_name; section = [] }

-- `m_mSection[_section]`, after a new `Config` has been put there if there was none.
abbrev pub section_at : Str → Dict Config → Config
section_at name m = elim (find name m) [ none ↦ new_config name | some c ↦ c ]

unfoldable pub set : IniFile → Str → Str → Str → IniFile
set s name key value =
    if not (is_empty name) && not (is_empty key)
    then record s {
      section = assign name (config_set (section_at name s.section) key value) s.section;
      is_change = true;
    }
    else s

unfoldable pub get : IniFile → Str → Str → Str → Str
get s name key default = elim (find name s.section) [ none ↦ default | some c ↦ config_get c key ]

unfoldable pub del : IniFile → Str → Str → IniFile
del s name key = elim (find name s.section) [
  | none ↦ s
  | some c ↦ record s { section = assign name (config_del c key) s.section; is_change = true }
]
