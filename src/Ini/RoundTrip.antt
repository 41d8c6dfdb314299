-- ===== src/Ini/RoundTrip.antt =====
-- `write` and then `load` of base/inifile.cpp.
use boring.Prelude.{[], ◌∷◌, ◌++◌}
use boring.Dict.{Dict}
use boring.Ini.{Str, Config}
use boring.Ini.File.{Reader}

-- The reader inside a section: `front_part` are the sections before it, `d` its pairs so far.
abbrev inside : Str → Dict Config → Dict Str → Reader
inside name front_part d = record {
  current = name;
  sections = front_part ++ (name, record { main_key = name; conf = d }) ∷ [];
}
