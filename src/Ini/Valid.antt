-- ===== src/Ini/Valid.antt =====
-- What `set` and `del` of base/inifile.cpp keep of the maps.
use mathlib.Core.Path.{subst}
use boring.Prelude.{
  ◌≡◌, refl, ◌∙◌, arith, true, not, ◌&&◌, [], ◌∷◌, none, some, inl, inr, Bool-cases, Option-cases,
}
use boring.Dict.{Dict, str_eq, str_lt, find, assign}
use boring.Dict.Laws.{IsSorted, assign-IsSorted, erase-IsSorted}
use boring.Dict.Order.{str_eq_iff, str_eq→eq}
use boring.Ini.{
  Str, is_empty, Config, new_config, config_set, config_del, IniFile, section_at, set, del,
}

-- Every section is filed under its own name, and all maps are in order.
abbrev pub Filed : Dict Config → Type 0
Filed [] = Unit
Filed ((name, c) ∷ m) = (c.main_key ≡ name) × IsSorted c.conf × Filed m

pub record IsValid (s : IniFile) : Type 0 where
  pub sorted : IsSorted s.section
  pub filed : Filed s.section

Filed-assign :
    (name : Str) (c : Config) (m : Dict Config)
    → c.main_key ≡ name
    → IsSorted c.conf
    → Filed m
    → Filed (assign name c m)
unfolding assign
Filed-assign name c [] k o f = (k, o, tt)
Filed-assign name c ((j, d) ∷ m) k o (l, p, f) = elim (Bool-cases (str_eq j name)) [
  | inl e ↦ rw e (ground (arith, str_eq_iff j name), o, f)
  | inr n ↦ elim (Bool-cases (str_lt name j)) [
    | inl before ↦ rw (n, before) (k, o, (l, p, f))
    | inr after ↦ rw (n, after) (l, p, Filed-assign name c m k o f)
  ]
]

-- A filed section is a good one.
abbrev pub Good : Str → Config → Type 0
Good name c = (c.main_key ≡ name) × IsSorted c.conf

Good-some : (name : Str) {c d : Config} → Good name d → some d ≡ some c → Good name c
Good-some name {c} {d} g h =
    subst (λ o. elim o as (λ _. Type 0) [ none ↦ Unit | some x ↦ Good name x ]) h g

pub Filed-find :
    (name : Str) (m : Dict Config) {c : Config} → Filed m → find name m ≡ some c → Good name c
unfolding find
Filed-find name [] f h = cc
Filed-find name ((j, d) ∷ m) (l, p, f) h = elim (Bool-cases (str_eq j name)) [
  | inl e ↦ Good-some name {d = d} (l ∙ str_eq→eq j name e, p) (rw e at h)
  | inr n ↦ Filed-find name m f (rw n at h)
]

pub Good-section_at : (name : Str) (m : Dict Config) → Filed m → Good name (section_at name m)
Good-section_at name m f = elim (Option-cases (find name m)) [
  | inl e ↦ rw (e, section_at) (unfold new_config in (refl, tt))
  | inr (c, e) ↦ rw (e, section_at) (Filed-find name m f e)
]

Good-config_set :
    (name : Str) (c : Config) (key value : Str) → Good name c → Good name (config_set c key value)
unfolding config_set
Good-config_set name c key value (k, o) = elim (Bool-cases (not (is_empty key))) [
  | inl h ↦ rw h (k, assign-IsSorted key value c.conf o)
  | inr h ↦ rw h (k, o)
]

Good-config_del : (name : Str) (c : Config) (key : Str) → Good name c → Good name (config_del c key)
unfolding config_del
Good-config_del name c key (k, o) = elim (Option-cases (find key c.conf)) [
  | inl e ↦ rw (e, config_del) (k, o)
  | inr (value, e) ↦ rw (e, config_del) (k, erase-IsSorted key c.conf o)
]

IsValid-assign :
    (s : IniFile) (name : Str) (c : Config)
    → IsValid s
    → Good name c
    → IsValid (record s { section = assign name c s.section; is_change = true })
IsValid-assign s name c v (k, o) = record {
  sorted = assign-IsSorted name c s.section v.sorted;
  filed = Filed-assign name c s.section k o v.filed;
}

-- Writing a value keeps the maps in order and every section filed under its own name.
pub set-IsValid : (s : IniFile) (name key value : Str) → IsValid s → IsValid (set s name key value)
unfolding set
set-IsValid s name key value v = elim (Bool-cases (not (is_empty name) && not (is_empty key))) [
  | inr n ↦ rw n v
  | inl both ↦
      let g : Good name (section_at name s.section) = Good-section_at name s.section v.filed in
      rw both (
        IsValid-assign s name (config_set (section_at name s.section) key value) v
          (Good-config_set name (section_at name s.section) key value g))
]

-- So does taking a key out.
pub del-IsValid : (s : IniFile) (name key : Str) → IsValid s → IsValid (del s name key)
unfolding del
del-IsValid s name key v = elim (Option-cases (find name s.section)) [
  | inl e ↦ rw (e, del) v
  | inr (c, e) ↦
      rw (e, del)
        (IsValid-assign s name (config_del c key) v
          (Good-config_del name c key (Filed-find name s.section v.filed e)))
]
