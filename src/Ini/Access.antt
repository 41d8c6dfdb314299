-- ===== src/Ini/Access.antt =====
-- `set`, `get` and `del` of base/inifile.cpp against one another, and what they keep of the map.
use boring.Prelude.{
  ◌≡◌, refl, ap, ◌∙◌, arith, true, false, not, ◌&&◌, [], none, some, if◌then◌else◌, inl, inr,
  Bool-cases, Option-cases,
}
use boring.Dict.{str_eq, find, assign}
use boring.Dict.Laws.{IsSorted, find-assign, find-erase}
use boring.Dict.Order.{str_eq→eq}
use boring.Ini.{
  Str, is_empty, Config, new_config, config_get, config_set, config_del, IniFile, section_at, set,
  get, del,
}
use boring.Ini.Valid.{IsValid, Filed-find}

config_get-set :
    (c : Config) (key value key' : Str)
    → is_empty key ≡ false
    → config_get (config_set c key value) key'
      ≡ (if str_eq key key' then value else config_get c key')
unfolding config_get config_set
config_get-set c key value key' h = rw h (elim (Bool-cases (str_eq key key')) [
  | inl e ↦ ground (arith, find-assign key key' value c.conf, e)
  | inr n ↦ ground (arith, find-assign key key' value c.conf, n)
])

config_get-section_at :
    (s : IniFile) (name key : Str) → config_get (section_at name s.section) key ≡ get s name key []
unfolding get config_get new_config find
config_get-section_at s name key = elim (Option-cases (find name s.section)) [
  | inl e ↦ rw (e, section_at, get) refl
  | inr (c, e) ↦ rw (e, section_at, get) refl
]

-- What is found under a name in a map that a section has been put into.
get-assigned :
    (s : IniFile) (name name' key' default : Str) (c : Config)
    → get (record s { section = assign name c s.section; is_change = true }) name' key' default
      ≡ (if str_eq name name' then config_get c key' else get s name' key' default)
unfolding get
get-assigned s name name' key' default c = elim (Bool-cases (str_eq name name')) [
  | inl e ↦ ground (arith, find-assign name name' c s.section, e)
  | inr n ↦ ground (arith, find-assign name name' c s.section, n)
]

get_same :
    (s : IniFile) (name name' key : Str)
    → str_eq name name' ≡ true
    → get s name key [] ≡ get s name' key []
get_same s name name' key e = ap (λ n. get s n key []) (str_eq→eq name name' e)

-- The value that a reader sees after a write: the one written, at its section and key; at another
-- key of that section the one that was there, or the empty string if there was none; elsewhere what
-- was there. With an empty section or key nothing is written.
pub get-set :
    (s : IniFile) (name key value name' key' default : Str)
    → get (set s name key value) name' key' default ≡ (
        if not (is_empty name) && not (is_empty key) && str_eq name name'
        then (if str_eq key key' then value else get s name' key' [])
        else get s name' key' default)
unfolding set
get-set s name key value name' key' default = elim (Bool-cases (is_empty name)) [
  | inl a ↦ rw a refl
  | inr a ↦ elim (Bool-cases (is_empty key)) [
    | inl k ↦ rw (a, k) refl
    | inr k ↦
        let put =
          get-assigned s name name' key' default
            (config_set (section_at name s.section) key value) in
        elim (Bool-cases (str_eq name name')) [
          | inl e ↦
              rw (a, k, e)
                (rw e at put
                  ∙ rw
                      (
                        config_get-set (section_at name s.section) key value key' k,
                        config_get-section_at s name key',
                        get_same s name name' key' e,
                      )
                      refl)
          | inr n ↦ rw (a, k, n) (rw n at put)
        ]
  ]
]

-- A key that is taken out of a section is not found there any more, the others are.
find-config_del :
    (c : Config) (key key' : Str)
    → IsSorted c.conf
    → find key' (config_del c key).conf ≡ (if str_eq key key' then none else find key' c.conf)
unfolding config_del
find-config_del c key key' o = elim (Option-cases (find key c.conf)) [
  | inl e ↦ elim (Bool-cases (str_eq key key')) [
    | inl q ↦ rw (e, q, config_del) (rw (str_eq→eq key key' q) at e)
    | inr n ↦ rw (e, n, config_del) refl
  ]
  | inr (v, e) ↦ rw (e, config_del) (find-erase key key' c.conf o)
]

config_get-del :
    (c : Config) (key key' : Str)
    → IsSorted c.conf
    → config_get (config_del c key) key' ≡ (if str_eq key key' then [] else config_get c key')
unfolding config_get
config_get-del c key key' o = elim (Bool-cases (str_eq key key')) [
  | inl q ↦ ground (arith, find-config_del c key key' o, q)
  | inr n ↦ ground (arith, find-config_del c key key' o, n)
]

get_missing :
    (s : IniFile) (name key default : Str)
    → find name s.section ≡ none
    → get s name key default ≡ default
unfolding get
get_missing s name key default e = rw (e, get) refl

get_found :
    (s : IniFile) (name key default : Str) (c : Config)
    → find name s.section ≡ some c
    → get s name key default ≡ config_get c key
unfolding get
get_found s name key default c e = rw (e, get) refl

-- The value that a reader sees after a deletion, on maps in order: the empty string at the key in an
-- existing section, whatever the default; elsewhere what was there.
pub get-del :
    (s : IniFile) (name key name' key' default : Str)
    → IsValid s
    → get (del s name key) name' key' default ≡ (
        if str_eq name name' && str_eq key key'
        then elim (find name s.section) [ none ↦ default | some c ↦ [] ]
        else get s name' key' default)
unfolding del
get-del s name key name' key' default v = elim (Option-cases (find name s.section)) [
  | inl e ↦ elim (Bool-cases (str_eq name name' && str_eq key key')) [
    | inl q ↦
        let same : str_eq name name' ≡ true = ground arith in
        rw (q, e, del) (get_missing s name' key' default (rw (str_eq→eq name name' same) at e))
    | inr n ↦ rw (n, e, del) refl
  ]
  | inr (c, e) ↦
      let o : IsSorted c.conf = (Filed-find name s.section v.filed e).1 in
      let put = get-assigned s name name' key' default (config_del c key) in
      elim (Bool-cases (str_eq name name')) [
        | inr n ↦ rw (n, e, del) (rw n at put)
        | inl q ↦
            rw (q, e, del)
              (rw q at put
                ∙ rw
                    (
                      config_get-del c key key' o,
                      get_found s name' key' default c (rw (str_eq→eq name name' q) at e),
                    )
                    refl)
      ]
]
