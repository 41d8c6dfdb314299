-- ===== src/Xml/Pages.antt =====
-- What the pages of libsouth_interface/southxml.cpp hold, when no conversion to UTF-8 fails: the
-- calls of TinyXML as lists, from the monitor and its targets as lists.
use boring.Prelude.{ℕ, ◌+◌, List, [], ◌∷◌, ◌++◌, Option, none, some, Bool, if◌then◌else◌}
use boring.South.{Str, Target, Monitor}
use boring.Xml.{
  Call, document, declaration, element, text, link, attribute, number, print_file, node_service,
  node_info, node_ctl_cmd, node_param, prop_soft_name, prop_name, prop_type, prop_unit,
  prop_type_name,
}

module _ (utf8 : Str → Str) where
  abbrev pub element_calls : ℕ → ℕ → Str → List Call
  element_calls parent n name = element n (utf8 name) ∷ link parent n ∷ []

  abbrev pub label_calls : ℕ → Str → Option Str → List Call
  label_calls n key none = []
  label_calls n key (some label) = attribute n (utf8 key) (utf8 label) ∷ []

  -- The value is a text of its own, with the next number.
  abbrev pub value_calls : ℕ → ℕ → Option Str → List Call
  value_calls n k none = []
  value_calls n k (some value) = text k (utf8 value) ∷ link n k ∷ []

  abbrev pub value_nodes : Option Str → ℕ
  value_nodes none = 0
  value_nodes (some value) = 1

  abbrev pub unit_calls : ℕ → Option Str → List Call
  unit_calls n none = []
  unit_calls n (some []) = []
  unit_calls n (some (c ∷ cs)) = attribute n (utf8 prop_unit) (utf8 (c ∷ cs)) ∷ []

  abbrev pub target_calls : ℕ → ℕ → Target → List Call
  target_calls parent n t =
      element_calls parent n node_param
      ++ (label_calls n prop_name t.label
          ++ (value_calls n (n + 1) t.value
              ++ (unit_calls n t.unit ++ number n (utf8 prop_type) t.type ∷ [])))

  -- One element for each target, in order.
  abbrev pub targets_calls : ℕ → ℕ → List Target → List Call
  targets_calls parent n [] = []
  targets_calls parent n (t ∷ ts) =
      target_calls parent n t ++ targets_calls parent (n + (1 + value_nodes t.value)) ts

  abbrev pub monitor_calls : ℕ → ℕ → Monitor → Option Str → List Target → List Call
  monitor_calls parent n m device_label ts =
      element_calls parent n node_ctl_cmd
      ++ (label_calls n prop_soft_name m.label
          ++ (label_calls n prop_type_name device_label ++ targets_calls n (n + 1) ts))

  abbrev pub page_calls : Bool → Monitor → Option Str → List Target → List Call
  page_calls opens m device_label ts =
      (document 1 ∷ declaration 2 ∷ link 1 2 ∷ [])
      ++ (element_calls 1 3 node_service
          ++ (element_calls 3 4 node_info
              ++ (monitor_calls 4 5 m device_label ts
                  ++ (if opens then print_file 1 ∷ [] else []))))
