-- ===== src/Xml/Make.antt =====
-- libsouth_interface/southxml.cpp: `target_make_xml`, `monitor_make_xml` and `monitor_to_string`.
use boring.Prelude.{
  ℕ, zero, suc, Bool, true, false, List, [], ◌∷◌, ◌++◌, Option, none, some, ◌==◌, if◌then◌else◌,
}
use boring.Prelude.Int.{ℤ, pos, negsuc}
use boring.Outcome.{Outcome, ok, fault, null_pointer, uninitialised, out_of_fuel, or_fault, ◌>>=◌}
use boring.Memory.{deref}
use boring.Text.ListSplit.{until_zero}
use boring.Encode.{Conversions, to_utf8}
use boring.South.{Str, Heap}
use boring.Xml.{
  Call, document, declaration, element, text, link, attribute, number, print_file, Page,
  node_service, node_info, node_ctl_cmd, node_param, prop_soft_name, prop_name, prop_type,
  prop_unit, prop_type_name,
}

-- `right_first` says whether the compiler evaluates the last argument of a call first: the order is
-- seen when a conversion fails and `toUtf8` returns the string of the call before.
module _ (api : Conversions) (right_first : Bool) where
  -- `new TiXmlElement(toUtf8(name).c_str())`, and `LinkEndChild` on the parent.
  unfoldable pub new_element : ℕ → Str → Page → Page
  new_element parent name x =
      let s = to_utf8 api x.last (some name) in
      record {
        calls = x.calls ++ element x.nodes s ∷ link parent x.nodes ∷ [];
        nodes = suc x.nodes;
        last = s;
      }

  -- `SetAttribute(toUtf8(key).c_str(), toUtf8(value).c_str())`.
  unfoldable pub set_attribute : ℕ → Str → Str → Page → Page
  set_attribute node key value x =
      let first = to_utf8 api x.last (some (if right_first then value else key)) in
      let second = to_utf8 api first (some (if right_first then key else value)) in
      record x {
        calls =
            x.calls
            ++ attribute node (if right_first then second else first)
                (if right_first then first else second)
              ∷ [];
        last = second;
      }

  -- The label, if there is one.
  unfoldable pub set_label : ℕ → Str → Option Str → Page → Page
  unfolding set_attribute
  set_label node key none x = x
  set_label node key (some label) x = set_attribute node key label x

  unfoldable pub set_value : ℕ → Option Str → Page → Page
  set_value node none x = x
  set_value node (some value) x =
      let s = to_utf8 api x.last (some value) in
      record {
        calls = x.calls ++ text x.nodes s ∷ link node x.nodes ∷ [];
        nodes = suc x.nodes;
        last = s;
      }

  -- A unit that is not empty.
  unfoldable pub set_unit : ℕ → Option Str → Page → Page
  unfolding set_attribute
  set_unit node none x = x
  set_unit node (some []) x = x
  set_unit node (some (c ∷ cs)) x = set_attribute node prop_unit (c ∷ cs) x

  unfoldable pub set_type : ℕ → ℤ → Page → Page
  set_type node type x =
      let s = to_utf8 api x.last (some prop_type) in
      record x { calls = x.calls ++ number node s type ∷ []; last = s }

  unfoldable pub target_make_xml : ℕ → ℕ → Heap → Page → Outcome (Page × ℤ)
  target_make_xml pt parent h x = elim (pt == 0) [
    | true ↦ ok (x, pos 0)
    | false ↦ elim (parent == 0) [
      | true ↦ ok (x, negsuc 0)
      | false ↦ do
        t ← deref h.targets pt
        let node = x.nodes
        ok (
          set_type node t.type (
              set_unit node t.unit (
                set_value node t.value
                  (set_label node prop_name t.label (new_element parent node_param x)))),
          pos 0,
        )
    ]
  ]

  -- The loop of `monitor_make_xml`.
  unfoldable pub targets_make_xml : ℕ → ℕ → ℕ → Heap → Page → Outcome Page
  targets_make_xml zero pt node h x = fault out_of_fuel
  targets_make_xml (suc fuel) pt node h x = elim (pt == 0) [
    | true ↦ ok x
    | false ↦ do
      made ← target_make_xml pt node h x
      t ← deref h.targets pt
      targets_make_xml fuel t.next node h made.0
  ]

  unfoldable pub monitor_make_xml : ℕ → ℕ → ℕ → Heap → Page → Outcome (Page × ℤ)
  monitor_make_xml fuel pm parent h x = elim (pm == 0) [
    | true ↦ ok (x, pos 0)
    | false ↦ elim (parent == 0) [
      | true ↦ ok (x, negsuc 0)
      | false ↦ do
        m ← deref h.monitors pm
        let node = x.nodes
        let x1 = set_label node prop_soft_name m.label (new_element parent node_ctl_cmd x)
        pd ← or_fault m.pd uninitialised
        d ← deref h.devices pd
        x2 ← targets_make_xml fuel m.target node h (set_label node prop_type_name d.label x1)
        ok (x2, pos 0)
    ]
  ]

  -- The document is node 1, its declaration node 2.
  abbrev pub new_document : Str → Page
  new_document last = record {
    calls = document 1 ∷ declaration 2 ∷ link 1 2 ∷ [];
    nodes = 3;
    last = last;
  }

  -- The text that is returned, made by `PrintS` of the calls so far, and the static string of
  -- `toUtf8`; `opens` says whether the file could be opened. From a null `pm` it makes a
  -- `std::string` of a null pointer.
  unfoldable pub monitor_to_string :
      (List Call → Str) → Bool → ℕ → ℕ → Heap → Str → Outcome (Str × Str)
  monitor_to_string print opens fuel pm h last = elim (pm == 0) [
    | true ↦ fault null_pointer
    | false ↦ do
      let x1 = new_element 1 node_service (new_document last)
      let x2 = new_element 3 node_info x1
      x3 ← monitor_make_xml fuel pm 4 h x2
      let calls = if opens then x3.0.calls ++ print_file 1 ∷ [] else x3.0.calls
      ok (until_zero (print calls), x3.0.last)
  ]
