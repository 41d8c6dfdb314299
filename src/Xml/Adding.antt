-- ===== src/Xml/Adding.antt =====
-- What each part of a page of libsouth_interface/southxml.cpp adds to it.
use boring.Prelude.{
  ℕ, ◌+◌, ◌≡◌, refl, ap, ap₂, sym, ◌∙◌, Bool, true, false, List, [], ◌∷◌, ◌++◌, Option, none, some,
  arith,
}
use mathlib.Core.List.{append-nil, append_assoc}
use boring.Prelude.Int.{ℤ}
use boring.Encode.{Conversions, to_utf8}
use boring.South.{Str, Target}
use boring.Xml.{Call, attribute, Page, number, prop_type, prop_name, node_param}
use boring.Xml.Make.{new_element, set_attribute, set_label, set_value, set_unit, set_type}
use boring.Xml.Pages.{
  element_calls, label_calls, value_calls, value_nodes, unit_calls, target_calls,
}

-- No conversion fails: `toUtf8` gives `utf8` of its argument, whatever its static string is.
abbrev pub Converts : Conversions → (Str → Str) → Type 0
Converts api utf8 = (last s : Str) → to_utf8 api last (some s) ≡ utf8 s

-- From `x` to `y` the calls `cs` are added and `k` nodes made.
abbrev pub Adds : Page → Page → List Call → ℕ → Type 0
Adds x y cs k = (y.calls ≡ x.calls ++ cs) × (y.nodes ≡ x.nodes + k)

pub Adds-trans :
    (x y z : Page) (cs ds : List Call) (j k : ℕ)
    → Adds x y cs j
    → Adds y z ds k
    → Adds x z (cs ++ ds) (j + k)
Adds-trans x y z cs ds j k (c, n) (d, m) =
    (d ∙ ap (λ l. l ++ ds) c ∙ append_assoc x.calls cs ds, omega arith)

-- In whichever order the arguments are evaluated.
set_attribute-converted :
    (api : Conversions) (right_first : Bool) (utf8 : Str → Str) (conv : Converts api utf8)
    (node : ℕ) (key value : Str) (x : Page)
    → (set_attribute api right_first node key value x).calls
      ≡ x.calls ++ label_calls utf8 node key (some value)
unfolding set_attribute
set_attribute-converted api true utf8 conv node key value x =
    ap₂ (λ a b. x.calls ++ attribute node a b ∷ []) (conv _ key) (conv x.last value)
set_attribute-converted api false utf8 conv node key value x =
    ap₂ (λ a b. x.calls ++ attribute node a b ∷ []) (conv x.last key) (conv _ value)

module _ (api : Conversions) (right_first : Bool) (utf8 : Str → Str)
    (conv : Converts api utf8) where
  pub new_element-Adds :
      (parent k : ℕ) (name : Str) (x : Page)
      → x.nodes ≡ k
      → Adds x (new_element api right_first parent name x) (element_calls utf8 parent k name) 1
  unfolding new_element
  new_element-Adds parent k name x e = rw (conv x.last name, e) (refl, omega arith)

  set_attribute-Adds :
      (node : ℕ) (key value : Str) (x : Page)
      → Adds x
          (set_attribute api right_first node key value x)
          (label_calls utf8 node key (some value))
          0
  unfolding set_attribute
  set_attribute-Adds node key value x =
      (set_attribute-converted api right_first utf8 conv node key value x, omega arith)

  pub set_label-Adds :
      (node : ℕ) (key : Str) (label : Option Str) (x : Page)
      → Adds x (set_label api right_first node key label x) (label_calls utf8 node key label) 0
  unfolding set_label
  set_label-Adds node key none x = (sym (append-nil x.calls), omega arith)
  set_label-Adds node key (some label) x = set_attribute-Adds node key label x

  set_value-Adds :
      (node k : ℕ) (value : Option Str) (x : Page)
      → x.nodes ≡ k
      → Adds x
          (set_value api right_first node value x)
          (value_calls utf8 node k value)
          (value_nodes utf8 value)
  unfolding set_value
  set_value-Adds node k none x e = (sym (append-nil x.calls), omega arith)
  set_value-Adds node k (some value) x e = rw (conv x.last value, e) (refl, omega arith)

  set_unit-Adds :
      (node : ℕ) (unit : Option Str) (x : Page)
      → Adds x (set_unit api right_first node unit x) (unit_calls utf8 node unit) 0
  unfolding set_unit
  set_unit-Adds node none x = (sym (append-nil x.calls), omega arith)
  set_unit-Adds node (some []) x = (sym (append-nil x.calls), omega arith)
  set_unit-Adds node (some (c ∷ cs)) x = set_attribute-Adds node _ (c ∷ cs) x

  set_type-Adds :
      (node : ℕ) (type : ℤ) (x : Page)
      → Adds x (set_type api right_first node type x) (number node (utf8 prop_type) type ∷ []) 0
  unfolding set_type
  set_type-Adds node type x = rw (conv x.last prop_type) (refl, omega arith)

  -- The page after one target.
  abbrev pub target_page : ℕ → ℕ → Target → Page → Page
  target_page parent k t x = set_type api right_first k t.type (
      set_unit api right_first k t.unit (
        set_value api right_first k t.value (
          set_label api right_first k prop_name t.label
            (new_element api right_first parent node_param x))))

  pub target-Adds :
      (parent k : ℕ) (t : Target) (x : Page)
      → x.nodes ≡ k
      → Adds x
          (target_page parent k t x)
          (target_calls utf8 parent k t)
          (1 + value_nodes utf8 t.value)
  target-Adds parent k t x e =
      let x1 = new_element api right_first parent node_param x in
      let x2 = set_label api right_first k prop_name t.label x1 in
      let x3 = set_value api right_first k t.value x2 in
      let x4 = set_unit api right_first k t.unit x3 in
      let x5 = set_type api right_first k t.type x4 in
      let a1 = new_element-Adds parent k node_param x e in
      let a2 = set_label-Adds k prop_name t.label x1 in
      let at_value : x2.nodes ≡ k + 1 = omega (arith, a1.1, a2.1) in
      let a3 = set_value-Adds k (k + 1) t.value x2 at_value in
      let a4 = set_unit-Adds k t.unit x3 in
      let a5 = set_type-Adds k t.type x4 in
      let tail =
        Adds-trans x1 x2 x5 _ _ _ _ a2
          (Adds-trans x2 x3 x5 _ _ _ _ a3 (Adds-trans x3 x4 x5 _ _ _ _ a4 a5)) in
      let all = Adds-trans x x1 x5 _ _ _ _ a1 tail in (all.0, omega (arith, all.1))
