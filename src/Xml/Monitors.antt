-- ===== src/Xml/Monitors.antt =====
-- The pages that libsouth_interface/southxml.cpp makes of a monitor and its targets in memory.
use boring.Prelude.{
  ℕ, zero, suc, ◌+◌, ◌<◌, ◌≡◌, refl, ap, sym, ◌∙◌, Bool, false, List, [], ◌∷◌, ◌++◌, Option, some,
  ◌==◌, length, arith,
}
use mathlib.Core.List.{append-nil}
use boring.Prelude.Int.{pos}
use boring.Outcome.{Outcome, ok, bind-ok, or_fault, uninitialised}
use boring.Memory.{deref-found}
use boring.Encode.{Conversions}
use boring.South.{Str, Target, Monitor, Device, Heap}
use boring.Xml.{Call, Page, prop_soft_name, prop_type_name, node_ctl_cmd}
use boring.Xml.Make.{new_element, set_label, target_make_xml, targets_make_xml, monitor_make_xml}
use boring.Xml.Pages.{value_nodes, targets_calls, monitor_calls}
use boring.Xml.Adding.{
  Converts, Adds, Adds-trans, new_element-Adds, set_label-Adds, target_page, target-Adds,
}

-- The targets in memory from an address on, in the order of `_next`.
abbrev pub TargetRow : (ℕ → Option Target) → ℕ → List Target → Type 0
TargetRow cells a [] = a ≡ 0
TargetRow cells a (t ∷ ts) = (0 < a) × (cells a ≡ some t) × TargetRow cells t.next ts

module _ (api : Conversions) (right_first : Bool) (utf8 : Str → Str) (conv : Converts api utf8)
    (h : Heap) where
  -- A run that returns a page, with what it adds to `x`.
  record Makes (x : Page) (cs : List Call) (k : ℕ) (o : Outcome Page) : Type 0 where
    page : Page
    returned : o ≡ ok page
    adds : Adds x page cs k

  target-returned :
      (pt parent k : ℕ) (t : Target) (x : Page)
      → 0 < pt
      → 0 < parent
      → h.targets pt ≡ some t
      → x.nodes ≡ k
      → target_make_xml api right_first pt parent h x
        ≡ ok (target_page api right_first utf8 conv parent k t x, pos 0)
  unfolding target_make_xml
  target-returned pt parent k t x p q e n =
      let f : (pt == 0) ≡ false = ground arith in
      let g : (parent == 0) ≡ false = ground arith in
      rw (f, g, target_make_xml) (bind-ok _ (deref-found h.targets pt p e) ∙ rw n refl)

  targets-Makes :
      (fuel pt parent k : ℕ) (ts : List Target) (x : Page)
      → length ts < fuel
      → 0 < parent
      → TargetRow h.targets pt ts
      → x.nodes ≡ k
      → (j : ℕ) × Makes x
          (targets_calls utf8 parent k ts)
          j
          (targets_make_xml api right_first fuel pt parent h x)
  unfolding targets_make_xml
  targets-Makes zero pt parent k ts x l q row n = absurd (omega arith)
  targets-Makes (suc fuel) pt parent k [] x l q row n = (
    0,
    record { page = x; returned = rw row refl; adds = (sym (append-nil x.calls), omega arith) },
  )
  targets-Makes (suc fuel) pt parent k (t ∷ ts) x l q (p, e, row) n =
      let f : (pt == 0) ≡ false = ground arith in
      let y = target_page api right_first utf8 conv parent k t x in
      let made = target-Adds api right_first utf8 conv parent k t x n in
      let (j, later) =
        targets-Makes fuel t.next parent (k + (1 + value_nodes utf8 t.value)) ts y (omega arith) q
          row (made.1 ∙ omega (arith, n)) in
      (
        _,
        record {
          page = later.page;
          returned =
              rw (f, targets_make_xml)
                (bind-ok _ (target-returned pt parent k t x p q e n)
                  ∙ bind-ok _ (deref-found h.targets pt p e)
                  ∙ later.returned);
          adds = Adds-trans x y later.page _ _ _ j made later.adds;
        },
      )

  pub monitor-Makes :
      (fuel pm parent pd : ℕ) (m : Monitor) (d : Device) (ts : List Target) (x : Page)
      → 0 < pm
      → 0 < parent
      → 0 < pd
      → h.monitors pm ≡ some m
      → m.pd ≡ some pd
      → h.devices pd ≡ some d
      → length ts < fuel
      → TargetRow h.targets m.target ts
      → 0 < x.nodes
      → (y : Page) × (monitor_make_xml api right_first fuel pm parent h x ≡ ok (y, pos 0))
        × (y.calls ≡ x.calls ++ monitor_calls utf8 parent x.nodes m d.label ts)
  unfolding monitor_make_xml
  monitor-Makes fuel pm parent pd m d ts x p q r e own at_pd l row n =
      let f : (pm == 0) ≡ false = ground arith in
      let g : (parent == 0) ≡ false = ground arith in
      let k = x.nodes in
      let x1 = new_element api right_first parent node_ctl_cmd x in
      let x2 = set_label api right_first k prop_soft_name m.label x1 in
      let x3 = set_label api right_first k prop_type_name d.label x2 in
      let a1 = new_element-Adds api right_first utf8 conv parent k node_ctl_cmd x refl in
      let a2 = set_label-Adds api right_first utf8 conv k prop_soft_name m.label x1 in
      let a3 = set_label-Adds api right_first utf8 conv k prop_type_name d.label x2 in
      let at_targets : x3.nodes ≡ k + 1 = omega (arith, a1.1, a2.1, a3.1) in
      let (j, later) = targets-Makes fuel m.target k (k + 1) ts x3 l n row at_targets in
      let tail =
        Adds-trans x1 x2 later.page _ _ _ _ a2
          (Adds-trans x2 x3 later.page _ _ _ j a3 later.adds) in
      (
        later.page,
        rw (f, g, monitor_make_xml)
            (bind-ok _ (deref-found h.monitors pm p e)
              ∙ bind-ok _ (ap (λ o. or_fault o uninitialised) own)
              ∙ bind-ok _ (deref-found h.devices pd r at_pd)
              ∙ bind-ok _ later.returned),
        (Adds-trans x x1 later.page _ _ _ _ a1 tail).0,
      )
