-- ===== src/Xml/Composition.antt =====
-- libsouth_interface: a device that monitors are added to (south.cpp) and that is then uploaded
-- (southxml.cpp).
use boring.Prelude.{
  ℕ, suc, ◌+◌, ◌<◌, ◌≡◌, refl, ap, ap₂, sym, ◌∙◌, Bool, true, false, ◌||◌, ◌&&◌, List, [], ◌∷◌,
  ◌++◌, Option, some, length, length-append, arith, if◌then◌else◌,
}
use mathlib.Core.Path.{subst}
use boring.Prelude.Int.{pos}
use boring.Outcome.{ok}
use boring.Encode.{Conversions}
use boring.South.{Str, Target, Monitor, Device, Heap}
use boring.South.Devices.{device_add_monitor}
use boring.South.DeviceList.{
  MonitorNodes, first_addr, Row, NotIn, IsDevice, IsCurrent, device_add_monitor-IsDevice,
}
use boring.Xml.{Call}
use boring.Xml.Adding.{Converts}
use boring.Xml.Monitors.{TargetRow}
use boring.Text.ListSplit.{until_zero}
use boring.Xml.Pages.{page_calls}
use boring.Xml.Laws.{MonitorRow, xml, handed, upload-handed}
use boring.Xml.Upload.{Uploader, upload}

-- The nodes of a device's list, each with its targets.
abbrev pub Items : Type 0
Items = List ((ℕ × Monitor) × List Target)

abbrev pub nodes : Items → MonitorNodes
nodes [] = []
nodes ((n, ts) ∷ is) = n ∷ nodes is

abbrev pub monitors_of : Items → List (Monitor × List Target)
monitors_of [] = []
monitors_of (((a, m), ts) ∷ is) = (m, ts) ∷ monitors_of is

-- Each monitor belongs to the device at `pd`, and its targets are a list in memory.
abbrev pub Owned : (ℕ → Option Target) → ℕ → ℕ → Items → Type 0
Owned cells pd fuel [] = Unit
Owned cells pd fuel (((a, m), ts) ∷ is) =
    (m.pd ≡ some pd) × (length ts < fuel) × TargetRow cells m.target ts × Owned cells pd fuel is

-- The monitors as they stand in memory, with their links.
abbrev linked_items : Items → List (Monitor × List Target)
linked_items [] = []
linked_items (((a, m), ts) ∷ is) = (record m { next = first_addr (nodes is) }, ts) ∷ linked_items is

Row-MonitorRow :
    (h : Heap) (pd fuel : ℕ) (is : Items)
    → Row h.monitors (nodes is)
    → Owned h.targets pd fuel is
    → MonitorRow h pd fuel (first_addr (nodes is)) (linked_items is)
Row-MonitorRow h pd fuel [] r o = refl
Row-MonitorRow h pd fuel (((a, m), ts) ∷ is) (p, e, q, r) (own, l, row, o) =
    (p, e, own, l, row, Row-MonitorRow h pd fuel is r o)

-- The link is no part of the XML.
handed-linked :
    (print : List Call → Str) (opens : Bool) (utf8 : Str → Str) (d : Device) (ip : Str) (is : Items)
    → handed print opens utf8 d ip (linked_items is) ≡ handed print opens utf8 d ip (monitors_of is)
handed-linked print opens utf8 d ip [] = refl
handed-linked print opens utf8 d ip (((a, m), ts) ∷ is) =
    ap (◌∷◌ (ip, xml print opens utf8 d (m, ts))) (handed-linked print opens utf8 d ip is)

Owned-append :
    (cells : ℕ → Option Target) (pd fuel a : ℕ) (m : Monitor) (ts : List Target) (is : Items)
    → Owned cells pd fuel is
    → m.pd ≡ some pd
    → length ts < fuel
    → TargetRow cells m.target ts
    → Owned cells pd fuel (is ++ ((a, m), ts) ∷ [])
Owned-append cells pd fuel a m ts [] o e l r = (e, l, r, tt)
Owned-append cells pd fuel a m ts (((b, m'), ts') ∷ is) (e', l', r', o) e l r =
    (e', l', r', Owned-append cells pd fuel a m ts is o e l r)

nodes-append :
    (is : Items) (n : ℕ × Monitor) (ts : List Target)
    → nodes (is ++ (n, ts) ∷ []) ≡ nodes is ++ n ∷ []
nodes-append [] n ts = refl
nodes-append ((n', ts') ∷ is) n ts = ap (◌∷◌ n') (nodes-append is n ts)

length-linked : (is : Items) → length (linked_items is) ≡ length is
length-linked [] = refl
length-linked ((n, ts) ∷ is) = ap suc (length-linked is)

-- The texts depend on the label of the device only.
handed-device :
    (print : List Call → Str) (opens : Bool) (utf8 : Str → Str) (d d' : Device) (ip : Str)
    (ms : List (Monitor × List Target))
    → d'.label ≡ d.label
    → handed print opens utf8 d' ip ms ≡ handed print opens utf8 d ip ms
handed-device print opens utf8 d d' ip [] e = refl
handed-device print opens utf8 d d' ip ((m, ts) ∷ ms) e =
    ap₂ (λ l r. (ip, until_zero (print (page_calls utf8 opens m l ts))) ∷ r) e
      (handed-device print opens utf8 d d' ip ms e)

handed-append :
    (print : List Call → Str) (opens : Bool) (utf8 : Str → Str) (d : Device) (ip : Str) (is : Items)
    (a : ℕ) (m : Monitor) (ts : List Target)
    → handed print opens utf8 d ip (monitors_of (is ++ ((a, m), ts) ∷ []))
      ≡ handed print opens utf8 d ip (monitors_of is) ++ (ip, xml print opens utf8 d (m, ts)) ∷ []
handed-append print opens utf8 d ip [] a m ts = refl
handed-append print opens utf8 d ip (((b, m'), ts') ∷ is) a m ts =
    ap (◌∷◌ (ip, xml print opens utf8 d (m', ts'))) (handed-append print opens utf8 d ip is a m ts)

if_true {ℓ} : {A : Type ℓ} (b : Bool) (x y : A) → b ≡ true → (if b then x else y) ≡ x
if_true true x y e = refl
if_true false x y e = cc

-- On a device in memory whose monitors belong to it and whose `_curmon` is the last of them, with
-- an IP address, while no conversion to UTF-8 fails, with fuel for more than the monitors and
-- targets there will be, and when the function of `upload` was found before or is found now: adding a live monitor
-- that is not in the list and not linked to anything returns 0, and `upload` afterwards returns 0
-- and hands on the IP address and the XML of the monitors that were there, once and in their order,
-- and then of the added one.
pub add_monitor-upload :
    (api : Conversions) (right_first : Bool) (print : List Call → Str) (opens : Bool)
    (utf8 : Str → Str) (conv : Converts api utf8) (pd pm fuel targets : ℕ) (d : Device)
    (m : Monitor) (ts : List Target) (h : Heap) (is : Items) (ip : Str) (u : Uploader)
    (loads finds : Bool)
    → IsDevice pd d (nodes is) h
    → IsCurrent d (nodes is)
    → Owned h.targets pd targets is
    → 0 < pm
    → h.monitors pm ≡ some (record m { next = 0 })
    → NotIn pm (nodes is)
    → length ts < targets
    → TargetRow h.targets m.target ts
    → d.ip ≡ some ip
    → length is + 1 < fuel
    → (u.found || (loads && finds)) ≡ true
    → (h' : Heap) × (last' : Str) × (device_add_monitor pd pm h ≡ ok (h', pos 0))
      × (upload api right_first print opens loads finds fuel targets pd h' u
          ≡ ok (
            record {
              found = true;
              last = last';
              sent =
                  u.sent
                  ++ (handed print opens utf8 d ip (monitors_of is)
                      ++ (ip, xml print opens utf8 d (m, ts)) ∷ []);
            },
            pos 0,
          ))
add_monitor-upload api rf print opens utf8 conv pd pm fuel targets d m ts h is ip u loads finds v c
      o p e n l row i f ready =
    let new = record m { pd = some pd } in
    let is' = is ++ ((pm, new), ts) ∷ [] in
    let (d', h', added, v', c', same, same_ip, same_label) =
      device_add_monitor-IsDevice pd pm d m h (nodes is) v c p e n in
    let owned = Owned-append h.targets pd targets pm new ts is o refl l row in
    let owned' : Owned h'.targets pd targets is' =
      subst (λ k. Owned k pd targets is') (sym same) owned in
    let row' : Row h'.monitors (nodes is') =
      subst (Row h'.monitors) (sym (nodes-append is (pm, new) ts)) v'.row in
    let at_first : first_addr (nodes is') ≡ d'.monitor =
      ap first_addr (nodes-append is (pm, new) ts) ∙ sym v'.monitor in
    let monitors =
      subst (λ k. MonitorRow h' pd targets k (linked_items is')) at_first
        (Row-MonitorRow h' pd targets is' row' owned') in
    let (last', run) =
      upload-handed api rf print opens utf8 conv h' pd d' v'.pd_set v'.at_pd ip (same_ip ∙ i) loads
        finds fuel targets (linked_items is') u
        (omega (arith, length-linked is', length-append is (((pm, new), ts) ∷ []))) monitors in
    let texts =
      handed-linked print opens utf8 d' ip is'
      ∙ handed-device print opens utf8 d d' ip (monitors_of is') same_label
      ∙ handed-append print opens utf8 d ip is pm new ts in
    (
      h',
      last',
      added,
      run
          ∙ if_true (u.found || (loads && finds)) _ _ ready
          ∙ ap
              (λ (l : List (Str × Str)).
                ok (record { found = true; last = last'; sent = u.sent ++ l }, pos 0))
              texts,
    )
