-- ===== src/South/DeviceList.antt =====
-- The list of monitors of a device in libsouth_interface/south.cpp against a list of its nodes. The
-- caller chooses the monitors, so the addresses are in no order, but all different.
use boring.Prelude.{
  ℕ, ◌+◌, ◌%◌, ◌^◌, ◌<◌, ◌≡◌, ◌≢◌, refl, ◌∙◌, ap, sym, arith, true, false, List, [], ◌∷◌, ◌++◌,
  Option, none, some, ◌==◌, length, length-append,
}
use mathlib.Core.Path.{subst}
use boring.Prelude.Int.{pos}
use boring.Outcome.{ok, bind-ok}
use boring.Memory.{update, deref, deref-found}
use boring.South.{Monitor, Device, Heap, put_monitor, put_device}
use boring.South.Devices.{link_monitor, device_add_monitor}

abbrev pub MonitorNodes : Type 0
MonitorNodes = List (ℕ × Monitor)

abbrev pub first_addr : MonitorNodes → ℕ
first_addr [] = 0
first_addr ((a, m) ∷ ms) = a

abbrev pub final_addr : ℕ → MonitorNodes → ℕ
final_addr a [] = a
final_addr a ((b, m) ∷ ms) = final_addr b ms

abbrev pub NotIn : ℕ → MonitorNodes → Type 0
NotIn a [] = Unit
NotIn a ((b, m) ∷ ms) = (a ≢ b) × NotIn a ms

-- The nodes are cells at different addresses, each linked to the next one.
abbrev pub Row : (ℕ → Option Monitor) → MonitorNodes → Type 0
Row cells [] = Unit
Row cells ((a, m) ∷ ms) =
    (0 < a) × (cells a ≡ some (record m { next = first_addr ms })) × NotIn a ms × Row cells ms

NotIn-final :
    (a b : ℕ) (m : Monitor) (ms : MonitorNodes) → NotIn a ((b, m) ∷ ms) → a ≢ final_addr b ms
NotIn-final a b m [] (h, _) = h
NotIn-final a b m ((c, m') ∷ ms) (h, k) = NotIn-final a c m' ms k

NotIn-append :
    (a b : ℕ) (m : Monitor) (ms : MonitorNodes) → NotIn a ms → a ≢ b → NotIn a (ms ++ (b, m) ∷ [])
NotIn-append a b m [] h k = (k, tt)
NotIn-append a b m ((c, m') ∷ ms) (h, r) k = (h, NotIn-append a b m ms r k)

other_cell :
    (cells : ℕ → Option Monitor) (a x : ℕ) (o : Option Monitor)
    → x ≢ a
    → update cells a o x ≡ cells x
other_cell cells a x o h = ground arith

same_cell : (cells : ℕ → Option Monitor) (a : ℕ) (o : Option Monitor) → update cells a o a ≡ o
same_cell cells a o = ground arith

-- A write outside the list keeps it.
Row-update :
    (cells : ℕ → Option Monitor) (a : ℕ) (o : Option Monitor) (ms : MonitorNodes)
    → NotIn a ms
    → Row cells ms
    → Row (update cells a o) ms
Row-update cells a o [] n r = tt
Row-update cells a o ((b, m) ∷ ms) (n, n') (p, e, q, r) =
    (p, other_cell cells a b o (λ f. n (sym f)) ∙ e, q, Row-update cells a o ms n' r)

relink :
    (n : ℕ) {x y : Monitor}
    → some x ≡ some y
    → some (record x { next = n }) ≡ some (record y { next = n })
relink n e = ap (λ o. elim o [ none ↦ none | some x ↦ some (record x { next = n }) ]) e

-- Linking a cell behind the last one.
Row-append :
    (cells : ℕ → Option Monitor) (a n : ℕ) (m last new : Monitor) (ms : MonitorNodes)
    → 0 < n
    → Row cells ((a, m) ∷ ms)
    → NotIn n ((a, m) ∷ ms)
    → cells (final_addr a ms) ≡ some last
    → cells n ≡ some (record new { next = 0 })
    → Row
        (update cells (final_addr a ms) (some (record last { next = n })))
        ((a, m) ∷ (ms ++ (n, new) ∷ []))
Row-append cells a n m last new [] z (p, e, q, r) (k, _) at_last at_new = (
  p,
  same_cell cells a (some (record last { next = n })) ∙ relink n (sym at_last ∙ e),
  ((λ f. k (sym f)), tt),
  (z, other_cell cells a n _ k ∙ at_new, tt, tt),
)
Row-append cells a n m last new ((b, m') ∷ ms) z (p, e, q, r) (k, k') at_last at_new = (
  p,
  other_cell cells (final_addr b ms) a _ (NotIn-final a b m' ms q) ∙ e,
  NotIn-append a n new ((b, m') ∷ ms) q (λ f. k (sym f)),
  Row-append cells b n m' last new ms z r k' at_last at_new,
)

final_cell :
    (cells : ℕ → Option Monitor) (a : ℕ) (m : Monitor) (ms : MonitorNodes)
    → Row cells ((a, m) ∷ ms)
    → (0 < final_addr a ms) × ((last : Monitor) × (cells (final_addr a ms) ≡ some last))
final_cell cells a m [] (p, e, q, r) = (p, (_, e))
final_cell cells a m ((b, m') ∷ ms) (p, e, q, r) = final_cell cells b m' ms r

-- The device at `pd` with its monitors: `_monitor` is the first, `_curmon` the last if there is one,
-- and `_imonitor` counts them.
pub record IsDevice (pd : ℕ) (d : Device) (ms : MonitorNodes) (h : Heap) : Type 0 where
  pub pd_set : 0 < pd
  pub at_pd : h.devices pd ≡ some d
  pub monitor : d.monitor ≡ first_addr ms
  pub row : Row h.monitors ms
  pub count : d.imonitor ≡ length ms % 2 ^ 32

abbrev pub IsCurrent : Device → MonitorNodes → Type 0
IsCurrent d [] = Unit
IsCurrent d ((a, m) ∷ ms) = d.curmon ≡ final_addr a ms

module _ (pd pm : ℕ) (d : Device) (m : Monitor) (h : Heap) where
  abbrev pub owned : Monitor
  owned = record m { pd = some pd }

  -- The monitor is set to belong to the device, and linked.
  linked :
      (ms : MonitorNodes)
      → IsDevice pd d ms h
      → IsCurrent d ms
      → 0 < pm
      → h.monitors pm ≡ some (record m { next = 0 })
      → NotIn pm ms
      → (d' : Device) × (h' : Heap) × (link_monitor d pm
            (put_monitor pm (record owned { next = 0 }) h)
          ≡ ok (d', h'))
        × (d'.monitor ≡ first_addr (ms ++ (pm, owned) ∷ []))
        × (d'.imonitor ≡ d.imonitor)
        × (h'.devices ≡ h.devices)
        × (h'.targets ≡ h.targets)
        × (d'.ip ≡ d.ip)
        × (d'.label ≡ d.label)
        × Row h'.monitors (ms ++ (pm, owned) ∷ [])
  unfolding link_monitor put_monitor
  linked [] v c p e n =
      let z : (d.monitor == 0) ≡ true = ground (arith, v.monitor) in
      (
        record d { monitor = pm },
        put_monitor pm (record owned { next = 0 }) h,
        rw (z, link_monitor) refl,
        refl,
        refl,
        refl,
        refl,
        refl,
        refl,
        (p, same_cell h.monitors pm (some (record owned { next = 0 })), tt, tt),
      )
  linked ((a, m') ∷ ms) v c p e n =
      let new = record owned { next = 0 } in
      let h1 = put_monitor pm new h in
      let z : (d.monitor == 0) ≡ false = ground (arith, v.monitor, v.row.0) in
      let row1 = Row-update h.monitors pm (some new) ((a, m') ∷ ms) n v.row in
      let (set, (last, at_last)) = final_cell h1.monitors a m' ms row1 in
      let found : deref h1.monitors d.curmon ≡ ok last =
        ap (λ k. deref h1.monitors k) c ∙ deref-found h1.monitors (final_addr a ms) set at_last in
      (
        d,
        put_monitor d.curmon (record last { next = pm }) h1,
        rw (z, link_monitor) (bind-ok _ found),
        v.monitor,
        refl,
        refl,
        refl,
        refl,
        refl,
        subst
            (λ k.
              Row (update h1.monitors k (some (record last { next = pm })))
                ((a, m') ∷ (ms ++ (pm, owned) ∷ [])))
            (sym c)
            (Row-append h1.monitors a pm m' last owned ms p row1 n at_last
              (same_cell h.monitors pm (some new))),
      )

final-append : (a b : ℕ) (m : Monitor) (ms : MonitorNodes) → final_addr a (ms ++ (b, m) ∷ []) ≡ b
final-append a b m [] = refl
final-append a b m ((c, m') ∷ ms) = final-append c b m ms

IsCurrent-append :
    (d : Device) (b : ℕ) (m : Monitor) (ms : MonitorNodes)
    → d.curmon ≡ b
    → IsCurrent d (ms ++ (b, m) ∷ [])
IsCurrent-append d b m [] e = e
IsCurrent-append d b m ((a, m') ∷ ms) e = e ∙ sym (final-append a b m ms)

-- On a device whose `_curmon` is its last monitor, if it has one: adding a live monitor that is not
-- in the list and not linked to anything returns 0, sets the monitor to belong to the device and
-- appends it to the list, with the count and `_curmon` kept, and changes no target and neither the
-- IP address nor the label of the device.
pub device_add_monitor-IsDevice :
    (pd pm : ℕ) (d : Device) (m : Monitor) (h : Heap) (ms : MonitorNodes)
    → IsDevice pd d ms h
    → IsCurrent d ms
    → 0 < pm
    → h.monitors pm ≡ some (record m { next = 0 })
    → NotIn pm ms
    → (d' : Device) × (h' : Heap) × (device_add_monitor pd pm h ≡ ok (h', pos 0))
      × IsDevice pd d' (ms ++ (pm, record m { pd = some pd }) ∷ []) h'
      × IsCurrent d' (ms ++ (pm, record m { pd = some pd }) ∷ [])
      × (h'.targets ≡ h.targets)
      × (d'.ip ≡ d.ip)
      × (d'.label ≡ d.label)
unfolding device_add_monitor put_device put_monitor
device_add_monitor-IsDevice pd pm d m h ms v c p e n =
    let q : (pd == 0) ≡ false = ground (arith, v.pd_set) in
    let r : (pm == 0) ≡ false = ground arith in
    let (d1, h1, done, first, same, devices, targets, ip, label, row) =
      linked pd pm d m h ms v c p e n in
    let d2 = record d1 { curmon = pm; imonitor = (d1.imonitor + 1) % 2 ^ 32 } in
    (
      d2,
      put_device pd d2 h1,
      rw (q, r, device_add_monitor)
          (bind-ok _ (deref-found h.monitors pm p e)
            ∙ bind-ok _ (deref-found h.devices pd v.pd_set v.at_pd)
            ∙ bind-ok _ done),
      record {
        pd_set = v.pd_set;
        at_pd = ground arith;
        monitor = first;
        row = row;
        count =
            omega (arith, v.count, same, length-append ms ((pm, record m { pd = some pd }) ∷ []));
      },
      IsCurrent-append d2 pm (record m { pd = some pd }) ms refl,
      targets,
      ip,
      label,
    )
