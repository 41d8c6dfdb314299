-- ===== src/Xml/Laws.antt =====
-- `monitor_to_string` and `upload` of libsouth_interface/southxml.cpp on a device in memory.
use boring.Prelude.{
  ℕ, zero, suc, ◌<◌, ◌≡◌, refl, ap, sym, ◌∙◌, Bool, true, false, ◌&&◌, ◌||◌, List, [], ◌∷◌, ◌++◌,
  some, ◌==◌, if◌then◌else◌, length, arith, Bool-cases, inl, inr,
}
use mathlib.Core.List.{append-nil, append_assoc}
use boring.Prelude.Int.{pos, negsuc}
use boring.Outcome.{ok, bind-ok, or_fault, null_pointer}
use boring.Memory.{deref-found}
use boring.Text.ListSplit.{until_zero}
use boring.Encode.{Conversions}
use boring.South.{Str, Target, Monitor, Device, Heap}
use boring.Xml.{Call, print_file, node_info, node_service}
use boring.Xml.Make.{new_element, monitor_to_string, new_document}
use boring.Xml.Pages.{element_calls, page_calls, monitor_calls}
use boring.Xml.Adding.{Converts, new_element-Adds}
use boring.Xml.Monitors.{TargetRow, monitor-Makes}
use boring.Xml.Upload.{Uploader, upload_loop, upload}

finish_calls :
    (opens : Bool) (cs : List Call) (e : Call)
    → (if opens then cs ++ e ∷ [] else cs) ≡ cs ++ (if opens then e ∷ [] else [])
finish_calls true cs e = refl
finish_calls false cs e = sym (append-nil cs)

regroup : (a b c d e : List Call) → (((a ++ b) ++ c) ++ d) ++ e ≡ a ++ (b ++ (c ++ (d ++ e)))
regroup a b c d e = simp append_assoc

-- The monitors in memory from an address on, in the order of `_next`, each with its targets, fewer
-- than `fuel`, and set to belong to the device at `pd`.
abbrev pub MonitorRow : Heap → ℕ → ℕ → ℕ → List (Monitor × List Target) → Type 0
MonitorRow h pd fuel a [] = a ≡ 0
MonitorRow h pd fuel a ((m, ts) ∷ ms) =
    (0 < a)
    × (h.monitors a ≡ some m)
    × (m.pd ≡ some pd)
    × (length ts < fuel)
    × TargetRow h.targets m.target ts
    × MonitorRow h pd fuel m.next ms

-- The XML of one monitor of the device.
abbrev pub xml : (List Call → Str) → Bool → (Str → Str) → Device → Monitor × List Target → Str
xml print opens utf8 d (m, ts) = until_zero (print (page_calls utf8 opens m d.label ts))

-- What is handed to the function for each monitor.
abbrev pub handed :
    (List Call → Str)
    → Bool
    → (Str → Str)
    → Device
    → Str
    → List (Monitor × List Target)
    → List (Str × Str)
handed print opens utf8 d ip [] = []
handed print opens utf8 d ip (m ∷ ms) =
    (ip, xml print opens utf8 d m) ∷ handed print opens utf8 d ip ms

module _ (api : Conversions) (right_first : Bool) (print : List Call → Str) (opens : Bool)
    (utf8 : Str → Str) (conv : Converts api utf8) (h : Heap) (pd : ℕ) (d : Device) (pd_set : 0 < pd)
    (at_pd : h.devices pd ≡ some d) where
  monitor_to_string-xml :
      (fuel pm : ℕ) (m : Monitor) (ts : List Target) (last : Str)
      → 0 < pm
      → h.monitors pm ≡ some m
      → m.pd ≡ some pd
      → length ts < fuel
      → TargetRow h.targets m.target ts
      → (last' : Str) × (monitor_to_string api right_first print opens fuel pm h last
          ≡ ok (xml print opens utf8 d (m, ts), last'))
  unfolding monitor_to_string
  monitor_to_string-xml fuel pm m ts last p e own l row =
      let f : (pm == 0) ≡ false = ground arith in
      let x0 = new_document api right_first last in
      let x1 = new_element api right_first 1 node_service x0 in
      let x2 = new_element api right_first 3 node_info x1 in
      let a1 = new_element-Adds api right_first utf8 conv 1 3 node_service x0 refl in
      let n1 : x1.nodes ≡ 4 = omega (arith, a1.1) in
      let a2 = new_element-Adds api right_first utf8 conv 3 4 node_info x1 n1 in
      let n2 : x2.nodes ≡ 5 = omega (arith, a2.1, n1) in
      let opening = (new_document api right_first last).calls in
      let service = element_calls utf8 1 3 node_service in
      let info = element_calls utf8 3 4 node_info in
      let part = λ (n : ℕ). monitor_calls utf8 4 n m d.label ts in
      let closing = if opens then print_file 1 ∷ [] else [] in
      let before : x2.calls ≡ (opening ++ service) ++ info = a2.0 ∙ ap (λ l. l ++ info) a1.0 in
      let (y, r, c) =
        monitor-Makes api right_first utf8 conv h fuel pm 4 pd m d ts x2 p (omega arith) pd_set e
          own at_pd l row (omega (arith, n2)) in
      (
        y.last,
        rw (f, monitor_to_string)
            (bind-ok _ r
              ∙ ap (λ cs. ok (until_zero (print cs), y.last))
                  (finish_calls opens y.calls (print_file 1)
                    ∙ ap (λ l. l ++ closing)
                        (c ∙ ap (λ n. x2.calls ++ part n) n2 ∙ ap (λ l. l ++ part 5) before)
                    ∙ regroup opening service info (part 5) closing)),
      )

  module _ (ip : Str) (has_ip : d.ip ≡ some ip) where
    upload_loop-handed :
        (fuel targets pm : ℕ) (ms : List (Monitor × List Target)) (u : Uploader)
        → length ms < fuel
        → MonitorRow h pd targets pm ms
        → (last' : Str) × (upload_loop api right_first print opens fuel targets pm d h u
            ≡ ok (record u { last = last'; sent = u.sent ++ handed print opens utf8 d ip ms }))
    unfolding upload_loop
    upload_loop-handed zero targets pm ms u l row = absurd (omega arith)
    upload_loop-handed (suc fuel) targets pm [] u l row = (u.last, rw (row, append-nil u.sent) refl)
    upload_loop-handed (suc fuel) targets pm ((m, ts) ∷ ms) u l (p, e, own, few, ts_row, row) =
        let f : (pm == 0) ≡ false = ground arith in
        let (last, r) = monitor_to_string-xml targets pm m ts u.last p e own few ts_row in
        let u1 = record u {
          last = last;
          sent = u.sent ++ (ip, xml print opens utf8 d (m, ts)) ∷ [];
        } in
        let (last', later) = upload_loop-handed fuel targets m.next ms u1 (omega arith) row in
        (
          last',
          rw (f, upload_loop)
              (bind-ok _ r
                ∙ bind-ok _ (ap (λ o. or_fault o null_pointer) has_ip)
                ∙ bind-ok _ (deref-found h.monitors pm p e)
                ∙ later
                ∙ ap (λ l. ok (record u { last = last'; sent = l }))
                    (append_assoc u.sent ((ip, xml print opens utf8 d (m, ts)) ∷ [])
                      (handed print opens utf8 d ip ms))),
        )

    -- Of a device in memory that has an IP address and whose monitors, each set to belong to it,
    -- and their targets are lists shorter than the fuel, while no conversion to UTF-8 fails: when the
    -- function was found before or is found now, `upload` returns 0 and hands the IP address and the
    -- XML of each monitor to it, once and in the order of the list; else it returns -1 and hands on
    -- nothing.
    pub upload-handed :
        (loads finds : Bool) (fuel targets : ℕ) (ms : List (Monitor × List Target)) (u : Uploader)
        → length ms < fuel
        → MonitorRow h pd targets d.monitor ms
        → (last' : Str) × (upload api right_first print opens loads finds fuel targets pd h u ≡ (
            if u.found || (loads && finds)
            then ok (
              record {
                found = true;
                last = last';
                sent = u.sent ++ handed print opens utf8 d ip ms;
              },
              pos 0,
            )
            else ok (u, negsuc 0)))
    unfolding upload
    upload-handed loads finds fuel targets ms u l row =
        let f : (pd == 0) ≡ false = ground arith in
        let (last', r) =
          upload_loop-handed fuel targets d.monitor ms (record u { found = true }) l row in
        (
          last',
          elim (Bool-cases (u.found || (loads && finds))) [
            | inl go ↦
                rw (f, upload, go) (bind-ok _ (deref-found h.devices pd pd_set at_pd) ∙ bind-ok _ r)
            | inr stay ↦ rw (f, upload, stay) refl
          ],
        )
