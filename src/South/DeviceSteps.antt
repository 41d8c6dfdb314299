-- ===== src/South/DeviceSteps.antt =====
-- The rounds of the loop of `device_del_monitor` in libsouth_interface/south.cpp.
use boring.Prelude.{
  ℕ, zero, suc, ◌+◌, ◌-◌, ◌%◌, ◌^◌, ◌<◌, ◌≡◌, refl, ◌∙◌, sym, ap, arith, Bool, true, false, ◌||◌,
  [], ◌∷◌, none, some, ◌==◌, if◌then◌else◌, length, inl, inr, Bool-cases,
}
use mathlib.Core.Path.{subst}
use boring.Prelude.Int.{pos}
use boring.Outcome.{ok, null_pointer, or_fault, bind-ok, ◌>>=◌}
use boring.Dict.{str_eq}
use boring.Memory.{deref, deref-found}
use boring.South.{Str, Monitor, Device, Heap, put_monitor, put_device}
use boring.South.Monitors.{monitor_destory}
use boring.South.Devices.{unlink_monitor, del_monitor_loop}
use boring.South.Chain.{Nodes, Chain, head_addr}
use boring.South.Destruction.{is_node}
use boring.South.DeviceDestruction.{
  Tree, first_monitor, is_monitor, is_target, Apart, Holds, cells_of, Freed, monitor_destory-Freed,
}
use boring.South.DeviceFrames.{
  is_labelled, without, without-monitor, Apart-without, Apart-tail, Apart-empty, Apart-sym,
  Chain-Apart, Holds-frame,
}

-- No monitor has a null label.
abbrev pub Labelled : Tree → Type 0
Labelled [] = Unit
Labelled ((a, m, ts) ∷ ms) = ((name : Str) × (m.label ≡ some name)) × Labelled ms

abbrev pub has_label : Str → Tree → Bool
has_label label [] = false
has_label label ((a, m, ts) ∷ ms) = is_labelled label m || has_label label ms

-- One monitor that is linked to no other is freed with its targets.
pub monitor_destory_one-Freed :
    (fuel a : ℕ) (m : Monitor) (ts : Nodes) (h : Heap)
    → suc (length ts) < fuel
    → 0 < a
    → m.target ≡ head_addr ts
    → Chain h.targets 0 h.request ts
    → (h' : Heap) × (monitor_destory fuel a (put_monitor a (record m { next = 0 }) h) ≡ ok h')
      × Freed ((a, m, ts) ∷ []) (put_monitor a (record m { next = 0 }) h) h'
unfolding put_monitor
monitor_destory_one-Freed fuel a m ts h l p first c =
    monitor_destory-Freed fuel ((a, m, ts) ∷ []) (put_monitor a (record m { next = 0 }) h)
      (omega arith) (p, ground arith, first, c, refl, Apart-empty ts, tt)

pub other_of :
    (x a : ℕ) (ms : Tree) → is_monitor a ms ≡ false → is_monitor x ms ≡ true → (x == a) ≡ false
other_of x a ms lone n = elim (Bool-cases (x == a)) [
  | inl s ↦ let same : x ≡ a = ground arith in cc (lone, n, ap (λ y. is_monitor y ms) same)
  | inr k ↦ k
]

-- The monitors behind the freed one.
pub rest_kept :
    (a : ℕ) (m : Monitor) (ts : Nodes) (ms : Tree) (h h3 h' : Heap)
    → is_monitor a ms ≡ false
    → Apart ts ms
    → h3.request ≡ h.request
    → h3.targets ≡ h.targets
    → ((x : ℕ) → is_monitor x ms ≡ true → h3.monitors x ≡ h.monitors x)
    → Freed ((a, m, ts) ∷ []) h3 h'
    → Holds h ms
    → Holds h' ms
rest_kept a m ts ms h h3 h' lone apart r st sm f v =
    Holds-frame h h' ms (f.same_request ∙ r)
      (λ x n. f.monitors x ∙ rw (other_of x a ms lone n) (sm x n))
      (λ x n. f.targets x ∙ rw (Apart-sym ts ms x apart n) (ap (λ k. k x) st)) v

-- The cells of the first list that are not in the second are freed.
abbrev pub Gone : Tree → Tree → Heap → Type 0
Gone ms ms' h =
    ((x : ℕ) → is_monitor x ms ≡ true → is_monitor x ms' ≡ false → h.monitors x ≡ none)
    × ((x : ℕ) → is_target x ms ≡ true → is_target x ms' ≡ false → h.targets x ≡ none)

pub Gone-Freed :
    (a : ℕ) (m : Monitor) (ts : Nodes) (ms : Tree) (h h' : Heap)
    → Freed ((a, m, ts) ∷ []) h h'
    → Gone ((a, m, ts) ∷ ms) ms h'
Gone-Freed a m ts ms h h' f = (
  (λ x k k'. let s : (x == a) ≡ true = ground arith in f.monitors x ∙ rw s refl),
  (λ x k k'. let s : is_node x ts ≡ true = ground arith in f.targets x ∙ rw s refl),
)

pub Gone-tail :
    (a : ℕ) (m : Monitor) (ts : Nodes) (ms ms' : Tree) (h : Heap)
    → Gone ms ms' h
    → Gone ((a, m, ts) ∷ ms) ((a, m, ts) ∷ ms') h
Gone-tail a m ts ms ms' h (f, g) =
    ((λ x k k'. f x (ground arith) (ground arith)), (λ x k k'. g x (ground arith) (ground arith)))

abbrev pub counted : Device → Device
counted d = record d { imonitor = (d.imonitor + (2 ^ 32 - 1)) % 2 ^ 32 }

module _ (fuel pd prev a : ℕ) (m : Monitor) (label name : Str) (h : Heap) where
  -- The round that finds the label.
  pub found_run :
      (h1 h' : Heap) (d : Device)
      → 0 < pd
      → 0 < a
      → h.monitors a ≡ some m
      → m.label ≡ some name
      → str_eq name label ≡ true
      → unlink_monitor pd prev m.next h ≡ ok h1
      → h1.devices pd ≡ some d
      → monitor_destory fuel a
          (put_monitor a (record m { next = 0 }) (put_device pd (counted d) h1))
        ≡ ok h'
      → del_monitor_loop (suc fuel) pd prev a label h ≡ ok (h', pos 0)
  unfolding del_monitor_loop
  found_run h1 h' d q p e named same unlink at_pd run =
      let n : (a == 0) ≡ false = ground arith in
      let found : deref h.monitors a ≡ ok m = deref-found h.monitors a p e in
      let name_read : or_fault m.label null_pointer ≡ ok name = rw named refl in
      rw (n, found, del_monitor_loop)
        (rw name_read (
          rw (same, ◌>>=◌)
            (bind-ok _ unlink ∙ bind-ok _ (deref-found h1.devices pd q at_pd) ∙ bind-ok _ run)))

  -- A round of another label.
  pub skip_run :
      0 < a
      → h.monitors a ≡ some m
      → m.label ≡ some name
      → str_eq name label ≡ false
      → del_monitor_loop (suc fuel) pd prev a label h ≡ del_monitor_loop fuel pd a m.next label h
  unfolding del_monitor_loop
  skip_run p e named same =
      let n : (a == 0) ≡ false = ground arith in
      let found : deref h.monitors a ≡ ok m = deref-found h.monitors a p e in
      let name_read : or_fault m.label null_pointer ≡ ok name = rw named refl in
      rw (n, found, del_monitor_loop) (rw name_read (rw (same, ◌>>=◌) refl))

unlink_behind :
    (pd p next : ℕ) (mp : Monitor) (h : Heap)
    → 0 < p
    → h.monitors p ≡ some mp
    → unlink_monitor pd p next h ≡ ok (put_monitor p (record mp { next = next }) h)
unfolding unlink_monitor
unlink_behind pd p next mp h l e =
    let n : (p == 0) ≡ false = ground arith in
    rw (n, unlink_monitor) (bind-ok _ (deref-found h.monitors p l e))

-- The round that finds the label, behind a monitor.
found_behind :
    (fuel pd p : ℕ) (d : Device) (mp : Monitor) (tp : Nodes) (a : ℕ) (m : Monitor) (ts : Nodes)
    (ms : Tree) (label name : Str) (h : Heap)
    → suc (cells_of ((a, m, ts) ∷ ms)) < suc fuel
    → 0 < pd
    → h.devices pd ≡ some d
    → m.label ≡ some name
    → str_eq name label ≡ true
    → Holds h ((p, mp, tp) ∷ (a, m, ts) ∷ ms)
    → (h' : Heap) × (del_monitor_loop (suc fuel) pd p a label h ≡ ok (h', pos 0))
      × Holds h' ((p, mp, tp) ∷ ms)
      × (h'.devices pd ≡ some (counted d))
      × ((x : ℕ) → is_target x ((a, m, ts) ∷ ms) ≡ false → h'.targets x ≡ h.targets x)
      × ((x : ℕ)
          → is_monitor x ((p, mp, tp) ∷ (a, m, ts) ∷ ms) ≡ false
          → h'.monitors x ≡ h.monitors x)
      × (h'.request ≡ h.request)
      × Gone ((a, m, ts) ∷ ms) ms h'
unfolding put_monitor put_device
found_behind fuel pd p d mp tp a m ts ms label name h l q at_pd named same
      (pp, ep, fp, cp, lp, ap', (pa, ea, fa, ca, la, aa, v)) =
    let before = record mp { next = first_monitor ms } in
    let h1 = put_monitor p before h in
    let h2 = put_device pd (counted d) h1 in
    let h3 = put_monitor a (record m { next = 0 }) h2 in
    let (h', run, f) = monitor_destory_one-Freed fuel a m ts h2 (omega arith) pa fa ca in
    let lone : (p == a) ≡ false = ground arith in
    let lone' : is_monitor p ms ≡ false = ground arith in
    let outside : (x : ℕ) → is_target x ((a, m, ts) ∷ ms) ≡ false → h'.targets x ≡ h.targets x =
      λ x k. let k' : is_node x ts ≡ false = ground arith in f.targets x ∙ rw k' refl in
    (
      h',
      found_run fuel pd p a (record m { next = first_monitor ms }) label name h h1 h' d q pa ea
          named same (unlink_behind pd p (first_monitor ms) _ h pp ep) at_pd run,
      (
        pp,
        f.monitors p ∙ rw lone (ground arith),
        fp,
        subst (λ k. Chain h'.targets 0 k tp) (sym f.same_request)
            (Chain-Apart h.targets h'.targets 0 h.request tp ((a, m, ts) ∷ ms) outside ap' cp),
        lone',
        Apart-tail tp a m ts ms ap',
        rest_kept a m ts ms h h3 h' la aa refl refl
            (λ x k.
              let s : (x == a) ≡ false = other_of x a ms la k in
              let s' : (x == p) ≡ false = other_of x p ms lone' k in rw (s, s') refl)
            f v,
      ),
      ap (λ k. k pd) f.same_devices ∙ ground arith,
      outside,
      (λ x k.
          let s : (x == a) ≡ false = ground arith in
          let s' : (x == p) ≡ false = ground arith in f.monitors x ∙ rw (s, s') refl),
      f.same_request,
      Gone-Freed a m ts ms h3 h' f,
    )

pub loop_end :
    (fuel pd p : ℕ) (label : Str) (h : Heap)
    → del_monitor_loop (suc fuel) pd p 0 label h ≡ ok (h, pos 0)
unfolding del_monitor_loop
loop_end fuel pd p label h = refl

pub Gone-none : (h : Heap) → Gone [] [] h
Gone-none h = ((λ x k k'. absurd cc), (λ x k k'. absurd cc))

-- The walk from the monitor behind `p` on.
pub walk :
    (fuel pd p : ℕ) (d : Device) (mp : Monitor) (tp : Nodes) (ms : Tree) (label : Str) (h : Heap)
    → suc (cells_of ms) < fuel
    → 0 < pd
    → h.devices pd ≡ some d
    → Labelled ms
    → Holds h ((p, mp, tp) ∷ ms)
    → (h' : Heap) × (del_monitor_loop fuel pd p (first_monitor ms) label h ≡ ok (h', pos 0))
      × Holds h' ((p, mp, tp) ∷ without label ms)
      × (h'.devices pd ≡ some (if has_label label ms then counted d else d))
      × ((x : ℕ) → is_target x ms ≡ false → h'.targets x ≡ h.targets x)
      × ((x : ℕ) → is_monitor x ((p, mp, tp) ∷ ms) ≡ false → h'.monitors x ≡ h.monitors x)
      × (h'.request ≡ h.request)
      × Gone ms (without label ms) h'
unfolding without
walk zero pd p d mp tp ms label h l q at_pd n v = absurd (omega arith)
walk (suc fuel) pd p d mp tp [] label h l q at_pd n v =
    (h, loop_end fuel pd p label h, v, at_pd, (λ x k. refl), (λ x k. refl), refl, Gone-none h)
walk (suc fuel) pd p d mp tp ((a, m, ts) ∷ ms) label h l q at_pd ((name, named), ns) v =
    elim (Bool-cases (str_eq name label)) [
      | inl same ↦
          let has : is_labelled label m ≡ true = rw named same in
          let (h', run, v', dev, out, outm, req, gone) =
            found_behind fuel pd p d mp tp a m ts ms label name h l q at_pd named same v in
          rw has (h', run, v', dev, out, outm, req, gone)
      | inr other ↦
          let has : is_labelled label m ≡ false = rw named other in
          let (h', run, v', dev, out, outm, req, gone) =
            walk fuel pd a d m ts ms label h (omega arith) q at_pd ns v.6 in
          let (pp, ep, fp, cp, lp, ap', va) = v in
          let stays : without label ((a, m, ts) ∷ ms) ≡ (a, m, ts) ∷ without label ms =
            rw has refl in
          let (pa, ea, fa, ca, la, aa, w) = va in
          rw has (
            h',
            skip_run fuel pd p a (record m { next = first_monitor ms }) label name h pa ea named
                  other
                ∙ run,
            (
              pp,
              outm p lp ∙ ep,
              fp,
              subst (λ k. Chain h'.targets 0 k tp) (sym req)
                  (Chain-Apart h.targets h'.targets 0 h.request tp ((a, m, ts) ∷ ms)
                    (λ x k. out x (ground arith)) ap' cp),
              subst (λ k. is_monitor p k ≡ false) stays
                  (without-monitor label p ((a, m, ts) ∷ ms) lp),
              subst (Apart tp) stays (Apart-without label tp ((a, m, ts) ∷ ms) ap'),
              v',
            ),
            dev,
            (λ x k. out x (ground arith)),
            (λ x k. outm x (ground arith)),
            req,
            Gone-tail a m ts ms (without label ms) h' gone,
          )
    ]
