-- ===== src/South/DeviceDestruction.antt =====
-- `monitor_destory` and `device_destory` of libsouth_interface/south.cpp on the monitors of a device
-- and their targets.
use boring.Prelude.{
  ℕ, zero, suc, ◌+◌, ◌<◌, ◌≡◌, refl, ◌∙◌, ap, arith, Bool, true, false, ◌||◌, List, [], ◌∷◌, Option,
  none, some, ◌==◌, if◌then◌else◌, length, inl, inr, Bool-cases,
}
use boring.Outcome.{ok, bind-ok}
use boring.Memory.{update, deref-found}
use boring.South.{Monitor, Heap, free_monitor}
use boring.South.Targets.{target_destroy}
use boring.South.Monitors.{monitor_destory}
use boring.South.Chain.{Nodes, Chain, head_addr}
use boring.South.Destruction.{is_node, target_destroy-Destroyed}

-- The monitors in the order of the list, each with its targets.
abbrev pub Tree : Type 0
Tree = List (ℕ × Monitor × Nodes)

abbrev pub first_monitor : Tree → ℕ
first_monitor [] = 0
first_monitor ((a, m, ts) ∷ ms) = a

abbrev pub is_monitor : ℕ → Tree → Bool
is_monitor x [] = false
is_monitor x ((a, m, ts) ∷ ms) = x == a || is_monitor x ms

abbrev pub is_target : ℕ → Tree → Bool
is_target x [] = false
is_target x ((a, m, ts) ∷ ms) = is_node x ts || is_target x ms

-- No target of `ts` is one of the tree.
abbrev pub Apart : Nodes → Tree → Type 0
Apart [] ms = Unit
Apart ((a, t) ∷ ts) ms = (is_target a ms ≡ false) × Apart ts ms

-- The cells of the tree, none of them twice.
abbrev pub Holds : Heap → Tree → Type 0
Holds h [] = Unit
Holds h ((a, m, ts) ∷ ms) =
    (0 < a)
    × (h.monitors a ≡ some (record m { next = first_monitor ms }))
    × (m.target ≡ head_addr ts)
    × Chain h.targets 0 h.request ts
    × (is_monitor a ms ≡ false)
    × Apart ts ms
    × Holds h ms

abbrev pub cells_of : Tree → ℕ
cells_of [] = 0
cells_of ((a, m, ts) ∷ ms) = suc (length ts + cells_of ms)

-- The cells of the tree are freed, and nothing else has changed.
pub record Freed (ms : Tree) (h h' : Heap) : Type 0 where
  pub targets : (x : ℕ) → h'.targets x ≡ (if is_target x ms then none else h.targets x)
  pub monitors : (x : ℕ) → h'.monitors x ≡ (if is_monitor x ms then none else h.monitors x)
  pub same_devices : h'.devices ≡ h.devices
  pub same_request : h'.request ≡ h.request

-- What is not freed stays linked.
Chain-kept :
    (h h' : Heap) (ms : Tree) (lo hi : ℕ) (ts : Nodes)
    → Freed ms h h'
    → Apart ts ms
    → Chain h.targets lo hi ts
    → Chain h'.targets lo hi ts
Chain-kept h h' ms lo hi [] f n c = tt
Chain-kept h h' ms lo hi ((a, t) ∷ ts) f (n, n') (l, u, e, c) =
    (l, u, f.targets a ∙ rw n e, Chain-kept h h' ms a hi ts f n' c)

either_freed {ℓ} :
    {A : Type ℓ} (b c : Bool) (o : Option A)
    → (if b then none else if c then none else o) ≡ (if b || c then none else o)
either_freed true c o = refl
either_freed false c o = refl

freed_cell {ℓ} :
    {A : Type ℓ} (cells : ℕ → Option A) (a x : ℕ) (c : Bool) (o : Option A)
    → cells x ≡ (if c then none else o)
    → update cells a none x ≡ (if x == a || c then none else o)
freed_cell cells a x c o e = elim (Bool-cases (x == a)) [ inl s ↦ rw s refl | inr n ↦ rw n e ]

pub monitor_destory-Freed :
    (fuel : ℕ) (ms : Tree) (h : Heap)
    → cells_of ms < fuel
    → Holds h ms
    → (h' : Heap) × (monitor_destory fuel (first_monitor ms) h ≡ ok h') × Freed ms h h'
unfolding monitor_destory free_monitor
monitor_destory-Freed zero ms h l v = absurd (omega arith)
monitor_destory-Freed (suc fuel) [] h l v = (
  h,
  refl,
  record { targets = λ x. refl; monitors = λ x. refl; same_devices = refl; same_request = refl },
)
monitor_destory-Freed (suc fuel) ((a, m, ts) ∷ ms) h l (p, e, first, c, lone, apart, v) =
    let (h1, run, f) = monitor_destory-Freed fuel ms h (omega arith) v in
    let n : (a == 0) ≡ false = ground arith in
    let still : h1.monitors a ≡ some (record m { next = first_monitor ms }) =
      f.monitors a ∙ rw lone e in
    let kept = Chain-kept h h1 ms 0 h.request ts f apart c in
    let (h2, run', g) = target_destroy-Destroyed fuel 0 h.request ts h1 (omega arith) kept in
    (
      record h2 { monitors = update h2.monitors a none },
      rw (n, monitor_destory)
          (bind-ok _ (deref-found h.monitors a p e)
            ∙ bind-ok _ run
            ∙ bind-ok _ (deref-found h1.monitors a p still)
            ∙ bind-ok _ (ap (λ k. target_destroy fuel k h1) first ∙ run')),
      record {
        targets = λ x.
            g.freed x
            ∙ ap (λ o. if is_node x ts then none else o) (f.targets x)
            ∙ either_freed (is_node x ts) (is_target x ms) (h.targets x);
        monitors = λ x.
            freed_cell h2.monitors a x (is_monitor x ms) (h.monitors x)
              (ap (λ k. k x) g.same_monitors ∙ f.monitors x);
        same_devices = g.same_devices ∙ f.same_devices;
        same_request = g.same_request ∙ f.same_request;
      },
    )
