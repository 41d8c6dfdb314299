-- ===== src/South/Refinement.antt =====
-- `monitor_add_target` and `monitor_del_target` of libsouth_interface/south.cpp against the list of
-- the monitor's targets.
use boring.Prelude.{
  ℕ, suc, ◌+◌, ◌%◌, ◌^◌, ◌<◌, ◌≡◌, refl, arith, false, [], ◌∷◌, Option, none, some, ◌==◌, length,
}
use boring.Prelude.Int.{ℤ}
use boring.South.{Str, Target, Monitor, Heap, malloc, strdup, put_target, put_monitor}
use boring.South.Targets.{link_target, new_target, monitor_add_target}
use boring.South.Chain.{Nodes, Chain, last_addr}

-- The monitor at `pm` has the list of `first` and the nodes after it, and counts it.
pub record Listed (pm a : ℕ) (first : Target) (ts : Nodes) (m : Monitor) (h : Heap) : Type 0 where
  pub pm_set : 0 < pm
  pub at_pm : h.monitors pm ≡ some m
  pub target : m.target ≡ a
  pub chain : Chain h.targets 0 h.request ((a, first) ∷ ts)
  pub count : m.itarget ≡ suc (length ts) % 2 ^ 32

-- And `_cru` is its last node: what `monitor_add_target` needs.
pub record IsMonitor (pm a : ℕ) (first : Target) (ts : Nodes) (m : Monitor) (h : Heap)
    : Type 0 where
  pub listed : Listed pm a first ts m h
  pub cru : m.cru ≡ last_addr a ts

pub last_cell :
    (cells : ℕ → Option Target) (lo hi a : ℕ) (t0 : Target) (ts : Nodes)
    → Chain cells lo hi ((a, t0) ∷ ts)
    → (last : Target) × (cells (last_addr a ts) ≡ some last)
      × (0 < last_addr a ts)
      × (last_addr a ts < hi)
last_cell cells lo hi a t0 [] (l, u, e, c) = (record t0 { next = 0 }, e, omega arith, u)
last_cell cells lo hi a t0 ((b, t1) ∷ ts) (l, u, e, c) = last_cell cells a hi b t1 ts c

module _ (pm : ℕ) (label value unit : Str) (type : ℤ) (h : Heap) where
  -- The new node and the heap in which it is made, but not linked.
  abbrev pub node : Target
  node = (new_target pm label value unit type (malloc h).0).1

  abbrev pub made : Heap
  made = put_target h.request node (new_target pm label value unit type (malloc h).0).0

  -- The new target goes to the address that `malloc` returns.
  pub add_links_at :
      (n : ℕ)
      → (malloc h).1 ≡ n
      → 0 < pm
      → 0 < n
      → monitor_add_target pm (some label) (some value) (some unit) type h
        ≡ link_target pm n (put_target n node (new_target pm label value unit type (malloc h).0).0)
  unfolding monitor_add_target
  add_links_at n e p q =
      let pm_set : (pm == 0) ≡ false = ground arith in
      let got : (n == 0) ≡ false = ground arith in rw (pm_set, e, got) refl

  pub add_links :
      h.fails h.request ≡ false
      → h.reuse h.request ≡ none
      → 0 < pm
      → 0 < h.request
      → monitor_add_target pm (some label) (some value) (some unit) type h
        ≡ link_target pm h.request made
  unfolding malloc
  add_links f new p r = add_links_at h.request (rw (f, new) refl) p r

  abbrev linked : Monitor → ℕ → Target → Heap
  linked m cru last =
      put_monitor pm (record m { cru = h.request; itarget = (m.itarget + 1) % 2 ^ 32 })
        (put_target cru (record last { next = h.request }) made)

  pub unlinked_rest :
      ((new_target pm label value unit type (malloc h).0).0.monitors ≡ h.monitors)
      × ((new_target pm label value unit type (malloc h).0).0.targets ≡ h.targets)
  unfolding strdup malloc
  unlinked_rest = (refl, refl)
