-- ===== src/South/Destruction.antt =====
-- `target_destroy` of libsouth_interface/south.cpp on a list of cells.
use boring.Prelude.{
  ℕ, zero, suc, ◌<◌, ◌≤◌, ◌≡◌, refl, ◌∙◌, arith, Bool, false, ◌||◌, [], ◌∷◌, Option, none, some,
  ◌==◌, if◌then◌else◌, length, inl, inr, Bool-cases,
}
use boring.Outcome.{ok, bind-ok}
use boring.South.{Target, Heap, update, free_target}
use boring.South.Targets.{target_destroy}
use boring.South.Chain.{Nodes, Chain, head_addr}
use boring.Memory.{deref-found}

-- `x` is the address of a node.
abbrev pub is_node : ℕ → Nodes → Bool
is_node x [] = false
is_node x ((a, t) ∷ ts) = x == a || is_node x ts

outside-Chain :
    (cells : ℕ → Option Target) (lo hi x : ℕ) (ts : Nodes)
    → x ≤ lo
    → Chain cells lo hi ts
    → is_node x ts ≡ false
outside-Chain cells lo hi x [] h c = refl
outside-Chain cells lo hi x ((a, t) ∷ ts) h (l, u, e, c) =
    let n : (x == a) ≡ false = ground arith in rw n (outside-Chain cells a hi x ts (omega arith) c)

-- The cells of the nodes are freed, and nothing else has changed.
pub record Destroyed (ts : Nodes) (h h' : Heap) : Type 0 where
  pub freed : (x : ℕ) → h'.targets x ≡ (if is_node x ts then none else h.targets x)
  pub same_monitors : h'.monitors ≡ h.monitors
  pub same_devices : h'.devices ≡ h.devices
  pub same_request : h'.request ≡ h.request

freed_node :
    (cells cells' : ℕ → Option Target) (a : ℕ) (ts : Nodes)
    → ((x : ℕ) → cells' x ≡ (if is_node x ts then none else cells x))
    → (x : ℕ) → update cells' a none x ≡ (if x == a || is_node x ts then none else cells x)
freed_node cells cells' a ts f x = elim (Bool-cases (x == a)) [
  | inl e ↦ rw e refl
  | inr n ↦ rw n (f x)
]

-- `target_destroy` of a list, with fuel for one round a node and one more: it returns, every cell of
-- the list is freed, and no other memory changes.
pub target_destroy-Destroyed :
    (fuel lo hi : ℕ) (ts : Nodes) (h : Heap)
    → length ts < fuel
    → Chain h.targets lo hi ts
    → (h' : Heap) × (target_destroy fuel (head_addr ts) h ≡ ok h') × Destroyed ts h h'
unfolding target_destroy free_target
target_destroy-Destroyed zero lo hi ts h f c = absurd (omega arith)
target_destroy-Destroyed (suc fuel) lo hi [] h f c = (
  h,
  refl,
  record { freed = λ x. refl; same_monitors = refl; same_devices = refl; same_request = refl },
)
target_destroy-Destroyed (suc fuel) lo hi ((a, t) ∷ ts) h f (l, u, e, c) =
    let (h', run, d) = target_destroy-Destroyed fuel a hi ts h (omega arith) c in
    let n : (a == 0) ≡ false = ground arith in
    let still : h'.targets a ≡ some (record t { next = head_addr ts }) =
      d.freed a ∙ rw (outside-Chain h.targets a hi a ts (omega arith) c) e in
    (
      record h' { targets = update h'.targets a none },
      rw (n, target_destroy)
          (bind-ok _ (deref-found h.targets a (omega arith) e)
            ∙ bind-ok _ run
            ∙ bind-ok _ (deref-found h'.targets a (omega arith) still)),
      record {
        freed = freed_node h.targets h'.targets a ts d.freed;
        same_monitors = d.same_monitors;
        same_devices = d.same_devices;
        same_request = d.same_request;
      },
    )
