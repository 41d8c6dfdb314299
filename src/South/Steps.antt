-- ===== src/South/Steps.antt =====
-- What the steps of libsouth_interface/south.cpp do on a heap whose cells are known.
use boring.Prelude.{
  ℕ, zero, suc, ◌+◌, ◌-◌, ◌%◌, ◌^◌, ◌<◌, ◌≡◌, refl, ◌∙◌, arith, inl, inr, true, false, [], ◌∷◌,
  none, some, ◌==◌, if◌then◌else◌, length, Bool-cases,
}
use boring.Prelude.Int.{ℤ, pos}
use boring.Memory.{deref-found}
use boring.Outcome.{Outcome, ok, or_fault, null_pointer, ◌>>=◌}
use boring.Dict.{str_eq}
use boring.South.{Str, Target, Monitor, Heap, update, deref, put_target, put_monitor, free_target}
use boring.South.Targets.{target_destroy, del_target_loop}
use boring.South.Chain.{
  Nodes, Chain, Named, removed, removed_addr, holds_label, has_label, head_addr, update_same,
  Chain-update_below, Chain-lower,
}

-- Destroying a cell that is linked to nothing frees that cell.
target_destroy_single :
    (a : ℕ) (t : Target) (h : Heap)
    → 0 < a
    → h.targets a ≡ some (record t { next = 0 })
    → target_destroy 2 a h ≡ ok (free_target a h)
unfolding target_destroy
target_destroy_single a t h p e =
    let found : deref h.targets a ≡ ok (record t { next = 0 }) = deref-found h.targets a p e in
    let n : (a == 0) ≡ false = ground arith in rw (n, found, target_destroy) (rw found refl)

-- `monitor_del_target` from the node `p` on: what it returns, and the list and the monitor after it.
pub record Deleted (pm : ℕ) (m : Monitor) (label : Str) (lo hi p : ℕ) (t0 : Target) (ts : Nodes)
    (h : Heap) (outcome : Outcome (Heap × ℤ)) : Type 0 where
  pub heap : Heap
  pub returns : outcome ≡ ok (heap, pos 0)
  pub chain : Chain heap.targets lo hi ((p, t0) ∷ removed label ts)
  pub frame : (x : ℕ) → x < p → heap.targets x ≡ h.targets x
  pub same_request : heap.request ≡ h.request
  pub same_fails : heap.fails ≡ h.fails
  pub same_reuse : heap.reuse ≡ h.reuse
  pub freed : (x : ℕ) → removed_addr label ts ≡ some x → heap.targets x ≡ none
  pub monitor :
      heap.monitors pm
      ≡ some (record m {
        itarget = (if holds_label label ts then (m.itarget + (2 ^ 32 - 1)) % 2 ^ 32 else m.itarget);
      })

module _ (pm : ℕ) (m : Monitor) (label : Str) (pm_set : 0 < pm) where
  Deleted-none :
      (fuel lo hi p : ℕ) (t0 : Target) (h : Heap)
      → Chain h.targets lo hi ((p, t0) ∷ [])
      → h.monitors pm ≡ some m
      → Deleted pm m label lo hi p t0 [] h (del_target_loop (suc fuel) pm p 0 label h)
  unfolding del_target_loop removed removed_addr holds_label
  Deleted-none fuel lo hi p t0 h c e = record {
    heap = h;
    returns = refl;
    chain = c;
    frame = λ x _. refl;
    same_request = refl;
    same_fails = refl;
    same_reuse = refl;
    freed = λ x gone. cc;
    monitor = e;
  }

  -- The heap in which the cell `b` behind `p` is out of the list and freed.
  abbrev without : ℕ → Target → ℕ → Target → ℕ → Heap → Heap
  without p t0 b t1 next h = free_target b (
      put_monitor pm (record m { itarget = (m.itarget + (2 ^ 32 - 1)) % 2 ^ 32 })
        (put_target b (record t1 { next = 0 }) (put_target p (record t0 { next = next }) h)))

  put_target-last :
      (b : ℕ) (t1 : Target) (p : ℕ) (t0 : Target) (next : ℕ) (h : Heap)
      → (put_monitor pm
            (record m { itarget = (m.itarget + (2 ^ 32 - 1)) % 2 ^ 32 })
            (put_target b
              (record t1 { next = 0 })
              (put_target p (record t0 { next = next }) h))).targets
          b
        ≡ some (record t1 { next = 0 })
  unfolding put_monitor put_target
  put_target-last b t1 p t0 next h =
      update_same (update h.targets p (some (record t0 { next = next }))) b
        (some (record t1 { next = 0 }))

  loop-found :
      (fuel lo hi p b : ℕ) (t0 t1 : Target) (ts : Nodes) (h : Heap) (name : Str)
      → Chain h.targets lo hi ((p, t0) ∷ (b, t1) ∷ ts)
      → t1.label ≡ some name
      → str_eq name label ≡ true
      → h.monitors pm ≡ some m
      → del_target_loop (suc fuel) pm p b label h ≡ ok (without p t0 b t1 (head_addr ts) h, pos 0)
  unfolding del_target_loop
  loop-found fuel lo hi p b t0 t1 ts h name (l, u, e, (l1, u1, e1, c1)) named same mon =
      let b_set : (b == 0) ≡ false = ground arith in
      let at_b : deref h.targets b ≡ ok (record t1 { next = head_addr ts }) =
        deref-found h.targets b (omega arith) e1 in
      let at_p : deref h.targets p ≡ ok (record t0 { next = b }) =
        deref-found h.targets p (omega arith) e in
      let at_pm : deref h.monitors pm ≡ ok m = deref-found h.monitors pm pm_set mon in
      let name_read : or_fault t1.label null_pointer ≡ ok name = rw named refl in
      let freed : target_destroy 2 b (
            put_monitor pm (record m { itarget = (m.itarget + (2 ^ 32 - 1)) % 2 ^ 32 })
              (put_target b (record t1 { next = 0 })
                (put_target p (record t0 { next = head_addr ts }) h)))
          ≡ ok (without p t0 b t1 (head_addr ts) h) =
        target_destroy_single b t1 _ (omega arith) (put_target-last b t1 p t0 (head_addr ts) h) in
      rw (b_set, at_b, del_target_loop)
        (rw name_read (rw (same, ◌>>=◌) (rw at_p (rw at_pm (rw freed refl)))))

  Deleted-found :
      (fuel lo hi p b : ℕ) (t0 t1 : Target) (ts : Nodes) (h : Heap) (name : Str)
      → Chain h.targets lo hi ((p, t0) ∷ (b, t1) ∷ ts)
      → t1.label ≡ some name
      → str_eq name label ≡ true
      → h.monitors pm ≡ some m
      → Deleted pm m label lo hi p t0 ((b, t1) ∷ ts) h (del_target_loop (suc fuel) pm p b label h)
  unfolding removed removed_addr holds_label free_target put_target put_monitor
  Deleted-found fuel lo hi p b t0 t1 ts h name (l, u, e, (l1, u1, e1, c1)) named same mon =
      let has : has_label label t1 ≡ true = rw named same in
      record {
        heap = without p t0 b t1 (head_addr ts) h;
        returns =
            loop-found fuel lo hi p b t0 t1 ts h name (l, u, e, (l1, u1, e1, c1)) named same mon;
        chain = rw has (
          l,
          omega arith,
          ground arith,
          Chain-lower _ b p hi ts (omega arith) (
              Chain-update_below _ b hi b none ts (omega arith) (
                Chain-update_below _ b hi b (some (record t1 { next = 0 })) ts (omega arith) (
                  Chain-update_below h.targets b hi p (some (record t0 { next = head_addr ts })) ts
                    (omega arith) c1))),
        );
        frame = λ x below. ground arith;
        same_request = refl;
        same_fails = refl;
        same_reuse = refl;
        freed = λ x gone. ground arith;
        monitor = rw has (ground arith);
      }

  Deleted-next :
      (fuel lo hi p b : ℕ) (t0 t1 : Target) (ts : Nodes) (h : Heap) (name : Str)
      → Chain h.targets lo hi ((p, t0) ∷ (b, t1) ∷ ts)
      → t1.label ≡ some name
      → str_eq name label ≡ false
      → Deleted pm m label p hi b t1 ts h (del_target_loop fuel pm b (head_addr ts) label h)
      → Deleted pm m label lo hi p t0 ((b, t1) ∷ ts) h (del_target_loop (suc fuel) pm p b label h)
  unfolding removed removed_addr holds_label del_target_loop
  Deleted-next fuel lo hi p b t0 t1 ts h name (l, u, e, (l1, u1, e1, c1)) named other d =
      let has : has_label label t1 ≡ false = rw named other in
      let b_set : (b == 0) ≡ false = ground arith in
      let at_b : deref h.targets b ≡ ok (record t1 { next = head_addr ts }) =
        deref-found h.targets b (omega arith) e1 in
      let name_read : or_fault t1.label null_pointer ≡ ok name = rw named refl in
      record {
        heap = d.heap;
        returns = rw (b_set, at_b, del_target_loop) (rw name_read (rw (other, ◌>>=◌) d.returns));
        chain = rw has (l, u, d.frame p l1 ∙ e, d.chain);
        frame = λ x below. d.frame x (omega arith);
        same_request = d.same_request;
        same_fails = d.same_fails;
        same_reuse = d.same_reuse;
        freed = λ x gone. d.freed x (rw has at gone);
        monitor = rw has d.monitor;
      }

  -- The walk ends with fuel for one round a node and one more.
  pub loop-Deleted :
      (fuel lo hi p : ℕ) (t0 : Target) (ts : Nodes) (h : Heap)
      → length ts < fuel
      → Chain h.targets lo hi ((p, t0) ∷ ts)
      → Named ts
      → h.monitors pm ≡ some m
      → Deleted pm m label lo hi p t0 ts h (del_target_loop fuel pm p (head_addr ts) label h)
  loop-Deleted zero lo hi p t0 ts h f c n e = absurd (omega arith)
  loop-Deleted (suc fuel) lo hi p t0 [] h f c n e = Deleted-none fuel lo hi p t0 h c e
  loop-Deleted (suc fuel) lo hi p t0 ((b, t1) ∷ ts) h f (l, u, e, c) ((name, named), n) mon =
      elim (Bool-cases (str_eq name label)) [
        | inl same ↦ Deleted-found fuel lo hi p b t0 t1 ts h name (l, u, e, c) named same mon
        | inr other ↦
            Deleted-next fuel lo hi p b t0 t1 ts h name (l, u, e, c) named other
              (loop-Deleted fuel p hi b t1 ts h (omega arith) c n mon)
      ]
