-- ===== src/Pool/Shutdown.antt =====
-- The shutdown of a pool: with the event set some step of the program can be made until the main
-- thread has come back and every thread has ended, and only so many are made.
use boring.Prelude.{
  ℕ, zero, suc, ◌+◌, ◌*◌, ◌≤◌, ◌≡◌, refl, ap, ◌≢◌, ◌⊎◌, inl, inr, true, List, [], ◌∷◌, ◌++◌, length,
  arith,
}
use boring.Pool.{
  Packet, Next, Phase, testing, waiting, holding, calling, finished, Main, serving, posting, joined,
  Pool, all_finished, wait_returns, Step, tests, takes, dispatches, returns, shuts, posts, joins,
  arrives, Run, rest, step, completion,
}
use boring.Pool.Laws.{total, total-append, is_waiting, left}
use boring.Pool.Sound.{work, IsSound, Step-work, Run-IsSound}

-- The event stays set.
Step-event :
    (dispatch : Packet → Next) {n : ℕ} {s t : Pool}
    → Step dispatch n s t
    → s.event ≡ true
    → t.event ≡ true
Step-event dispatch (tests xs ys e) h = h
Step-event dispatch (takes xs ys p q e f) h = h
Step-event dispatch (dispatches xs ys p e) h = h
Step-event dispatch (returns xs ys p e) h = h
Step-event dispatch (shuts e) h = refl
Step-event dispatch (posts k e) h = h
Step-event dispatch (joins e f) h = h

Run-event :
    (dispatch : Packet → Next) {n : ℕ} {s : Pool} {k : ℕ} {t : Pool}
    → Run dispatch n s k t
    → s.event ≡ true
    → t.event ≡ true
Run-event dispatch rest h = h
Run-event dispatch (step r st) h = Step-event dispatch st (Run-event dispatch r h)
Run-event dispatch (completion r (arrives p o)) h = Run-event dispatch r h

Run-work :
    (dispatch : Packet → Next) {n : ℕ} {s : Pool} {k : ℕ} {t : Pool}
    → Run dispatch n s k t
    → IsSound n s
    → s.event ≡ true
    → k + work t ≤ work s
Run-work dispatch rest v h = omega arith
Run-work dispatch (step {t} {u} r st) v h = omega (
  arith,
  Run-work dispatch r v h,
  Step-work dispatch st (Run-IsSound dispatch r v) (Run-event dispatch r h),
)
Run-work dispatch (completion r (arrives p o)) v h = Run-work dispatch r v h

-- Some thread has not ended, or all have.
find_busy :
    (ps : List Phase)
    → (all_finished ps ≡ true)
      ⊎ ((xs ys : List Phase) × (p : Phase) × (ps ≡ xs ++ p ∷ ys) × (p ≢ finished))
unfolding all_finished
find_busy [] = inl refl
find_busy (testing ∷ ps) = inr ([], ps, testing, refl, λ h. cc)
find_busy (waiting ∷ ps) = inr ([], ps, waiting, refl, λ h. cc)
find_busy (holding p ∷ ps) = inr ([], ps, holding p, refl, λ h. cc)
find_busy (calling p ∷ ps) = inr ([], ps, calling p, refl, λ h. cc)
find_busy (finished ∷ ps) = elim (find_busy ps) [
  | inl all ↦ inl all
  | inr (xs, ys, p, e, b) ↦ inr (finished ∷ xs, ys, p, ap (◌∷◌ finished) e, b)
]

-- The shutdown has come back and no thread runs.
abbrev pub IsOver : Pool → Type 0
IsOver t = (t.main ≡ joined) × (all_finished t.workers ≡ true)

-- Some step of the program can be made.
abbrev pub CanStep : (Packet → Next) → ℕ → Pool → Type 0
CanStep dispatch n t = (u : Pool) × Step dispatch n t u

module _ (dispatch : Packet → Next) {n : ℕ} where
  -- A thread that waits has a packet, or the main thread has one to post.
  wait-CanStep :
      (t : Pool) (xs ys : List Phase)
      → IsSound n t
      → t.event ≡ true
      → t.workers ≡ xs ++ waiting ∷ ys
      → (q : List Packet) → t.queue ≡ q
      → (m : Main) → t.main ≡ m
      → CanStep dispatch n t
  wait-CanStep t xs ys v h e (p ∷ q) f m g = (_, takes xs ys p q e f)
  wait-CanStep t xs ys v h e [] f (posting (suc k)) g = (_, posts k g)
  wait-CanStep t xs ys v h e [] f serving g = absurd (v.busy h g)
  wait-CanStep t xs ys v h e [] f m g = absurd (
      omega (
        arith,
        v.enough h,
        ap length f,
        ap left g,
        ap (total is_waiting) e,
        total-append is_waiting xs (waiting ∷ ys),
      ))

  busy-CanStep :
      (t : Pool) (xs ys : List Phase) (p : Phase)
      → IsSound n t
      → t.event ≡ true
      → t.workers ≡ xs ++ p ∷ ys
      → p ≢ finished
      → CanStep dispatch n t
  busy-CanStep t xs ys testing v h e b = (_, tests xs ys e)
  busy-CanStep t xs ys waiting v h e b = wait-CanStep t xs ys v h e t.queue refl t.main refl
  busy-CanStep t xs ys (holding p) v h e b = (_, dispatches xs ys p e)
  busy-CanStep t xs ys (calling p) v h e b = (_, returns xs ys p e)
  busy-CanStep t xs ys finished v h e b = absurd (b refl)

  idle-CanStep :
      (t : Pool)
      → IsSound n t
      → t.event ≡ true
      → all_finished t.workers ≡ true
      → (m : Main) → t.main ≡ m
      → (t.main ≡ joined) ⊎ CanStep dispatch n t
  unfolding wait_returns
  idle-CanStep t v h all serving e = absurd (v.busy h e)
  idle-CanStep t v h all (posting zero) e = inr (_, joins e (ground arith))
  idle-CanStep t v h all (posting (suc k)) e = inr (_, posts k e)
  idle-CanStep t v h all joined e = inl e

  Over-or-CanStep : (t : Pool) → IsSound n t → t.event ≡ true → IsOver t ⊎ CanStep dispatch n t
  Over-or-CanStep t v h = elim (find_busy t.workers) [
    | inl all ↦ elim (idle-CanStep t v h all t.main refl) [ inl e ↦ inl (e, all) | inr c ↦ inr c ]
    | inr (xs, ys, p, e, b) ↦ inr (busy-CanStep t xs ys p v h e b)
  ]

  -- From a state with the event set every run has a bounded number of steps of the program, and
  -- ends only when the shutdown has come back and every thread has ended.
  pub Run-ends :
      {s : Pool} {k : ℕ} {t : Pool}
      → IsSound n s
      → s.event ≡ true
      → Run dispatch n s k t
      → (k ≤ 5 * n + 1) × (IsOver t ⊎ CanStep dispatch n t)
  Run-ends {s} {k} {t} v h r = (
    omega (arith, v.bounded h, Run-work dispatch r v h),
    Over-or-CanStep t (Run-IsSound dispatch r v) (Run-event dispatch r h),
  )
