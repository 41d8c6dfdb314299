-- ===== src/Pool/Sound.antt =====
-- What holds in every state of a pool: the packets posted are enough for the threads that wait, and
-- with the event set every step of the program takes work away.
use boring.Prelude.{
  ℕ, ◌+◌, ◌*◌, ◌≤◌, ◌≡◌, refl, ap, ◌≢◌, true, false, [], ◌∷◌, length, length-append,
  length-replicate, arith,
}
use boring.Pool.{
  exit_packet, Packet, Next, leave, again, call, testing, waiting, holding, calling, finished,
  serving, Pool, landing, Step, tests, takes, dispatches, returns, shuts, posts, joins, Arrival,
  arrives, Run, rest, step, completion, started,
}
use boring.Pool.Laws.{
  total, length-exchange, total-exchange, weight, is_waiting, left, main_weight, total-weight-le,
  total-waiting-le,
}

-- The work left once the event is set.
abbrev pub work : Pool → ℕ
work s = total weight s.workers + main_weight s.main

-- What holds in every state of a pool of `n` threads or less.
pub record IsSound (n : ℕ) (s : Pool) : Type 0 where
  pub few : length s.workers ≤ n
  pub quiet : s.event ≡ false → s.main ≡ serving
  pub busy : s.event ≡ true → s.main ≢ serving
  pub enough : s.event ≡ true → total is_waiting s.workers ≤ length s.queue + left s.main
  pub bounded : s.event ≡ true → work s ≤ 5 * n + 1

landing-light : (d : Next) (p : Packet) → weight (landing d p) ≤ 2
landing-light leave p = omega arith
landing-light again p = omega arith
landing-light call p = omega arith

landing-awake : (d : Next) (p : Packet) → is_waiting (landing d p) ≡ 0
landing-awake leave p = refl
landing-awake again p = refl
landing-awake call p = refl

module _ (dispatch : Packet → Next) {n : ℕ} where
  -- With the event set, a step of the program takes work away.
  pub Step-work :
      {s t : Pool} → Step dispatch n s t → IsSound n s → s.event ≡ true → work t + 1 ≤ work s
  Step-work {s} (tests xs ys e) v h =
      rw h (omega (arith, total-exchange weight s.workers xs ys testing finished e))
  Step-work {s} (takes xs ys p q e f) v h =
      omega (arith, total-exchange weight s.workers xs ys waiting (holding p) e)
  Step-work {s} (dispatches xs ys p e) v h = omega (
    arith,
    total-exchange weight s.workers xs ys (holding p) (landing (dispatch p) p) e,
    landing-light (dispatch p) p,
  )
  Step-work {s} (returns xs ys p e) v h =
      omega (arith, total-exchange weight s.workers xs ys (calling p) testing e)
  Step-work (shuts e) v h = absurd (v.busy h e)
  Step-work (posts k e) v h = omega (arith, ap main_weight e)
  Step-work (joins e f) v h = omega (arith, ap main_weight e)

  Step-few : {s t : Pool} → Step dispatch n s t → length s.workers ≤ n → length t.workers ≤ n
  Step-few {s} (tests xs ys e) v = rw (length-exchange s.workers xs ys testing _ e) v
  Step-few {s} (takes xs ys p q e f) v = rw (length-exchange s.workers xs ys waiting _ e) v
  Step-few {s} (dispatches xs ys p e) v = rw (length-exchange s.workers xs ys (holding p) _ e) v
  Step-few {s} (returns xs ys p e) v = rw (length-exchange s.workers xs ys (calling p) _ e) v
  Step-few (shuts e) v = v
  Step-few (posts k e) v = v
  Step-few (joins e f) v = v

  Step-enough :
      {s t : Pool}
      → Step dispatch n s t
      → IsSound n s
      → t.event ≡ true
      → total is_waiting t.workers ≤ length t.queue + left t.main
  Step-enough {s} (tests xs ys e) v h =
      rw h (omega (arith, v.enough h, total-exchange is_waiting s.workers xs ys testing finished e))
  Step-enough {s} (takes xs ys p q e f) v h = omega (
    arith,
    v.enough h,
    ap length f,
    total-exchange is_waiting s.workers xs ys waiting (holding p) e,
  )
  Step-enough {s} (dispatches xs ys p e) v h = omega (
    arith,
    v.enough h,
    total-exchange is_waiting s.workers xs ys (holding p) (landing (dispatch p) p) e,
    landing-awake (dispatch p) p,
  )
  Step-enough {s} (returns xs ys p e) v h =
      omega (arith, v.enough h, total-exchange is_waiting s.workers xs ys (calling p) testing e)
  Step-enough {s} (shuts e) v h = omega (arith, v.few, total-waiting-le s.workers)
  Step-enough {s} (posts k e) v h =
      omega (arith, v.enough h, ap left e, length-append s.queue (exit_packet ∷ []))
  Step-enough (joins e f) v h = omega (arith, v.enough h, ap left e)

  -- Only `shuts` sets the event.
  Step-bounded :
      {s t : Pool} → Step dispatch n s t → IsSound n s → t.event ≡ true → work t ≤ 5 * n + 1
  Step-bounded {s} (shuts e) v h = omega (arith, v.few, total-weight-le s.workers)
  Step-bounded (tests xs ys e) v h = omega (arith, v.bounded h, Step-work (tests xs ys e) v h)
  Step-bounded (takes xs ys p q e f) v h =
      omega (arith, v.bounded h, Step-work (takes xs ys p q e f) v h)
  Step-bounded (dispatches xs ys p e) v h =
      omega (arith, v.bounded h, Step-work (dispatches xs ys p e) v h)
  Step-bounded (returns xs ys p e) v h =
      omega (arith, v.bounded h, Step-work (returns xs ys p e) v h)
  Step-bounded (posts k e) v h = omega (arith, v.bounded h, Step-work (posts k e) v h)
  Step-bounded (joins e f) v h = omega (arith, v.bounded h, Step-work (joins e f) v h)

  Step-main :
      {s t : Pool}
      → Step dispatch n s t
      → IsSound n s
      → (t.event ≡ false → t.main ≡ serving) × (t.event ≡ true → t.main ≢ serving)
  Step-main (tests xs ys e) v = (v.quiet, v.busy)
  Step-main (takes xs ys p q e f) v = (v.quiet, v.busy)
  Step-main (dispatches xs ys p e) v = (v.quiet, v.busy)
  Step-main (returns xs ys p e) v = (v.quiet, v.busy)
  Step-main (shuts e) v = (λ h. cc, λ h k. cc)
  Step-main (posts k e) v = (λ h. cc (v.quiet h), λ h k. cc)
  Step-main (joins e f) v = (λ h. cc (v.quiet h), λ h k. cc)

  Step-IsSound : {s t : Pool} → Step dispatch n s t → IsSound n s → IsSound n t
  Step-IsSound st v = record {
    few = Step-few st v.few;
    quiet = (Step-main st v).0;
    busy = (Step-main st v).1;
    enough = Step-enough st v;
    bounded = Step-bounded st v;
  }

Arrival-IsSound : {n : ℕ} {s t : Pool} → Arrival s t → IsSound n s → IsSound n t
Arrival-IsSound {n} {s} (arrives p o) v = record {
  few = v.few;
  quiet = v.quiet;
  busy = v.busy;
  enough = λ h. omega (arith, v.enough h, length-append s.queue (p ∷ []));
  bounded = v.bounded;
}

pub Run-IsSound :
    (dispatch : Packet → Next) {n : ℕ} {s : Pool} {k : ℕ} {t : Pool}
    → Run dispatch n s k t
    → IsSound n s
    → IsSound n t
Run-IsSound dispatch rest v = v
Run-IsSound dispatch (step r st) v = Step-IsSound dispatch st (Run-IsSound dispatch r v)
Run-IsSound dispatch (completion r a) v = Arrival-IsSound a (Run-IsSound dispatch r v)

pub started-IsSound : (n c : ℕ) → c ≤ n → IsSound n (started c)
started-IsSound n c h = record {
  few = rw (length-replicate c testing) h;
  quiet = λ e. refl;
  busy = λ e. cc;
  enough = λ e. cc;
  bounded = λ e. cc;
}
