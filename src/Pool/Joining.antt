-- ===== src/Pool/Joining.antt =====
-- The wait for the threads of a pool.
use boring.Prelude.{
  ℕ, ◌≤◌, ◌<◌, ◌≡◌, refl, ◌∙◌, ◌≢◌, true, false, List, [], ◌∷◌, ◌++◌, length, arith,
  length-replicate,
}
use boring.Pool.{
  Packet, Next, Phase, testing, waiting, holding, calling, finished, joined, Pool, all_finished,
  wait_returns, Step, tests, takes, dispatches, returns, shuts, posts, joins, arrives, Run, rest,
  step, completion, started,
}
use boring.Pool.Laws.{length-exchange}

-- A list with a thread that has not ended.
busy-all_finished :
    (ps xs ys : List Phase) (p : Phase) → ps ≡ xs ++ p ∷ ys → p ≢ finished → all_finished ps ≡ false
unfolding all_finished
busy-all_finished ps [] ys testing e b = rw e
busy-all_finished ps [] ys waiting e b = rw e
busy-all_finished ps [] ys (holding p) e b = rw e
busy-all_finished ps [] ys (calling p) e b = rw e
busy-all_finished ps [] ys finished e b = absurd (b refl)
busy-all_finished ps (x ∷ xs) ys p e b = rw e (ground (arith, busy-all_finished _ xs ys p refl b))

-- The threads are `n`, and past the wait they have ended.
record HasJoined (n : ℕ) (s : Pool) : Type 0 where
  count : length s.workers ≡ n
  over : s.main ≡ joined → all_finished s.workers ≡ true

module _ (dispatch : Packet → Next) {n : ℕ} (some_threads : 0 < n) (few_threads : n ≤ 64) where
  Step-count : {s t : Pool} → Step dispatch n s t → length s.workers ≡ n → length t.workers ≡ n
  Step-count {s} (tests xs ys e) h = length-exchange s.workers xs ys testing _ e ∙ h
  Step-count {s} (takes xs ys p q e f) h = length-exchange s.workers xs ys waiting _ e ∙ h
  Step-count {s} (dispatches xs ys p e) h = length-exchange s.workers xs ys (holding p) _ e ∙ h
  Step-count {s} (returns xs ys p e) h = length-exchange s.workers xs ys (calling p) _ e ∙ h
  Step-count (shuts e) h = h
  Step-count (posts k e) h = h
  Step-count (joins e f) h = h

  Step-over :
      {s t : Pool}
      → Step dispatch n s t
      → HasJoined n s
      → t.main ≡ joined
      → all_finished t.workers ≡ true
  unfolding wait_returns
  Step-over {s} (tests xs ys e) h j =
      cc (h.over j, busy-all_finished s.workers xs ys testing e (λ k. cc))
  Step-over {s} (takes xs ys p q e f) h j =
      cc (h.over j, busy-all_finished s.workers xs ys waiting e (λ k. cc))
  Step-over {s} (dispatches xs ys p e) h j =
      cc (h.over j, busy-all_finished s.workers xs ys (holding p) e (λ k. cc))
  Step-over {s} (returns xs ys p e) h j =
      cc (h.over j, busy-all_finished s.workers xs ys (calling p) e (λ k. cc))
  Step-over (shuts e) h j = cc
  Step-over (posts k e) h j = cc
  Step-over (joins e f) h j = ground (arith, h.count)

  Run-HasJoined :
      {s : Pool} {k : ℕ} {t : Pool} → Run dispatch n s k t → HasJoined n s → HasJoined n t
  Run-HasJoined rest h = h
  Run-HasJoined (step r st) h =
      let v = Run-HasJoined r h in record { count = Step-count st v.count; over = Step-over st v }
  Run-HasJoined (completion r (arrives p o)) h =
      let v = Run-HasJoined r h in record { count = v.count; over = v.over }

  -- When all of 1 to 64 threads were created, the shutdown comes back only after each has ended.
  pub joined-all_finished :
      {k : ℕ} {t : Pool}
      → Run dispatch n (started n) k t
      → t.main ≡ joined
      → all_finished t.workers ≡ true
  joined-all_finished r =
      (Run-HasJoined r (record { count = length-replicate n testing; over = λ e. cc })).over
