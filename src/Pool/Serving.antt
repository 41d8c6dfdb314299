-- ===== src/Pool/Serving.antt =====
-- Which packets of a pool go to a callback.
use boring.Prelude.{
  ℕ, ◌+◌, ◌≡◌, ap, Bool, true, false, List, [], ◌∷◌, ◌++◌, if◌then◌else◌, replicate, zero, suc,
  arith,
}
use boring.Pool.{
  Packet, exit_packet, Next, leave, again, call, Phase, testing, waiting, holding, calling,
  finished, Pool, landing, called, Step, tests, takes, dispatches, returns, shuts, posts, joins,
  arrives, Run, rest, step, completion, started,
}
use boring.Pool.Laws.{total, total-exchange}

-- The packets that `dispatch` calls back.
abbrev pub callable : (Packet → Next) → List Packet → List Packet
callable dispatch [] = []
callable dispatch (p ∷ ps) = called (dispatch p) p ++ callable dispatch ps

-- The packet that a thread holds but has not tested yet.
abbrev pub in_hand : Phase → List Packet
in_hand (holding p) = p ∷ []
in_hand _ = []

abbrev pub held : List Phase → List Packet
held [] = []
held (w ∷ ws) = in_hand w ++ held ws

-- How many packets pass a test.
abbrev pub count : (Packet → Bool) → List Packet → ℕ
count f [] = 0
count f (p ∷ ps) = (if f p then 1 else 0) + count f ps

pub count-append :
    (f : Packet → Bool) (ps qs : List Packet) → count f (ps ++ qs) ≡ count f ps + count f qs
count-append f [] qs = omega arith
count-append f (p ∷ ps) qs = omega (arith, count-append f ps qs)

module _ (dispatch : Packet → Next) (f : Packet → Bool) where
  -- The packets among `ps` that pass the test and are for a callback.
  abbrev counted : List Packet → ℕ
  counted [] = 0
  counted (p ∷ ps) = count f (called (dispatch p) p) + counted ps

  counted-append : (ps qs : List Packet) → counted (ps ++ qs) ≡ counted ps + counted qs
  counted-append [] qs = omega arith
  counted-append (p ∷ ps) qs = omega (arith, counted-append ps qs)

  pub counted-callable : (ps : List Packet) → count f (callable dispatch ps) ≡ counted ps
  counted-callable [] = omega arith
  counted-callable (p ∷ ps) =
      omega
        (arith, counted-callable ps, count-append f (called (dispatch p) p) (callable dispatch ps))

  abbrev hand : Phase → ℕ
  hand w = counted (in_hand w)

  pub total-held : (ws : List Phase) → total hand ws ≡ counted (held ws)
  total-held [] = omega arith
  total-held (w ∷ ws) = omega (arith, total-held ws, counted-append (in_hand w) (held ws))

  hand-landing : (d : Next) (p : Packet) → hand (landing d p) ≡ 0
  hand-landing leave p = omega arith
  hand-landing again p = omega arith
  hand-landing call p = omega arith

  hand-entering : (b : Bool) → hand (if b then finished else waiting) ≡ 0
  hand-entering true = omega arith
  hand-entering false = omega arith

  -- What was served, is held and is in the queue is what came.
  abbrev Balanced : Pool → Type 0
  Balanced s = count f s.served + total hand s.workers + counted s.queue ≡ counted s.arrived

  Step-Balanced : {n : ℕ} {s t : Pool} → Step dispatch n s t → Balanced s → Balanced t
  Step-Balanced {s = s} (tests xs ys e) h = omega (
    arith,
    h,
    total-exchange hand s.workers xs ys testing (if s.event then finished else waiting) e,
    hand-entering s.event,
  )
  Step-Balanced {s = s} (takes xs ys p q e g) h =
      omega (arith, h, ap counted g, total-exchange hand s.workers xs ys waiting (holding p) e)
  Step-Balanced {s = s} (dispatches xs ys p e) h = omega (
    arith,
    h,
    count-append f s.served (called (dispatch p) p),
    total-exchange hand s.workers xs ys (holding p) (landing (dispatch p) p) e,
    hand-landing (dispatch p) p,
  )
  Step-Balanced {s = s} (returns xs ys p e) h =
      omega (arith, h, total-exchange hand s.workers xs ys (calling p) testing e)
  Step-Balanced (shuts e) h = h
  Step-Balanced {s = s} (posts k e) h = omega (
    arith,
    h,
    counted-append s.queue (exit_packet ∷ []),
    counted-append s.arrived (exit_packet ∷ []),
  )
  Step-Balanced (joins e g) h = h

  Run-Balanced :
      {n : ℕ} {s : Pool} {k : ℕ} {t : Pool} → Run dispatch n s k t → Balanced s → Balanced t
  Run-Balanced rest h = h
  Run-Balanced (step r st) h = Step-Balanced st (Run-Balanced r h)
  Run-Balanced (completion {t = t} r (arrives p o)) h =
      omega (
        arith,
        Run-Balanced r h,
        counted-append t.queue (p ∷ []),
        counted-append t.arrived (p ∷ []),
      )

  start-hand : (c : ℕ) → total hand (replicate c testing) ≡ 0
  start-hand zero = omega arith
  start-hand (suc c) = omega (arith, start-hand c)

  pub served-callable :
      {n : ℕ} (c : ℕ) {k : ℕ} {t : Pool}
      → Run dispatch n (started c) k t
      → count f t.served
          + count f (callable dispatch (held t.workers))
          + count f (callable dispatch t.queue)
        ≡ count f (callable dispatch t.arrived)
  served-callable c {t = t} r = omega (
    arith,
    Run-Balanced r (omega (arith, start-hand c)),
    total-held t.workers,
    counted-callable (held t.workers),
    counted-callable t.queue,
    counted-callable t.arrived,
  )
