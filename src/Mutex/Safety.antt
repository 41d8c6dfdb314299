-- ===== src/Mutex/Safety.antt =====
-- The guards of io/io_mutex.h balance the entries of the mutex.
use boring.Prelude.{
  ℕ, zero, suc, ◌+◌, ◌≤◌, ◌<◌, ◌≡◌, refl, ap, ◌∙◌, Bool, true, false, List, [], ◌∷◌, ◌++◌, some,
  ◌==◌, ==_iff, ◌⊎◌, inl, inr, if◌then◌else◌, arith,
}
use native.Mathlib.Decide.{ℕ_discrete}
use boring.Outcome.{ok}
use boring.Mutex.{
  Mutex, free, held, Guard, lock, trylock, make_lock, make_trylock, try_again, destroy, Locks, Step,
  locks, tries, tries_again, destroys, Reach, at_first, next,
}

-- How often thread `t` has entered.
abbrev pub entries : ℕ → Mutex → ℕ
entries t free = 0
entries t (held u n) = if u == t then suc n else 0

abbrev pub holds : Guard → ℕ
holds lock = 1
holds (trylock true) = 1
holds (trylock false) = 0

abbrev pub total : List Guard → ℕ
total [] = 0
total (g ∷ gs) = holds g + total gs

total-append : (xs ys : List Guard) → total (xs ++ ys) ≡ total xs + total ys
total-append [] ys = omega arith
total-append (x ∷ xs) ys = omega (arith, total-append xs ys)

-- What an operation of thread `t` does to the entries of thread `u`.
abbrev Moves : ℕ → ℕ → ℕ → ℕ → Mutex → Mutex → Type 0
Moves t u before after m m' =
    entries u m' + (if u == t then before else 0) ≡ entries u m + (if u == t then after else 0)

make_lock-Moves :
    (r : Bool) (t u : ℕ) (m : Mutex) (e : Mutex × Guard)
    → make_lock r t m ≡ some e
    → Moves t u 0 (holds e.1) m e.0
unfolding make_lock
make_lock-Moves r t u free e h = ground arith
make_lock-Moves r t u (held v n) e h = ground arith

make_trylock-Moves :
    (r : Bool) (t u : ℕ) (m : Mutex) (e : Mutex × Guard)
    → make_trylock r t m ≡ e
    → Moves t u 0 (holds e.1) m e.0
unfolding make_trylock
make_trylock-Moves r t u free e h = ground arith
make_trylock-Moves r t u (held v n) e h = ground arith

try_again-Moves :
    (r : Bool) (t u : ℕ) (b : Bool) (m : Mutex) (e : Mutex × Guard)
    → try_again r t b m ≡ e
    → Moves t u (holds (trylock b)) (holds e.1) m e.0
unfolding try_again
try_again-Moves r t u true m e h = ground arith
try_again-Moves r t u false free e h = ground arith
try_again-Moves r t u false (held v n) e h = ground arith

destroy-Moves :
    (t u : ℕ) (g : Guard) (m m' : Mutex) → destroy t g m ≡ ok m' → Moves t u (holds g) 0 m m'
unfolding destroy
destroy-Moves t u lock free m' h = cc
destroy-Moves t u lock (held v zero) m' h = ground arith
destroy-Moves t u lock (held v (suc n)) m' h = ground arith
destroy-Moves t u (trylock true) free m' h = cc
destroy-Moves t u (trylock true) (held v zero) m' h = ground arith
destroy-Moves t u (trylock true) (held v (suc n)) m' h = ground arith
destroy-Moves t u (trylock false) m m' h = ground arith

-- A guard that holds can be destroyed by a thread that has entered.
destroy-ok :
    (t : ℕ) (g : Guard) (m : Mutex) → holds g ≤ entries t m → (m' : Mutex) × (destroy t g m ≡ ok m')
unfolding destroy
destroy-ok t lock free h = absurd (omega arith)
destroy-ok t lock (held v zero) h = (free, ground arith)
destroy-ok t lock (held v (suc n)) h = (held v n, ground arith)
destroy-ok t (trylock true) free h = absurd (omega arith)
destroy-ok t (trylock true) (held v zero) h = (free, ground arith)
destroy-ok t (trylock true) (held v (suc n)) h = (held v n, ground arith)
destroy-ok t (trylock false) m h = (m, refl)

-- Each thread has entered as often as it has guards that hold.
abbrev IsBalanced : Locks → Type 0
IsBalanced s = (u : ℕ) → total (s.guards u) ≡ entries u s.mutex

Step-IsBalanced : {r : Bool} {s s' : Locks} → Step r s s' → IsBalanced s → IsBalanced s'
Step-IsBalanced {r} {s} (locks t e h) b u =
    ground (arith, b u, b t, ==_iff u t, make_lock-Moves r t u s.mutex e h)
Step-IsBalanced {r} {s} (tries t e h) b u =
    ground (arith, b u, b t, ==_iff u t, make_trylock-Moves r t u s.mutex e h)
Step-IsBalanced {r} {s} (tries_again t xs ys d e g h) b u = ground (
  arith,
  b u,
  ap total g,
  total-append xs (trylock d ∷ ys),
  total-append xs (e.1 ∷ ys),
  try_again-Moves r t u d s.mutex e h,
)
Step-IsBalanced {r} {s} (destroys t xs ys g m f h) b u = ground (
  arith,
  b u,
  ap total f,
  total-append xs (g ∷ ys),
  total-append xs ys,
  destroy-Moves t u g s.mutex m h,
)

Reach-IsBalanced :
    {r : Bool} {s : Locks} → Reach r s → (u : ℕ) → total (s.guards u) ≡ entries u s.mutex
Reach-IsBalanced at_first u = refl
Reach-IsBalanced (next q st) u = Step-IsBalanced st (Reach-IsBalanced q) u

entries_unique : (m : Mutex) (a b : ℕ) → 0 < entries a m → (b ≡ a) ⊎ (entries b m ≡ 0)
entries_unique free a b p = absurd (omega arith)
entries_unique (held v n) a b p = elim (ℕ_discrete b a) [
  | yes e ↦ inl e
  | no d ↦ inr (ground arith)
]

-- Holding is a matter of the guard.
holds-cases : (g : Guard) → (holds g ≡ 0) ⊎ (holds g ≡ 1)
holds-cases lock = inr refl
holds-cases (trylock true) = inr refl
holds-cases (trylock false) = inl refl

-- However threads make guards, try again and destroy them: for any guard of a thread `t`, the
-- destructor never leaves a mutex that `t` does not hold, and either the guard does not hold, or no
-- other thread has a guard that does.
pub guard_exclusive :
    {r : Bool} {s : Locks}
    → Reach r s
    → (t u : ℕ) (xs ys : List Guard) (g : Guard) → s.guards t ≡ xs ++ g ∷ ys
    → ((m : Mutex) × (destroy t g s.mutex ≡ ok m))
      × ((holds g ≡ 0) ⊎ ((u ≡ t) ⊎ (total (s.guards u) ≡ 0)))
guard_exclusive {s = s} q t u xs ys g e =
    let inside : holds g ≤ entries t s.mutex =
      omega (arith, Reach-IsBalanced q t, ap total e, total-append xs (g ∷ ys)) in
    (
      destroy-ok t g s.mutex inside,
      elim (holds-cases g) [
        | inl z ↦ inl z
        | inr h ↦ elim (entries_unique s.mutex t u (omega arith)) [
          | inl same ↦ inr (inl same)
          | inr none_held ↦ inr (inr (Reach-IsBalanced q u ∙ none_held))
        ]
      ],
    )
