-- ===== src/Mutex.antt =====
-- io/io_mutex.h and io_mutex.cpp: the mutex, its guards `io_lock` and `io_trylock`, and threads
-- that make, use and destroy guards in any order. `r` says whether the mutex of the system is
-- recursive: a critical section of Windows is, a default mutex of pthreads is not.
pub mod Safety
mod Tests
use boring.Prelude.{
  ℕ, zero, suc, ◌≡◌, Bool, true, false, ◌&&◌, List, [], ◌∷◌, ◌++◌, Option, none, some, ◌==◌,
  if◌then◌else◌,
}
use boring.Outcome.{Outcome, ok, fault, not_owner}

-- `held t n` is held by thread `t`, which has entered it `n + 1` times.
pub data Mutex : Type 0 where
  free : Mutex
  held : ℕ → ℕ → Mutex

-- `none` while the thread would have to wait.
unfoldable pub enter : Bool → ℕ → Mutex → Option Mutex
enter r t free = some (held t 0)
enter r t (held u n) = if r && (u == t) then some (held u (suc n)) else none

unfoldable pub try_enter : Bool → ℕ → Mutex → Mutex × Bool
unfolding enter
try_enter r t m = elim (enter r t m) [ none ↦ (m, false) | some m' ↦ (m', true) ]

-- A thread that does not hold the mutex must not leave it.
unfoldable pub exit : ℕ → Mutex → Outcome Mutex
exit t free = fault not_owner
exit t (held u zero) = if u == t then ok free else fault not_owner
exit t (held u (suc n)) = if u == t then ok (held u n) else fault not_owner

-- An `io_lock`, or an `io_trylock` with `m_is_enter`.
pub data Guard : Type 0 where
  lock : Guard
  trylock : Bool → Guard

unfoldable pub make_lock : Bool → ℕ → Mutex → Option (Mutex × Guard)
unfolding enter
make_lock r t m = elim (enter r t m) [ none ↦ none | some m' ↦ some (m', lock) ]

unfoldable pub make_trylock : Bool → ℕ → Mutex → Mutex × Guard
unfolding try_enter
make_trylock r t m = let e = try_enter r t m in (e.0, trylock e.1)

unfoldable pub try_again : Bool → ℕ → Bool → Mutex → Mutex × Guard
unfolding try_enter
try_again r t true m = (m, trylock true)
try_again r t false m = let e = try_enter r t m in (e.0, trylock e.1)

-- The destructors.
unfoldable pub destroy : ℕ → Guard → Mutex → Outcome Mutex
unfolding exit
destroy t lock m = exit t m
destroy t (trylock true) m = exit t m
destroy t (trylock false) m = ok m

-- The mutex and the guards that each thread has.
pub record Locks : Type 0 where
  pub mutex : Mutex
  pub guards : ℕ → List Guard

abbrev pub with_guards : ℕ → List Guard → Locks → Mutex → Locks
with_guards t gs s m = record { mutex = m; guards = λ u. if u == t then gs else s.guards u }

pub data Step (r : Bool) (s : Locks) : Locks → Type 0 where
  locks :
      (t : ℕ) (e : Mutex × Guard)
      → make_lock r t s.mutex ≡ some e
      → Step r s (with_guards t (e.1 ∷ s.guards t) s e.0)
  tries :
      (t : ℕ) (e : Mutex × Guard)
      → make_trylock r t s.mutex ≡ e
      → Step r s (with_guards t (e.1 ∷ s.guards t) s e.0)
  tries_again :
      (t : ℕ) (xs ys : List Guard) (b : Bool) (e : Mutex × Guard)
      → s.guards t ≡ xs ++ trylock b ∷ ys
      → try_again r t b s.mutex ≡ e
      → Step r s (with_guards t (xs ++ e.1 ∷ ys) s e.0)
  destroys :
      (t : ℕ) (xs ys : List Guard) (g : Guard) (m : Mutex)
      → s.guards t ≡ xs ++ g ∷ ys
      → destroy t g s.mutex ≡ ok m
      → Step r s (with_guards t (xs ++ ys) s m)

abbrev pub no_guards : Locks
no_guards = record { mutex = free; guards = λ _. [] }

pub data Reach (r : Bool) : Locks → Type 0 where
  at_first : Reach r no_guards
  next : {s t : Locks} → Reach r s → Step r s t → Reach r t
