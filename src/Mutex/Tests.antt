-- ===== src/Mutex/Tests.antt =====
-- The mutex and guards of io/io_mutex.h at fixed inputs.
use boring.Prelude.{ℕ, ◌≡◌, refl, ◌⊎◌, true, false, [], ◌∷◌, none, some}
use boring.Outcome.{ok, fault, not_owner}
use boring.Mutex.{
  Mutex, held, lock, trylock, make_lock, make_trylock, exit, destroy, Locks, with_guards, no_guards,
  locks, tries, Reach, at_first, next,
}
use boring.Mutex.Safety.{holds, total, guard_exclusive}

-- Thread 1 locks, thread 2 tries.
abbrev one_locked : Locks
one_locked = with_guards 1 (lock ∷ []) no_guards (held 1 0)

abbrev two_tried : Locks
two_tried = with_guards 2 (trylock false ∷ []) one_locked (held 1 0)

tried : Reach false two_tried
unfolding make_lock make_trylock
tried =
    next (next at_first (locks 1 (held 1 0, lock) refl)) (tries 2 (held 1 0, trylock false) refl)

guard_exclusive_example :
    ((m : Mutex) × (destroy 1 lock two_tried.mutex ≡ ok m))
    × ((holds lock ≡ 0) ⊎ ((◌≡◌ {A = ℕ} 2 1) ⊎ (total (two_tried.guards 2) ≡ 0)))
guard_exclusive_example = guard_exclusive tried 1 2 [] [] lock refl

-- A thread can enter a critical section again, a default mutex makes it wait for itself.
enter_twice :
    (make_lock true 1 (held 1 0) ≡ some (held 1 1, lock)) × (make_lock false 1 (held 1 0) ≡ none)
unfolding make_lock
enter_twice = (refl, refl)

leave_other : exit 2 (held 1 0) ≡ fault not_owner
unfolding exit
leave_other = refl
