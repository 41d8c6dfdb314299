-- ===== src/Handles.antt =====
-- Handles of Windows, as io/net_wiocp_module.cpp and IOCPServer/Iocp.cpp create and release them. A
-- handle is a number, 0 is `NULL`. What a call answers may depend on how many were made before it.
pub mod Laws
use boring.Prelude.{
  ℕ, zero, suc, ◌+◌, Bool, true, false, not, ◌&&◌, List, [], ◌∷◌, ◌++◌, Option, none, some, ◌==◌,
  if◌then◌else◌,
}
use boring.Outcome.{Outcome, ok, fault, null_pointer, out_of_bounds}

-- The calls that give a handle, whether a socket could be bound to a port, and whether threads that
-- were told to end do.
pub record Kernel : Type 0 where
  pub create_event : ℕ → ℕ
  pub create_port : ℕ → ℕ
  pub create_thread : ℕ → ℕ
  pub associates : ℕ → Bool
  pub threads_end : Bool

-- How many calls were made, and the handles closed, the first one first.
pub record Host : Type 0 where
  pub calls : ℕ
  pub closed : List ℕ

abbrev pub invalid_handle : ℕ
invalid_handle = 4294967295

-- The test of `RELEASE_HANDLE`.
unfoldable pub is_valid : ℕ → Bool
is_valid h = not (h == 0) && not (h == invalid_handle)

-- `RELEASE_HANDLE` on a variable that holds `h`: the handle is closed and the variable is cleared.
unfoldable pub close : ℕ → List ℕ → List ℕ
unfolding is_valid
close h closed = if is_valid h then closed ++ h ∷ [] else closed

unfoldable pub cleared : ℕ → ℕ
unfolding is_valid
cleared h = if is_valid h then 0 else h

-- `RELEASE_HANDLE` of the first `n` entries of an array.
unfoldable pub close_threads : ℕ → Option (List ℕ) → List ℕ → Outcome (List ℕ)
close_threads zero hs closed = ok closed
close_threads (suc n) none closed = fault null_pointer
close_threads (suc n) (some []) closed = fault out_of_bounds
close_threads (suc n) (some (h ∷ hs)) closed = close_threads n (some hs) (close h closed)

-- `CreateThread` for each of `n` threads, when `c` calls were made before.
unfoldable pub make_threads : Kernel → ℕ → ℕ → List ℕ
make_threads w zero c = []
make_threads w (suc n) c = w.create_thread c ∷ make_threads w n (suc c)
