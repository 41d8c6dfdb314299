-- ===== src/Memory.antt =====
-- Memory by address: an address is a number, `NULL` is 0, a cell that was freed or never made is
-- `none`.
use boring.Prelude.{ℕ, false, Option, none, some, ◌≡◌, ◌<◌, refl, arith, ◌==◌, if◌then◌else◌}
use boring.Outcome.{Outcome, ok, fault, null_pointer, dangling_pointer}

abbrev pub update {ℓ} : {A : Type ℓ} → (ℕ → Option A) → ℕ → Option A → ℕ → Option A
update cells a o x = if x == a then o else cells x

unfoldable pub deref {ℓ} : {A : Type ℓ} → (ℕ → Option A) → ℕ → Outcome A
deref cells a =
    if a == 0
    then fault null_pointer
    else elim (cells a) [ none ↦ fault dangling_pointer | some c ↦ ok c ]

pub deref-found {ℓ} :
    {A : Type ℓ} (cells : ℕ → Option A) (a : ℕ) {c : A}
    → 0 < a
    → cells a ≡ some c
    → deref cells a ≡ ok c
unfolding deref
deref-found cells a p h = let n : (a == 0) ≡ false = ground arith in rw (n, h, deref) refl

pub deref-freed {ℓ} :
    {A : Type ℓ} (cells : ℕ → Option A) (a : ℕ)
    → 0 < a
    → cells a ≡ none
    → deref cells a ≡ fault dangling_pointer
unfolding deref
deref-freed cells a p h = let n : (a == 0) ≡ false = ground arith in rw (n, h, deref) refl
