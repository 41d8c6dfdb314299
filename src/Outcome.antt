-- ===== src/Outcome.antt =====
-- What a run of the C++ code can come to: a value, or one of the ways in which the code leaves
-- defined behaviour, or a wait that never comes back. The model stops at the first of these.
use boring.Prelude.{◌≡◌, refl, ap, Bool, true, false, Option, none, some}

pub data Fault : Type 0 where
  assertion : Fault
  out_of_bounds : Fault
  null_pointer : Fault
  dangling_pointer : Fault
  uninitialised : Fault
  bad_shift : Fault
  not_owner : Fault
  never_returns : Fault
  out_of_fuel : Fault

pub data Outcome {ℓ} (A : Type ℓ) : Type ℓ where
  ok : A → Outcome A
  fault : Fault → Outcome A

infixl 5 ◌>>=◌ ◌>>◌
abbrev pub ◌>>=◌ {ℓ κ} : {A : Type ℓ} {B : Type κ} → Outcome A → (A → Outcome B) → Outcome B
ok a >>= f = f a
fault e >>= f = fault e

abbrev pub ◌>>◌ {ℓ} : {B : Type ℓ} → Outcome (Unit {0}) → Outcome B → Outcome B
m >> k = m >>= λ _. k

abbrev pub require : Bool → Fault → Outcome (Unit {0})
require true e = ok tt
require false e = fault e

abbrev pub or_fault {ℓ} : {A : Type ℓ} → Option A → Fault → Outcome A
or_fault none e = fault e
or_fault (some a) e = ok a

-- A chain that succeeds has a first step that does.
pub bind-eq-ok {ℓ κ} :
    {A : Type ℓ} {B : Type κ} (m : Outcome A) (f : A → Outcome B) {b : B}
    → (m >>= f) ≡ ok b
    → (a : A) × (m ≡ ok a) × (f a ≡ ok b)
bind-eq-ok (ok a) f h = (a, refl, h)
bind-eq-ok (fault e) f h = cc

-- What holds of the value, if there is one.
abbrev pub After {ℓ κ} : {A : Type ℓ} → (A → Type κ) → Outcome A → Type κ
After P (ok a) = P a
After P (fault e) = Unit

pub After-bind {ℓ κ ℓ₁ κ₁} :
    {A : Type ℓ} {B : Type κ} (P : A → Type ℓ₁) (Q : B → Type κ₁) (m : Outcome A)
    (f : A → Outcome B)
    → After P m
    → ((a : A) → P a → After Q (f a))
    → After Q (m >>= f)
After-bind P Q (ok a) f h k = k a h
After-bind P Q (fault e) f h k = tt

pub After-any {ℓ κ κ₁} :
    {A : Type ℓ} {B : Type κ} (Q : B → Type κ₁) (m : Outcome A) (f : A → Outcome B)
    → ((a : A) → After Q (f a))
    → After Q (m >>= f)
After-any Q (ok a) f k = k a
After-any Q (fault e) f k = tt

pub After-map {ℓ κ ℓ₁} :
    {A : Type ℓ} (P : A → Type κ) (Q : A → Type ℓ₁) (m : Outcome A)
    → After P m
    → ((a : A) → P a → Q a)
    → After Q m
After-map P Q (ok a) h k = k a h
After-map P Q (fault e) h k = tt

-- The first step of a chain that has a value.
pub bind-ok {ℓ κ} :
    {A : Type ℓ} {B : Type κ} {m : Outcome A} {a : A} (f : A → Outcome B)
    → m ≡ ok a
    → (m >>= f) ≡ f a
bind-ok f e = ap (λ n. n >>= f) e

-- A chain whose first step faults.
pub bind-fault {ℓ κ} :
    {A : Type ℓ} {B : Type κ} {m : Outcome A} {e : Fault} (f : A → Outcome B)
    → m ≡ fault e
    → (m >>= f) ≡ fault e
bind-fault f h = ap (λ n. n >>= f) h
