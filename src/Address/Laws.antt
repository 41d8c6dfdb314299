-- ===== src/Address/Laws.antt =====
-- net/Address.cpp: comparison, copies and host names.
use boring.Prelude.{
  ℕ, ◌≡◌, ◌<◌, refl, ap, sym, ◌∙◌, Bool, true, false, ◌&&◌, some, ◌==◌, if◌then◌else◌, arith, inl,
  inr, ==_iff, Bool-cases,
}
use native.Mathlib.Decide.{ℕ_discrete}
use boring.Outcome.{Outcome, ok, ◌>>=◌}
use boring.Memory.{deref, deref-found}
use boring.Dict.{str_eq}
use boring.Dict.Order.{str_eq→eq, str_eq_refl}
use boring.Address.{SockAddr, Winsock, Addresses, copy, write_sockaddr, get_sockaddr, equals}

-- What the documentation of the socket library says of ports and of the printed form of addresses:
-- `ntohs` undoes `htons`, and each of `ntohs` and `inet_ntoa` tells its arguments apart.
pub record IsWinsock (w : Winsock) : Type 0 where
  pub port_back : (p : ℕ) → p < 65536 → w.ntohs (w.htons p) ≡ p
  pub port_apart : (p q : ℕ) → p < 65536 → q < 65536 → w.ntohs p ≡ w.ntohs q → p ≡ q
  pub ip_apart : (a b : ℕ) → a < 4294967296 → b < 4294967296 → w.inet_ntoa a ≡ w.inet_ntoa b → a ≡ b

-- The fields have 16 and 32 bits.
abbrev pub InRange : SockAddr → Type 0
InRange s = (s.sin_port < 65536) × (s.s_addr < 4294967296)

if-same : (b : Bool) → (if b then true else false) ≡ b
if-same true = refl
if-same false = refl

str_eq-inet_ntoa :
    (w : Winsock) (v : IsWinsock w) (i j : ℕ)
    → i < 4294967296
    → j < 4294967296
    → str_eq (w.inet_ntoa i) (w.inet_ntoa j) ≡ (i == j)
str_eq-inet_ntoa w v i j p q = elim (ℕ_discrete i j) [
  | yes e ↦ rw e (str_eq_refl (w.inet_ntoa j) ∙ sym ((==_iff j j).1 refl))
  | no d ↦ elim (Bool-cases (str_eq (w.inet_ntoa i) (w.inet_ntoa j))) [
    | inl same ↦ absurd (d (v.ip_apart i j p q (str_eq→eq _ _ same)))
    | inr other ↦ other ∙ ground arith
  ]
]

ports-apart :
    (w : Winsock) (v : IsWinsock w) (x y : ℕ)
    → x < 65536
    → y < 65536
    → (w.ntohs x == w.ntohs y) ≡ (x == y)
ports-apart w v x y p q = elim (ℕ_discrete x y) [
  | yes e ↦ rw e (ground arith)
  | no d ↦ ground (arith, v.port_apart x y p q)
]

-- On a socket library as documented and fields of 16 and 32 bits: two live addresses are equal just
-- when their ports and their IP addresses are, whatever their families.
pub equals_lem :
    (w : Winsock) (v : IsWinsock w) (h : Addresses) (a b : ℕ) {x y : SockAddr}
    → 0 < a
    → 0 < b
    → h.cells a ≡ some x
    → h.cells b ≡ some y
    → InRange x
    → InRange y
    → equals w a b h ≡ ok (x.sin_port == y.sin_port && x.s_addr == y.s_addr)
unfolding equals
equals_lem w v h a b {x} {y} p q e f (r0, r1) (t0, t1) =
    let found_a = deref-found h.cells a p e in
    let found_b = deref-found h.cells b q f in
    rw
      (
        found_a,
        found_b,
        ports-apart w v x.sin_port y.sin_port r0 t0,
        str_eq-inet_ntoa w v x.s_addr y.s_addr r1 t1,
      )
      (ap ok (if-same (x.sin_port == y.sin_port && x.s_addr == y.s_addr)))

-- Copy, write through a reference into the original or into the copy, and look at both.
abbrev pub copy_then_write : Bool → ℕ → SockAddr → Addresses → Outcome (SockAddr × SockAddr)
copy_then_write into_copy a y h = do
  made ← copy a h
  h' ← write_sockaddr (if into_copy then made.0 else a) y made.1
  s ← get_sockaddr a h'
  t ← get_sockaddr made.0 h'
  ok (s, t)

-- A copy of a live address has what the address had; a later write through a reference into the
-- original reaches the original and not the copy, and one into the copy does not reach the original.
pub copy-write :
    (h : Addresses) (a : ℕ) {x : SockAddr} (y : SockAddr)
    → 0 < a
    → a < h.next
    → h.cells a ≡ some x
    → (copy_then_write false a y h ≡ ok (y, x)) × (copy_then_write true a y h ≡ ok (x, y))
unfolding copy write_sockaddr get_sockaddr deref
copy-write h a y p l e = ground arith
