-- ===== src/South/DeviceFrames.antt =====
-- Parts of a device's tree of monitors and targets in libsouth_interface/south.cpp that a change of
-- memory elsewhere leaves as they are.
use boring.Prelude.{
  ℕ, ◌≡◌, refl, ◌∙◌, sym, ap, arith, Bool, true, false, [], ◌∷◌, Option, none, some, ◌==◌,
  if◌then◌else◌, inl, inr, Bool-cases,
}
use mathlib.Core.Path.{subst}
use boring.Dict.{str_eq}
use boring.South.{Str, Target, Monitor, Heap}
use boring.South.Chain.{Nodes, Chain}
use boring.South.Destruction.{is_node}
use boring.South.DeviceDestruction.{Tree, is_monitor, is_target, Apart, Holds}

-- The tree without the first monitor under a label.
abbrev pub is_labelled : Str → Monitor → Bool
is_labelled label m = elim m.label [ none ↦ false | some name ↦ str_eq name label ]

unfoldable pub without : Str → Tree → Tree
without label [] = []
without label ((a, m, ts) ∷ ms) = if is_labelled label m then ms else (a, m, ts) ∷ without label ms

pub without-target :
    (label : Str) (x : ℕ) (ms : Tree)
    → is_target x ms ≡ false
    → is_target x (without label ms) ≡ false
unfolding without
without-target label x [] h = refl
without-target label x ((a, m, ts) ∷ ms) h = ground (arith, without-target label x ms)

pub without-monitor :
    (label : Str) (x : ℕ) (ms : Tree)
    → is_monitor x ms ≡ false
    → is_monitor x (without label ms) ≡ false
unfolding without
without-monitor label x [] h = refl
without-monitor label x ((a, m, ts) ∷ ms) h = ground (arith, without-monitor label x ms)

pub Apart-without :
    (label : Str) (ts : Nodes) (ms : Tree) → Apart ts ms → Apart ts (without label ms)
Apart-without label [] ms h = tt
Apart-without label ((a, t) ∷ ts) ms (h, k) =
    (without-target label a ms h, Apart-without label ts ms k)

pub Apart-tail :
    (ts : Nodes) (a : ℕ) (m : Monitor) (us : Nodes) (ms : Tree)
    → Apart ts ((a, m, us) ∷ ms)
    → Apart ts ms
Apart-tail [] a m us ms h = tt
Apart-tail ((b, t) ∷ ts) a m us ms (h, k) = (ground (arith, h), Apart-tail ts a m us ms k)

pub Apart-empty : (ts : Nodes) → Apart ts []
Apart-empty [] = tt
Apart-empty ((a, t) ∷ ts) = (refl, Apart-empty ts)

pub Apart-sym :
    (ts : Nodes) (ms : Tree) (x : ℕ) → Apart ts ms → is_target x ms ≡ true → is_node x ts ≡ false
Apart-sym [] ms x h e = refl
Apart-sym ((a, t) ∷ ts) ms x (h, k) e = elim (Bool-cases (x == a)) [
  | inl s ↦ let same : x ≡ a = ground arith in cc (e, h, ap (λ y. is_target y ms) same)
  | inr n ↦ rw n (Apart-sym ts ms x k e)
]

-- A list whose cells are unchanged.
pub Chain-frame :
    (cells cells' : ℕ → Option Target) (lo hi : ℕ) (ts : Nodes)
    → ((x : ℕ) → is_node x ts ≡ true → cells' x ≡ cells x)
    → Chain cells lo hi ts
    → Chain cells' lo hi ts
Chain-frame cells cells' lo hi [] same c = tt
Chain-frame cells cells' lo hi ((a, t) ∷ ts) same (l, u, e, c) = (
  l,
  u,
  same a (ground arith) ∙ e,
  Chain-frame cells cells' a hi ts (λ x h. same x (ground (arith, h))) c,
)

-- A list apart from a tree, when only the targets of the tree change.
pub Chain-Apart :
    (cells cells' : ℕ → Option Target) (lo hi : ℕ) (ts : Nodes) (ms : Tree)
    → ((x : ℕ) → is_target x ms ≡ false → cells' x ≡ cells x)
    → Apart ts ms
    → Chain cells lo hi ts
    → Chain cells' lo hi ts
Chain-Apart cells cells' lo hi [] ms same h c = tt
Chain-Apart cells cells' lo hi ((a, t) ∷ ts) ms same (h, k) (l, u, e, c) =
    (l, u, same a h ∙ e, Chain-Apart cells cells' a hi ts ms same k c)

-- A tree whose cells are unchanged.
pub Holds-frame :
    (h h' : Heap) (ms : Tree)
    → h'.request ≡ h.request
    → ((x : ℕ) → is_monitor x ms ≡ true → h'.monitors x ≡ h.monitors x)
    → ((x : ℕ) → is_target x ms ≡ true → h'.targets x ≡ h.targets x)
    → Holds h ms
    → Holds h' ms
Holds-frame h h' [] r sm st v = tt
Holds-frame h h' ((a, m, ts) ∷ ms) r sm st (p, e, first, c, lone, apart, v) = (
  p,
  sm a (ground arith) ∙ e,
  first,
  subst (λ k. Chain h'.targets 0 k ts) (sym r)
      (Chain-frame h.targets h'.targets 0 h.request ts (λ x n. st x (ground (arith, n))) c),
  lone,
  apart,
  Holds-frame h h' ms r (λ x n. sm x (ground (arith, n))) (λ x n. st x (ground (arith, n))) v,
)
