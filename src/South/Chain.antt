-- ===== src/South/Chain.antt =====
-- A list of `target` cells in memory against a list of its nodes, in the order of `_next`. A cell is
-- linked when it is made; where each got a new address, the addresses grow along the list.
use boring.Prelude.{
  ℕ, suc, ◌<◌, ◌≤◌, ◌≡◌, ◌≢◌, ◌⊎◌, refl, ◌∙◌, ap, sym, arith, inl, inr, Bool, true, false, List, [],
  ◌∷◌, ◌++◌, Option, none, some, if◌then◌else◌, length, Bool-cases,
}
use boring.Dict.{str_eq}
use boring.South.{Str, Target, update}

abbrev pub Nodes : Type 0
Nodes = List (ℕ × Target)

abbrev pub head_addr : Nodes → ℕ
head_addr [] = 0
head_addr ((a, t) ∷ ts) = a

abbrev pub last_addr : ℕ → Nodes → ℕ
last_addr a [] = a
last_addr a ((b, t) ∷ ts) = last_addr b ts

-- `a` is a cell with the contents of `t`, linked to `next`.
abbrev pub Cell : (ℕ → Option Target) → ℕ → Target → ℕ → Type 0
Cell cells a t next = cells a ≡ some (record t { next = next })

-- The nodes are the cells from an address above `lo` on, all of them below `hi`.
abbrev pub Chain : (ℕ → Option Target) → ℕ → ℕ → Nodes → Type 0
Chain cells lo hi [] = Unit
Chain cells lo hi ((a, t) ∷ ts) =
    (lo < a) × (a < hi) × Cell cells a t (head_addr ts) × Chain cells a hi ts

module _ (cells : ℕ → Option Target) where
  pub update_same : (a : ℕ) (o : Option Target) → update cells a o a ≡ o
  update_same a o = ground arith

  pub update_other : (a x : ℕ) (o : Option Target) → x ≢ a → update cells a o x ≡ cells x
  update_other a x o h = ground arith

  -- A cell at or below the lower end is not one of the list.
  pub Chain-update_below :
      (lo hi a : ℕ) (o : Option Target) (ts : Nodes)
      → a ≤ lo
      → Chain cells lo hi ts
      → Chain (update cells a o) lo hi ts
  Chain-update_below lo hi a o [] h c = tt
  Chain-update_below lo hi a o ((b, t) ∷ ts) h (l, u, e, c) =
      (l, u, update_other a b o (omega arith) ∙ e, Chain-update_below b hi a o ts (omega arith) c)

  -- Nor is one at or above the upper end, which may be moved up.
  pub Chain-update_above :
      (lo hi hi' a : ℕ) (o : Option Target) (ts : Nodes)
      → hi ≤ a
      → hi ≤ hi'
      → Chain cells lo hi ts
      → Chain (update cells a o) lo hi' ts
  Chain-update_above lo hi hi' a o [] h k c = tt
  Chain-update_above lo hi hi' a o ((b, t) ∷ ts) h k (l, u, e, c) = (
    l,
    omega arith,
    update_other a b o (omega arith) ∙ e,
    Chain-update_above b hi hi' a o ts h k c,
  )

  pub last-Chain : (lo hi : ℕ) (ts : Nodes) → Chain cells lo hi ts → lo ≤ last_addr lo ts
  last-Chain lo hi [] c = omega arith
  last-Chain lo hi ((b, t) ∷ ts) (l, u, e, c) =
      let r : b ≤ last_addr b ts = last-Chain b hi ts c in omega arith

  pub Chain-lower :
      (lo lo' hi : ℕ) (ts : Nodes) → lo' ≤ lo → Chain cells lo hi ts → Chain cells lo' hi ts
  Chain-lower lo lo' hi [] h c = tt
  Chain-lower lo lo' hi ((b, t) ∷ ts) h (l, u, e, c) = (omega arith, u, e, c)

pub Chain-upper :
    (cells : ℕ → Option Target) (lo hi hi' : ℕ) (ts : Nodes)
    → hi ≤ hi'
    → Chain cells lo hi ts
    → Chain cells lo hi' ts
Chain-upper cells lo hi hi' [] h c = tt
Chain-upper cells lo hi hi' ((b, t) ∷ ts) h (l, u, e, c) =
    (l, omega arith, e, Chain-upper cells b hi hi' ts h c)

abbrev pub Last : (ℕ → Option Target) → ℕ → Nodes → Target → Type 0
Last cells a ts t = cells (last_addr a ts) ≡ some t

relink :
    (n : ℕ) {x y : Target}
    → some x ≡ some y
    → some (record x { next = n }) ≡ some (record y { next = n })
relink n e = ap (λ o. elim o [ none ↦ none | some x ↦ some (record x { next = n }) ]) e

-- Linking a cell after the last one.
pub Chain-append :
    (cells : ℕ → Option Target) (lo hi n a : ℕ) (t0 : Target) (ts : Nodes) (t last : Target)
    → hi ≤ n
    → cells n ≡ some (record t { next = 0 })
    → Chain cells lo hi ((a, t0) ∷ ts)
    → Last cells a ts last
    → Chain
        (update cells (last_addr a ts) (some (record last { next = n })))
        lo
        (suc n)
        ((a, t0) ∷ (ts ++ (n, t) ∷ []))
Chain-append cells lo hi n a t0 [] t last h new (l, u, e, c) at_last = (
  l,
  omega arith,
  update_same cells a (some (record last { next = n })) ∙ relink n (sym at_last ∙ e),
  (
    omega arith,
    omega arith,
    update_other cells a n (some (record last { next = n })) (omega arith) ∙ new,
    tt,
  ),
)
Chain-append cells lo hi n a t0 ((b, t1) ∷ ts) t last h new (l, u, e, (l1, u1, e1, c1)) at_last =
    let before : b ≤ last_addr b ts = last-Chain cells b hi ts c1 in
    (
      l,
      omega arith,
      update_other cells (last_addr b ts) a (some (record last { next = n })) (omega arith) ∙ e,
      Chain-append cells a hi n b t1 ts t last h new (l1, u1, e1, c1) at_last,
    )

-- The nodes without the first one under a label.
abbrev pub has_label : Str → Target → Bool
has_label label t = elim t.label [ none ↦ false | some name ↦ str_eq name label ]

unfoldable pub removed : Str → Nodes → Nodes
removed label [] = []
removed label ((a, t) ∷ ts) = if has_label label t then ts else (a, t) ∷ removed label ts

unfoldable pub holds_label : Str → Nodes → Bool
holds_label label [] = false
holds_label label ((a, t) ∷ ts) = if has_label label t then true else holds_label label ts

-- Its address.
unfoldable pub removed_addr : Str → Nodes → Option ℕ
removed_addr label [] = none
removed_addr label ((a, t) ∷ ts) = if has_label label t then some a else removed_addr label ts

-- No node has a null label.
abbrev pub Named : Nodes → Type 0
Named [] = Unit
Named ((a, t) ∷ ts) = ((name : Str) × (t.label ≡ some name)) × Named ts

-- Linking the cell before it to the one behind it, and freeing it, as `monitor_del_target` does.
abbrev pub unlinked : (ℕ → Option Target) → ℕ → Target → ℕ → Target → ℕ → Option Target
unlinked cells p before a t =
    update
      (update (update cells p (some (record before { next = t.next }))) a
        (some (record t { next = 0 })))
      a none

pub length-removed :
    (label : Str) (ts : Nodes)
    → ((holds_label label ts ≡ true) × (suc (length (removed label ts)) ≡ length ts))
      ⊎ ((holds_label label ts ≡ false) × (length (removed label ts) ≡ length ts))
unfolding removed holds_label
length-removed label [] = inr (refl, refl)
length-removed label ((a, t) ∷ ts) = elim (Bool-cases (has_label label t)) [
  | inl same ↦ rw same (inl (refl, refl))
  | inr other ↦ rw other (elim (length-removed label ts) [
    | inl (h, e) ↦ inl (h, ap suc e)
    | inr (h, e) ↦ inr (h, ap suc e)
  ])
]

last_tail :
    (label : Str) (a b : ℕ) (t : Target) (ts : Nodes)
    → has_label label t ≡ true
    → removed_addr label ((b, t) ∷ ts) ≢ some (last_addr b ts)
    → last_addr a ts ≡ last_addr b ts
unfolding removed_addr
last_tail label a b t [] same h = absurd (h (rw same refl))
last_tail label a b t ((c, u) ∷ ts) same h = refl

-- Unless the node taken out is the last one, the last one stays the last.
pub last-removed :
    (label : Str) (a : ℕ) (ts : Nodes)
    → removed_addr label ts ≢ some (last_addr a ts)
    → last_addr a (removed label ts) ≡ last_addr a ts
unfolding removed removed_addr
last-removed label a [] h = refl
last-removed label a ((b, t) ∷ ts) h = elim (Bool-cases (has_label label t)) [
  | inl same ↦ rw same (last_tail label a b t ts same h)
  | inr other ↦ rw other (last-removed label b ts (rw other at h))
]
