-- ===== src/Dict/Laws.antt =====
-- Look-ups after changes of a map, and the order of its pairs.
use boring.Prelude.{
  ℕ, ◌≡◌, refl, ◌∙◌, arith, true, none, some, List, [], ◌∷◌, if◌then◌else◌, inl, inr, Bool-cases,
}
use boring.Dict.{Dict, str_eq, str_lt, find, assign, erase}
use boring.Dict.Order.{str_eq_iff, str_eq_sym, str_lt_trans, str_lt_total, str_lt→ne}

module _ {ℓ} {V : Type ℓ} where
  pub find-assign :
      (k j : List ℕ) (v : V) (m : Dict V)
      → find j (assign k v m) ≡ (if str_eq k j then some v else find j m)
  unfolding find assign
  find-assign k j v [] = refl
  find-assign k j v ((i, w) ∷ m) =
      ground (arith, str_eq_iff k j, str_eq_iff i k, str_eq_iff i j, find-assign k j v m)

  -- The keys of `m` are all greater than `k`.
  abbrev pub Above : List ℕ → Dict V → Type 0
  Above k [] = Unit
  Above k ((j, w) ∷ m) = (str_lt k j ≡ true) × Above k m

  -- The keys ascend, so no two are equal.
  abbrev pub IsSorted : Dict V → Type 0
  IsSorted [] = Unit
  IsSorted ((j, w) ∷ m) = Above j m × IsSorted m

  Above-trans : (i j : List ℕ) (m : Dict V) → str_lt i j ≡ true → Above j m → Above i m
  Above-trans i j [] h a = tt
  Above-trans i j ((k, w) ∷ m) h (l, a) = (str_lt_trans i j k h l, Above-trans i j m h a)

  Above-assign :
      (i k : List ℕ) (v : V) (m : Dict V) → str_lt i k ≡ true → Above i m → Above i (assign k v m)
  unfolding assign
  Above-assign i k v [] h a = (h, tt)
  Above-assign i k v ((j, w) ∷ m) h (l, a) = elim (Bool-cases (str_eq j k)) [
    | inl e ↦ rw e (l, a)
    | inr n ↦ elim (Bool-cases (str_lt k j)) [
      | inl before ↦ rw (n, before) (h, (l, a))
      | inr after ↦ rw (n, after) (l, Above-assign i k v m h a)
    ]
  ]

  pub assign-IsSorted : (k : List ℕ) (v : V) (m : Dict V) → IsSorted m → IsSorted (assign k v m)
  unfolding assign
  assign-IsSorted k v [] s = (tt, tt)
  assign-IsSorted k v ((j, w) ∷ m) (a, s) = elim (Bool-cases (str_eq j k)) [
    | inl e ↦ rw e (a, s)
    | inr n ↦ elim (Bool-cases (str_lt k j)) [
      | inl before ↦ rw (n, before) ((before, Above-trans k j m before a), (a, s))
      | inr after ↦
          let behind : str_lt j k ≡ true = str_lt_total k j (str_eq_sym k j ∙ n) after in
          rw (n, after) (Above-assign j k v m behind a, assign-IsSorted k v m s)
    ]
  ]

  Above-erase : (i k : List ℕ) (m : Dict V) → Above i m → Above i (erase k m)
  unfolding erase
  Above-erase i k [] a = tt
  Above-erase i k ((j, w) ∷ m) (l, a) = elim (Bool-cases (str_eq j k)) [
    | inl e ↦ rw e a
    | inr n ↦ rw n (l, Above-erase i k m a)
  ]

  pub erase-IsSorted : (k : List ℕ) (m : Dict V) → IsSorted m → IsSorted (erase k m)
  unfolding erase
  erase-IsSorted k [] s = tt
  erase-IsSorted k ((j, w) ∷ m) (a, s) = elim (Bool-cases (str_eq j k)) [
    | inl e ↦ rw e s
    | inr n ↦ rw n (Above-erase j k m a, erase-IsSorted k m s)
  ]

  find-Above : (k : List ℕ) (m : Dict V) → Above k m → find k m ≡ none
  unfolding find
  find-Above k [] a = refl
  find-Above k ((j, w) ∷ m) (l, a) = rw (str_eq_sym j k ∙ str_lt→ne k j l) (find-Above k m a)

  pub find-erase :
      (k j : List ℕ) (m : Dict V)
      → IsSorted m
      → find j (erase k m) ≡ (if str_eq k j then none else find j m)
  unfolding find erase
  find-erase k j [] s = ground arith
  find-erase k j ((i, w) ∷ m) (a, s) =
      ground (
        arith,
        str_eq_iff k j,
        str_eq_iff i k,
        str_eq_iff i j,
        find-erase k j m s,
        find-Above i m a,
      )
