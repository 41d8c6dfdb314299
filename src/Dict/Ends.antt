-- ===== src/Dict/Ends.antt =====
-- Maps that grow at their end, as when pairs are put in in ascending order of their keys.
use boring.Prelude.{ℕ, ◌≡◌, refl, ap, arith, true, false, none, some, List, [], ◌∷◌, ◌++◌}
use boring.Dict.{Dict, str_lt, find, assign}
use boring.Dict.Order.{str_eq_refl, str_lt_trans, str_lt_irrefl, str_lt→ne}
use boring.Dict.Laws.{Above, IsSorted}

str_lt_asym : (i j : List ℕ) → str_lt i j ≡ true → str_lt j i ≡ false
str_lt_asym i j h = ground (arith, str_lt_trans i j i, str_lt_irrefl i)

module _ {ℓ} {V : Type ℓ} where
  -- The keys of `m` are all less than `k`.
  abbrev pub Below : List ℕ → Dict V → Type 0
  Below k [] = Unit
  Below k ((j, w) ∷ m) = (str_lt j k ≡ true) × Below k m

  pub find-Below : (k : List ℕ) (m : Dict V) → Below k m → find k m ≡ none
  unfolding find
  find-Below k [] b = refl
  find-Below k ((j, w) ∷ m) (l, b) = rw (str_lt→ne j k l) (find-Below k m b)

  pub find-last : (k : List ℕ) (v : V) (m : Dict V) → Below k m → find k (m ++ (k, v) ∷ []) ≡ some v
  unfolding find
  find-last k v [] b = rw (str_eq_refl k) refl
  find-last k v ((j, w) ∷ m) (l, b) = rw (str_lt→ne j k l) (find-last k v m b)

  pub assign-Below : (k : List ℕ) (v : V) (m : Dict V) → Below k m → assign k v m ≡ m ++ (k, v) ∷ []
  unfolding assign
  assign-Below k v [] b = refl
  assign-Below k v ((j, w) ∷ m) (l, b) =
      rw (str_lt→ne j k l, str_lt_asym j k l) (ap (λ n. (j, w) ∷ n) (assign-Below k v m b))

  pub assign-last :
      (k : List ℕ) (v u : V) (m : Dict V)
      → Below k m
      → assign k v (m ++ (k, u) ∷ []) ≡ m ++ (k, v) ∷ []
  unfolding assign
  assign-last k v u [] b = rw (str_eq_refl k) refl
  assign-last k v u ((j, w) ∷ m) (l, b) =
      rw (str_lt→ne j k l, str_lt_asym j k l) (ap (λ n. (j, w) ∷ n) (assign-last k v u m b))

  Above-middle :
      (i k : List ℕ) (v : V) (m rest : Dict V) → Above i (m ++ (k, v) ∷ rest) → str_lt i k ≡ true
  Above-middle i k v [] rest (l, a) = l
  Above-middle i k v ((j, w) ∷ m) rest (l, a) = Above-middle i k v m rest a

  -- In a sorted map the keys before a pair are less than its key.
  pub IsSorted-Below :
      (k : List ℕ) (v : V) (m rest : Dict V) → IsSorted (m ++ (k, v) ∷ rest) → Below k m
  IsSorted-Below k v [] rest s = tt
  IsSorted-Below k v ((j, w) ∷ m) rest (a, s) =
      (Above-middle j k v m rest a, IsSorted-Below k v m rest s)
