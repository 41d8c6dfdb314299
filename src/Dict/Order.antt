-- ===== src/Dict/Order.antt =====
-- The order of `std::string` keys: equality is equality of texts, and `<` is a strict linear order.
use boring.Prelude.{ℕ, ◌≡◌, refl, ap₂, arith, true, false, List, [], ◌∷◌, ◌↔◌}
use boring.Dict.{str_eq, str_lt}

pub str_eq→eq : (xs ys : List ℕ) → str_eq xs ys ≡ true → xs ≡ ys
unfolding str_eq
str_eq→eq [] [] h = refl
str_eq→eq [] (y ∷ ys) h = cc
str_eq→eq (x ∷ xs) [] h = cc
str_eq→eq (x ∷ xs) (y ∷ ys) h = ap₂ ◌∷◌ (ground arith) (str_eq→eq xs ys (ground arith))

pub str_eq_refl : (xs : List ℕ) → str_eq xs xs ≡ true
unfolding str_eq
str_eq_refl [] = refl
str_eq_refl (x ∷ xs) = ground (arith, str_eq_refl xs)

pub str_eq_iff : (xs ys : List ℕ) → (str_eq xs ys ≡ true) ↔ (xs ≡ ys)
str_eq_iff xs ys = (str_eq→eq xs ys, λ e. rw e (str_eq_refl ys))

pub str_eq_sym : (xs ys : List ℕ) → str_eq xs ys ≡ str_eq ys xs
unfolding str_eq
str_eq_sym [] [] = refl
str_eq_sym [] (y ∷ ys) = refl
str_eq_sym (x ∷ xs) [] = refl
str_eq_sym (x ∷ xs) (y ∷ ys) = ground (arith, str_eq_sym xs ys)

pub str_lt_trans :
    (xs ys zs : List ℕ) → str_lt xs ys ≡ true → str_lt ys zs ≡ true → str_lt xs zs ≡ true
unfolding str_lt
str_lt_trans [] [] zs h k = cc
str_lt_trans [] (y ∷ ys) [] h k = cc
str_lt_trans [] (y ∷ ys) (z ∷ zs) h k = refl
str_lt_trans (x ∷ xs) [] zs h k = cc
str_lt_trans (x ∷ xs) (y ∷ ys) [] h k = cc
str_lt_trans (x ∷ xs) (y ∷ ys) (z ∷ zs) h k = ground (arith, str_lt_trans xs ys zs)

pub str_lt_irrefl : (xs : List ℕ) → str_lt xs xs ≡ false
unfolding str_lt
str_lt_irrefl [] = refl
str_lt_irrefl (x ∷ xs) = ground (arith, str_lt_irrefl xs)

-- Of two different texts one is before the other.
pub str_lt_total :
    (xs ys : List ℕ) → str_eq xs ys ≡ false → str_lt xs ys ≡ false → str_lt ys xs ≡ true
unfolding str_lt str_eq
str_lt_total [] [] h k = cc
str_lt_total [] (y ∷ ys) h k = cc
str_lt_total (x ∷ xs) [] h k = refl
str_lt_total (x ∷ xs) (y ∷ ys) h k = ground (arith, str_lt_total xs ys)

pub str_lt→ne : (xs ys : List ℕ) → str_lt xs ys ≡ true → str_eq xs ys ≡ false
unfolding str_lt str_eq
str_lt→ne [] [] h = cc
str_lt→ne [] (y ∷ ys) h = refl
str_lt→ne (x ∷ xs) [] h = refl
str_lt→ne (x ∷ xs) (y ∷ ys) h = ground (arith, str_lt→ne xs ys)
