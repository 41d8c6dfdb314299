-- ===== src/Pool/Laws.antt =====
-- Sums over the threads of a pool.
use boring.Prelude.{ℕ, ◌+◌, ◌*◌, ◌≡◌, ◌≤◌, List, [], ◌∷◌, ◌++◌, length, length-append, arith}
use boring.Pool.{
  Phase, testing, waiting, holding, calling, finished, Main, serving, posting, joined,
}

abbrev pub total : (Phase → ℕ) → List Phase → ℕ
total w [] = 0
total w (p ∷ ps) = w p + total w ps

pub total-append :
    (w : Phase → ℕ) (xs ys : List Phase) → total w (xs ++ ys) ≡ total w xs + total w ys
total-append w [] ys = omega arith
total-append w (x ∷ xs) ys = omega (arith, total-append w xs ys)

-- The steps that a thread can make at most, once the event is set.
abbrev pub weight : Phase → ℕ
weight testing = 1
weight waiting = 4
weight (holding p) = 3
weight (calling p) = 2
weight finished = 0

abbrev pub is_waiting : Phase → ℕ
is_waiting waiting = 1
is_waiting _ = 0

-- The packets that the main thread has yet to post.
abbrev pub left : Main → ℕ
left serving = 0
left (posting k) = k
left joined = 0

abbrev pub main_weight : Main → ℕ
main_weight serving = 0
main_weight (posting k) = k + 1
main_weight joined = 0

pub total-weight-le : (ps : List Phase) → total weight ps ≤ 4 * length ps
total-weight-le [] = omega arith
total-weight-le (p ∷ ps) = ground (arith, total-weight-le ps)

pub total-waiting-le : (ps : List Phase) → total is_waiting ps ≤ length ps
total-waiting-le [] = omega arith
total-waiting-le (p ∷ ps) = ground (arith, total-waiting-le ps)

-- One thread goes from `p` to `p'`.
pub length-exchange :
    (ps xs ys : List Phase) (p p' : Phase) → ps ≡ xs ++ p ∷ ys → length (xs ++ p' ∷ ys) ≡ length ps
length-exchange ps xs ys p p' e =
    rw e (omega (arith, length-append xs (p ∷ ys), length-append xs (p' ∷ ys)))

pub total-exchange :
    (w : Phase → ℕ) (ps xs ys : List Phase) (p p' : Phase)
    → ps ≡ xs ++ p ∷ ys
    → total w (xs ++ p' ∷ ys) + w p ≡ total w ps + w p'
total-exchange w ps xs ys p p' e =
    rw e (omega (arith, total-append w xs (p ∷ ys), total-append w xs (p' ∷ ys)))
