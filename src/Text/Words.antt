-- ===== src/Text/Words.antt =====
-- Texts put together: what the pieces say of the whole.
use boring.Prelude.{ℕ, ◌≡◌, ap, arith, false, List, [], ◌∷◌, ◌++◌}
use boring.Text.Trim.{has, blanks}
use boring.Text.TrimLaws.{StartsOutside, EndsOutside, is_nil}
use boring.Text.SplitLaws.{fields, non_empty, pieces-append, pieces-last}

pub has-append :
    (c : ℕ) (xs ys : List ℕ) → has c xs ≡ false → has c ys ≡ false → has c (xs ++ ys) ≡ false
has-append c [] ys h k = k
has-append c (x ∷ xs) ys h k = ground (arith, has-append c xs ys)

pub EndsOutside-append :
    (xs : List ℕ) (d : ℕ) (ys : List ℕ)
    → EndsOutside blanks (d ∷ ys)
    → EndsOutside blanks (xs ++ d ∷ ys)
EndsOutside-append [] d ys h = h
EndsOutside-append (x ∷ []) d ys h = h
EndsOutside-append (x ∷ y ∷ xs) d ys h = EndsOutside-append (y ∷ xs) d ys h

pub starts-append :
    (key rest : List ℕ)
    → is_nil key ≡ false
    → StartsOutside blanks key
    → StartsOutside blanks (key ++ rest)
starts-append [] rest h s = cc
starts-append (c ∷ key) rest h s = s

pub EndsOutside-cons :
    (d : ℕ) (v : List ℕ) → is_nil v ≡ false → EndsOutside blanks v → EndsOutside blanks (d ∷ v)
EndsOutside-cons d [] h k = cc
EndsOutside-cons d (c ∷ v) h k = k

pub fields-append :
    (delim : ℕ) (p rest : List ℕ)
    → is_nil p ≡ false
    → has delim p ≡ false
    → fields delim (p ++ delim ∷ rest) ≡ p ∷ fields delim rest
unfolding non_empty
fields-append delim [] rest n h = cc
fields-append delim (c ∷ p) rest n h = ap non_empty (pieces-append delim (c ∷ p) rest h)

pub fields-last :
    (delim : ℕ) (p : List ℕ) → is_nil p ≡ false → has delim p ≡ false → fields delim p ≡ p ∷ []
unfolding non_empty
fields-last delim [] n h = cc
fields-last delim (c ∷ p) n h = ap non_empty (pieces-last delim (c ∷ p) h)
