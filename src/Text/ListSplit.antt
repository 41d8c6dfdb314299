-- ===== src/Text/ListSplit.antt =====
-- `str2list` of base/stringutil.cpp, which cuts a copy of its string in place.
use mathlib.Core.List.{append_assoc, append-nil}
use boring.Prelude.{
  ℕ, zero, suc, ◌+◌, ◌≤◌, ◌<◌, ◌≡◌, refl, sym, ap, ◌∙◌, arith, some, true, false, not, ◌&&◌, List,
  [], ◌∷◌, ◌++◌, ltb, ◌==◌, ==_iff, if◌then◌else◌, inl, inr, Bool-cases, length, drop, get_elem?,
  length-append, drop-append, get_elem?-append,
}
use boring.Outcome.{ok}
use boring.Text.Trim.{npos, has}
use boring.Text.Words.{has-append}
use boring.Text.Split.{c_str, set, push_if, str2list_loop, str2list, str2vector}
use boring.Text.SplitLaws.{pieces, non_empty, fields, pieces-append, pieces-last, str2vector-fields}

-- A string as its C text: up to the first zero byte.
unfoldable pub until_zero : List ℕ → List ℕ
until_zero [] = []
until_zero (c ∷ cs) = if c == 0 then [] else c ∷ until_zero cs

c_str-append : (s rest : List ℕ) → has 0 s ≡ false → c_str (s ++ 0 ∷ rest) ≡ ok s
unfolding c_str
c_str-append [] rest h = refl
c_str-append (c ∷ s) rest h =
    let e : (c == 0) ≡ false = ground arith in
    rw (e, c_str) (rw (c_str-append s rest (ground arith)))

set-append :
    (xs : List ℕ) (i v y : ℕ) (ys : List ℕ) → i ≡ length xs → set (xs ++ y ∷ ys) i v ≡ xs ++ v ∷ ys
set-append [] zero v y ys h = refl
set-append [] (suc i) v y ys h = absurd (omega arith)
set-append (x ∷ xs) zero v y ys h = absurd (omega arith)
set-append (x ∷ xs) (suc i) v y ys h = ap (◌∷◌ x) (set-append xs i v y ys (omega arith))

-- The buffer `front ++ cur ++ rest`: `val` stands at `cur` and `pos` at `rest`.
module _ (delim : ℕ) where
  record At (src : List ℕ) (pos val : ℕ) (front cur rest : List ℕ) : Type 0 where
    layout : src ≡ front ++ (cur ++ rest)
    val_at : val ≡ length front
    pos_at : pos ≡ length front + length cur
    no_zero : has 0 cur ≡ false
    no_delim : has delim cur ≡ false

  push_non_empty :
      (s : List ℕ) (out ps : List (List ℕ))
      → push_if (ltb 0 (length s)) s out ++ non_empty ps ≡ out ++ non_empty (s ∷ ps)
  unfolding non_empty
  push_non_empty [] out ps = refl
  push_non_empty (c ∷ s) out ps =
      let on : ltb 0 (length (c ∷ s)) ≡ true = ground arith in
      rw on (append_assoc out ((c ∷ s) ∷ []) (non_empty ps))

  last_push :
      (val pos : ℕ) (s : List ℕ) (out : List (List ℕ))
      → pos ≡ val + length s
      → has delim s ≡ false
      → push_if (not (val == pos) && ltb 0 (length s)) s out ≡ out ++ fields delim (s ++ [])
  unfolding non_empty
  last_push val pos s out e h =
      let b : (not (val == pos) && ltb 0 (length s)) ≡ ltb 0 (length s) = ground arith in
      rw (append-nil s, pieces-last delim s h, b)
        (sym (append-nil (push_if (ltb 0 (length s)) s out)) ∙ push_non_empty s out [])

  next_push :
      (c : ℕ) (s rest : List ℕ) (out : List (List ℕ))
      → (c == delim) ≡ true
      → has delim s ≡ false
      → push_if (ltb 0 (length s)) s out ++ fields delim rest ≡ out ++ fields delim (s ++ c ∷ rest)
  next_push c s rest out d h =
      let split : pieces delim (s ++ c ∷ rest) ≡ s ∷ pieces delim rest =
        ap (λ (b : ℕ). pieces delim (s ++ b ∷ rest)) ((==_iff c delim).0 d)
        ∙ pieces-append delim s rest h in
      push_non_empty s out (pieces delim rest)
      ∙ ap (λ (ps : List (List ℕ)). out ++ non_empty ps) (sym split)

  module _ {src : List ℕ} {pos val : ℕ} {front cur : List ℕ} (c : ℕ) (cs : List ℕ)
      (a : At src pos val front cur (c ∷ cs)) where
    current : get_elem? src pos ≡ some c
    current =
        ap (λ (xs : List ℕ). get_elem? xs pos) (a.layout ∙ sym (append_assoc front cur (c ∷ cs)))
        ∙ get_elem?-append (front ++ cur) pos c cs
            (omega (arith, a.pos_at, length-append front cur))

    -- With a zero written over `c` the C string at `val` is `cur`.
    cut : set src pos 0 ≡ front ++ (cur ++ 0 ∷ cs)
    cut =
        ap (λ (xs : List ℕ). set xs pos 0) (a.layout ∙ sym (append_assoc front cur (c ∷ cs)))
        ∙ set-append (front ++ cur) pos 0 c cs (omega (arith, a.pos_at, length-append front cur))
        ∙ append_assoc front cur (0 ∷ cs)

    piece : (xs : List ℕ) → xs ≡ front ++ (cur ++ 0 ∷ cs) → c_str (drop val xs) ≡ ok cur
    piece xs e =
        ap (λ (ys : List ℕ). c_str (drop val ys)) e
        ∙ ap c_str (drop-append val front (cur ++ 0 ∷ cs) a.val_at)
        ∙ c_str-append cur cs a.no_zero

    after_cut : At (set src pos 0) (pos + 1) (pos + 1) (front ++ (cur ++ 0 ∷ [])) [] cs
    after_cut = record {
      layout = simp append_assoc cut;
      val_at =
          omega (arith, a.pos_at, length-append front (cur ++ 0 ∷ []), length-append cur (0 ∷ []));
      pos_at =
          omega (arith, a.pos_at, length-append front (cur ++ 0 ∷ []), length-append cur (0 ∷ []));
      no_zero = refl;
      no_delim = refl;
    }

    after_step :
        (c == 0) ≡ false → (c == delim) ≡ false → At src (pos + 1) val front (cur ++ c ∷ []) cs
    after_step z d = record {
      layout = simp append_assoc a.layout;
      val_at = a.val_at;
      pos_at = omega (arith, a.pos_at, length-append cur (c ∷ []));
      no_zero = has-append 0 cur (c ∷ []) a.no_zero (ground arith);
      no_delim = has-append delim cur (c ∷ []) a.no_delim (ground arith);
    }

    -- At the terminator: what is left of the string is pushed, unless it is empty.
    at_end :
        (fuel : ℕ) (out : List (List ℕ))
        → (c == 0) ≡ true
        → str2list_loop (suc fuel) src delim pos val out ≡ ok (out ++ fields delim (cur ++ []))
    unfolding str2list_loop
    at_end fuel out z =
        let zero_here : front ++ (cur ++ c ∷ cs) ≡ front ++ (cur ++ 0 ∷ cs) =
          ap (λ (b : ℕ). front ++ (cur ++ b ∷ cs)) ((==_iff c 0).0 z) in
        let s : c_str (drop val src) ≡ ok cur = piece src (a.layout ∙ zero_here) in
        let pushed : push_if (not (val == pos) && ltb 0 (length cur)) cur out
            ≡ out ++ fields delim (cur ++ []) =
          last_push val pos cur out (omega (arith, a.val_at, a.pos_at)) a.no_delim in
        ground (arith, current, s, pushed)

    at_delim :
        (fuel : ℕ) (out : List (List ℕ))
        → (c == 0) ≡ false
        → (c == delim) ≡ true
        → str2list_loop (suc fuel) src delim pos val out
          ≡ str2list_loop fuel
              (set src pos 0)
              delim
              (pos + 1)
              (pos + 1)
              (push_if (ltb 0 (length cur)) cur out)
    unfolding str2list_loop
    at_delim fuel out z d = ground (arith, current, piece (set src pos 0) cut)

    at_other :
        (fuel : ℕ) (out : List (List ℕ))
        → (c == 0) ≡ false
        → (c == delim) ≡ false
        → str2list_loop (suc fuel) src delim pos val out
          ≡ str2list_loop fuel src delim (pos + 1) val out
    unfolding str2list_loop
    at_other fuel out z d = ground (arith, current)

  str2list_loop-fields :
      (rest : List ℕ) (fuel : ℕ) {src : List ℕ} {pos val : ℕ} {front : List ℕ} (cur : List ℕ)
      (out : List (List ℕ))
      → At src pos val front cur rest
      → has 0 rest ≡ true
      → length (until_zero rest) < fuel
      → str2list_loop fuel src delim pos val out ≡ ok (out ++ fields delim (cur ++ until_zero rest))
  unfolding until_zero
  str2list_loop-fields [] fuel cur out a ended enough = cc
  str2list_loop-fields (c ∷ cs) zero cur out a ended enough = absurd (omega arith)
  str2list_loop-fields (c ∷ cs) (suc fuel) cur out a ended enough = elim (Bool-cases (c == 0)) [
    | inl z ↦ rw z (at_end c cs a fuel out z)
    | inr z ↦ elim (Bool-cases (c == delim)) [
      | inl d ↦
          rw (z, at_delim c cs a fuel out z d)
            (str2list_loop-fields cs fuel [] _ (after_cut c cs a) (ground arith) (ground arith)
              ∙ ap ok (next_push c cur (until_zero cs) out d a.no_delim))
      | inr d ↦
          rw (z, at_other c cs a fuel out z d)
            (str2list_loop-fields cs fuel (cur ++ c ∷ []) out (after_step c cs a z d) (ground arith)
                (ground arith)
              ∙ rw append_assoc)
    ]
  ]

has-terminated : (str rest : List ℕ) → has 0 (str ++ 0 ∷ rest) ≡ true
has-terminated [] rest = refl
has-terminated (c ∷ str) rest = ground (arith, has-terminated str rest)

until_zero-append : (str rest : List ℕ) → until_zero (str ++ 0 ∷ rest) ≡ until_zero str
unfolding until_zero
until_zero-append [] rest = refl
until_zero-append (c ∷ str) rest = ground (arith, until_zero-append str rest)

pub length-until_zero : (str : List ℕ) → length (until_zero str) ≤ length str
unfolding until_zero
length-until_zero [] = omega arith
length-until_zero (c ∷ str) = ground (arith, length-until_zero str)

pub until_zero_all : (str : List ℕ) → has 0 str ≡ false → until_zero str ≡ str
unfolding until_zero
until_zero_all [] h = refl
until_zero_all (c ∷ str) h = ground (arith, until_zero_all str)

-- `str2list` returns the non-empty pieces, between delimiters and in order, of the string up to its
-- first zero byte. It reads and writes inside its buffer, and the fuel suffices.
pub str2list-fields :
    (str : List ℕ) (delim : ℕ) → str2list str delim ≡ ok (fields delim (until_zero str))
unfolding str2list
str2list-fields str delim =
    str2list_loop-fields delim (str ++ (0 ∷ 0 ∷ [])) (length str + 1) {front = []} [] [] start
      (has-terminated str (0 ∷ []))
      (ground (arith, until_zero-append str (0 ∷ []), length-until_zero str))
    ∙ ap (λ (xs : List ℕ). ok (fields delim xs)) (until_zero-append str (0 ∷ []))
  where
    start : At delim (str ++ (0 ∷ 0 ∷ [])) 0 0 [] [] (str ++ (0 ∷ 0 ∷ []))
    start = record { layout = refl; val_at = refl; pos_at = refl; no_zero = refl; no_delim = refl }

-- On a string with no zero byte the two splitters return the same pieces.
pub str2list-str2vector :
    (str : List ℕ) (delim : ℕ)
    → length str < npos
    → has 0 str ≡ false
    → str2list str delim ≡ str2vector str delim
str2list-str2vector str delim sized h =
    str2list-fields str delim
    ∙ ap (λ (xs : List ℕ). ok (fields delim xs)) (until_zero_all str h)
    ∙ sym (str2vector-fields delim str sized)
