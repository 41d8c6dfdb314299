-- ===== src/Text/SplitLaws.antt =====
-- Both splitters of base/stringutil.cpp against one description: the non-empty pieces between
-- delimiters, in order.
use mathlib.Core.List.{append_assoc, append-nil}
use boring.Prelude.{
  ℕ, zero, suc, ◌+◌, ◌-◌, ◌<◌, ◌≡◌, refl, sym, ap, ◌∙◌, arith, true, false, List, [], ◌∷◌, ◌++◌,
  ltb, ◌==◌, if◌then◌else◌, ◌⊎◌, inl, inr, Bool-cases, length, take, drop, length-append,
  take-append, drop-append, drop-drop,
}
use boring.Outcome.{ok}
use boring.Text.Trim.{npos, has}
use boring.Text.Split.{find, str2vector_loop, str2vector}

abbrev pub on_head : ℕ → List (List ℕ) → List (List ℕ)
on_head c [] = (c ∷ []) ∷ []
on_head c (p ∷ ps) = (c ∷ p) ∷ ps

-- The pieces between delimiters, empty ones too.
unfoldable pub pieces : ℕ → List ℕ → List (List ℕ)
pieces delim [] = [] ∷ []
pieces delim (c ∷ cs) = if c == delim then [] ∷ pieces delim cs else on_head c (pieces delim cs)

unfoldable pub non_empty : List (List ℕ) → List (List ℕ)
non_empty [] = []
non_empty ([] ∷ ps) = non_empty ps
non_empty ((c ∷ p) ∷ ps) = (c ∷ p) ∷ non_empty ps

abbrev pub fields : ℕ → List ℕ → List (List ℕ)
fields delim str = non_empty (pieces delim str)

module _ (delim : ℕ) where
  pub pieces-append :
      (p rest : List ℕ)
      → has delim p ≡ false
      → pieces delim (p ++ delim ∷ rest) ≡ p ∷ pieces delim rest
  unfolding pieces
  pieces-append [] rest h = ground arith
  pieces-append (c ∷ p) rest h = ground (arith, pieces-append p rest)

  pub pieces-last : (p : List ℕ) → has delim p ≡ false → pieces delim p ≡ p ∷ []
  unfolding pieces
  pieces-last [] h = refl
  pieces-last (c ∷ p) h = ground (arith, pieces-last p)

  -- Where the search from position `i` stops.
  abbrev Found : List ℕ → ℕ → Type 0
  Found rest i =
      ((has delim rest ≡ false) × (find delim rest i ≡ npos))
      ⊎ ((p : List ℕ) × (rest' : List ℕ) × (rest ≡ p ++ delim ∷ rest')
          × (has delim p ≡ false)
          × (find delim rest i ≡ i + length p))

  find-Found : (rest : List ℕ) (i : ℕ) → Found rest i
  unfolding find
  find-Found [] i = inl (refl, refl)
  find-Found (c ∷ cs) i = elim (Bool-cases (c == delim)) [
    | inl hit ↦ inr ([], cs, ground arith, refl, ground arith)
    | inr miss ↦ elim (find-Found cs (i + 1)) [
      | inl (out, e) ↦ inl (ground arith, ground arith)
      | inr (p, rest', e, out, at) ↦ inr (c ∷ p, rest', ap (◌∷◌ c) e, ground arith, ground arith)
    ]
  ]

  behind_piece : (p rest : List ℕ) → drop (length p + 1) (p ++ delim ∷ rest) ≡ rest
  behind_piece p rest =
      ap (drop (length p + 1)) (sym (append_assoc p (delim ∷ []) rest))
      ∙ drop-append (length p + 1) (p ++ delim ∷ []) rest
          (omega (arith, length-append p (delim ∷ [])))

  -- A piece is kept if its bounds differ.
  abbrev kept : ℕ → ℕ → List ℕ → List (List ℕ) → List (List ℕ)
  kept start pos p result = if ltb start pos then result ++ p ∷ [] else result

  kept-non_empty :
      (start pos : ℕ) (p : List ℕ) (result ps : List (List ℕ))
      → pos ≡ start + length p
      → kept start pos p result ++ non_empty ps ≡ result ++ non_empty (p ∷ ps)
  unfolding non_empty
  kept-non_empty start pos [] result ps e = let off : ltb start pos ≡ false = ground arith in rw off
  kept-non_empty start pos (c ∷ p) result ps e =
      let on : ltb start pos ≡ true = ground arith in
      rw on (append_assoc result ((c ∷ p) ∷ []) (non_empty ps))

  module _ (str : List ℕ) (sized : length str < npos) where
    behind :
        (start : ℕ) (p rest' : List ℕ)
        → drop start str ≡ p ++ delim ∷ rest'
        → drop (start + length p + 1) str ≡ rest'
    behind start p rest' at =
        let shift : start + length p + 1 ≡ start + (length p + 1) = omega arith in
        ap (λ (k : ℕ). drop k str) shift
        ∙ sym (drop-drop (length p + 1) start str)
        ∙ ap (drop (length p + 1)) at
        ∙ behind_piece p rest'

    last_round :
        (fuel start : ℕ) (rest : List ℕ) (result : List (List ℕ))
        → drop start str ≡ rest
        → start + length rest ≡ length str
        → has delim rest ≡ false
        → str2vector_loop (suc fuel) str delim start npos result ≡ ok (result ++ fields delim rest)
    unfolding str2vector_loop non_empty
    last_round fuel start rest result at e out =
        rw (at, pieces-last rest out)
          (ap ok (sym (append-nil _) ∙ kept-non_empty start (length str) rest result [] (sym e)))

    more_round :
        (fuel start : ℕ) (p rest' : List ℕ) (result : List (List ℕ))
        → drop start str ≡ p ++ delim ∷ rest'
        → start + length (p ++ delim ∷ rest') ≡ length str
        → str2vector_loop (suc fuel) str delim start (start + length p) result
          ≡ str2vector_loop fuel str delim
              (start + length p + 1)
              (find delim rest' (start + length p + 1))
              (kept start (start + length p) p result)
    unfolding str2vector_loop
    more_round fuel start p rest' result at e =
        let n : length (p ++ delim ∷ rest') ≡ length p + suc (length rest') =
          length-append p (delim ∷ rest') in
        let early : (start + length p == npos) ≡ false = ground (arith, e, n, sized) in
        let width : start + length p - start ≡ length p = omega arith in
        let piece : take (length p) (drop start str) ≡ p =
          ap (take (length p)) at ∙ take-append (length p) p (delim ∷ rest') refl in
        let later : drop (start + length p + 1) str ≡ rest' = behind start p rest' at in
        rw (early, str2vector_loop) (rw (width, piece, later))

    loop-fields :
        (fuel start : ℕ) (rest : List ℕ) (result : List (List ℕ))
        → drop start str ≡ rest
        → start + length rest ≡ length str
        → length rest < fuel
        → str2vector_loop fuel str delim start (find delim rest start) result
          ≡ ok (result ++ fields delim rest)
    loop-fields zero start rest result at e enough = absurd (omega arith)
    loop-fields (suc fuel) start rest result at e enough = elim (find-Found rest start) [
      | inl (out, last) ↦ rw last (last_round fuel start rest result at e out)
      | inr (p, rest', parts, out, pos) ↦
          let n : length rest ≡ length p + suc (length rest') =
            ap length parts ∙ length-append p (delim ∷ rest') in
          rw pos (
            more_round fuel start p rest' result (at ∙ parts)
              (ap (λ (xs : List ℕ). start + length xs) (sym parts) ∙ e)
            ∙ loop-fields fuel (start + length p + 1) rest' (kept start (start + length p) p result)
                (behind start p rest' (at ∙ parts)) (omega (arith, n)) (omega (arith, n))
            ∙ ap ok (
                kept-non_empty start (start + length p) p result (pieces delim rest') refl
                ∙ ap (λ (ps : List (List ℕ)). result ++ non_empty ps)
                    (sym (ap (pieces delim) parts ∙ pieces-append p rest' out))))
    ]

    -- `str2vector` returns the non-empty pieces of the string between delimiters, in order. Its loop
    -- ends by its test: the fuel of one round a character and one more is enough for every string
    -- shorter than `npos`.
    pub str2vector-fields : str2vector str delim ≡ ok (fields delim str)
    unfolding str2vector
    str2vector-fields = loop-fields (length str + 1) 0 str [] refl (omega arith) (omega arith)
