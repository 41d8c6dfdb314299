-- ===== src/Text/TrimLaws.antt =====
-- What `trim`, `ltrim` and `rtrim` of base/stringutil.cpp leave of a string.
use mathlib.Core.List.{append_assoc}
use boring.Prelude.{
  ℕ, suc, ◌+◌, ◌-◌, ◌%◌, ◌^◌, ◌≤◌, ◌<◌, ◌≡◌, refl, ap, ◌∙◌, arith, inl, inr, Bool, true, false,
  ◌&&◌, List, [], ◌∷◌, ◌++◌, Bool-cases, if◌then◌else◌, length, take, drop, All, drop_all,
}
use boring.Text.Trim.{npos, has, first_not_of, last_not_of, ltrim, rtrim, trim}

abbrev pub is_nil : List ℕ → Bool
is_nil [] = true
is_nil (c ∷ cs) = false

module _ (chars : List ℕ) where
  -- The string without its first, and without its last, characters that are in `chars`.
  unfoldable pub strip_left : List ℕ → List ℕ
  strip_left [] = []
  strip_left (c ∷ cs) = if has c chars then strip_left cs else c ∷ cs

  unfoldable pub strip_right : List ℕ → List ℕ
  strip_right [] = []
  strip_right (c ∷ cs) = let r = strip_right cs in if has c chars && is_nil r then [] else c ∷ r

  first_not_of-le : (cs : List ℕ) (i : ℕ) → i + length cs < npos → i ≤ first_not_of cs chars i
  unfolding first_not_of
  first_not_of-le [] i h = omega arith
  first_not_of-le (c ∷ cs) i h = ground (arith, first_not_of-le cs (i + 1) (omega arith))

  drop-first_not_of :
      (cs : List ℕ) (i : ℕ)
      → i + length cs < npos
      → drop (first_not_of cs chars i - i) cs ≡ strip_left cs
  unfolding first_not_of strip_left
  drop-first_not_of [] i h = drop_all (npos - i) [] (omega arith)
  drop-first_not_of (c ∷ cs) i h = elim (Bool-cases (has c chars)) [
    | inl inside ↦ rw inside (
        let e : first_not_of cs chars (i + 1) - i ≡ suc (first_not_of cs chars (i + 1) - (i + 1)) =
          omega (arith, first_not_of-le cs (i + 1) (omega arith)) in
        rw e (drop-first_not_of cs (i + 1) (omega arith)))
    | inr outside ↦ rw outside (let e : i - i ≡ 0 = omega arith in rw e)
  ]

  drop-first : (cs : List ℕ) → length cs < npos → drop (first_not_of cs chars 0) cs ≡ strip_left cs
  drop-first cs h =
      let e : first_not_of cs chars 0 - 0 ≡ first_not_of cs chars 0 = omega arith in
      rw e at (drop-first_not_of cs 0 (omega arith))

  pub length-strip_right : (cs : List ℕ) → length (strip_right cs) ≤ length cs
  unfolding strip_right
  length-strip_right [] = omega arith
  length-strip_right (c ∷ cs) = ground (arith, length-strip_right cs)

  take-strip_right : (cs : List ℕ) → take (length (strip_right cs)) cs ≡ strip_right cs
  unfolding strip_right
  take-strip_right [] = refl
  take-strip_right (c ∷ cs) = ground (arith, take-strip_right cs)

  last_not_of-strip :
      (cs : List ℕ) (i last : ℕ)
      → last_not_of cs chars i last
        ≡ (if is_nil (strip_right cs) then last else i + length (strip_right cs) - 1)
  unfolding last_not_of strip_right
  last_not_of-strip [] i last = refl
  last_not_of-strip (c ∷ cs) i last =
      ground (arith, last_not_of-strip cs (i + 1) (if has c chars then last else i))

  erased :
      (str : List ℕ) (r : List ℕ)
      → strip_right str ≡ r
      → length str < npos
      → take ((last_not_of str chars 0 npos + 1) % 2 ^ 32) str ≡ r
  erased str [] e h =
      let n : (last_not_of str chars 0 npos + 1) % 2 ^ 32 ≡ 0 =
        ground (arith, last_not_of-strip str 0 npos) in
      rw n
  erased str (c ∷ cs) e h =
      let n : (last_not_of str chars 0 npos + 1) % 2 ^ 32 ≡ length (strip_right str) =
        ground (arith, last_not_of-strip str 0 npos, length-strip_right str) in
      rw n (take-strip_right str ∙ e)

  pub rtrim-strip : (str : List ℕ) → length str < npos → rtrim str chars ≡ strip_right str
  unfolding rtrim
  rtrim-strip str h = erased str (strip_right str) refl h

  pub ltrim-strip : (str : List ℕ) → length str < npos → ltrim str chars ≡ strip_left str
  unfolding ltrim
  ltrim-strip str h = drop-first str h

  pub trim-strip :
      (str : List ℕ) → length str < npos → trim str chars ≡ strip_left (strip_right str)
  unfolding trim
  trim-strip str h =
      rw (erased str (strip_right str) refl h)
        (drop-first (strip_right str) (omega (arith, length-strip_right str)))

  -- The first, and the last, character of a string, if there is one, is not in `chars`.
  abbrev pub StartsOutside : List ℕ → Type 0
  StartsOutside [] = Unit
  StartsOutside (c ∷ cs) = has c chars ≡ false

  abbrev pub EndsOutside : List ℕ → Type 0
  EndsOutside [] = Unit
  EndsOutside (c ∷ []) = has c chars ≡ false
  EndsOutside (c ∷ d ∷ cs) = EndsOutside (d ∷ cs)

  abbrev pub Inside : List ℕ → Type 0
  Inside = All (λ c. has c chars ≡ true)

  -- `r` is the middle of `str` between two runs of `chars`, and neither begins nor ends with one.
  pub record Trimmed (str r : List ℕ) : Type 0 where
    pub left : List ℕ
    pub right : List ℕ
    pub parts : str ≡ left ++ (r ++ right)
    pub left_inside : Inside left
    pub right_inside : Inside right
    pub starts : StartsOutside r
    pub ends : EndsOutside r

  record Tail (str r : List ℕ) : Type 0 where
    rest : List ℕ
    parts : str ≡ r ++ rest
    inside : Inside rest
    ends : EndsOutside r

  strip_right-Tail : (str : List ℕ) → Tail str (strip_right str)
  unfolding strip_right
  strip_right-Tail [] = record { rest = []; parts = refl; inside = tt; ends = tt }
  strip_right-Tail (c ∷ cs) = go (strip_right cs) (has c chars) refl (strip_right-Tail cs)
    where
      go :
          (r : List ℕ) (b : Bool)
          → has c chars ≡ b
          → Tail cs r
          → Tail (c ∷ cs) (if b && is_nil r then [] else c ∷ r)
      go [] true e t = record {
        rest = c ∷ t.rest;
        parts = ap (◌∷◌ c) t.parts;
        inside = (e, t.inside);
        ends = tt;
      }
      go [] false e t = record {
        rest = t.rest;
        parts = ap (◌∷◌ c) t.parts;
        inside = t.inside;
        ends = e;
      }
      go (d ∷ r) true e t = record {
        rest = t.rest;
        parts = ap (◌∷◌ c) t.parts;
        inside = t.inside;
        ends = t.ends;
      }
      go (d ∷ r) false e t = record {
        rest = t.rest;
        parts = ap (◌∷◌ c) t.parts;
        inside = t.inside;
        ends = t.ends;
      }

  EndsOutside-tail : (c : ℕ) (cs : List ℕ) → EndsOutside (c ∷ cs) → EndsOutside cs
  EndsOutside-tail c [] h = tt
  EndsOutside-tail c (d ∷ cs) h = h

  record Head (r : List ℕ) (s : List ℕ) : Type 0 where
    left : List ℕ
    parts : r ≡ left ++ s
    inside : Inside left
    starts : StartsOutside s
    ends : EndsOutside s

  strip_left-Head : (r : List ℕ) → EndsOutside r → Head r (strip_left r)
  unfolding strip_left
  strip_left-Head [] h = record { left = []; parts = refl; inside = tt; starts = tt; ends = tt }
  strip_left-Head (c ∷ cs) h = go (has c chars) refl (strip_left-Head cs (EndsOutside-tail c cs h))
    where
      go :
          (b : Bool)
          → has c chars ≡ b
          → Head cs (strip_left cs)
          → Head (c ∷ cs) (if b then strip_left cs else c ∷ cs)
      go true e t = record {
        left = c ∷ t.left;
        parts = ap (◌∷◌ c) t.parts;
        inside = (e, t.inside);
        starts = t.starts;
        ends = t.ends;
      }
      go false e t = record { left = []; parts = refl; inside = tt; starts = e; ends = h }

  -- `trim` cuts a string to its middle: what is cut off on either side is in `chars`, and what is
  -- left neither begins nor ends with one of them.
  pub trim-Trimmed : (str : List ℕ) → length str < npos → Trimmed str (trim str chars)
  trim-Trimmed str h =
      let t : Tail str (strip_right str) = strip_right-Tail str in
      let u : Head (strip_right str) (strip_left (strip_right str)) =
        strip_left-Head (strip_right str) t.ends in
      rw (trim-strip str h) (record {
        left = u.left;
        right = t.rest;
        parts =
            t.parts
            ∙ ap (λ (xs : List ℕ). xs ++ t.rest) u.parts
            ∙ append_assoc u.left (strip_left (strip_right str)) t.rest;
        left_inside = u.inside;
        right_inside = t.inside;
        starts = u.starts;
        ends = u.ends;
      })

  pub strip_left_fixed : (s : List ℕ) → StartsOutside s → strip_left s ≡ s
  unfolding strip_left
  strip_left_fixed [] h = refl
  strip_left_fixed (c ∷ cs) h = rw h

  pub strip_right_fixed : (s : List ℕ) → EndsOutside s → strip_right s ≡ s
  unfolding strip_right
  strip_right_fixed [] h = refl
  strip_right_fixed (c ∷ []) h = rw h
  strip_right_fixed (c ∷ d ∷ cs) h = rw (strip_right_fixed (d ∷ cs) h) (ground arith)

  -- A string with nothing to cut is left alone, and the cut can be made past a tail of `chars`.
  pub trim_fixed :
      (s : List ℕ) → length s < npos → StartsOutside s → EndsOutside s → trim s chars ≡ s
  trim_fixed s h starts ends =
      trim-strip s h ∙ ap strip_left (strip_right_fixed s ends) ∙ strip_left_fixed s starts
