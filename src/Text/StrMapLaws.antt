-- ===== src/Text/StrMapLaws.antt =====
-- `str2map` of base/stringutil.cpp on a text that is put together from keys and values.
use boring.Prelude.{
  ℕ, ◌+◌, ◌<◌, ◌≡◌, refl, ap, ◌∙◌, arith, false, List, [], ◌∷◌, ◌++◌, ◌==◌, length, length-append,
}
use boring.Outcome.{ok, bind-ok}
use boring.Dict.{Dict, assign}
use boring.Text.Trim.{npos, has, blanks, trim}
use boring.Text.TrimLaws.{StartsOutside, EndsOutside, is_nil, trim_fixed}
use boring.Text.Split.{str2vector}
use boring.Text.SplitLaws.{fields, str2vector-fields}
use boring.Text.Words.{
  has-append, EndsOutside-append, EndsOutside-cons, starts-append, fields-append, fields-last,
}
use boring.Text.StrMap.{str2map, str2map_loop}

-- A key or a value: not empty, neither separator in it, no blank at its ends.
pub record IsField (delim split : ℕ) (w : List ℕ) : Type 0 where
  pub some_text : is_nil w ≡ false
  pub no_delim : has delim w ≡ false
  pub no_split : has split w ≡ false
  pub starts : StartsOutside blanks w
  pub ends : EndsOutside blanks w

abbrev pub Pairs : Type 0
Pairs = List (List ℕ × List ℕ)

-- The text of a pair and more of them, each behind a separator.
unfoldable pub joined : ℕ → ℕ → List ℕ → List ℕ → Pairs → List ℕ
joined delim split key value [] = key ++ split ∷ value
joined delim split key value ((k, v) ∷ ps) =
    (key ++ split ∷ value) ++ delim ∷ joined delim split k v ps

abbrev pub AllFields : ℕ → ℕ → Pairs → Type 0
AllFields delim split [] = Unit
AllFields delim split ((k, v) ∷ ps) =
    IsField delim split k × IsField delim split v × AllFields delim split ps

-- The map with the pairs put in, one after the other.
unfoldable pub assign_all : Pairs → Dict (List ℕ) → Dict (List ℕ)
assign_all [] m = m
assign_all ((k, v) ∷ ps) m = assign_all ps (assign k v m)

module _ (delim split : ℕ) (other : (delim == split) ≡ false) where
  abbrev entry : List ℕ → List ℕ → List ℕ
  entry k v = k ++ split ∷ v

  entries : List ℕ → List ℕ → Pairs → List (List ℕ)
  entries k v [] = entry k v ∷ []
  entries k v ((k', v') ∷ ps) = entry k v ∷ entries k' v' ps

  no_delim :
      (k v : List ℕ) → IsField delim split k → IsField delim split v → has delim (entry k v) ≡ false
  no_delim k v f g = has-append delim k (split ∷ v) f.no_delim (ground (arith, g.no_delim))

  some_entry : (k v : List ℕ) → is_nil (entry k v) ≡ false
  some_entry [] v = refl
  some_entry (c ∷ k) v = refl

  fields-joined :
      (k v : List ℕ) (ps : Pairs)
      → IsField delim split k
      → IsField delim split v
      → AllFields delim split ps
      → fields delim (joined delim split k v ps) ≡ entries k v ps
  unfolding joined entries
  fields-joined k v [] f g fs = fields-last delim (entry k v) (some_entry k v) (no_delim k v f g)
  fields-joined k v ((k', v') ∷ ps) f g (f', g', fs) =
      fields-append delim (entry k v) (joined delim split k' v' ps) (some_entry k v)
        (no_delim k v f g)
      ∙ ap (λ es. entry k v ∷ es) (fields-joined k' v' ps f' g' fs)

  entry_starts : (k v : List ℕ) → IsField delim split k → StartsOutside blanks (entry k v)
  entry_starts k v f = starts-append k (split ∷ v) f.some_text f.starts

  entry_ends : (k v : List ℕ) → IsField delim split v → EndsOutside blanks (entry k v)
  entry_ends k v g = EndsOutside-append k split v (EndsOutside-cons split v g.some_text g.ends)

  step :
      (k v : List ℕ) (its : List (List ℕ)) (m : Dict (List ℕ))
      → IsField delim split k
      → IsField delim split v
      → length (entry k v) < npos
      → str2map_loop (entry k v ∷ its) split m ≡ str2map_loop its split (assign k v m)
  unfolding str2map_loop
  step k v its m f g l =
      let two : fields split (entry k v) ≡ k ∷ v ∷ [] =
        fields-append split k v f.some_text f.no_split
        ∙ ap (λ es. k ∷ es) (fields-last split v g.some_text g.no_split) in
      let split_up : str2vector (trim (entry k v) blanks) split ≡ ok (k ∷ v ∷ []) =
        ap (λ t. str2vector t split)
          (trim_fixed blanks (entry k v) l (entry_starts k v f) (entry_ends k v g))
        ∙ str2vector-fields split (entry k v) l
        ∙ ap ok two in
      let size : length (entry k v) ≡ length k + length (split ∷ v) = length-append k (split ∷ v) in
      let tk : trim k blanks ≡ k = trim_fixed blanks k (omega arith) f.starts f.ends in
      let tv : trim v blanks ≡ v = trim_fixed blanks v (omega arith) g.starts g.ends in
      bind-ok _ split_up ∙ rw (tk, tv) refl

  loop-entries :
      (k v : List ℕ) (ps : Pairs) (m : Dict (List ℕ))
      → IsField delim split k
      → IsField delim split v
      → AllFields delim split ps
      → length (joined delim split k v ps) < npos
      → str2map_loop (entries k v ps) split m ≡ ok (assign_all ((k, v) ∷ ps) m)
  unfolding joined entries assign_all
  loop-entries k v [] m f g fs l = step k v [] m f g l ∙ (unfold str2map_loop in refl)
  loop-entries k v ((k', v') ∷ ps) m f g (f', g', fs) l =
      let size : length (entry k v ++ delim ∷ joined delim split k' v' ps)
          ≡ length (entry k v) + length (delim ∷ joined delim split k' v' ps) =
        length-append (entry k v) (delim ∷ joined delim split k' v' ps) in
      step k v (entries k' v' ps) m f g (omega arith)
      ∙ loop-entries k' v' ps (assign k v m) f' g' fs (omega arith)

  joined_ends :
      (k v : List ℕ) (ps : Pairs)
      → IsField delim split v
      → AllFields delim split ps
      → EndsOutside blanks (joined delim split k v ps)
        × (is_nil (joined delim split k v ps) ≡ false)
  unfolding joined
  joined_ends k v [] g fs = (entry_ends k v g, some_entry k v)
  joined_ends k v ((k', v') ∷ ps) g (f', g', fs) =
      let (e, n) = joined_ends k' v' ps g' fs in
      (
        EndsOutside-append (entry k v) delim (joined delim split k' v' ps)
            (EndsOutside-cons delim (joined delim split k' v' ps) n e),
        starts_some (entry k v) (delim ∷ joined delim split k' v' ps) (some_entry k v),
      )
    where
      starts_some : (xs ys : List ℕ) → is_nil xs ≡ false → is_nil (xs ++ ys) ≡ false
      starts_some [] ys h = cc
      starts_some (x ∷ xs) ys h = refl

  joined_starts :
      (k v : List ℕ) (ps : Pairs)
      → IsField delim split k
      → StartsOutside blanks (joined delim split k v ps)
  unfolding joined
  joined_starts k v [] f = entry_starts k v f
  joined_starts k v ((k', v') ∷ ps) f =
      starts-append (entry k v) (delim ∷ joined delim split k' v' ps) (some_entry k v)
        (entry_starts k v f)

  -- `str2map` of keys and values put together with two different separators: the map in which each
  -- key has the last value given for it. The keys and values are not empty, have no separator in
  -- them and no blank at their ends, and the whole text is shorter than `npos`.
  pub str2map-joined :
      (k v : List ℕ) (ps : Pairs)
      → IsField delim split k
      → IsField delim split v
      → AllFields delim split ps
      → length (joined delim split k v ps) < npos
      → str2map (joined delim split k v ps) delim split ≡ ok (assign_all ((k, v) ∷ ps) [])
  unfolding str2map
  str2map-joined k v ps f g fs l =
      let text = joined delim split k v ps in
      let cut : trim text blanks ≡ text =
        trim_fixed blanks text l (joined_starts k v ps f) (joined_ends k v ps g fs).0 in
      bind-ok _ (
        ap (λ t. str2vector t delim) cut
        ∙ str2vector-fields delim text l
        ∙ ap ok (fields-joined k v ps f g fs))
      ∙ loop-entries k v ps [] f g fs l
