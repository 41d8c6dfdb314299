-- ===== src/Text/CharLaws.antt =====
-- Hexadecimal digits and letter case in base/stringutil.cpp, checked on all 256 bytes.
use Prim.Native.Char.{code}
use Prim.Native.String.{String}
use boring.Prelude.{
  ℕ, suc, ◌-◌, ◌<◌, ◌≡◌, refl, ap₂, arith, Bool, true, ◌&&◌, Option, none, some, List, [], ◌∷◌, ltb,
  ◌==◌, ==_iff, if◌then◌else◌, holds_below, lookup_table,
}
use boring.Prelude.Int.{ℤ, pos, negsuc}
use boring.Text.Chars.{IsByte, Bytes, c2i, c2x, stolower, stoupper, lower_char, upper_char}

abbrev pub codes : String → List ℕ
codes String.[] = []
codes (String.◌∷◌ c s) = code c ∷ codes s

-- The place of a byte in a text.
abbrev pub index_of : ℕ → List ℕ → Option ℕ
index_of c [] = none
index_of c (d ∷ ds) =
    if c == d then some 0 else elim (index_of c ds) [ none ↦ none | some i ↦ some (suc i) ]

abbrev digits_by_value : List ℕ
digits_by_value = codes "0123456789ABCDEFabcdef"

-- What a hexadecimal digit stands for, and -1 for any other byte.
abbrev pub hex_value : ℕ → ℤ
hex_value c = elim (index_of c digits_by_value) [
  | none ↦ negsuc 0
  | some i ↦ pos (if ltb i 16 then i else i - 6)
]

unfoldable pub same : ℤ → ℤ → Bool
same (pos a) (pos b) = a == b
same (negsuc a) (negsuc b) = a == b
same (pos a) (negsuc b) = Bool.false
same (negsuc a) (pos b) = Bool.false

pub same→eq : (a b : ℤ) → same a b ≡ true → a ≡ b
unfolding same
same→eq a b h = ground arith

digit_table : holds_below 256 (λ c. same (c2i c) (hex_value c)) ≡ true
unfolding holds_below same c2i
digit_table = refl

-- `c2i` gives the value of every hexadecimal digit, in either case, and -1 for every other byte.
pub c2i-hex_value : (c : ℕ) → IsByte c → c2i c ≡ hex_value c
c2i-hex_value c h = same→eq (c2i c) (hex_value c) (lookup_table 256 _ digit_table c h)

nibble_table : holds_below 16 (λ v. same (c2i (c2x v)) (pos v) && ltb (c2x v) 128) ≡ true
unfolding holds_below same c2i c2x
nibble_table = refl

pub c2i-c2x : (v : ℕ) → v < 16 → c2i (c2x v) ≡ pos v
c2i-c2x v h = same→eq (c2i (c2x v)) (pos v) (ground (arith, lookup_table 16 _ nibble_table v h))

lower_lower : holds_below 256 (λ c. lower_char (lower_char c) == lower_char c) ≡ true
unfolding holds_below lower_char
lower_lower = refl

lower_upper : holds_below 256 (λ c. lower_char (upper_char c) == lower_char c) ≡ true
unfolding holds_below lower_char upper_char
lower_upper = refl

upper_lower : holds_below 256 (λ c. upper_char (lower_char c) == upper_char c) ≡ true
unfolding holds_below lower_char upper_char
upper_lower = refl

-- On every string of bytes, lowering the case twice is lowering it once, and a change of case
-- changes nothing that a later change the other way would not.
pub stolower-stoupper :
    (s : List ℕ)
    → Bytes s
    → (stolower (stolower s) ≡ stolower s)
      × (stolower (stoupper s) ≡ stolower s)
      × (stoupper (stolower s) ≡ stoupper s)
unfolding stolower stoupper
stolower-stoupper [] h = (refl, refl, refl)
stolower-stoupper (c ∷ cs) (hc, hcs) =
    let (a, b, d) = stolower-stoupper cs hcs in
    (
      ap₂ ◌∷◌ ((==_iff _ _).0 (lookup_table 256 _ lower_lower c hc)) a,
      ap₂ ◌∷◌ ((==_iff _ _).0 (lookup_table 256 _ lower_upper c hc)) b,
      ap₂ ◌∷◌ ((==_iff _ _).0 (lookup_table 256 _ upper_lower c hc)) d,
    )
