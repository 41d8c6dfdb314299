-- ===== src/Streams/Wire.antt =====
-- Item by item, a write appends the item's wire form and a read takes it back, on any host.
use boring.Prelude.{
  ℕ, ◌+◌, ◌*◌, ◌%◌, ◌/◌, ◌^◌, ◌≤◌, ◌<◌, ◌≡◌, refl, sym, ap, ◌∙◌, arith, true, List, [], ◌∷◌, ◌++◌,
  leb, length, take, drop, length-append, take-append, drop-append,
}
use boring.Prelude.Int.{ℤ, pos, negsuc, to_pattern, of_pattern, InSigned}
use boring.Outcome.{ok}
use boring.Util.{Endian, little, big, stored, hton16, hton32}
use boring.Util.Laws.{network, stored-hton, hton-hton}
use boring.Streams.Out.{
  OutStream, append, put_uint8, put_uint16, put_uint32, put_int8, put_int16, put_int32,
}
use boring.Streams.In.{
  InStream, peek, loaded, readable_bytes, advance, get_uint8, get_uint16, get_uint32, get_int8,
  get_int16, get_int32,
}
use boring.Streams.Items.{Item, u8, u16, u32, i8, i16, i32, kind, InRange, put, get, wire}
use boring.Streams.Reading.{IsOpenIn, unread, readable, peek-ok, unread-advance}

to_pattern8_lt : (x : ℤ) → to_pattern 8 x < 2 ^ 8
to_pattern8_lt (pos n) = omega arith
to_pattern8_lt (negsuc n) = omega arith

to_pattern16_lt : (x : ℤ) → to_pattern 16 x < 2 ^ 16
to_pattern16_lt (pos n) = omega arith
to_pattern16_lt (negsuc n) = omega arith

to_pattern32_lt : (x : ℤ) → to_pattern 32 x < 2 ^ 32
to_pattern32_lt (pos n) = omega arith
to_pattern32_lt (negsuc n) = omega arith

-- Host by host, the stored bytes are the wire's.
pub stored16 : (e : Endian) (x : ℕ) → x < 2 ^ 16 → stored e 2 (hton16 e x) ≡ network 2 x
stored16 e x h = (stored-hton x 0 0 h (omega arith) (omega arith) e).0

stored32 : (e : Endian) (x : ℕ) → x < 2 ^ 32 → stored e 4 (hton32 e x) ≡ network 4 x
stored32 e x h = (stored-hton 0 x 0 (omega arith) h (omega arith) e).1

pub put-append : (e : Endian) (s : OutStream) (i : Item) → InRange i → put e s i ≡ append s (wire i)
unfolding put put_uint8 put_uint16 put_uint32 put_int8 put_int16 put_int32
put-append e s (u8 x) h = ap (λ (b : ℕ). append s (b ∷ [])) (omega arith)
put-append e s (u16 x) h = ap (append s) (stored16 e x h)
put-append e s (u32 x) h = ap (append s) (stored32 e x h)
put-append e s (i8 x) h = ap (λ (b : ℕ). append s (b ∷ [])) (omega (arith, to_pattern8_lt x))
put-append e s (i16 x) h = ap (append s) (stored16 e (to_pattern 16 x) (to_pattern16_lt x))
put-append e s (i32 x) h = ap (append s) (stored32 e (to_pattern 32 x) (to_pattern32_lt x))

of_pattern-to_pattern :
    (x : ℤ)
    → (InSigned 8 x → of_pattern 8 (to_pattern 8 x) ≡ x)
      × (InSigned 16 x → of_pattern 16 (to_pattern 16 x) ≡ x)
      × (InSigned 32 x → of_pattern 32 (to_pattern 32 x) ≡ x)
of_pattern-to_pattern (pos n) = (λ h. ground arith, λ h. ground arith, λ h. ground arith)
of_pattern-to_pattern (negsuc n) = (λ h. ground arith, λ h. ground arith, λ h. ground arith)

loaded-stored :
    (e : Endian) (x y : ℕ)
    → x < 2 ^ 16
    → y < 2 ^ 32
    → (loaded e (stored e 2 x) ≡ x) × (loaded e (stored e 4 y) ≡ y)
loaded-stored little x y h k = (omega arith, omega arith)
loaded-stored big x y h k = (omega arith, omega arith)

pub value16 : (e : Endian) (x : ℕ) → x < 2 ^ 16 → hton16 e (loaded e (network 2 x)) ≡ x
value16 e x h =
    let swaps = hton-hton x 0 0 h (omega arith) (omega arith) e in
    ap (λ (bs : List ℕ). hton16 e (loaded e bs)) (sym (stored16 e x h))
    ∙ ap (hton16 e) (loaded-stored e (hton16 e x) 0 swaps.3 (omega arith)).0
    ∙ swaps.0

value32 : (e : Endian) (x : ℕ) → x < 2 ^ 32 → hton32 e (loaded e (network 4 x)) ≡ x
value32 e x h =
    let swaps = hton-hton 0 x 0 (omega arith) h (omega arith) e in
    ap (λ (bs : List ℕ). hton32 e (loaded e bs)) (sym (stored32 e x h))
    ∙ ap (hton32 e) (loaded-stored e 0 (hton32 e x) (omega arith) swaps.4).1
    ∙ swaps.1

-- `bytes` are next on the stream, and `rest` follows them.
module _ (s : InStream) (bytes rest : List ℕ) (o : IsOpenIn s)
    (next : unread s ≡ bytes ++ rest) where
  pub enough : length bytes ≤ length (unread s)
  enough = omega (arith, ap length next, length-append bytes rest)

  pub asserted : leb (length bytes) (readable_bytes s) ≡ true
  asserted = ground (arith, readable s o, enough)

  pub peeked : peek s (length bytes) ≡ ok bytes
  peeked =
      peek-ok s o (length bytes) enough
      ∙ ap ok (ap (take (length bytes)) next ∙ take-append (length bytes) bytes rest refl)

  pub left_over : unread (advance s (length bytes)) ≡ rest
  left_over =
      unread-advance s o (length bytes) enough
      ∙ ap (drop (length bytes)) next
      ∙ drop-append (length bytes) bytes rest refl

module _ (e : Endian) (s : InStream) (rest : List ℕ) (o : IsOpenIn s) where
  pub get_uint16-wire :
      (x : ℕ) → x < 2 ^ 16 → unread s ≡ network 2 x ++ rest → get_uint16 e s ≡ ok (x, advance s 2)
  unfolding get_uint16
  get_uint16-wire x h next =
      rw (asserted s (network 2 x) rest o next, peeked s (network 2 x) rest o next, value16 e x h)

  pub get-wire :
      (i : Item)
      → InRange i
      → unread s ≡ wire i ++ rest
      → get e (kind i) s ≡ ok (i, advance s (length (wire i)))
  unfolding get get_uint8 get_uint32 get_int8 get_int16 get_int32
  get-wire (u8 x) h next =
      rw (asserted s (wire (u8 x)) rest o next, peeked s (wire (u8 x)) rest o next) (ground arith)
  get-wire (u16 x) h next = rw (get_uint16-wire x h next)
  get-wire (u32 x) h next =
      rw (asserted s (wire (u32 x)) rest o next, peeked s (wire (u32 x)) rest o next, value32 e x h)
  get-wire (i8 x) h next =
      let byte : to_pattern 8 x / 1 % 256 + 256 * 0 ≡ to_pattern 8 x =
        omega (arith, to_pattern8_lt x) in
      rw (asserted s (wire (i8 x)) rest o next, peeked s (wire (i8 x)) rest o next)
        (rw (byte, (of_pattern-to_pattern x).0 h))
  get-wire (i16 x) h next =
      rw
        (
          asserted s (wire (i16 x)) rest o next,
          peeked s (wire (i16 x)) rest o next,
          value16 e (to_pattern 16 x) (to_pattern16_lt x),
        )
        (rw ((of_pattern-to_pattern x).1 h))
  get-wire (i32 x) h next =
      rw
        (
          asserted s (wire (i32 x)) rest o next,
          peeked s (wire (i32 x)) rest o next,
          value32 e (to_pattern 32 x) (to_pattern32_lt x),
        )
        (rw ((of_pattern-to_pattern x).2 h))
