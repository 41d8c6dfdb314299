-- ===== src/Streams/RoundTrip.antt =====
-- What base/OutStream.cpp writes, base/InStream.cpp reads back, on hosts of any two byte orders.
use mathlib.Core.List.{append-nil, append_assoc}
use boring.Prelude.{
  ℕ, ◌+◌, ◌%◌, ◌^◌, ◌<◌, ◌≡◌, refl, sym, ap, ◌∙◌, arith, List, [], ◌∷◌, ◌++◌, map, All, length,
  take, length-append, length-take,
}
use boring.Outcome.{ok}
use boring.Util.{Endian}
use boring.Util.Laws.{network}
use boring.Streams.Out.{OutStream, IsOpen, size_mod, append, new_out, put_string}
use boring.Streams.In.{InStream, advance, new_in, set_data, get_uint16, read_bytes}
use boring.Streams.Items.{Item, kind, InRange, wire, put_all, get_all, wire_all}
use boring.Streams.Writing.{written, append-Appended}
use boring.Streams.Reading.{IsOpenIn, unread, advance-IsOpenIn, set_data-IsOpenIn}
use boring.Streams.Wire.{
  put-append, get-wire, left_over, enough, asserted, peeked, stored16, get_uint16-wire,
}

put_all-wire :
    (e : Endian) (s : OutStream) (is : List Item)
    → IsOpen s
    → All InRange is
    → s.curr_index + length (wire_all is) < size_mod
    → (t : OutStream) × (put_all e s is ≡ ok t)
      × IsOpen t
      × (t.curr_index ≡ s.curr_index + length (wire_all is))
      × (written t ≡ written s ++ wire_all is)
unfolding put_all
put_all-wire e s [] o h fits = (s, refl, o, omega arith, sym (append-nil (written s)))
put_all-wire e s (i ∷ is) o (hi, his) fits =
    let n : length (wire i ++ wire_all is) ≡ length (wire i) + length (wire_all is) =
      length-append (wire i) (wire_all is) in
    let (t, run, a) = append-Appended s (wire i) o (omega (arith, n)) in
    let (u, later, ou, moved, holds) =
      put_all-wire e t is a.is_open his (omega (arith, n, a.moved)) in
    (
      u,
      rw (put-append e s i hi, run) later,
      ou,
      omega (arith, n, moved, a.moved),
      holds
          ∙ ap (λ (xs : List ℕ). xs ++ wire_all is) a.holds
          ∙ append_assoc (written s) (wire i) (wire_all is),
    )

get_all-wire :
    (e : Endian) (s : InStream) (is : List Item) (rest : List ℕ)
    → IsOpenIn s
    → All InRange is
    → unread s ≡ wire_all is ++ rest
    → (t : InStream) × (get_all e s (map kind is) ≡ ok (is, t)) × (unread t ≡ rest)
unfolding get_all
get_all-wire e s [] rest o h next = (s, refl, next)
get_all-wire e s (i ∷ is) rest o (hi, his) next =
    let first : unread s ≡ wire i ++ (wire_all is ++ rest) =
      next ∙ append_assoc (wire i) (wire_all is) rest in
    let s' : InStream = advance s (length (wire i)) in
    let o' : IsOpenIn s' =
      advance-IsOpenIn s o (length (wire i)) (enough s (wire i) (wire_all is ++ rest) o first) in
    let (t, later, left) =
      get_all-wire e s' is rest o' his (left_over s (wire i) (wire_all is ++ rest) o first) in
    (t, rw (get-wire e s (wire_all is ++ rest) o i hi first, later), left)

-- A sequence of values in the range of their types, written to a new output stream on a host of
-- one byte order and handed over as its bytes up to the cursor, is read back unchanged on a host of
-- the same or the other byte order, and nothing is left to read. Both runs succeed, provided that
-- the bytes are fewer than a `size_t` can count.
pub get_all-put_all :
    (from to : Endian) (is : List Item)
    → All InRange is
    → length (wire_all is) < size_mod
    → (t : OutStream) × (u : InStream) × (put_all from new_out is ≡ ok t)
      × (get_all to (set_data new_in (written t)) (map kind is) ≡ ok (is, u))
      × (unread u ≡ [])
unfolding new_out set_data
get_all-put_all from to is h fits =
    let (t, run, o, moved, holds) = put_all-wire from new_out is (omega arith) h (omega arith) in
    let data_is : written t ≡ wire_all is = holds in
    let source : InStream = set_data new_in (written t) in
    let o' : IsOpenIn source =
      set_data-IsOpenIn new_in (written t) (omega (arith, ap length data_is)) in
    let next : unread source ≡ wire_all is ++ [] = data_is ∙ sym (append-nil (wire_all is)) in
    let (u, later, left) = get_all-wire to source is [] o' h next in (t, u, run, later, left)

put_string-appends :
    (e : Endian) (s : OutStream) (str : List ℕ) {t u : OutStream}
    → append s (network 2 (length str % 2 ^ 16)) ≡ ok t
    → append t (take (length str % 2 ^ 16) str) ≡ ok u
    → put_string e s str ≡ ok u
unfolding put_string
put_string-appends e s str first second =
    rw (stored16 e (length str % 2 ^ 16) (omega arith), first) second

read_bytes-next :
    (s : InStream) (bytes rest : List ℕ)
    → IsOpenIn s
    → unread s ≡ bytes ++ rest
    → (n : ℕ) → n ≡ length bytes
    → read_bytes s n ≡ ok (bytes, advance s n)
unfolding read_bytes
read_bytes-next s bytes rest o next n e =
    rw (e, asserted s bytes rest o next, peeked s bytes rest o next)

-- A string written to a new output stream is read back, on a host of any byte order, as a `uint16`
-- count and then that many bytes. The count is the length modulo 2 ^ 16, so that a shorter string
-- comes back whole, and of a longer one only so many bytes are on the wire at all.
pub read_bytes-put_string :
    (from to : Endian) (str : List ℕ)
    → length str < size_mod
    → (t : OutStream) × (u v : InStream) × (put_string from new_out str ≡ ok t)
      × (get_uint16 to (set_data new_in (written t)) ≡ ok (length str % 2 ^ 16, u))
      × (read_bytes u (length str % 2 ^ 16) ≡ ok (take (length str % 2 ^ 16) str, v))
      × (unread v ≡ [])
unfolding new_out set_data
read_bytes-put_string from to str fits =
    let n : ℕ = length str % 2 ^ 16 in
    let body : List ℕ = take n str in
    let size_body : n ≡ length body = omega (arith, length-take n str) in
    let small : n < 2 ^ 16 = omega arith in
    let (t, first, a) = append-Appended new_out (network 2 n) (omega arith) (omega arith) in
    let (t', second, b) =
      append-Appended t body a.is_open (omega (arith, a.moved, size_body, small)) in
    let holds : written t' ≡ network 2 n ++ body =
      b.holds ∙ ap (λ (xs : List ℕ). xs ++ body) a.holds in
    let source : InStream = set_data new_in (written t') in
    let o : IsOpenIn source =
      set_data-IsOpenIn new_in (written t') (omega (arith, ap length holds, size_body, small)) in
    let u : InStream = advance source 2 in
    let o' : IsOpenIn u = advance-IsOpenIn source o 2 (omega (arith, ap length holds)) in
    let next : unread u ≡ body ++ [] =
      left_over source (network 2 n) body o holds ∙ sym (append-nil body) in
    (
      t',
      u,
      advance u n,
      put_string-appends from new_out str first second,
      get_uint16-wire to source body o n small holds,
      read_bytes-next u body [] o' next n size_body,
      ap (λ (k : ℕ). unread (advance u k)) size_body ∙ left_over u body [] o' next,
    )
