-- ===== src/Streams/Reading.antt =====
-- What the reads of base/InStream.cpp do, on a stream whose cursor is inside its buffer.
use native.Mathlib.Decide.{dec_le, dec_lt}
use boring.Prelude.{
  ℕ, ◌+◌, ◌%◌, ◌≤◌, ◌<◌, ◌≡◌, sym, ap, ◌∙◌, ◌⊎◌, inl, inr, arith, List, length, take, drop,
  length-drop, drop-drop,
}
use boring.Outcome.{ok, fault, assertion}
use boring.Streams.Out.{size_mod}
use boring.Streams.In.{InStream, readable_bytes, peek, advance, read_bytes, skip_in, set_data}

pub record IsOpenIn (s : InStream) : Type 0 where
  pub inside : s.curr_index ≤ length s.buffer
  pub sized : length s.buffer < size_mod

-- What is still to be read.
abbrev pub unread : InStream → List ℕ
unread s = drop s.curr_index s.buffer

pub set_data-IsOpenIn :
    (s : InStream) (bytes : List ℕ) → length bytes < size_mod → IsOpenIn (set_data s bytes)
unfolding set_data
set_data-IsOpenIn s bytes h = record { inside = omega arith; sized = h }

module _ (s : InStream) (o : IsOpenIn s) where
  pub readable : readable_bytes s ≡ length (unread s)
  unfolding readable_bytes
  readable = omega (arith, o.inside, o.sized, length-drop s.curr_index s.buffer)

  pub advance-IsOpenIn : (n : ℕ) → n ≤ length (unread s) → IsOpenIn (advance s n)
  advance-IsOpenIn n h = record {
    inside = omega (arith, length-drop s.curr_index s.buffer, o.inside, o.sized);
    sized = o.sized;
  }

  pub unread-advance : (n : ℕ) → n ≤ length (unread s) → unread (advance s n) ≡ drop n (unread s)
  unread-advance n h =
      let e : (s.curr_index + n) % size_mod ≡ s.curr_index + n =
        omega (arith, length-drop s.curr_index s.buffer, o.inside, o.sized) in
      ap (λ (k : ℕ). drop k s.buffer) e ∙ sym (drop-drop n s.curr_index s.buffer)

  pub peek-ok : (n : ℕ) → n ≤ length (unread s) → peek s n ≡ ok (take n (unread s))
  unfolding peek
  peek-ok n h = ground (arith, length-drop s.curr_index s.buffer, o.inside)

  -- On an open stream, whose cursor is in its buffer, with assertions compiled in: a read of `n` bytes
  -- that are there returns them, leaves the rest to be read, and keeps the stream open; a read of
  -- more bytes than that fails its assertion.
  pub read_bytes-unread :
      (n : ℕ)
      → ((n ≤ length (unread s))
          × (read_bytes s n ≡ ok (take n (unread s), advance s n))
          × (unread (advance s n) ≡ drop n (unread s))
          × IsOpenIn (advance s n))
        ⊎ ((length (unread s) < n) × (read_bytes s n ≡ fault assertion))
  unfolding read_bytes
  read_bytes-unread n = elim (dec_le n (length (unread s))) [
    | yes h ↦
        inl (h, ground (arith, readable, peek-ok n h), unread-advance n h, advance-IsOpenIn n h)
    | no h ↦ inr (omega arith, ground (arith, readable))
  ]

  -- `Skip` wants strictly more bytes to be left than it skips: it moves on over any number of them
  -- short of all, and fails its assertion at exactly the rest of the stream.
  pub skip_in-unread :
      (n : ℕ)
      → ((n < length (unread s))
          × (skip_in s n ≡ ok (advance s n))
          × (unread (advance s n) ≡ drop n (unread s)))
        ⊎ ((length (unread s) ≤ n) × (skip_in s n ≡ fault assertion))
  unfolding skip_in
  skip_in-unread n = elim (dec_lt n (length (unread s))) [
    | yes h ↦ inl (h, ground (arith, readable), unread-advance n (omega arith))
    | no h ↦ inr (omega arith, ground (arith, readable))
  ]
