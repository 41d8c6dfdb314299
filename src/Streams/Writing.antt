-- ===== src/Streams/Writing.antt =====
-- What the writes of base/OutStream.cpp leave in the buffer.
use mathlib.Core.List.{append_assoc}
use boring.Prelude.{
  ℕ, ◌+◌, ◌-◌, ◌%◌, ◌≤◌, ◌<◌, ◌≡◌, refl, sym, ap, ◌∙◌, arith, inl, inr, List, ◌++◌, ltb, Bool-cases,
  length, take, drop, replicate, length-append, length-take, length-drop, length-replicate,
  take_all, drop_all, take-append, drop-append, take-append_le,
}
use boring.Outcome.{ok, fault, out_of_bounds}
use boring.Streams.Out.{
  OutStream, IsOpen, size_mod, resize, ensure_writeable_bytes, writeable_bytes, copy_to, append,
  reposition_out,
}

-- What has been written up to the cursor.
abbrev pub written : OutStream → List ℕ
written s = take s.curr_index s.buffer

resize-grow :
    (n : ℕ) (xs : List ℕ) → length xs ≤ n → resize n xs ≡ xs ++ replicate (n - length xs) 0
resize-grow n xs h = rw (take_all n xs h)

length-resize : (n : ℕ) (xs : List ℕ) → length (resize n xs) ≡ n
length-resize n xs = omega (
  arith,
  length-append (take n xs) (replicate (n - length xs) 0),
  length-take n xs,
  length-replicate {A = ℕ} (n - length xs) 0,
)

module _ (s : OutStream) (len : ℕ) (o : IsOpen s) (fits : s.curr_index + len < size_mod) where
  -- Enough room from the cursor on, the cursor unmoved, and the bytes up to it kept.
  record Ensured (t : OutStream) : Type 0 where
    room : s.curr_index + len ≤ length t.buffer
    cursor : t.curr_index ≡ s.curr_index
    before : take s.curr_index t.buffer ≡ take s.curr_index s.buffer
    behind : drop (s.curr_index + len) t.buffer ≡ drop (s.curr_index + len) s.buffer
    sized : length t.buffer < size_mod

  grown :
      length s.buffer < s.curr_index + len
      → Ensured (record s { buffer = resize (s.curr_index + len) s.buffer })
  grown short = record {
    room = omega (arith, length-resize (s.curr_index + len) s.buffer);
    cursor = refl;
    before =
        rw (resize-grow (s.curr_index + len) s.buffer (omega arith))
          (take-append_le s.curr_index s.buffer _ o.inside);
    behind = rw (drop_all (s.curr_index + len) s.buffer (omega arith)) (
        drop_all (s.curr_index + len) _
          (omega (arith, length-resize (s.curr_index + len) s.buffer)));
    sized = omega (arith, length-resize (s.curr_index + len) s.buffer);
  }

  kept : s.curr_index + len ≤ length s.buffer → Ensured s
  kept enough = record {
    room = enough;
    cursor = refl;
    before = refl;
    behind = refl;
    sized = o.sized;
  }

  writeable : writeable_bytes s ≡ length s.buffer - s.curr_index
  unfolding writeable_bytes
  writeable = omega (arith, o.inside, o.sized)

  ensure-Ensured : Ensured (ensure_writeable_bytes s len)
  unfolding ensure_writeable_bytes
  ensure-Ensured = elim (Bool-cases (ltb (writeable_bytes s) len)) [
    | inl short ↦
        let e : (s.curr_index + len) % size_mod ≡ s.curr_index + len = omega arith in
        rw (short, e) (grown (ground (arith, writeable)))
    | inr enough ↦ rw enough (kept (ground (arith, writeable)))
  ]

-- What an append of `bytes` to `s` leaves: `t` holds what was written before, then `bytes`, then
-- what the buffer held from there on.
pub record Appended (s : OutStream) (bytes : List ℕ) (t : OutStream) : Type 0 where
  pub is_open : IsOpen t
  pub moved : t.curr_index ≡ s.curr_index + length bytes
  pub holds : written t ≡ written s ++ bytes
  pub behind : drop t.curr_index t.buffer ≡ drop t.curr_index s.buffer

module _ (s : OutStream) (bytes : List ℕ) (o : IsOpen s)
    (fits : s.curr_index + length bytes < size_mod) where
  -- `front` is kept, `back` lies behind the copy.
  copied-Appended :
      (front back : List ℕ)
      → front ≡ written s
      → back ≡ drop (s.curr_index + length bytes) s.buffer
      → length front + length bytes + length back < size_mod
      → Appended s bytes
          (record { buffer = front ++ (bytes ++ back); curr_index = s.curr_index + length bytes })
  copied-Appended front back f b small =
      let n : length front ≡ s.curr_index =
        omega (arith, ap length f, length-take s.curr_index s.buffer, o.inside) in
      let m : s.curr_index + length bytes ≡ length (front ++ bytes) =
        omega (arith, length-append front bytes) in
      let total : length (front ++ (bytes ++ back)) ≡ length front + length bytes + length back =
        omega (arith, length-append front (bytes ++ back), length-append bytes back) in
      record {
        is_open = record { inside = omega (arith, total); sized = omega (arith, total) };
        moved = refl;
        holds =
            ap (take (s.curr_index + length bytes)) (sym (append_assoc front bytes back))
            ∙ take-append (s.curr_index + length bytes) (front ++ bytes) back m
            ∙ ap (λ (xs : List ℕ). xs ++ bytes) f;
        behind =
            ap (drop (s.curr_index + length bytes)) (sym (append_assoc front bytes back))
            ∙ drop-append (s.curr_index + length bytes) (front ++ bytes) back m
            ∙ b;
      }

  -- An append to an open stream, when the cursor and the length of the bytes together are below
  -- 2 ^ 32, succeeds: it leaves the stream open, puts the bytes behind all that was written up to the
  -- cursor, moves the cursor behind them, and changes nothing of the buffer from there on.
  pub append-Appended : (t : OutStream) × (append s bytes ≡ ok t) × Appended s bytes t
  append-Appended = (
    record { buffer = front ++ (bytes ++ back); curr_index = s.curr_index + length bytes },
    unfold append copy_to in ground (arith, e.room, e.cursor),
    copied-Appended front back (rw e.cursor e.before) (rw e.cursor e.behind) small,
  )
    where
      s' : OutStream
      s' = ensure_writeable_bytes s (length bytes)

      e : Ensured s (length bytes) o fits s'
      e = ensure-Ensured s (length bytes) o fits

      front : List ℕ
      front = take s'.curr_index s'.buffer

      back : List ℕ
      back = drop (s'.curr_index + length bytes) s'.buffer

      small : length front + length bytes + length back < size_mod
      small = omega (
        arith,
        length-take s'.curr_index s'.buffer,
        length-drop (s'.curr_index + length bytes) s'.buffer,
        e.room,
        e.cursor,
        e.sized,
      )

-- A cursor moved past the end of the buffer: the room is computed as a `size_t` that wraps, the
-- buffer is not grown, and the copy is out of bounds, for every append that fits the wrapped room.
pub append-reposition_past :
    (s : OutStream) (pos : ℕ) (bytes : List ℕ)
    → length s.buffer < pos
    → pos < size_mod
    → length bytes ≤ length s.buffer + size_mod - pos
    → append (reposition_out s pos) bytes ≡ fault out_of_bounds
unfolding append copy_to ensure_writeable_bytes writeable_bytes reposition_out
append-reposition_past s pos bytes past sized room = ground arith
