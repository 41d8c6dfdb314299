-- ===== src/Streams/In.antt =====
-- base/InStream.cpp and base/InStream.h. The state after a read is returned beside the value.
use boring.Prelude.{ℕ, ◌+◌, ◌*◌, ◌%◌, List, [], ◌∷◌, ltb, leb, if◌then◌else◌, length, take, drop}
use boring.Prelude.Int.{ℤ, of_pattern}
use mathlib.Core.List.{reverse}
use boring.Outcome.{Outcome, ok, fault, assertion, out_of_bounds, require, ◌>>=◌, ◌>>◌}
use boring.Streams.Out.{size_mod, size_sub}
use boring.Util.{Endian, little, big, hton16, hton32}

pub record InStream : Type 0 where
  pub buffer : List ℕ
  pub curr_index : ℕ

unfoldable pub new_in : InStream
new_in = record { buffer = []; curr_index = 0 }

-- `bytes` is what the caller's `data` and `len` denote.
unfoldable pub set_data : InStream → List ℕ → InStream
set_data s bytes = record { buffer = bytes; curr_index = 0 }

unfoldable pub readable_bytes : InStream → ℕ
readable_bytes s = size_sub (length s.buffer) s.curr_index

-- The `n` bytes at `Peek()`.
unfoldable pub peek : InStream → ℕ → Outcome (List ℕ)
peek s n =
    if leb (s.curr_index + n) (length s.buffer)
    then ok (take n (drop s.curr_index s.buffer))
    else fault out_of_bounds

abbrev pub advance : InStream → ℕ → InStream
advance s n = record s { curr_index = (s.curr_index + n) % size_mod }

abbrev of_low_bytes : List ℕ → ℕ
of_low_bytes [] = 0
of_low_bytes (b ∷ bs) = b + 256 * of_low_bytes bs

-- The number that the host reads from its bytes in memory.
abbrev pub loaded : Endian → List ℕ → ℕ
loaded little bs = of_low_bytes bs
loaded big bs = of_low_bytes (reverse bs)

unfoldable pub get_uint8 : InStream → Outcome (ℕ × InStream)
get_uint8 s = do
  require (leb 1 (readable_bytes s)) assertion
  bytes ← peek s 1
  ok (loaded little bytes, advance s 1)

unfoldable pub get_uint16 : Endian → InStream → Outcome (ℕ × InStream)
get_uint16 e s = do
  require (leb 2 (readable_bytes s)) assertion
  bytes ← peek s 2
  ok (hton16 e (loaded e bytes), advance s 2)

unfoldable pub get_uint32 : Endian → InStream → Outcome (ℕ × InStream)
get_uint32 e s = do
  require (leb 4 (readable_bytes s)) assertion
  bytes ← peek s 4
  ok (hton32 e (loaded e bytes), advance s 4)

unfoldable pub get_int8 : InStream → Outcome (ℤ × InStream)
get_int8 s = do
  require (leb 1 (readable_bytes s)) assertion
  bytes ← peek s 1
  ok (of_pattern 8 (loaded little bytes), advance s 1)

unfoldable pub get_int16 : Endian → InStream → Outcome (ℤ × InStream)
get_int16 e s = do
  require (leb 2 (readable_bytes s)) assertion
  bytes ← peek s 2
  ok (of_pattern 16 (hton16 e (loaded e bytes)), advance s 2)

unfoldable pub get_int32 : Endian → InStream → Outcome (ℤ × InStream)
get_int32 e s = do
  require (leb 4 (readable_bytes s)) assertion
  bytes ← peek s 4
  ok (of_pattern 32 (hton32 e (loaded e bytes)), advance s 4)

unfoldable pub reposition_in : InStream → ℕ → InStream
reposition_in s pos = record s { curr_index = pos }

unfoldable pub skip_in : InStream → ℕ → Outcome InStream
skip_in s len = do require (ltb len (readable_bytes s)) assertion; ok (advance s len)

unfoldable pub read_bytes : InStream → ℕ → Outcome (List ℕ × InStream)
read_bytes s len = do
  require (leb len (readable_bytes s)) assertion
  bytes ← peek s len
  ok (bytes, advance s len)
