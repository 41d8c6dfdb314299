-- ===== src/Streams/Out.antt =====
-- base/OutStream.cpp and base/OutStream.h.
use boring.Prelude.{
  ℕ, ◌+◌, ◌-◌, ◌%◌, ◌^◌, ◌≤◌, ◌<◌, List, [], ◌∷◌, ◌++◌, ltb, leb, if◌then◌else◌, length, take, drop,
  replicate,
}
use boring.Prelude.Int.{ℤ, to_pattern}
use boring.Outcome.{Outcome, ok, fault, out_of_bounds, ◌>>=◌}
use boring.Util.{Endian, stored, hton16, hton32}

pub record OutStream : Type 0 where
  pub buffer : List ℕ
  pub curr_index : ℕ

-- `size_t` arithmetic.
abbrev pub size_mod : ℕ
size_mod = 2 ^ 32

abbrev pub size_sub : ℕ → ℕ → ℕ
size_sub a b = (a + size_mod - b) % size_mod

-- `m_currIndex` is inside the buffer, and the buffer's size is a `size_t`.
pub record IsOpen (s : OutStream) : Type 0 where
  pub inside : s.curr_index ≤ length s.buffer
  pub sized : length s.buffer < size_mod

-- `std::vector::resize`, new bytes zero.
abbrev pub resize : ℕ → List ℕ → List ℕ
resize n xs = take n xs ++ replicate (n - length xs) 0

abbrev pub initial_size : ℕ
initial_size = 1024

unfoldable pub new_out : OutStream
new_out = record { buffer = replicate initial_size 0; curr_index = 0 }

unfoldable pub writeable_bytes : OutStream → ℕ
writeable_bytes s = size_sub (length s.buffer) s.curr_index

unfoldable pub ensure_writeable_bytes : OutStream → ℕ → OutStream
unfolding writeable_bytes
ensure_writeable_bytes s len =
    if ltb (writeable_bytes s) len
    then record s { buffer = resize ((s.curr_index + len) % size_mod) s.buffer }
    else s

-- `std::copy` of `bytes` to `begin() + pos`, out of bounds unless all of it fits.
unfoldable pub copy_to : List ℕ → ℕ → List ℕ → Outcome (List ℕ)
copy_to bytes pos buf =
    if leb (pos + length bytes) (length buf)
    then ok (take pos buf ++ (bytes ++ drop (pos + length bytes) buf))
    else fault out_of_bounds

-- `bytes` is what the caller's `data` and `len` denote.
unfoldable pub append : OutStream → List ℕ → Outcome OutStream
append s bytes = do
  let s' = ensure_writeable_bytes s (length bytes)
  buf ← copy_to bytes s'.curr_index s'.buffer
  ok (record { buffer = buf; curr_index = (s'.curr_index + length bytes) % size_mod })

unfoldable pub put_uint8 : OutStream → ℕ → Outcome OutStream
put_uint8 s value = append s (value ∷ [])

unfoldable pub put_uint16 : Endian → OutStream → ℕ → Outcome OutStream
put_uint16 e s value = let byte16 = hton16 e value in append s (stored e 2 byte16)

unfoldable pub put_uint32 : Endian → OutStream → ℕ → Outcome OutStream
put_uint32 e s value = let byte32 = hton32 e value in append s (stored e 4 byte32)

-- A signed value is passed to `hton16` and `hton32` as its bit pattern.
unfoldable pub put_int8 : OutStream → ℤ → Outcome OutStream
put_int8 s value = append s (to_pattern 8 value ∷ [])

unfoldable pub put_int16 : Endian → OutStream → ℤ → Outcome OutStream
put_int16 e s value = let byte16 = hton16 e (to_pattern 16 value) in append s (stored e 2 byte16)

unfoldable pub put_int32 : Endian → OutStream → ℤ → Outcome OutStream
put_int32 e s value = let byte32 = hton32 e (to_pattern 32 value) in append s (stored e 4 byte32)

-- The length goes out as a `uint16`, and only that many bytes follow.
unfoldable pub put_string : Endian → OutStream → List ℕ → Outcome OutStream
unfolding put_uint16
put_string e s str = do
  let len = length str % 2 ^ 16
  s' ← put_uint16 e s len
  append s' (take len str)

unfoldable pub write_bytes : OutStream → List ℕ → Outcome OutStream
write_bytes s bytes = append s bytes

unfoldable pub reposition_out : OutStream → ℕ → OutStream
reposition_out s pos = record s { curr_index = pos }

unfoldable pub skip_out : OutStream → ℕ → OutStream
unfolding ensure_writeable_bytes
skip_out s len =
    let s' = ensure_writeable_bytes s len in
    record s' { curr_index = (s'.curr_index + len) % size_mod }

unfoldable pub clear_out : OutStream → OutStream
clear_out s = record { buffer = []; curr_index = 0 }

-- `&*m_buffer.begin()`, which an empty vector does not allow.
unfoldable pub out_data : OutStream → Outcome (List ℕ)
out_data s = elim s.buffer [ [] ↦ fault out_of_bounds | b ∷ bs ↦ ok (b ∷ bs) ]

unfoldable pub out_length : OutStream → ℕ
out_length s = s.curr_index
