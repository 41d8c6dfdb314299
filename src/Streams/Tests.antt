-- ===== src/Streams/Tests.antt =====
-- The streams of base/OutStream.cpp and base/InStream.cpp on single inputs.
use boring.Prelude.{◌≤◌, ◌<◌, ◌≡◌, ◌⊎◌, arith, List, [], ◌∷◌, map, length, take, drop}
use boring.Prelude.Int.{negsuc}
use boring.Outcome.{ok, fault, assertion, out_of_bounds}
use boring.Util.{little, big}
use boring.Streams.Out.{OutStream, IsOpen, new_out, append, put_string, reposition_out}
use boring.Streams.In.{InStream, new_in, set_data, advance, read_bytes, skip_in, get_uint16}
use boring.Streams.Items.{Item, u8, u16, i32, kind, put_all, get_all}
use boring.Streams.Writing.{written, Appended, append-Appended, append-reposition_past}
use boring.Streams.Reading.{IsOpenIn, unread, read_bytes-unread, skip_in-unread}
use boring.Streams.RoundTrip.{get_all-put_all, read_bytes-put_string}

abbrev three_out : OutStream
three_out = record { buffer = 1 ∷ 2 ∷ 3 ∷ []; curr_index = 1 }

three_out-IsOpen : IsOpen three_out
three_out-IsOpen = record { inside = omega arith; sized = omega arith }

append-Appended_example :
    (t : OutStream) × (append three_out (9 ∷ 8 ∷ 7 ∷ []) ≡ ok t)
    × Appended three_out (9 ∷ 8 ∷ 7 ∷ []) t
append-Appended_example = append-Appended three_out (9 ∷ 8 ∷ 7 ∷ []) three_out-IsOpen (omega arith)

append-reposition_past_example : append (reposition_out three_out 5) (9 ∷ []) ≡ fault out_of_bounds
append-reposition_past_example =
    append-reposition_past three_out 5 (9 ∷ []) (omega arith) (omega arith) (omega arith)

abbrev three_in : InStream
three_in = record { buffer = 1 ∷ 2 ∷ 3 ∷ []; curr_index = 1 }

three_in-IsOpen : IsOpenIn three_in
three_in-IsOpen = record { inside = omega arith; sized = omega arith }

read_bytes-unread_example :
    ((2 ≤ length (unread three_in))
      × (read_bytes three_in 2 ≡ ok (take 2 (unread three_in), advance three_in 2))
      × (unread (advance three_in 2) ≡ drop 2 (unread three_in))
      × IsOpenIn (advance three_in 2))
    ⊎ ((length (unread three_in) < 2) × (read_bytes three_in 2 ≡ fault assertion))
read_bytes-unread_example = read_bytes-unread three_in three_in-IsOpen 2

skip_in-unread_applied :
    ((2 < length (unread three_in))
      × (skip_in three_in 2 ≡ ok (advance three_in 2))
      × (unread (advance three_in 2) ≡ drop 2 (unread three_in)))
    ⊎ ((length (unread three_in) ≤ 2) × (skip_in three_in 2 ≡ fault assertion))
skip_in-unread_applied = skip_in-unread three_in three_in-IsOpen 2

abbrev items : List Item
items = u16 0x1234 ∷ i32 (negsuc 4) ∷ u8 7 ∷ []

get_all-put_all_example :
    (t : OutStream) × (u : InStream) × (put_all little new_out items ≡ ok t)
    × (get_all big (set_data new_in (written t)) (map kind items) ≡ ok (items, u))
    × (unread u ≡ [])
get_all-put_all_example =
    get_all-put_all little big items (omega arith, (omega arith, (omega arith, tt))) (omega arith)

read_bytes-put_string_example :
    (t : OutStream) × (u v : InStream) × (put_string little new_out (104 ∷ 105 ∷ []) ≡ ok t)
    × (get_uint16 big (set_data new_in (written t)) ≡ ok (2, u))
    × (read_bytes u 2 ≡ ok (104 ∷ 105 ∷ [], v))
    × (unread v ≡ [])
read_bytes-put_string_example = read_bytes-put_string little big (104 ∷ 105 ∷ []) (omega arith)
