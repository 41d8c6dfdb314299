-- ===== src/Streams/Items.antt =====
-- The typed writes and reads of base/OutStream.cpp and base/InStream.cpp, one constructor for each
-- overload of `<<` and `>>`, and the bytes that a value is on the wire.
use boring.Prelude.{ℕ, ◌^◌, ◌<◌, List, [], ◌∷◌, ◌++◌}
use boring.Prelude.Int.{ℤ, to_pattern, InSigned}
use boring.Outcome.{Outcome, ok, ◌>>=◌}
use boring.Util.{Endian}
use boring.Util.Laws.{network}
use boring.Streams.Out.{
  OutStream, put_uint8, put_uint16, put_uint32, put_int8, put_int16, put_int32,
}
use boring.Streams.In.{InStream, get_uint8, get_uint16, get_uint32, get_int8, get_int16, get_int32}

-- The overloads of `<<` and `>>` that have a counterpart on the other side.
pub data Kind : Type 0 where
  uint8 uint16 uint32 int8 int16 int32 : Kind

pub data Item : Type 0 where
  u8 : ℕ → Item
  u16 : ℕ → Item
  u32 : ℕ → Item
  i8 : ℤ → Item
  i16 : ℤ → Item
  i32 : ℤ → Item

abbrev pub kind : Item → Kind
kind (u8 x) = uint8
kind (u16 x) = uint16
kind (u32 x) = uint32
kind (i8 x) = int8
kind (i16 x) = int16
kind (i32 x) = int32

abbrev pub size : Kind → ℕ
size uint8 = 1
size uint16 = 2
size uint32 = 4
size int8 = 1
size int16 = 2
size int32 = 4

-- The value is one of its C++ type.
abbrev pub InRange : Item → Type 0
InRange (u8 x) = x < 2 ^ 8
InRange (u16 x) = x < 2 ^ 16
InRange (u32 x) = x < 2 ^ 32
InRange (i8 x) = InSigned 8 x
InRange (i16 x) = InSigned 16 x
InRange (i32 x) = InSigned 32 x

unfoldable pub put : Endian → OutStream → Item → Outcome OutStream
put e s (u8 x) = put_uint8 s x
put e s (u16 x) = put_uint16 e s x
put e s (u32 x) = put_uint32 e s x
put e s (i8 x) = put_int8 s x
put e s (i16 x) = put_int16 e s x
put e s (i32 x) = put_int32 e s x

abbrev pub with {ℓ} : {A : Type ℓ} → (A → Item) → A × InStream → Outcome (Item × InStream)
with make (x, s) = ok (make x, s)

unfoldable pub get : Endian → Kind → InStream → Outcome (Item × InStream)
get e uint8 s = get_uint8 s >>= with u8
get e uint16 s = get_uint16 e s >>= with u16
get e uint32 s = get_uint32 e s >>= with u32
get e int8 s = get_int8 s >>= with i8
get e int16 s = get_int16 e s >>= with i16
get e int32 s = get_int32 e s >>= with i32

-- What an item is on the wire, with no host in it.
abbrev pub wire : Item → List ℕ
wire (u8 x) = network 1 x
wire (u16 x) = network 2 x
wire (u32 x) = network 4 x
wire (i8 x) = network 1 (to_pattern 8 x)
wire (i16 x) = network 2 (to_pattern 16 x)
wire (i32 x) = network 4 (to_pattern 32 x)

-- A sequence of writes, and of reads by the kinds that are expected.
unfoldable pub put_all : Endian → OutStream → List Item → Outcome OutStream
put_all e s [] = ok s
put_all e s (i ∷ is) = do s' ← put e s i; put_all e s' is

unfoldable pub get_all : Endian → InStream → List Kind → Outcome (List Item × InStream)
get_all e s [] = ok ([], s)
get_all e s (k ∷ ks) = do (i, s') ← get e k s; (is, t) ← get_all e s' ks; ok (i ∷ is, t)

abbrev pub wire_all : List Item → List ℕ
wire_all [] = []
wire_all (i ∷ is) = wire i ++ wire_all is
