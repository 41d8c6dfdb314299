-- ===== src/Streams.antt =====
-- base/OutStream and base/InStream: byte buffers with a cursor. `Out` and `In` are the two
-- classes; the other children prove what they do. `size_t` has 32 bits, as in the Win32 builds.
pub mod Out
pub mod In
pub mod Items
pub mod Writing
pub mod Reading
pub mod Wire
pub mod RoundTrip
mod Tests
