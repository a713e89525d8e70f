-- ===== src/Wire.antt =====
-- src/proto/wire.ts: the protobuf codec. `Writer` is the growable buffer, `Reader` the cursor, and
-- `Varint` the numbers that both agree on; `Fields` is the loop of every decoder.
pub mod Number
pub mod Varint
pub mod Field
pub mod Writer
pub mod Reader
pub mod Fields
