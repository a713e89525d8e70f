-- ===== src/Wire/Reader.antt =====
-- class Reader of src/proto/wire.ts: a buffer and a position. A method that may throw returns a
-- `Result`; one that returns normally gives its value and the reader moved on.
pub mod Unread
use tephra_js.Base.{
  ℕ, zero, suc, ◌+◌, ◌-◌, ◌*◌, ◌/◌, ◌%◌, ◌^◌, ◌<◌, ◌≡◌, Bool, not, bit_and, bit_or, ltb, leb, ◌==◌,
  if◌then◌else◌, Result, ok, err, ◌>>=◌, length, get_or, take, drop,
}
use tephra_js.Text.{Text, Bytes, decode_utf8}
use tephra_js.Wire.Number.{u64_mask, to_number, wire_varint, wire_fixed64, wire_len, wire_fixed32}

pub record Reader : Type 0 where
  pub buf : Bytes
  pub pos : ℕ

-- The errors thrown. `out_of_fuel` is none of the program's: it marks a loop of the model that was
-- given too few rounds.
pub data Fault : Type 0 where
  varint_truncated field_truncated out_of_fuel : Fault
  unsupported_wire_type : ℕ → Fault

abbrev pub Reads : Type 0 → Type 0
Reads A = Reader → Result Fault (A × Reader)

unfoldable pub new_reader : Bytes → Reader
new_reader buf = record { buf = buf; pos = 0 }

abbrev pub done : Reader → Bool
done r = leb (length r.buf) r.pos

abbrev pub advance : ℕ → Reader → Reader
advance n r = record r { pos = r.pos + n }

-- The loop of `varintBig`; each round reads one byte.
unfoldable pub varint_loop : ℕ → ℕ → ℕ → Reads ℕ
varint_loop zero result shift r = err out_of_fuel
varint_loop (suc fuel) result shift r =
    let byte = get_or r.buf r.pos 0 in
    let result' = bit_or result (bit_and byte 0x7f * 2 ^ shift) in
    let rest = varint_loop fuel result' (shift + 7) (advance 1 r) in
    if leb (length r.buf) r.pos
    then err varint_truncated
    else if bit_and byte 0x80 == 0
    then ok (bit_and result' u64_mask, advance 1 r)
    else rest

unfoldable pub varint_big : Reads ℕ
varint_big r = varint_loop (suc (length r.buf)) 0 0 r

-- `key >>> 3` and `key & 0x7` work on 32 bits of the key.
unfoldable pub tag : Reads (ℕ × ℕ)
tag r = do
  (v, r') ← varint_big r
  let key = to_number v % 2 ^ 32
  ok ((key / 8, bit_and key 0x7), r')

unfoldable pub varint : Reads ℕ
varint r = do (v, r') ← varint_big r; ok (to_number v, r')

unfoldable pub bool : Reads Bool
bool r = do (v, r') ← varint_big r; ok (not (v == 0), r')

-- `pos + len` is exact: a length that `Number` rounds lies far past the end of any buffer.
unfoldable pub bytes : Reads Bytes
bytes r = do
  (v, r') ← varint_big r
  let len = to_number v
  if ltb (length r'.buf) (r'.pos + len)
      then err field_truncated
      else ok (take len (drop r'.pos r'.buf), advance len r')

unfoldable pub string : Reads Text
string r = do (view, r') ← bytes r; ok (decode_utf8 view, r')

unfoldable pub message : Reads Reader
message r = do (view, r') ← bytes r; ok (new_reader view, r')

unfoldable pub skip : ℕ → Reader → Result Fault Reader
skip wire_type r =
    if wire_type == wire_varint
    then (do (_, r') ← varint_big r; ok r')
    else if wire_type == wire_fixed64
    then ok (advance 8 r)
    else if wire_type == wire_len
    then (do (len, r') ← varint_big r; ok (advance (to_number len) r'))
    else if wire_type == wire_fixed32
    then ok (advance 4 r)
    else err (unsupported_wire_type wire_type)
