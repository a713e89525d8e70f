-- ===== src/Wire/Writer.antt =====
-- class Writer of src/proto/wire.ts. A typed array is the list of its bytes, its capacity the
-- list's length; a method takes the writer last and returns it changed.
pub mod Appends
pub mod Methods
use tephra_js.Base.{
  ℕ, zero, suc, ◌+◌, ◌*◌, ◌/◌, ◌%◌, ◌^◌, ◌≤◌, ◌<◌, Bool, true, false, not, List, [], ◌∷◌, bit_and,
  bit_or, ltb, leb, ◌==◌, if◌then◌else◌, length, replicate, take, Option, none, some,
}
use tephra_js.Text.{Text, Bytes, encode_utf8}
use tephra_js.Wire.Number.{u64_mask, wire_varint, wire_len}

pub record Writer : Type 0 where
  pub buf : Bytes
  pub len : ℕ

-- The constructor; the default capacity is 64.
unfoldable pub new_writer : ℕ → Writer
new_writer capacity = record { buf = replicate capacity 0; len = 0 }

-- `while (cap < needed) cap *= 2`. With a capacity above zero, `needed` rounds are enough.
unfoldable pub grow : ℕ → ℕ → ℕ → ℕ
grow zero cap needed = cap
grow (suc fuel) cap needed =
    let wider = grow fuel (cap * 2) needed in if ltb cap needed then wider else cap

-- `target.set(source, offset)`.
unfoldable pub blit : Bytes → ℕ → Bytes → Bytes
blit [] offset source = []
blit (b ∷ bs) (suc offset) source = b ∷ blit bs offset source
blit (b ∷ bs) zero [] = b ∷ bs
blit (b ∷ bs) zero (x ∷ xs) = x ∷ blit bs zero xs

unfoldable pub reserve : ℕ → Writer → Writer
reserve extra w =
    let needed = w.len + extra in
    let next = replicate (grow needed (length w.buf * 2) needed) 0 in
    if leb needed (length w.buf) then w else record w { buf = blit next 0 (take w.len w.buf) }

-- A typed array stores the low eight bits.
unfoldable pub push_byte : ℕ → Writer → Writer
push_byte byte w =
    let r = reserve 1 w in record { buf = blit r.buf r.len (byte % 256 ∷ []); len = r.len + 1 }

-- `reserve`, `set` and the step of `len`, which `bytes`, `message` and `repeatedString` share.
unfoldable pub put_all : Bytes → Writer → Writer
put_all value w =
    let r = reserve (length value) w in
    record { buf = blit r.buf r.len value; len = r.len + length value }

-- `while (v >= 0x80) { pushByte((v & 0x7f) | 0x80); v >>= 7; } pushByte(v)`.
unfoldable pub varint_loop : ℕ → ℕ → Writer → Writer
varint_loop zero v w = w
varint_loop (suc fuel) v w =
    let rest = varint_loop fuel (v / 128) (push_byte (bit_or (bit_and v 0x7f) 0x80) w) in
    if leb 0x80 v then rest else push_byte v w

-- Ten rounds write any uint64.
unfoldable pub varint_big : ℕ → Writer → Writer
varint_big value w = varint_loop 10 (bit_and value u64_mask) w

unfoldable pub varint : ℕ → Writer → Writer
varint value w =
    if ltb 0xffff_ffff value then varint_big value w else varint_loop 10 (value % 2 ^ 32) w

-- The schema's field numbers lie below 16, so `<<` does not leave 32 bits.
unfoldable pub tag : ℕ → ℕ → Writer → Writer
tag field_no wire_type w = varint (bit_or (field_no * 8) wire_type) w

unfoldable pub uint64 : ℕ → ℕ → Writer → Writer
uint64 field_no value w = if value == 0 then w else varint_big value (tag field_no wire_varint w)

unfoldable pub uint64_present : ℕ → ℕ → Writer → Writer
uint64_present field_no value w = varint_big value (tag field_no wire_varint w)

unfoldable pub bool : ℕ → Bool → Writer → Writer
bool field_no value w = if not value then w else push_byte 1 (tag field_no wire_varint w)

unfoldable pub enum : ℕ → ℕ → Writer → Writer
enum field_no value w = if value == 0 then w else varint value (tag field_no wire_varint w)

unfoldable pub uint32 : ℕ → ℕ → Writer → Writer
uint32 field_no value w = if value == 0 then w else varint value (tag field_no wire_varint w)

unfoldable pub bytes : ℕ → Bytes → Writer → Writer
bytes field_no value w =
    if length value == 0 then w else put_all value (varint (length value) (tag field_no wire_len w))

unfoldable pub string : ℕ → Text → Writer → Writer
string field_no value w = if length value == 0 then w else bytes field_no (encode_utf8 value) w

unfoldable pub message : ℕ → Bytes → Writer → Writer
message field_no value w = put_all value (varint (length value) (tag field_no wire_len w))

unfoldable pub repeated_string : ℕ → Text → Writer → Writer
repeated_string field_no value w =
    let encoded = encode_utf8 value in
    put_all encoded (varint (length encoded) (tag field_no wire_len w))

unfoldable pub finish : Writer → Bytes
finish w = take w.len w.buf

-- `w.method(…)`, and a method for each element of a list.
infixl 3 ◌▷◌
abbrev pub ◌▷◌ : Writer → (Writer → Writer) → Writer
w ▷ f = f w

unfoldable pub each {ℓ} : {A : Type ℓ} → (A → Writer → Writer) → List A → Writer → Writer
each f [] w = w
each f (x ∷ xs) w = each f xs (f x w)

-- `if (value !== undefined) …`.
unfoldable pub when_some {ℓ} : {A : Type ℓ} → (A → Writer → Writer) → Option A → Writer → Writer
when_some f none w = w
when_some f (some x) w = f x w
