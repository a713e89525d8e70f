-- ===== src/Wire/Field.antt =====
-- The wire format itself, independent of the buffer: the bytes of a field of each kind. A field
-- whose value is the default of proto3 takes no bytes, but for those written unconditionally.
use tephra_js.Base.{
  ℕ, ◌+◌, ◌*◌, ◌%◌, ◌^◌, Bool, [], ◌∷◌, ◌++◌, ◌==◌, if◌then◌else◌, length, Option, none, some,
}
use tephra_js.Text.{Text, Bytes, encode_utf8}
use tephra_js.Wire.Number.{wire_varint, wire_len}
use tephra_js.Wire.Varint.{varint_bytes}

-- The tag of a field: one byte for the field numbers below 16.
abbrev pub key : ℕ → ℕ → ℕ
key field_no wire_type = field_no * 8 + wire_type

abbrev pub u64_bytes : ℕ → Bytes
u64_bytes v = varint_bytes (v % 2 ^ 64)

abbrev pub present : ℕ → ℕ → Bytes
present f v = key f wire_varint ∷ u64_bytes v

abbrev pub number : ℕ → ℕ → Bytes
number f v = if v == 0 then [] else present f v

abbrev pub bool : ℕ → Bool → Bytes
bool f b = if b then key f wire_varint ∷ 1 ∷ [] else []

-- A block of bytes behind its length.
abbrev pub message : ℕ → Bytes → Bytes
message f xs = key f wire_len ∷ (u64_bytes (length xs) ++ xs)

abbrev pub bytes : ℕ → Bytes → Bytes
bytes f xs = if length xs == 0 then [] else message f xs

abbrev pub string : ℕ → Text → Bytes
string f s = if length s == 0 then [] else bytes f (encode_utf8 s)

abbrev pub repeated_string : ℕ → Text → Bytes
repeated_string f s = message f (encode_utf8 s)

abbrev pub optional {ℓ} : {A : Type ℓ} → (A → Bytes) → Option A → Bytes
optional field none = []
optional field (some x) = field x
