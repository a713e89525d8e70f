-- ===== src/Wire/Fields.antt =====
-- The loop that every decoder of src/proto/messages.ts has: while the reader is not done, read a
-- tag and let the message's switch, `step`, take the field.
pub mod Rules
pub mod Total
use tephra_js.Base.{
  ℕ, zero, suc, ◌+◌, ◌≤◌, ◌<◌, ◌≡◌, refl, ap, ◌∙◌, List, [], ◌∷◌, ◌++◌, append_assoc, length,
  length-append, length-drop, Result, ok, err, ◌>>=◌, if◌then◌else◌, leb, Bool, true, false, not,
  ◌==◌, arith, drop_all, ◌%◌, ◌^◌, append-nil, sym, subst, le→leb, drop-nil, length-eq-zero, ==→eq,
  All,
}
use mathlib.Core.List.{flat_map}
use tephra_js.Text.{Text, Bytes, IsText, encode_utf8}
use tephra_js.Text.RoundTrip.{empty-encode_utf8}
use tephra_js.Wire.Number.{IsU64, IsSafe, wire_varint, wire_len}
use tephra_js.Wire.Field
use tephra_js.Wire.Field.{key, u64_bytes}
use tephra_js.Wire.Reader.{Reader, Fault, Reads, out_of_fuel, done, tag, new_reader}
use tephra_js.Wire.Reader
use tephra_js.Wire.Reader.Unread.{
  unread, Faces, next-byte, Finds, tag-Finds, varint_big-Finds, varint-Finds, bool-Finds,
  bytes-Finds, string-Finds, message-Finds,
}

-- A message's switch: field number, wire type, what is decoded so far.
abbrev pub Step : Type 0 → Type 0
Step M = ℕ → ℕ → M → Reader → Result Fault (M × Reader)

-- `m.field = r.method()`.
abbrev pub store : {A M : Type 0} → (A → M) → Result Fault (A × Reader) → Result Fault (M × Reader)
store set read = do (a, r) ← read; ok (set a, r)

-- `decodeX(r.message())`.
abbrev pub nested : {A : Type 0} → (Reader → Result Fault A) → Reads A
nested decode r = do (body, r') ← Reader.message r; a ← decode body; ok (a, r')

-- `default: r.skip(wireType)`.
abbrev pub skipping : {M : Type 0} → ℕ → M → Reader → Result Fault (M × Reader)
skipping wire_type m r = do r' ← Reader.skip wire_type r; ok (m, r')

unfoldable pub fields : {M : Type 0} → Step M → ℕ → M → Reader → Result Fault M
fields step zero m r = err out_of_fuel
fields step (suc fuel) m r =
    let rest = (do
      ((field_no, wire_type), r') ← tag r
      (m', r'') ← step field_no wire_type m r'
      fields step fuel m' r'') in
    if done r then ok m else rest

-- Each round reads a byte at least, so one round more than the buffer has bytes is given.
unfoldable pub decode_fields : {M : Type 0} → Step M → M → Reader → Result Fault M
unfolding fields
decode_fields step m r = fields step (suc (length r.buf)) m r
