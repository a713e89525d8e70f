-- ===== src/Wire/Writer/Methods.antt =====
-- What each public method of the writer adds, in terms of the wire format.
use tephra_js.Base.{
  ℕ, zero, suc, ◌+◌, ◌*◌, ◌/◌, ◌%◌, ◌^◌, ◌<◌, ◌≡◌, Bool, true, false, List, [], ◌∷◌, ◌++◌, bit_and,
  bit_or, ltb, leb, ◌==◌, if◌then◌else◌, length, arith, inl, inr, Bool-cases, Option, none, some,
}
use tephra_js.Base.Bits.{and_mask, or_shifted, shifted_or}
use tephra_js.Text.{Text, Bytes, encode_utf8}
use mathlib.Core.List.{flat_map}
use tephra_js.Wire.Number.{wire_varint, wire_len, and-u64_mask}
use tephra_js.Wire.Varint.{groups}
use tephra_js.Wire.Field
use tephra_js.Wire.Field.{key, u64_bytes}
use tephra_js.Wire.Writer.Appends.{
  Appends, Appends-none, Appends-then, push_byte-Appends, put_all-Appends,
}
use tephra_js.Wire.Writer.{
  Writer, push_byte, put_all, varint_loop, varint_big, varint, tag, uint64, uint64_present, bool,
  enum, uint32, bytes, string, message, repeated_string, each, when_some,
}

low_group : (v : ℕ) → bit_or (bit_and v 0x7f) 0x80 % 256 ≡ v % 128 + 128
low_group v = rw (and_mask 7 v) (omega (arith, shifted_or 7 1 (v % 128)))

varint_loop-Appends : (fuel v : ℕ) (w : Writer) → Appends (groups fuel v) w (varint_loop fuel v w)
unfolding varint_loop groups
varint_loop-Appends zero v w = Appends-none w
varint_loop-Appends (suc fuel) v w = elim (Bool-cases (ltb v 128)) [
  | inl last ↦ rw (last, at_end last) (rw (small last) at (push_byte-Appends v w))
  | inr more ↦
      rw (more, not_at_end more)
        (Appends-then (rw low_group at (push_byte-Appends (bit_or (bit_and v 0x7f) 0x80) w))
          (varint_loop-Appends fuel (v / 128) next))
]
  where
    next : Writer
    next = push_byte (bit_or (bit_and v 0x7f) 0x80) w

    at_end : ltb v 128 ≡ true → leb 0x80 v ≡ false
    at_end h = ground arith

    not_at_end : ltb v 128 ≡ false → leb 0x80 v ≡ true
    not_at_end h = ground arith

    small : ltb v 128 ≡ true → v % 256 ≡ v
    small h = ground arith

varint_big-Appends : (v : ℕ) (w : Writer) → Appends (u64_bytes v) w (varint_big v w)
unfolding varint_big
varint_big-Appends v w = rw (and-u64_mask v) (varint_loop-Appends 10 (v % 2 ^ 64) w)

-- A number below 2^64, in 32 bits or wider, is written in the one base-128 form.
varint-Appends : (v : ℕ) (w : Writer) → Appends (u64_bytes v) w (varint v w)
unfolding varint
varint-Appends v w = elim (Bool-cases (ltb 0xffff_ffff v)) [
  | inl wide ↦ rw wide (varint_big-Appends v w)
  | inr narrow ↦ rw (narrow, same narrow) (varint_loop-Appends 10 (v % 2 ^ 32) w)
]
  where
    same : ltb 0xffff_ffff v ≡ false → v % 2 ^ 64 ≡ v % 2 ^ 32
    same h = ground arith

tag-Appends : (f t : ℕ) (w : Writer) → f < 16 → t < 8 → Appends (key f t ∷ []) w (tag f t w)
unfolding tag
tag-Appends f t w hf ht = rw (or_shifted 3 f t ht) (rw one at (varint-Appends (f * 8 + t) w))
  where
    one : u64_bytes (f * 8 + t) ≡ key f t ∷ []
    one = unfold groups in ground arith

-- A tag followed by what `f` adds.
tagged-Appends :
    (f t : ℕ) (xs : Bytes) (w r : Writer)
    → f < 16
    → t < 8
    → Appends xs (tag f t w) r
    → Appends (key f t ∷ xs) w r
tagged-Appends f t xs w r hf ht h = Appends-then (tag-Appends f t w hf ht) h

block-Appends :
    (xs : Bytes) (w : Writer)
    → Appends (u64_bytes (length xs) ++ xs) w (put_all xs (varint (length xs) w))
block-Appends xs w =
    Appends-then (varint-Appends (length xs) w) (put_all-Appends xs (varint (length xs) w))

module _ (f : ℕ) (w : Writer) (low : f < 16) where
  pub uint64_present-Appends : (v : ℕ) → Appends (Field.present f v) w (uint64_present f v w)
  unfolding uint64_present
  uint64_present-Appends v =
      tagged-Appends f wire_varint _ w _ low (omega arith)
        (varint_big-Appends v (tag f wire_varint w))

  pub uint64-Appends : (v : ℕ) → Appends (Field.number f v) w (uint64 f v w)
  unfolding uint64
  uint64-Appends v = elim (Bool-cases (v == 0)) [
    | inl absent ↦ rw absent (Appends-none w)
    | inr set ↦ rw set (unfold uint64_present in uint64_present-Appends v)
  ]

  narrow-Appends :
      (v : ℕ) → Appends (Field.number f v) w (if v == 0 then w else varint v (tag f wire_varint w))
  narrow-Appends v = elim (Bool-cases (v == 0)) [
    | inl absent ↦ rw absent (Appends-none w)
    | inr set ↦ rw set (
        tagged-Appends f wire_varint _ w _ low (omega arith)
          (varint-Appends v (tag f wire_varint w)))
  ]

  pub enum-Appends : (v : ℕ) → Appends (Field.number f v) w (enum f v w)
  unfolding enum
  enum-Appends = narrow-Appends

  pub uint32-Appends : (v : ℕ) → Appends (Field.number f v) w (uint32 f v w)
  unfolding uint32
  uint32-Appends = narrow-Appends

  pub bool-Appends : (b : Bool) → Appends (Field.bool f b) w (bool f b w)
  unfolding bool
  bool-Appends true =
      tagged-Appends f wire_varint (1 ∷ []) w _ low (omega arith)
        (push_byte-Appends 1 (tag f wire_varint w))
  bool-Appends false = Appends-none w

  pub message-Appends : (xs : Bytes) → Appends (Field.message f xs) w (message f xs w)
  unfolding message
  message-Appends xs =
      tagged-Appends f wire_len _ w _ low (omega arith) (block-Appends xs (tag f wire_len w))

  pub bytes-Appends : (xs : Bytes) → Appends (Field.bytes f xs) w (bytes f xs w)
  unfolding bytes
  bytes-Appends xs = elim (Bool-cases (length xs == 0)) [
    | inl absent ↦ rw absent (Appends-none w)
    | inr set ↦ rw set (unfold message in message-Appends xs)
  ]

  pub string-Appends : (s : Text) → Appends (Field.string f s) w (string f s w)
  unfolding string
  string-Appends s = elim (Bool-cases (length s == 0)) [
    | inl absent ↦ rw absent (Appends-none w)
    | inr set ↦ rw set (bytes-Appends (encode_utf8 s))
  ]

  pub repeated_string-Appends :
      (s : Text) → Appends (Field.repeated_string f s) w (repeated_string f s w)
  unfolding repeated_string
  repeated_string-Appends s = unfold message in message-Appends (encode_utf8 s)

-- A method for each element adds the concatenation.
pub each-Appends {ℓ} :
    {A : Type ℓ} (field : A → Bytes) (f : A → Writer → Writer)
    → ((x : A) (w : Writer) → Appends (field x) w (f x w))
    → (xs : List A) (w : Writer) → Appends (flat_map field xs) w (each f xs w)
unfolding each flat_map
each-Appends field f h [] w = Appends-none w
each-Appends field f h (x ∷ xs) w = Appends-then (h x w) (each-Appends field f h xs (f x w))

pub when_some-Appends {ℓ} :
    {A : Type ℓ} (field : A → Bytes) (f : A → Writer → Writer)
    → ((x : A) (w : Writer) → Appends (field x) w (f x w))
    → (o : Option A) (w : Writer) → Appends (Field.optional field o) w (when_some f o w)
unfolding when_some
when_some-Appends field f h none w = Appends-none w
when_some-Appends field f h (some x) w = h x w
