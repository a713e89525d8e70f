-- ===== src/Text/RoundTrip.antt =====
-- decodeUtf8 of src/proto/wire.ts on what encodeUtf8 wrote.
use tephra_js.Base.{
  ℕ, ◌+◌, ◌-◌, ◌*◌, ◌/◌, ◌%◌, ◌≤◌, ◌<◌, ◌≡◌, refl, sym, ap, ◌∙◌, false, ◌==◌, if◌then◌else◌, Option,
  none, some, List, [], ◌∷◌, ◌++◌, arith, All,
}
use tephra_js.Text.{
  Text, Bytes, IsText, is_marked, scalars, scalars_from, char_bytes, encode_utf8, Partial,
  decode_from, strip_bom, char_units, decode_utf8,
}
use tephra_js.Text.Scalars.{IsScalar, scalars-IsScalar, char_units-scalars}
use mathlib.Core.List.{flat_map}

abbrev partial_of : ℕ → ℕ → ℕ → ℕ → Option Partial
partial_of bits more lower upper =
    some (record { bits = bits; more = more; lower = lower; upper = upper })

abbrev Within : ℕ → ℕ → ℕ → Type 0
Within lower upper b = (lower ≤ b) × (b ≤ upper)

-- The last byte of a character, and one before it.
last_byte :
    (bits lower upper b : ℕ) (rest : Bytes)
    → Within lower upper b
    → decode_from (partial_of bits 1 lower upper) (b ∷ rest)
      ≡ (bits * 0x40 + (b - 0x80)) ∷ decode_from none rest
unfolding decode_from
last_byte bits lower upper b rest h = ground arith

inner_byte :
    (bits k lower upper b : ℕ) (rest : Bytes)
    → Within lower upper b
    → decode_from (partial_of bits (k + 2) lower upper) (b ∷ rest)
      ≡ decode_from (partial_of (bits * 0x40 + (b - 0x80)) (k + 1) 0x80 0xbf) rest
unfolding decode_from
inner_byte bits k lower upper b rest h = ground arith

abbrev lower3 : ℕ → ℕ
lower3 q = if q == 0 then 0xa0 else 0x80

abbrev upper3 : ℕ → ℕ
upper3 q = if q == 0xd then 0x9f else 0xbf

abbrev lower4 : ℕ → ℕ
lower4 q = if q == 0 then 0x90 else 0x80

abbrev upper4 : ℕ → ℕ
upper4 q = if q == 4 then 0x8f else 0xbf

-- The first byte of two, of three and of four.
first_of_two :
    (q : ℕ) (rest : Bytes)
    → 2 ≤ q
    → q < 0x20
    → decode_from none ((0xc0 + q) ∷ rest) ≡ decode_from (partial_of q 1 0x80 0xbf) rest
unfolding decode_from
first_of_two q rest h k = ground arith

first_of_three :
    (q : ℕ) (rest : Bytes)
    → q < 0x10
    → decode_from none ((0xe0 + q) ∷ rest) ≡ decode_from (partial_of q 2 (lower3 q) (upper3 q)) rest
unfolding decode_from
first_of_three q rest h = ground arith

first_of_four :
    (q : ℕ) (rest : Bytes)
    → q < 5
    → decode_from none ((0xf0 + q) ∷ rest) ≡ decode_from (partial_of q 3 (lower4 q) (upper4 q)) rest
unfolding decode_from
first_of_four q rest h = ground arith

abbrev tail_byte : ℕ → ℕ
tail_byte n = 0x80 + n % 0x40

two_bytes :
    (c : ℕ) (rest : Bytes)
    → 0x80 ≤ c
    → c < 0x800
    → decode_from none ((0xc0 + c / 0x40) ∷ tail_byte c ∷ rest) ≡ c ∷ decode_from none rest
two_bytes c rest h k =
    first_of_two (c / 0x40) (tail_byte c ∷ rest) (omega arith) (omega arith)
    ∙ last_byte (c / 0x40) 0x80 0xbf (tail_byte c) rest (omega arith)
    ∙ ap (λ n. n ∷ decode_from none rest) (omega arith)

three_bytes :
    (c : ℕ) (rest : Bytes)
    → IsScalar c
    → 0x800 ≤ c
    → c < 0x10000
    → decode_from none ((0xe0 + c / 0x1000) ∷ tail_byte (c / 0x40) ∷ tail_byte c ∷ rest)
      ≡ c ∷ decode_from none rest
three_bytes c rest s h k =
    let q = c / 0x1000 in
    first_of_three q (tail_byte (c / 0x40) ∷ tail_byte c ∷ rest) (omega arith)
    ∙ inner_byte q 0 (lower3 q) (upper3 q) (tail_byte (c / 0x40)) (tail_byte c ∷ rest)
        (ground arith)
    ∙ last_byte (q * 0x40 + (tail_byte (c / 0x40) - 0x80)) 0x80 0xbf (tail_byte c) rest
        (omega arith)
    ∙ ap (λ n. n ∷ decode_from none rest) (omega arith)

four_bytes :
    (c : ℕ) (rest : Bytes)
    → 0x10000 ≤ c
    → c < 0x110000
    → decode_from none
        ((0xf0 + c / 0x40000) ∷ tail_byte (c / 0x1000) ∷ tail_byte (c / 0x40) ∷ tail_byte c ∷ rest)
      ≡ c ∷ decode_from none rest
four_bytes c rest h k =
    let q = c / 0x40000 in
    let r = q * 0x40 + (tail_byte (c / 0x1000) - 0x80) in
    first_of_four q (tail_byte (c / 0x1000) ∷ tail_byte (c / 0x40) ∷ tail_byte c ∷ rest)
      (omega arith)
    ∙ inner_byte q 1 (lower4 q) (upper4 q) (tail_byte (c / 0x1000))
        (tail_byte (c / 0x40) ∷ tail_byte c ∷ rest) (ground arith)
    ∙ inner_byte r 0 0x80 0xbf (tail_byte (c / 0x40)) (tail_byte c ∷ rest) (omega arith)
    ∙ last_byte (r * 0x40 + (tail_byte (c / 0x40) - 0x80)) 0x80 0xbf (tail_byte c) rest
        (omega arith)
    ∙ ap (λ n. n ∷ decode_from none rest) (omega arith)

one_byte :
    (c : ℕ) (rest : Bytes) → c < 0x80 → decode_from none (c ∷ rest) ≡ c ∷ decode_from none rest
unfolding decode_from
one_byte c rest h = ground arith

-- The bytes of one scalar value are read as that value, whatever follows.
decode_from-char_bytes :
    (c : ℕ) (rest : Bytes)
    → IsScalar c
    → decode_from none (char_bytes c ++ rest) ≡ c ∷ decode_from none rest
unfolding char_bytes
decode_from-char_bytes c rest h =
    ground (arith, one_byte c rest, two_bytes c rest, three_bytes c rest h, four_bytes c rest)

decode_from-flat_map :
    (cs : List ℕ) → All IsScalar cs → decode_from none (flat_map char_bytes cs) ≡ cs
unfolding flat_map
decode_from-flat_map [] h = unfold decode_from in refl
decode_from-flat_map (c ∷ cs) h =
    decode_from-char_bytes c (flat_map char_bytes cs) h.0 ∙ ap (◌∷◌ c) (decode_from-flat_map cs h.1)

-- For every string of 16-bit code units, decoding its encoded bytes gives its scalar values with
-- each lone surrogate replaced by U+FFFD and one leading byte order mark taken off.
pub decode_utf8-encode_utf8 :
    (s : Text)
    → All (λ u. u < 0x10000) s
    → decode_utf8 (encode_utf8 s) ≡ flat_map char_units (strip_bom (scalars s))
unfolding decode_utf8 encode_utf8
decode_utf8-encode_utf8 s a =
    ap (λ cs. flat_map char_units (strip_bom cs))
      (decode_from-flat_map (scalars s) (scalars-IsScalar s a))

strip_bom-held : (h : ℕ) (s : Text) → strip_bom (scalars_from (some h) s) ≡ scalars_from (some h) s
unfolding strip_bom scalars_from
strip_bom-held h [] = refl
strip_bom-held h (u ∷ us) = ground arith

strip_bom-scalars : (s : Text) → is_marked s ≡ false → strip_bom (scalars s) ≡ scalars s
unfolding strip_bom scalars
strip_bom-scalars [] e = refl
strip_bom-scalars (u ∷ us) e = ground (arith, strip_bom-held u us)

-- A well-formed string that does not begin with a byte order mark comes back unchanged from its
-- encoded bytes.
pub decode_utf8_inverse : (s : Text) → IsText s → decode_utf8 (encode_utf8 s) ≡ s
decode_utf8_inverse s t =
    decode_utf8-encode_utf8 s t.units
    ∙ ap (flat_map char_units) (strip_bom-scalars s t.unmarked)
    ∙ char_units-scalars s t.units t.paired

-- Such a text takes bytes unless it is empty.
pub empty-encode_utf8 : (s : Text) → IsText s → encode_utf8 s ≡ [] → s ≡ []
unfolding flat_map
empty-encode_utf8 s t e =
    sym (decode_utf8_inverse s t) ∙ ap decode_utf8 e ∙ unfold decode_utf8 in refl
