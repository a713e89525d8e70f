-- ===== src/Text.antt =====
-- JavaScript strings and the two codecs of src/proto/wire.ts that convert them: `encodeUtf8`
-- (TextEncoder) and `decodeUtf8` (TextDecoder, not fatal, with a byte order mark taken off), by
-- the algorithms of the Encoding Standard. A string is the list of its UTF-16 code units.
pub mod Scalars
pub mod RoundTrip
use tephra_js.Base.{
  ℕ, suc, ◌+◌, ◌-◌, ◌*◌, ◌/◌, ◌%◌, ◌≤◌, ◌<◌, Bool, true, false, ◌&&◌, Option, none, some, List, [],
  ◌∷◌, ◌++◌, ltb, leb, ◌==◌, if◌then◌else◌, All, ◌≡◌,
}
use mathlib.Core.List.{flat_map}

abbrev pub Text : Type 0
Text = List ℕ

abbrev pub Bytes : Type 0
Bytes = List ℕ

-- U+FFFD, which stands in for what cannot be converted.
abbrev pub replacement : ℕ
replacement = 0xfffd

abbrev pub is_high : ℕ → Bool
is_high u = leb 0xd800 u && leb u 0xdbff

abbrev pub is_low : ℕ → Bool
is_low u = leb 0xdc00 u && leb u 0xdfff

-- A surrogate pair as the code point it stands for.
abbrev pub join : ℕ → ℕ → ℕ
join h l = 0x10000 + (h - 0xd800) * 0x400 + (l - 0xdc00)

-- One code unit, read with the high surrogate that waits for its partner.
unfoldable pub unit_step : Option ℕ → ℕ → List ℕ × Option ℕ
unit_step none u =
    if is_high u
    then ([], some u)
    else if is_low u
    then (replacement ∷ [], none)
    else (u ∷ [], none)
unit_step (some h) u =
    if is_low u
    then (join h u ∷ [], none)
    else if is_high u
    then (replacement ∷ [], some u)
    else (replacement ∷ u ∷ [], none)

-- The scalar values of a string: a lone surrogate becomes U+FFFD.
unfoldable pub scalars_from : Option ℕ → Text → List ℕ
unfolding unit_step
scalars_from none [] = []
scalars_from (some h) [] = replacement ∷ []
scalars_from p (u ∷ us) = (unit_step p u).0 ++ scalars_from (unit_step p u).1 us

unfoldable pub scalars : Text → List ℕ
unfolding scalars_from
scalars s = scalars_from none s

-- The bytes of one scalar value.
unfoldable pub char_bytes : ℕ → Bytes
char_bytes c =
    if ltb c 0x80
    then c ∷ []
    else if ltb c 0x800
    then (0xc0 + c / 0x40) ∷ (0x80 + c % 0x40) ∷ []
    else if ltb c 0x10000
    then (0xe0 + c / 0x1000) ∷ (0x80 + c / 0x40 % 0x40) ∷ (0x80 + c % 0x40) ∷ []
    else (0xf0 + c / 0x40000)
      ∷ (0x80 + c / 0x1000 % 0x40)
      ∷ (0x80 + c / 0x40 % 0x40)
      ∷ (0x80 + c % 0x40)
      ∷ []

unfoldable pub encode_utf8 : Text → Bytes
unfolding char_bytes scalars
encode_utf8 s = flat_map char_bytes (scalars s)

-- What the decoder holds inside a character: the bits so far, how many bytes are still to come,
-- and the range of the next byte.
pub record Partial : Type 0 where
  pub bits : ℕ
  pub more : ℕ
  pub lower : ℕ
  pub upper : ℕ

abbrev expecting : ℕ → ℕ → ℕ → ℕ → List ℕ × Option Partial
expecting bits more lower upper =
    ([], some (record { bits = bits; more = more; lower = lower; upper = upper }))

-- A byte at the start of a character.
unfoldable pub first_byte : ℕ → List ℕ × Option Partial
first_byte b =
    if ltb b 0x80
    then (b ∷ [], none)
    else if ltb b 0xc2
    then (replacement ∷ [], none)
    else if ltb b 0xe0
    then expecting (b - 0xc0) 1 0x80 0xbf
    else if ltb b 0xf0
    then expecting (b - 0xe0) 2 (if b == 0xe0 then 0xa0 else 0x80)
        (if b == 0xed then 0x9f else 0xbf)
    else if ltb b 0xf5
    then expecting (b - 0xf0) 3 (if b == 0xf0 then 0x90 else 0x80)
        (if b == 0xf4 then 0x8f else 0xbf)
    else (replacement ∷ [], none)

-- A byte inside a character. One out of range ends the character and is read again as a first byte.
unfoldable pub next_byte : Option Partial → ℕ → List ℕ × Option Partial
unfolding first_byte
next_byte none b = first_byte b
next_byte (some p) b =
    let bits = p.bits * 0x40 + (b - 0x80) in
    if leb p.lower b && leb b p.upper
    then if p.more == 1 then (bits ∷ [], none) else expecting bits (p.more - 1) 0x80 0xbf
    else (replacement ∷ (first_byte b).0, (first_byte b).1)

unfoldable pub decode_from : Option Partial → Bytes → List ℕ
unfolding next_byte
decode_from none [] = []
decode_from (some p) [] = replacement ∷ []
decode_from p (b ∷ bs) = (next_byte p b).0 ++ decode_from (next_byte p b).1 bs

-- A byte order mark at the start is not part of the text.
unfoldable pub strip_bom : List ℕ → List ℕ
strip_bom [] = []
strip_bom (c ∷ cs) = if c == 0xfeff then cs else c ∷ cs

-- The code units of one scalar value.
unfoldable pub char_units : ℕ → Text
char_units c =
    if ltb c 0x10000
    then c ∷ []
    else (0xd800 + (c - 0x10000) / 0x400) ∷ (0xdc00 + (c - 0x10000) % 0x400) ∷ []

unfoldable pub decode_utf8 : Bytes → Text
unfolding decode_from strip_bom char_units
decode_utf8 bs = flat_map char_units (strip_bom (decode_from none bs))

-- JavaScript's `isWellFormed`: every surrogate stands in a pair.
unfoldable pub well_formed_from : Option ℕ → Text → Bool
well_formed_from none [] = true
well_formed_from (some h) [] = false
well_formed_from none (u ∷ us) =
    if is_low u then false else well_formed_from (if is_high u then some u else none) us
well_formed_from (some h) (u ∷ us) = if is_low u then well_formed_from none us else false

abbrev pub is_marked : Text → Bool
is_marked [] = false
is_marked (u ∷ us) = u == 0xfeff

-- Strings of code units that are well formed and do not begin with a byte order mark.
pub record IsText (s : Text) : Type 0 where
  pub units : All (λ u. u < 0x10000) s
  pub paired : well_formed_from none s ≡ true
  pub unmarked : is_marked s ≡ false
