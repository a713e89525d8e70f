-- ===== src/Examples/Strings.antt =====
-- Runs of the string codecs of src/proto/wire.ts and of the checks of src/types.ts.
use tephra_js.Base.{◌≡◌, refl, length, [], ◌∷◌, arith}
use tephra_js.Text.{
  Text, IsText, encode_utf8, decode_utf8, strip_bom, char_units, scalars, well_formed_from,
}
use tephra_js.Text.RoundTrip.{decode_utf8-encode_utf8, decode_utf8_inverse}
use tephra_js.Values.{utf8_byte_length}
use tephra_js.Values.Length.{utf8_byte_length-encode_utf8}
use mathlib.Core.List.{flat_map}

-- U+1F600 between two letters, and the lone high surrogate of the pair.
abbrev smile : Text
smile = 0x61 ∷ 0xd83d ∷ 0xde00 ∷ 0x62 ∷ []

abbrev broken : Text
broken = 0x61 ∷ 0xd83d ∷ 0x62 ∷ []

smile-IsText : IsText smile
unfolding well_formed_from
smile-IsText = record {
  units = (omega arith, (omega arith, (omega arith, (omega arith, tt))));
  paired = refl;
  unmarked = refl;
}

decode_utf8_inverse_example : decode_utf8 (encode_utf8 smile) ≡ smile
decode_utf8_inverse_example = decode_utf8_inverse smile smile-IsText

decode_utf8-encode_utf8_example :
    decode_utf8 (encode_utf8 broken) ≡ flat_map char_units (strip_bom (scalars broken))
decode_utf8-encode_utf8_example =
    decode_utf8-encode_utf8 broken (omega arith, (omega arith, (omega arith, tt)))

utf8_byte_length-encode_utf8_example : utf8_byte_length smile ≡ length (encode_utf8 smile)
utf8_byte_length-encode_utf8_example =
    utf8_byte_length-encode_utf8 smile smile-IsText.units smile-IsText.paired

-- A lone high surrogate before U+20AC is counted with four bytes and written with six.
lone_count : utf8_byte_length (0xd83d ∷ 0x20ac ∷ []) ≡ 4
unfolding utf8_byte_length
lone_count = refl

lone_bytes : length (encode_utf8 (0xd83d ∷ 0x20ac ∷ [])) ≡ 6
unfolding encode_utf8 scalars flat_map
lone_bytes = refl
