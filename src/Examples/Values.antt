-- ===== src/Examples/Values.antt =====
-- Runs of the checks of src/types.ts and of the conversions of src/convert.ts.
use tephra_js.Base.{length, ◌≡◌, refl, [], ◌∷◌, ok, err, arith}
use tephra_js.Text.{Text, IsText, well_formed_from, encode_utf8, scalars, char_bytes}
use tephra_js.Wire.Number.{IsSafe}
use tephra_js.Wire.Reader.{new_reader}
use tephra_js.Wire.Writer.{
  new_writer, finish, put_all, push_byte, reserve, grow, blit, each, varint_loop, varint_big,
  varint, bytes, string, repeated_string,
}
use tephra_js.Wire.Writer
use tephra_js.Messages.Event.{encode_event}
use tephra_js.Messages.Replies.{encode_sequenced_event, decode_sequenced_event}
use tephra_js.Convert.{event_to_wire, sequenced_from_wire}
use tephra_js.Convert.Stored.{stored, sequenced_from_wire-create}
use mathlib.Core.List.{flat_map}
use tephra_js.Values.{
  Event, create, duplicate_tag, is_empty, event_type, utf8_byte_length, validate_name,
  validate_names, validated_tag_set, text_le, text_eq, insert, sort, check_neighbours,
}
use tephra_js.Values.Create.{IsValidName, Made, create-Made, create_permuted, create-Ascending}
use mathlib.Core.List.{Permᴰ}

-- "a", "b" and "ab".
abbrev a : Text
a = 0x61 ∷ []

abbrev b : Text
b = 0x62 ∷ []

abbrev ab : Text
ab = 0x61 ∷ 0x62 ∷ []

abbrev made : Event
made = record { type = a; tags = ab ∷ b ∷ []; payload = 1 ∷ [] }

created : create a (b ∷ ab ∷ []) (1 ∷ []) ≡ ok made
unfolding create validate_name validated_tag_set validate_names sort insert text_le text_eq
    check_neighbours utf8_byte_length
created = refl

refused : create a (b ∷ ab ∷ b ∷ []) (1 ∷ []) ≡ err (duplicate_tag b)
unfolding create validate_name validated_tag_set validate_names sort insert text_le text_eq
    check_neighbours utf8_byte_length
refused = refl

unnamed : create [] (b ∷ []) [] ≡ err (is_empty event_type)
unfolding create validate_name
unnamed = refl

swapped : Permᴰ (b ∷ ab ∷ []) (ab ∷ b ∷ [])
swapped = Permᴰ.swap refl refl

create-Made_example : Made a (b ∷ ab ∷ []) (1 ∷ []) made
create-Made_example = create-Made a (b ∷ ab ∷ []) (1 ∷ []) made created

create_permuted_example : create a (ab ∷ b ∷ []) (1 ∷ []) ≡ ok made
create_permuted_example =
    create_permuted a (b ∷ ab ∷ []) (ab ∷ b ∷ []) (1 ∷ []) made swapped created

a-IsValidName : IsValidName a
unfolding utf8_byte_length
a-IsValidName = record { nonempty = λ e. a_nonempty e; short = omega arith }
  where
    a_nonempty : ¬ (◌≡◌ {A = Text} a [])
    a_nonempty e = cc

b-IsValidName : IsValidName b
unfolding utf8_byte_length
b-IsValidName = record { nonempty = λ e. b_nonempty e; short = omega arith }
  where
    b_nonempty : ¬ (◌≡◌ {A = Text} b [])
    b_nonempty e = cc

ab-IsValidName : IsValidName ab
unfolding utf8_byte_length
ab-IsValidName = record { nonempty = λ e. ab_nonempty e; short = omega arith }
  where
    ab_nonempty : ¬ (◌≡◌ {A = Text} ab [])
    ab_nonempty e = cc

create-Ascending_example :
    create a (b ∷ ab ∷ []) (1 ∷ []) ≡ ok (record { type = a; tags = ab ∷ b ∷ []; payload = 1 ∷ [] })
unfolding text_le
create-Ascending_example =
    create-Ascending a (b ∷ ab ∷ []) (ab ∷ b ∷ []) (1 ∷ []) a-IsValidName
      (b-IsValidName, (ab-IsValidName, tt)) swapped (refl, tt)

letters-IsText : IsText a × IsText b × IsText ab
unfolding well_formed_from
letters-IsText = (
  record { units = (omega arith, tt); paired = refl; unmarked = refl },
  record { units = (omega arith, tt); paired = refl; unmarked = refl },
  record { units = (omega arith, (omega arith, tt)); paired = refl; unmarked = refl },
)

made-IsSafe : IsSafe (length (encode_event (event_to_wire made)))
unfolding event_to_wire encode_event new_writer finish put_all push_byte reserve grow blit each
    varint_loop varint_big varint Writer.tag bytes string repeated_string encode_utf8 scalars
    char_bytes flat_map
made-IsSafe = omega arith

sequenced_from_wire-create_example :
    (decode_sequenced_event (new_reader (encode_sequenced_event (stored 7 made)))
      ≡ ok (stored 7 made))
    × (sequenced_from_wire (stored 7 made) ≡ ok (record { position = 7; event = made }))
sequenced_from_wire-create_example =
    sequenced_from_wire-create 7 a (b ∷ ab ∷ []) (1 ∷ []) made created letters-IsText.0
      (letters-IsText.1, (letters-IsText.2, tt)) (omega arith) made-IsSafe (omega arith)
