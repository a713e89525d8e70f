-- ===== src/Messages/Event.antt =====
-- WireEvent, encodeEvent and decodeEvent of src/proto/messages.ts.
pub mod RoundTrip
use tephra_js.Base.{
  ◌≡◌, ◌%◌, ◌^◌, ℕ, Bool, true, false, Option, none, some, List, [], ◌∷◌, ◌++◌, ◌==◌, if◌then◌else◌,
  Result,
}
use tephra_js.Text.{Text, Bytes}
use tephra_js.Wire.Fields.{Step, store, nested, skipping, decode_fields}
use tephra_js.Wire.Reader.{Reader, Fault}
use tephra_js.Wire.Reader
use tephra_js.Wire.Writer.{new_writer, finish, ◌▷◌, each, when_some}
use tephra_js.Wire.Writer

pub record WireEvent : Type 0 where
  pub type : Text
  pub tags : List Text
  pub payload : Bytes

unfoldable pub encode_event : WireEvent → Bytes
encode_event m = finish (
    new_writer 64
    ▷ Writer.string 1 m.type
    ▷ each (Writer.repeated_string 2) m.tags
    ▷ Writer.bytes 3 m.payload)

abbrev pub no_event : WireEvent
no_event = record { type = []; tags = []; payload = [] }

unfoldable pub event_field : Step WireEvent
event_field field_no wire_type m r =
    if field_no == 1
    then store (λ x. record m { type = x }) (Reader.string r)
    else if field_no == 2
    then store (λ x. record m { tags = m.tags ++ x ∷ [] }) (Reader.string r)
    else if field_no == 3
    then store (λ x. record m { payload = x }) (Reader.bytes r)
    else skipping wire_type m r

unfoldable pub decode_event : Reader → Result Fault WireEvent
decode_event r = decode_fields event_field no_event r
