-- ===== src/Messages/Replies.antt =====
-- The bodies of the responses in src/proto/messages.ts that carry events and positions.
pub mod RoundTrip
use tephra_js.Base.{
  ◌≡◌, ◌%◌, ◌^◌, ℕ, Bool, true, false, Option, none, some, List, [], ◌∷◌, ◌++◌, ◌==◌, if◌then◌else◌,
  Result,
}
use tephra_js.Text.{Text, Bytes}
use tephra_js.Wire.Fields.{Step, store, nested, skipping, decode_fields}
use tephra_js.Wire.Reader.{Reader, Fault}
use tephra_js.Wire.Reader
use tephra_js.Wire.Writer.{new_writer, finish, ◌▷◌, each, when_some}
use tephra_js.Wire.Writer
use tephra_js.Messages.Event.{WireEvent, encode_event, decode_event}

pub record WireSequencedEvent : Type 0 where
  pub position : ℕ
  pub event : Option WireEvent

unfoldable pub encode_sequenced_event : WireSequencedEvent → Bytes
encode_sequenced_event m = finish (
    new_writer 64
    ▷ Writer.uint64 1 m.position
    ▷ when_some (λ x. Writer.message 2 (encode_event x)) m.event)

abbrev pub no_sequenced_event : WireSequencedEvent
no_sequenced_event = record { position = 0; event = none }

unfoldable pub sequenced_event_field : Step WireSequencedEvent
sequenced_event_field field_no wire_type m r =
    if field_no == 1
    then store (λ x. record m { position = x }) (Reader.varint_big r)
    else if field_no == 2
    then store (λ x. record m { event = some x }) (nested decode_event r)
    else skipping wire_type m r

unfoldable pub decode_sequenced_event : Reader → Result Fault WireSequencedEvent
decode_sequenced_event r = decode_fields sequenced_event_field no_sequenced_event r

pub record WireAppendResponse : Type 0 where
  pub first : ℕ
  pub last : ℕ

unfoldable pub encode_append_response : WireAppendResponse → Bytes
encode_append_response m = finish (new_writer 64 ▷ Writer.uint64 1 m.first ▷ Writer.uint64 2 m.last)

abbrev pub no_append_response : WireAppendResponse
no_append_response = record { first = 0; last = 0 }

unfoldable pub append_response_field : Step WireAppendResponse
append_response_field field_no wire_type m r =
    if field_no == 1
    then store (λ x. record m { first = x }) (Reader.varint_big r)
    else if field_no == 2
    then store (λ x. record m { last = x }) (Reader.varint_big r)
    else skipping wire_type m r

unfoldable pub decode_append_response : Reader → Result Fault WireAppendResponse
decode_append_response r = decode_fields append_response_field no_append_response r

pub record WireReadEvents : Type 0 where
  pub events : List WireSequencedEvent

unfoldable pub encode_read_events : WireReadEvents → Bytes
encode_read_events m =
    finish (new_writer 64 ▷ each (λ x. Writer.message 1 (encode_sequenced_event x)) m.events)

abbrev pub no_read_events : WireReadEvents
no_read_events = record { events = [] }

unfoldable pub read_events_field : Step WireReadEvents
read_events_field field_no wire_type m r =
    if field_no == 1
    then store (λ x. record m { events = m.events ++ x ∷ [] }) (nested decode_sequenced_event r)
    else skipping wire_type m r

unfoldable pub decode_read_events : Reader → Result Fault WireReadEvents
decode_read_events r = decode_fields read_events_field no_read_events r

-- encodeWatermark and decodeWatermark, of a read's end and of a caught-up marker.
unfoldable pub encode_watermark : ℕ → Bytes
encode_watermark watermark = finish (new_writer 64 ▷ Writer.uint64 1 watermark)

unfoldable pub watermark_field : Step ℕ
watermark_field field_no wire_type watermark r =
    if field_no == 1 then store (λ x. x) (Reader.varint_big r) else skipping wire_type watermark r

unfoldable pub decode_watermark : Reader → Result Fault ℕ
decode_watermark r = decode_fields watermark_field 0 r
