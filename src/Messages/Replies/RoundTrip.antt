-- ===== src/Messages/Replies/RoundTrip.antt =====
-- Responses with events and positions (src/proto/messages.ts): encoders against decoders.
use tephra_js.Base.{ℕ, ◌≡◌, refl, some, [], ◌∷◌, ◌++◌, ok, All, Given, arith}
use tephra_js.Text.{Bytes}
use tephra_js.Wire.Field
use tephra_js.Wire.Fields.Rules.{
  Puts-then, decode_fields-Puts, Puts-uint64, Puts-message, Puts-optional, Puts-each,
}
use tephra_js.Wire.Number.{IsU64}
use tephra_js.Wire.Reader.{new_reader}
use tephra_js.Wire.Writer.{new_writer}
use tephra_js.Wire.Writer.Appends.{Appends-then, finish-Appends}
use tephra_js.Wire.Writer.Methods.{uint64-Appends, message-Appends, when_some-Appends, each-Appends}
use tephra_js.Messages.Sound.{Fits}
use mathlib.Core.List.{flat_map}
use tephra_js.Messages.Replies.{encode_watermark, watermark_field, decode_watermark}
use tephra_js.Messages.Replies.{
  WireSequencedEvent, encode_sequenced_event, no_sequenced_event, sequenced_event_field,
  decode_sequenced_event, WireAppendResponse, encode_append_response, no_append_response,
  append_response_field, decode_append_response, WireReadEvents, encode_read_events,
  read_events_field, decode_read_events,
}
use tephra_js.Messages.Event.{encode_event, decode_event}
use tephra_js.Messages.Event.RoundTrip.{IsWireEvent, decode_event-encode_event}

pub record IsWireSequencedEvent (m : WireSequencedEvent) : Type 0 where
  pub position : IsU64 m.position
  pub event : Given (Fits IsWireEvent encode_event) m.event

unfoldable pub sequenced_event_bytes : WireSequencedEvent → Bytes
sequenced_event_bytes m =
    (Field.number 1 m.position ++ Field.optional (λ x. Field.message 2 (encode_event x)) m.event)

pub encode_sequenced_event-eq :
    (m : WireSequencedEvent) → encode_sequenced_event m ≡ sequenced_event_bytes m
unfolding encode_sequenced_event sequenced_event_bytes
encode_sequenced_event-eq m = finish-Appends (
    Appends-then (uint64-Appends 1 (new_writer 64) (omega arith) m.position)
      (when_some-Appends _ _ (λ x v. message-Appends 2 v (omega arith) (encode_event x)) m.event _))

pub decode_sequenced_event-encode_sequenced_event :
    (m : WireSequencedEvent)
    → IsWireSequencedEvent m
    → decode_sequenced_event (new_reader (encode_sequenced_event m)) ≡ ok m
unfolding decode_sequenced_event sequenced_event_field sequenced_event_bytes
decode_sequenced_event-encode_sequenced_event m v = rw (encode_sequenced_event-eq m) (
    decode_fields-Puts sequenced_event_field (
      Puts-then sequenced_event_field
        (Puts-uint64 sequenced_event_field 1 no_sequenced_event (omega arith) m.position
          (λ x. record no_sequenced_event { position = x }) (λ r. refl) v.position refl)
        (Puts-optional sequenced_event_field (Fits IsWireEvent encode_event)
          (λ x. Field.message 2 (encode_event x))
          (record no_sequenced_event { position = m.position })
          (λ o. record { position = m.position; event = o }) refl
          (λ x h.
            Puts-message sequenced_event_field 2
              (record no_sequenced_event { position = m.position }) (omega arith) (encode_event x)
              decode_event x (λ y. record { position = m.position; event = some y }) (λ r. refl)
              (decode_event-encode_event x h.valid) h.safe)
          m.event v.event)))

pub record IsWireAppendResponse (m : WireAppendResponse) : Type 0 where
  pub first : IsU64 m.first
  pub last : IsU64 m.last

unfoldable pub append_response_bytes : WireAppendResponse → Bytes
append_response_bytes m = (Field.number 1 m.first ++ Field.number 2 m.last)

pub encode_append_response-eq :
    (m : WireAppendResponse) → encode_append_response m ≡ append_response_bytes m
unfolding encode_append_response append_response_bytes
encode_append_response-eq m = finish-Appends (
    Appends-then (uint64-Appends 1 (new_writer 64) (omega arith) m.first)
      (uint64-Appends 2 _ (omega arith) m.last))

pub decode_append_response-encode_append_response :
    (m : WireAppendResponse)
    → IsWireAppendResponse m
    → decode_append_response (new_reader (encode_append_response m)) ≡ ok m
unfolding decode_append_response append_response_field append_response_bytes
decode_append_response-encode_append_response m v = rw (encode_append_response-eq m) (
    decode_fields-Puts append_response_field (
      Puts-then append_response_field
        (Puts-uint64 append_response_field 1 no_append_response (omega arith) m.first
          (λ x. record no_append_response { first = x }) (λ r. refl) v.first refl)
        (Puts-uint64 append_response_field 2 (record no_append_response { first = m.first })
          (omega arith) m.last (λ x. record { first = m.first; last = x }) (λ r. refl) v.last
          refl)))

pub record IsWireReadEvents (m : WireReadEvents) : Type 0 where
  pub events : All (Fits IsWireSequencedEvent encode_sequenced_event) m.events

unfoldable pub read_events_bytes : WireReadEvents → Bytes
read_events_bytes m = flat_map (λ x. Field.message 1 (encode_sequenced_event x)) m.events

pub encode_read_events-eq : (m : WireReadEvents) → encode_read_events m ≡ read_events_bytes m
unfolding encode_read_events read_events_bytes
encode_read_events-eq m = finish-Appends (
    each-Appends _ _ (λ x v. message-Appends 1 v (omega arith) (encode_sequenced_event x)) m.events
      (new_writer 64))

pub decode_read_events-encode_read_events :
    (m : WireReadEvents)
    → IsWireReadEvents m
    → decode_read_events (new_reader (encode_read_events m)) ≡ ok m
unfolding decode_read_events read_events_field read_events_bytes
decode_read_events-encode_read_events m v = rw (encode_read_events-eq m) (
    decode_fields-Puts read_events_field (
      Puts-each read_events_field (Fits IsWireSequencedEvent encode_sequenced_event)
        (λ x. Field.message 1 (encode_sequenced_event x)) (λ xs. record { events = xs })
        (λ xs x h.
          Puts-message read_events_field 1 _ (omega arith) (encode_sequenced_event x)
            decode_sequenced_event x (λ y. record { events = xs ++ y ∷ [] }) (λ r. refl)
            (decode_sequenced_event-encode_sequenced_event x h.valid) h.safe)
        [] m.events v.events))

pub encode_watermark-eq : (w : ℕ) → encode_watermark w ≡ Field.number 1 w
unfolding encode_watermark
encode_watermark-eq w = finish-Appends (uint64-Appends 1 (new_writer 64) (omega arith) w)

pub decode_watermark-encode_watermark :
    (w : ℕ) → IsU64 w → decode_watermark (new_reader (encode_watermark w)) ≡ ok w
unfolding decode_watermark watermark_field
decode_watermark-encode_watermark w v = rw (encode_watermark-eq w) (
    decode_fields-Puts watermark_field
      (Puts-uint64 watermark_field 1 0 (omega arith) w (λ x. x) (λ r. refl) v refl))
