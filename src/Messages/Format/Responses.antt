-- ===== src/Messages/Format/Responses.antt =====
-- The response encoders of src/proto/messages.ts against the wire format.
use tephra_js.Base.{ℕ, ◌≡◌, refl, ap, ◌∙◌, ◌++◌}
use mathlib.Core.List.{flat_map}
use tephra_js.Text.{Bytes}
use tephra_js.Wire.Field
use tephra_js.Messages.Format
use tephra_js.Messages.Format.Requests.{event_format}
use tephra_js.Messages.Event.{WireEvent}
use tephra_js.Messages.Replies.{
  WireSequencedEvent, encode_sequenced_event, WireAppendResponse, encode_append_response,
  WireReadEvents, encode_read_events, encode_watermark,
}
use tephra_js.Messages.Replies.RoundTrip.{
  sequenced_event_bytes, encode_sequenced_event-eq, append_response_bytes,
  encode_append_response-eq, read_events_bytes, encode_read_events-eq, encode_watermark-eq,
}
use tephra_js.Messages.Status.{
  WireStatsResponse, encode_stats_response, WireErrorResponse, encode_error_response, WireHelloAck,
  encode_hello_ack,
}
use tephra_js.Messages.Status.StatsRoundTrip.{stats_response_bytes, encode_stats_response-eq}
use tephra_js.Messages.Status.RoundTrip.{
  error_response_bytes, encode_error_response-eq, hello_ack_bytes, encode_hello_ack-eq,
}
use tephra_js.Messages.Response.{ResponseKind, WireResponse, encode_response}
use tephra_js.Messages.Response.RoundTrip.{reply_bytes, encode_response-eq}

sequenced_event_at : (m : WireSequencedEvent) → encode_sequenced_event m ≡ Format.sequenced_event m
unfolding sequenced_event_bytes Format.sequenced_event
sequenced_event_at m =
    encode_sequenced_event-eq m
    ∙ ap
        (λ (f : WireEvent → Bytes).
          Field.number 1 m.position ++ Field.optional (λ x. Field.message 2 (f x)) m.event)
        event_format

sequenced_event_format : encode_sequenced_event ≡ Format.sequenced_event
sequenced_event_format i m = sequenced_event_at m i

append_response_at : (m : WireAppendResponse) → encode_append_response m ≡ Format.append_response m
unfolding append_response_bytes Format.append_response
append_response_at m = encode_append_response-eq m

read_events_at : (m : WireReadEvents) → encode_read_events m ≡ Format.read_events m
unfolding read_events_bytes Format.read_events
read_events_at m =
    encode_read_events-eq m
    ∙ ap (λ (f : WireSequencedEvent → Bytes). flat_map (λ x. Field.message 1 (f x)) m.events)
        sequenced_event_format

watermark_at : (n : ℕ) → encode_watermark n ≡ Format.watermark n
unfolding Format.watermark
watermark_at n = encode_watermark-eq n

stats_response_at : (m : WireStatsResponse) → encode_stats_response m ≡ Format.stats_response m
unfolding stats_response_bytes Format.stats_response
stats_response_at m = encode_stats_response-eq m

error_response_at : (m : WireErrorResponse) → encode_error_response m ≡ Format.error_response m
unfolding error_response_bytes Format.error_response
error_response_at m = encode_error_response-eq m

hello_ack_at : (m : WireHelloAck) → encode_hello_ack m ≡ Format.hello_ack m
unfolding hello_ack_bytes Format.hello_ack
hello_ack_at m = encode_hello_ack-eq m

body_format : (k : ResponseKind) → reply_bytes k ≡ Format.response_body k
unfolding Format.response_body
body_format (ResponseKind.append x) = ap (Field.message 2) (append_response_at x)
body_format (ResponseKind.read_events x) = ap (Field.message 3) (read_events_at x)
body_format (ResponseKind.read_end x) = ap (Field.message 4) (watermark_at x)
body_format (ResponseKind.error x) = ap (Field.message 5) (error_response_at x)
body_format (ResponseKind.caught_up x) = ap (Field.message 6) (watermark_at x)
body_format (ResponseKind.stats x) = ap (Field.message 7) (stats_response_at x)
body_format (ResponseKind.hello_ack x) = ap (Field.message 8) (hello_ack_at x)
body_format ResponseKind.none = refl

-- encodeResponse writes the bytes that the wire format gives for a response, described field by
-- field and without the encoders, the nested messages included: for each kind the field numbers of
-- the schema in their order, a default left out unless its field has presence. The answer to a
-- hello, which the schema does not have, is described by the numbers that messages.ts gives it.
pub encode_response_format : (m : WireResponse) → encode_response m ≡ Format.response m
unfolding Format.response
encode_response_format m =
    encode_response-eq m ∙ ap (λ b. Field.number 1 m.request_id ++ b) (body_format m.kind)
