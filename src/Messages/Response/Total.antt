-- ===== src/Messages/Response/Total.antt =====
-- decodeResponse of src/proto/messages.ts on arbitrary bytes.
use tephra_js.Base.{ℕ, ◌==◌}
use tephra_js.Text.{Bytes}
use tephra_js.Wire.Fields.Total.{
  Settled, Moves, if-Moves, store-Moves, nested-Moves, skipping-Moves, varint_big-Moves,
  varint-Moves, bool-Moves, string-Moves, decode_fields-Settled,
}
use tephra_js.Wire.Reader.{Reader, new_reader}
use tephra_js.Messages.Replies.{
  WireSequencedEvent, sequenced_event_field, decode_sequenced_event, WireAppendResponse,
  append_response_field, decode_append_response, WireReadEvents, read_events_field,
  decode_read_events, watermark_field, decode_watermark,
}
use tephra_js.Messages.Status.{
  WireStatsResponse, stats_response_field, decode_stats_response, WireErrorResponse,
  error_response_field, decode_error_response, WireHelloAck, hello_ack_field, decode_hello_ack,
}
use tephra_js.Messages.Response.{WireResponse, response_field, decode_response}
use tephra_js.Messages.Event.{decode_event}
use tephra_js.Messages.Request.Total.{decode_event-Settled}

sequenced_event_field-Moves :
    (f t : ℕ) (m : WireSequencedEvent) (r : Reader) → Moves 0 r (sequenced_event_field f t m r)
unfolding sequenced_event_field
sequenced_event_field-Moves f t m r =
    if-Moves (f == 1) (λ _. store-Moves _ (varint_big-Moves r))
      λ _.
        if-Moves (f == 2) (λ _. nested-Moves decode_event _ r decode_event-Settled)
          λ _. skipping-Moves t m r

pub decode_sequenced_event-Settled : (r : Reader) → Settled (decode_sequenced_event r)
unfolding decode_sequenced_event
decode_sequenced_event-Settled r =
    decode_fields-Settled sequenced_event_field sequenced_event_field-Moves _ r

append_response_field-Moves :
    (f t : ℕ) (m : WireAppendResponse) (r : Reader) → Moves 0 r (append_response_field f t m r)
unfolding append_response_field
append_response_field-Moves f t m r =
    if-Moves (f == 1) (λ _. store-Moves _ (varint_big-Moves r))
      λ _. if-Moves (f == 2) (λ _. store-Moves _ (varint_big-Moves r)) λ _. skipping-Moves t m r

pub decode_append_response-Settled : (r : Reader) → Settled (decode_append_response r)
unfolding decode_append_response
decode_append_response-Settled r =
    decode_fields-Settled append_response_field append_response_field-Moves _ r

read_events_field-Moves :
    (f t : ℕ) (m : WireReadEvents) (r : Reader) → Moves 0 r (read_events_field f t m r)
unfolding read_events_field
read_events_field-Moves f t m r =
    if-Moves (f == 1) (λ _. nested-Moves decode_sequenced_event _ r decode_sequenced_event-Settled)
      λ _. skipping-Moves t m r

pub decode_read_events-Settled : (r : Reader) → Settled (decode_read_events r)
unfolding decode_read_events
decode_read_events-Settled r = decode_fields-Settled read_events_field read_events_field-Moves _ r

watermark_field-Moves : (f t : ℕ) (m : ℕ) (r : Reader) → Moves 0 r (watermark_field f t m r)
unfolding watermark_field
watermark_field-Moves f t m r =
    if-Moves (f == 1) (λ _. store-Moves _ (varint_big-Moves r)) λ _. skipping-Moves t m r

pub decode_watermark-Settled : (r : Reader) → Settled (decode_watermark r)
unfolding decode_watermark
decode_watermark-Settled r = decode_fields-Settled watermark_field watermark_field-Moves _ r

stats_response_field-Moves :
    (f t : ℕ) (m : WireStatsResponse) (r : Reader) → Moves 0 r (stats_response_field f t m r)
unfolding stats_response_field
stats_response_field-Moves f t m r =
    if-Moves (f == 1) (λ _. store-Moves _ (varint_big-Moves r))
      λ _.
        if-Moves (f == 2) (λ _. store-Moves _ (varint_big-Moves r))
          λ _.
            if-Moves (f == 3) (λ _. store-Moves _ (varint_big-Moves r))
              λ _.
                if-Moves (f == 4) (λ _. store-Moves _ (varint_big-Moves r))
                  λ _.
                    if-Moves (f == 5) (λ _. store-Moves _ (varint_big-Moves r))
                      λ _.
                        if-Moves (f == 6) (λ _. store-Moves _ (varint_big-Moves r))
                          λ _.
                            if-Moves (f == 7) (λ _. store-Moves _ (string-Moves r))
                              λ _.
                                if-Moves (f == 8) (λ _. store-Moves _ (varint_big-Moves r))
                                  λ _.
                                    if-Moves (f == 9) (λ _. store-Moves _ (varint_big-Moves r))
                                      λ _.
                                        if-Moves (f == 10) (λ _. store-Moves _ (varint_big-Moves r))
                                          λ _. skipping-Moves t m r

pub decode_stats_response-Settled : (r : Reader) → Settled (decode_stats_response r)
unfolding decode_stats_response
decode_stats_response-Settled r =
    decode_fields-Settled stats_response_field stats_response_field-Moves _ r

error_response_field-Moves :
    (f t : ℕ) (m : WireErrorResponse) (r : Reader) → Moves 0 r (error_response_field f t m r)
unfolding error_response_field
error_response_field-Moves f t m r =
    if-Moves (f == 1) (λ _. store-Moves _ (varint-Moves r))
      λ _.
        if-Moves (f == 2) (λ _. store-Moves _ (string-Moves r))
          λ _.
            if-Moves (f == 3) (λ _. store-Moves _ (varint_big-Moves r))
              λ _. if-Moves (f == 4) (λ _. store-Moves _ (bool-Moves r)) λ _. skipping-Moves t m r

pub decode_error_response-Settled : (r : Reader) → Settled (decode_error_response r)
unfolding decode_error_response
decode_error_response-Settled r =
    decode_fields-Settled error_response_field error_response_field-Moves _ r

hello_ack_field-Moves :
    (f t : ℕ) (m : WireHelloAck) (r : Reader) → Moves 0 r (hello_ack_field f t m r)
unfolding hello_ack_field
hello_ack_field-Moves f t m r =
    if-Moves (f == 1) (λ _. store-Moves _ (varint-Moves r))
      λ _. if-Moves (f == 2) (λ _. store-Moves _ (string-Moves r)) λ _. skipping-Moves t m r

pub decode_hello_ack-Settled : (r : Reader) → Settled (decode_hello_ack r)
unfolding decode_hello_ack
decode_hello_ack-Settled r = decode_fields-Settled hello_ack_field hello_ack_field-Moves _ r

response_field-Moves :
    (f t : ℕ) (m : WireResponse) (r : Reader) → Moves 0 r (response_field f t m r)
unfolding response_field
response_field-Moves f t m r =
    if-Moves (f == 1) (λ _. store-Moves _ (varint_big-Moves r))
      λ _.
        if-Moves (f == 2)
          (λ _. nested-Moves decode_append_response _ r decode_append_response-Settled)
          λ _.
            if-Moves (f == 3) (λ _. nested-Moves decode_read_events _ r decode_read_events-Settled)
              λ _.
                if-Moves (f == 4) (λ _. nested-Moves decode_watermark _ r decode_watermark-Settled)
                  λ _.
                    if-Moves (f == 5)
                      (λ _. nested-Moves decode_error_response _ r decode_error_response-Settled)
                      λ _.
                        if-Moves (f == 6)
                          (λ _. nested-Moves decode_watermark _ r decode_watermark-Settled)
                          λ _.
                            if-Moves (f == 7)
                              (λ _.
                                nested-Moves decode_stats_response _ r
                                  decode_stats_response-Settled)
                              λ _.
                                if-Moves (f == 8)
                                  (λ _. nested-Moves decode_hello_ack _ r decode_hello_ack-Settled)
                                  λ _. skipping-Moves t m r

-- On every sequence of bytes decode_response ends: it returns a response or one of the errors that
-- the source throws, and never runs out of the rounds that the model gives to its loops.
pub decode_response-Settled : (bytes : Bytes) → Settled (decode_response bytes)
unfolding decode_response
decode_response-Settled bytes =
    decode_fields-Settled response_field response_field-Moves _ (new_reader bytes)
