-- ===== src/Messages/Response/RoundTrip.antt =====
-- encodeResponse against decodeResponse of src/proto/messages.ts.
use tephra_js.Base.{ℕ, ◌≡◌, refl, [], ◌++◌, ok, arith}
use tephra_js.Text.{Bytes}
use tephra_js.Wire.Field
use tephra_js.Wire.Fields.Rules.{Puts-then, decode_fields-Puts, Puts-uint64, Puts-message}
use tephra_js.Wire.Number.{IsU64}
use tephra_js.Wire.Writer.{new_writer}
use tephra_js.Wire.Writer.Appends.{Appends-then, finish-Appends}
use tephra_js.Wire.Writer.Methods.{uint64-Appends, message-Appends}
use tephra_js.Messages.Sound.{Fits}
use tephra_js.Messages.Response.{
  WireResponse, ResponseKind, response_kind, encode_response, no_response, response_field,
  decode_response,
}
use tephra_js.Messages.Replies.{
  encode_append_response, decode_append_response, encode_read_events, decode_read_events,
  encode_watermark, decode_watermark,
}
use tephra_js.Messages.Status.{
  encode_stats_response, decode_stats_response, encode_error_response, decode_error_response,
  encode_hello_ack, decode_hello_ack,
}
use tephra_js.Messages.Replies.RoundTrip.{
  IsWireAppendResponse, decode_append_response-encode_append_response, IsWireReadEvents,
  decode_read_events-encode_read_events, decode_watermark-encode_watermark,
}
use tephra_js.Messages.Status.StatsRoundTrip.{
  IsWireStatsResponse, decode_stats_response-encode_stats_response,
}
use tephra_js.Messages.Status.RoundTrip.{
  IsWireErrorResponse, decode_error_response-encode_error_response, IsWireHelloAck,
  decode_hello_ack-encode_hello_ack,
}
use tephra_js.Wire.Fields.Rules.{Puts, Puts-none}
use tephra_js.Wire.Writer.Appends.{Appends, Appends-none}
use tephra_js.Wire.Writer.{Writer}

abbrev pub IsResponseKind : ResponseKind → Type 0
IsResponseKind (ResponseKind.append x) = Fits IsWireAppendResponse encode_append_response x
IsResponseKind (ResponseKind.read_events x) = Fits IsWireReadEvents encode_read_events x
IsResponseKind (ResponseKind.read_end x) = Fits IsU64 encode_watermark x
IsResponseKind (ResponseKind.error x) = Fits IsWireErrorResponse encode_error_response x
IsResponseKind (ResponseKind.caught_up x) = Fits IsU64 encode_watermark x
IsResponseKind (ResponseKind.stats x) = Fits IsWireStatsResponse encode_stats_response x
IsResponseKind (ResponseKind.hello_ack x) = Fits IsWireHelloAck encode_hello_ack x
IsResponseKind ResponseKind.none = Unit {0}

pub record IsWireResponse (m : WireResponse) : Type 0 where
  pub request_id : IsU64 m.request_id
  pub kind : IsResponseKind m.kind

abbrev pub reply_bytes : ResponseKind → Bytes
reply_bytes (ResponseKind.append x) = Field.message 2 (encode_append_response x)
reply_bytes (ResponseKind.read_events x) = Field.message 3 (encode_read_events x)
reply_bytes (ResponseKind.read_end x) = Field.message 4 (encode_watermark x)
reply_bytes (ResponseKind.error x) = Field.message 5 (encode_error_response x)
reply_bytes (ResponseKind.caught_up x) = Field.message 6 (encode_watermark x)
reply_bytes (ResponseKind.stats x) = Field.message 7 (encode_stats_response x)
reply_bytes (ResponseKind.hello_ack x) = Field.message 8 (encode_hello_ack x)
reply_bytes ResponseKind.none = []

kind-Appends : (k : ResponseKind) (w : Writer) → Appends (reply_bytes k) w (response_kind k w)
unfolding response_kind
kind-Appends (ResponseKind.append x) w =
    message-Appends 2 w (omega arith) (encode_append_response x)
kind-Appends (ResponseKind.read_events x) w =
    message-Appends 3 w (omega arith) (encode_read_events x)
kind-Appends (ResponseKind.read_end x) w = message-Appends 4 w (omega arith) (encode_watermark x)
kind-Appends (ResponseKind.error x) w = message-Appends 5 w (omega arith) (encode_error_response x)
kind-Appends (ResponseKind.caught_up x) w = message-Appends 6 w (omega arith) (encode_watermark x)
kind-Appends (ResponseKind.stats x) w = message-Appends 7 w (omega arith) (encode_stats_response x)
kind-Appends (ResponseKind.hello_ack x) w = message-Appends 8 w (omega arith) (encode_hello_ack x)
kind-Appends ResponseKind.none w = Appends-none w

-- The growable buffer of the encoder ends with the bytes that the wire format gives for a response:
-- the identifier as field 1, left out when it is zero, and the block of its kind behind it.
pub encode_response-eq :
    (m : WireResponse) → encode_response m ≡ Field.number 1 m.request_id ++ reply_bytes m.kind
unfolding encode_response
encode_response-eq m = finish-Appends (
    Appends-then (uint64-Appends 1 (new_writer 64) (omega arith) m.request_id)
      (kind-Appends m.kind _))

kind-Puts :
    (id : ℕ) (k : ResponseKind)
    → IsResponseKind k
    → Puts response_field
        (record no_response { request_id = id })
        (reply_bytes k)
        (record { request_id = id; kind = k })
unfolding response_field
kind-Puts id (ResponseKind.append x) h =
    Puts-message response_field 2 (record no_response { request_id = id }) (omega arith)
      (encode_append_response x) decode_append_response x
      (λ y. record { request_id = id; kind = ResponseKind.append y }) (λ r. refl)
      (decode_append_response-encode_append_response x h.valid) h.safe
kind-Puts id (ResponseKind.read_events x) h =
    Puts-message response_field 3 (record no_response { request_id = id }) (omega arith)
      (encode_read_events x) decode_read_events x
      (λ y. record { request_id = id; kind = ResponseKind.read_events y }) (λ r. refl)
      (decode_read_events-encode_read_events x h.valid) h.safe
kind-Puts id (ResponseKind.read_end x) h =
    Puts-message response_field 4 (record no_response { request_id = id }) (omega arith)
      (encode_watermark x) decode_watermark x
      (λ y. record { request_id = id; kind = ResponseKind.read_end y }) (λ r. refl)
      (decode_watermark-encode_watermark x h.valid) h.safe
kind-Puts id (ResponseKind.error x) h =
    Puts-message response_field 5 (record no_response { request_id = id }) (omega arith)
      (encode_error_response x) decode_error_response x
      (λ y. record { request_id = id; kind = ResponseKind.error y }) (λ r. refl)
      (decode_error_response-encode_error_response x h.valid) h.safe
kind-Puts id (ResponseKind.caught_up x) h =
    Puts-message response_field 6 (record no_response { request_id = id }) (omega arith)
      (encode_watermark x) decode_watermark x
      (λ y. record { request_id = id; kind = ResponseKind.caught_up y }) (λ r. refl)
      (decode_watermark-encode_watermark x h.valid) h.safe
kind-Puts id (ResponseKind.stats x) h =
    Puts-message response_field 7 (record no_response { request_id = id }) (omega arith)
      (encode_stats_response x) decode_stats_response x
      (λ y. record { request_id = id; kind = ResponseKind.stats y }) (λ r. refl)
      (decode_stats_response-encode_stats_response x h.valid) h.safe
kind-Puts id (ResponseKind.hello_ack x) h =
    Puts-message response_field 8 (record no_response { request_id = id }) (omega arith)
      (encode_hello_ack x) decode_hello_ack x
      (λ y. record { request_id = id; kind = ResponseKind.hello_ack y }) (λ r. refl)
      (decode_hello_ack-encode_hello_ack x h.valid) h.safe
kind-Puts id ResponseKind.none h = Puts-none response_field (record no_response { request_id = id })

-- Decoding the bytes of a response gives the response back, of every kind, when its numbers fit
-- their wire types (64 bits; below 2^53 for the fields that JavaScript holds as a number), its
-- strings are well-formed UTF-16 without a leading byte order mark, and the lengths of its blocks
-- are below 2^53.
pub decode_response-encode_response :
    (m : WireResponse) → IsWireResponse m → decode_response (encode_response m) ≡ ok m
unfolding decode_response response_field
decode_response-encode_response m v = rw (encode_response-eq m) (
    decode_fields-Puts response_field (
      Puts-then response_field
        (Puts-uint64 response_field 1 no_response (omega arith) m.request_id
          (λ x. record no_response { request_id = x }) (λ r. refl) v.request_id refl)
        (kind-Puts m.request_id m.kind v.kind)))
