-- ===== src/Messages/Response.antt =====
-- WireResponse, encodeResponse and decodeResponse of src/proto/messages.ts.
pub mod RoundTrip
pub mod Total
use tephra_js.Base.{◌≡◌, ◌%◌, ◌^◌, ℕ, List, [], ◌==◌, if◌then◌else◌, Result}
use tephra_js.Text.{Bytes}
use tephra_js.Wire.Fields.{Step, store, nested, skipping, decode_fields}
use tephra_js.Wire.Reader.{Reader, Fault, new_reader}
use tephra_js.Wire.Reader
use tephra_js.Wire.Writer.{Writer, new_writer, finish, ◌▷◌}
use tephra_js.Wire.Writer
use tephra_js.Messages.Replies.{
  WireAppendResponse, encode_append_response, decode_append_response, WireReadEvents,
  encode_read_events, decode_read_events, encode_watermark, decode_watermark,
}
use tephra_js.Messages.Status.{
  WireStatsResponse, encode_stats_response, decode_stats_response, WireErrorResponse,
  encode_error_response, decode_error_response, WireHelloAck, encode_hello_ack, decode_hello_ack,
}

pub data ResponseKind : Type 0 where
  append : WireAppendResponse → ResponseKind
  read_events : WireReadEvents → ResponseKind
  read_end : ℕ → ResponseKind
  error : WireErrorResponse → ResponseKind
  caught_up : ℕ → ResponseKind
  stats : WireStatsResponse → ResponseKind
  hello_ack : WireHelloAck → ResponseKind
  none : ResponseKind

pub record WireResponse : Type 0 where
  pub request_id : ℕ
  pub kind : ResponseKind

-- The switch on `kind` in the encoder.
unfoldable pub response_kind : ResponseKind → Writer → Writer
response_kind (ResponseKind.append x) w = Writer.message 2 (encode_append_response x) w
response_kind (ResponseKind.read_events x) w = Writer.message 3 (encode_read_events x) w
response_kind (ResponseKind.read_end x) w = Writer.message 4 (encode_watermark x) w
response_kind (ResponseKind.error x) w = Writer.message 5 (encode_error_response x) w
response_kind (ResponseKind.caught_up x) w = Writer.message 6 (encode_watermark x) w
response_kind (ResponseKind.stats x) w = Writer.message 7 (encode_stats_response x) w
response_kind (ResponseKind.hello_ack x) w = Writer.message 8 (encode_hello_ack x) w
response_kind ResponseKind.none w = w

unfoldable pub encode_response : WireResponse → Bytes
encode_response m = finish (new_writer 64 ▷ Writer.uint64 1 m.request_id ▷ response_kind m.kind)

abbrev pub no_response : WireResponse
no_response = record { request_id = 0; kind = ResponseKind.none }

unfoldable pub response_field : Step WireResponse
response_field field_no wire_type m r =
    if field_no == 1
    then store (λ x. record m { request_id = x }) (Reader.varint_big r)
    else if field_no == 2
    then store (λ x. record m { kind = ResponseKind.append x }) (nested decode_append_response r)
    else if field_no == 3
    then store (λ x. record m { kind = ResponseKind.read_events x }) (nested decode_read_events r)
    else if field_no == 4
    then store (λ x. record m { kind = ResponseKind.read_end x }) (nested decode_watermark r)
    else if field_no == 5
    then store (λ x. record m { kind = ResponseKind.error x }) (nested decode_error_response r)
    else if field_no == 6
    then store (λ x. record m { kind = ResponseKind.caught_up x }) (nested decode_watermark r)
    else if field_no == 7
    then store (λ x. record m { kind = ResponseKind.stats x }) (nested decode_stats_response r)
    else if field_no == 8
    then store (λ x. record m { kind = ResponseKind.hello_ack x }) (nested decode_hello_ack r)
    else skipping wire_type m r

unfoldable pub decode_response : Bytes → Result Fault WireResponse
decode_response bytes = decode_fields response_field no_response (new_reader bytes)
