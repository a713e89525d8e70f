-- ===== src/Messages/Request.antt =====
-- WireRequest, encodeRequest and decodeRequest of src/proto/messages.ts.
pub mod RoundTrip
pub mod Total
use tephra_js.Base.{◌≡◌, ◌%◌, ◌^◌, ℕ, List, [], ◌==◌, if◌then◌else◌, Result}
use tephra_js.Text.{Bytes}
use tephra_js.Wire.Fields.{Step, store, nested, skipping, decode_fields}
use tephra_js.Wire.Reader.{Reader, Fault, new_reader}
use tephra_js.Wire.Reader
use tephra_js.Wire.Writer.{Writer, new_writer, finish, ◌▷◌}
use tephra_js.Wire.Writer
use tephra_js.Messages.Bodies.{
  WireAppendRequest, encode_append_request, decode_append_request, WireReadRequest,
  encode_read_request, decode_read_request, WireSubscribeRequest, encode_subscribe_request,
  decode_subscribe_request, WireCancelRequest, encode_cancel_request, decode_cancel_request,
  WireHello, encode_hello, decode_hello,
}

pub data RequestKind : Type 0 where
  append : WireAppendRequest → RequestKind
  read : WireReadRequest → RequestKind
  subscribe : WireSubscribeRequest → RequestKind
  cancel : WireCancelRequest → RequestKind
  stats : RequestKind
  hello : WireHello → RequestKind
  none : RequestKind

pub record WireRequest : Type 0 where
  pub request_id : ℕ
  pub kind : RequestKind

-- The switch on `kind` in the encoder.
unfoldable pub request_kind : RequestKind → Writer → Writer
request_kind (RequestKind.append x) w = Writer.message 2 (encode_append_request x) w
request_kind (RequestKind.read x) w = Writer.message 3 (encode_read_request x) w
request_kind (RequestKind.subscribe x) w = Writer.message 4 (encode_subscribe_request x) w
request_kind (RequestKind.cancel x) w = Writer.message 5 (encode_cancel_request x) w
request_kind RequestKind.stats w = Writer.message 6 [] w
request_kind (RequestKind.hello x) w = Writer.message 7 (encode_hello x) w
request_kind RequestKind.none w = w

unfoldable pub encode_request : WireRequest → Bytes
encode_request m = finish (new_writer 64 ▷ Writer.uint64 1 m.request_id ▷ request_kind m.kind)

abbrev pub no_request : WireRequest
no_request = record { request_id = 0; kind = RequestKind.none }

unfoldable pub request_field : Step WireRequest
request_field field_no wire_type m r =
    if field_no == 1
    then store (λ x. record m { request_id = x }) (Reader.varint_big r)
    else if field_no == 2
    then store (λ x. record m { kind = RequestKind.append x }) (nested decode_append_request r)
    else if field_no == 3
    then store (λ x. record m { kind = RequestKind.read x }) (nested decode_read_request r)
    else if field_no == 4
    then store (λ x. record m { kind = RequestKind.subscribe x })
        (nested decode_subscribe_request r)
    else if field_no == 5
    then store (λ x. record m { kind = RequestKind.cancel x }) (nested decode_cancel_request r)
    else if field_no == 6
    then store (λ _. record m { kind = RequestKind.stats }) (Reader.message r)
    else if field_no == 7
    then store (λ x. record m { kind = RequestKind.hello x }) (nested decode_hello r)
    else skipping wire_type m r

unfoldable pub decode_request : Bytes → Result Fault WireRequest
decode_request bytes = decode_fields request_field no_request (new_reader bytes)
