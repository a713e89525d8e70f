-- ===== src/Messages/Request/RoundTrip.antt =====
-- encodeRequest against decodeRequest of src/proto/messages.ts.
use tephra_js.Base.{ℕ, ◌≡◌, refl, [], ◌++◌, ok, arith}
use tephra_js.Text.{Bytes}
use tephra_js.Wire.Field
use tephra_js.Wire.Fields.Rules.{Puts-then, decode_fields-Puts, Puts-uint64, Puts-message}
use tephra_js.Wire.Number.{IsU64}
use tephra_js.Wire.Writer.{new_writer}
use tephra_js.Wire.Writer.Appends.{Appends-then, finish-Appends}
use tephra_js.Wire.Writer.Methods.{uint64-Appends, message-Appends}
use tephra_js.Messages.Sound.{Fits}
use tephra_js.Messages.Request.{
  WireRequest, RequestKind, request_kind, encode_request, no_request, request_field, decode_request,
}
use tephra_js.Messages.Bodies.{
  encode_append_request, decode_append_request, encode_read_request, decode_read_request,
  encode_subscribe_request, decode_subscribe_request, encode_cancel_request, decode_cancel_request,
  encode_hello, decode_hello,
}
use tephra_js.Messages.Bodies.RoundTrip.{
  IsWireAppendRequest, decode_append_request-encode_append_request, IsWireReadRequest,
  decode_read_request-encode_read_request, IsWireSubscribeRequest,
  decode_subscribe_request-encode_subscribe_request, IsWireCancelRequest,
  decode_cancel_request-encode_cancel_request, IsWireHello, decode_hello-encode_hello,
}
use tephra_js.Wire.Fields.Rules.{Puts, Puts-none, Puts-skipped}
use tephra_js.Wire.Writer.Appends.{Appends, Appends-none}
use tephra_js.Wire.Writer.{Writer}

abbrev pub IsRequestKind : RequestKind → Type 0
IsRequestKind (RequestKind.append x) = Fits IsWireAppendRequest encode_append_request x
IsRequestKind (RequestKind.read x) = Fits IsWireReadRequest encode_read_request x
IsRequestKind (RequestKind.subscribe x) = Fits IsWireSubscribeRequest encode_subscribe_request x
IsRequestKind (RequestKind.cancel x) = Fits IsWireCancelRequest encode_cancel_request x
IsRequestKind RequestKind.stats = Unit {0}
IsRequestKind (RequestKind.hello x) = Fits IsWireHello encode_hello x
IsRequestKind RequestKind.none = Unit {0}

pub record IsWireRequest (m : WireRequest) : Type 0 where
  pub request_id : IsU64 m.request_id
  pub kind : IsRequestKind m.kind

abbrev pub sent_bytes : RequestKind → Bytes
sent_bytes (RequestKind.append x) = Field.message 2 (encode_append_request x)
sent_bytes (RequestKind.read x) = Field.message 3 (encode_read_request x)
sent_bytes (RequestKind.subscribe x) = Field.message 4 (encode_subscribe_request x)
sent_bytes (RequestKind.cancel x) = Field.message 5 (encode_cancel_request x)
sent_bytes RequestKind.stats = Field.message 6 []
sent_bytes (RequestKind.hello x) = Field.message 7 (encode_hello x)
sent_bytes RequestKind.none = []

kind-Appends : (k : RequestKind) (w : Writer) → Appends (sent_bytes k) w (request_kind k w)
unfolding request_kind
kind-Appends (RequestKind.append x) w = message-Appends 2 w (omega arith) (encode_append_request x)
kind-Appends (RequestKind.read x) w = message-Appends 3 w (omega arith) (encode_read_request x)
kind-Appends (RequestKind.subscribe x) w =
    message-Appends 4 w (omega arith) (encode_subscribe_request x)
kind-Appends (RequestKind.cancel x) w = message-Appends 5 w (omega arith) (encode_cancel_request x)
kind-Appends RequestKind.stats w = message-Appends 6 w (omega arith) []
kind-Appends (RequestKind.hello x) w = message-Appends 7 w (omega arith) (encode_hello x)
kind-Appends RequestKind.none w = Appends-none w

-- The growable buffer of the encoder ends with the bytes that the wire format gives for a request:
-- the identifier as field 1, left out when it is zero, and the block of its kind behind it.
pub encode_request-eq :
    (m : WireRequest) → encode_request m ≡ Field.number 1 m.request_id ++ sent_bytes m.kind
unfolding encode_request
encode_request-eq m = finish-Appends (
    Appends-then (uint64-Appends 1 (new_writer 64) (omega arith) m.request_id)
      (kind-Appends m.kind _))

kind-Puts :
    (id : ℕ) (k : RequestKind)
    → IsRequestKind k
    → Puts request_field
        (record no_request { request_id = id })
        (sent_bytes k)
        (record { request_id = id; kind = k })
unfolding request_field
kind-Puts id (RequestKind.append x) h =
    Puts-message request_field 2 (record no_request { request_id = id }) (omega arith)
      (encode_append_request x) decode_append_request x
      (λ y. record { request_id = id; kind = RequestKind.append y }) (λ r. refl)
      (decode_append_request-encode_append_request x h.valid) h.safe
kind-Puts id (RequestKind.read x) h =
    Puts-message request_field 3 (record no_request { request_id = id }) (omega arith)
      (encode_read_request x) decode_read_request x
      (λ y. record { request_id = id; kind = RequestKind.read y }) (λ r. refl)
      (decode_read_request-encode_read_request x h.valid) h.safe
kind-Puts id (RequestKind.subscribe x) h =
    Puts-message request_field 4 (record no_request { request_id = id }) (omega arith)
      (encode_subscribe_request x) decode_subscribe_request x
      (λ y. record { request_id = id; kind = RequestKind.subscribe y }) (λ r. refl)
      (decode_subscribe_request-encode_subscribe_request x h.valid) h.safe
kind-Puts id (RequestKind.cancel x) h =
    Puts-message request_field 5 (record no_request { request_id = id }) (omega arith)
      (encode_cancel_request x) decode_cancel_request x
      (λ y. record { request_id = id; kind = RequestKind.cancel y }) (λ r. refl)
      (decode_cancel_request-encode_cancel_request x h.valid) h.safe
kind-Puts id RequestKind.stats h =
    Puts-skipped request_field 6 (record no_request { request_id = id }) (omega arith) []
      (record { request_id = id; kind = RequestKind.stats }) (λ r. refl) (omega arith)
kind-Puts id (RequestKind.hello x) h =
    Puts-message request_field 7 (record no_request { request_id = id }) (omega arith)
      (encode_hello x) decode_hello x (λ y. record { request_id = id; kind = RequestKind.hello y })
      (λ r. refl) (decode_hello-encode_hello x h.valid) h.safe
kind-Puts id RequestKind.none h = Puts-none request_field (record no_request { request_id = id })

-- Decoding the bytes of a request gives the request back, of every kind, when its numbers fit their
-- wire types, its strings are well-formed UTF-16 without a leading byte order mark, the lengths of
-- its blocks are below 2^53, and an authentication token, if there is one, is not empty.
pub decode_request-encode_request :
    (m : WireRequest) → IsWireRequest m → decode_request (encode_request m) ≡ ok m
unfolding decode_request request_field
decode_request-encode_request m v = rw (encode_request-eq m) (
    decode_fields-Puts request_field (
      Puts-then request_field
        (Puts-uint64 request_field 1 no_request (omega arith) m.request_id
          (λ x. record no_request { request_id = x }) (λ r. refl) v.request_id refl)
        (kind-Puts m.request_id m.kind v.kind)))
