-- ===== src/Messages/Format/Requests.antt =====
-- The request encoders of src/proto/messages.ts against the wire format.
use tephra_js.Base.{◌≡◌, refl, ap, ◌∙◌, ◌++◌}
use mathlib.Core.List.{flat_map}
use tephra_js.Text.{Bytes}
use tephra_js.Wire.Field
use tephra_js.Messages.Format
use tephra_js.Messages.Event.{encode_event}
use tephra_js.Messages.Event.RoundTrip.{event_bytes, encode_event-eq}
use tephra_js.Messages.Query.{
  WireQueryItem, encode_query_item, WireQuery, encode_query, WireAppendCondition, encode_condition,
}
use tephra_js.Messages.Query.RoundTrip.{
  query_item_bytes, encode_query_item-eq, query_bytes, encode_query-eq, condition_bytes,
  encode_condition-eq,
}
use tephra_js.Messages.Bodies.{
  WireAppendRequest, encode_append_request, WireReadRequest, encode_read_request,
  WireSubscribeRequest, encode_subscribe_request, WireCancelRequest, encode_cancel_request,
  WireHello, encode_hello,
}
use tephra_js.Messages.Bodies.RoundTrip.{
  append_request_bytes, encode_append_request-eq, read_request_bytes, encode_read_request-eq,
  subscribe_request_bytes, encode_subscribe_request-eq, cancel_request_bytes,
  encode_cancel_request-eq, hello_bytes, encode_hello-eq,
}
use tephra_js.Messages.Request.{RequestKind, WireRequest, encode_request}
use tephra_js.Messages.Request.RoundTrip.{sent_bytes, encode_request-eq}

-- Encoders are compared as functions, so that they may stand under a list.
pub event_format : encode_event ≡ Format.event
unfolding event_bytes Format.event
event_format i m = encode_event-eq m i

query_item_format : encode_query_item ≡ Format.query_item
unfolding query_item_bytes Format.query_item
query_item_format i m = encode_query_item-eq m i

query_at : (m : WireQuery) → encode_query m ≡ Format.query m
unfolding query_bytes Format.query
query_at m =
    encode_query-eq m
    ∙ ap
        (λ (f : WireQueryItem → Bytes).
          Field.bool 1 m.all ++ flat_map (λ x. Field.message 2 (f x)) m.items)
        query_item_format

query_format : encode_query ≡ Format.query
query_format i m = query_at m i

condition_at : (m : WireAppendCondition) → encode_condition m ≡ Format.condition m
unfolding condition_bytes Format.condition
condition_at m =
    encode_condition-eq m
    ∙ ap
        (λ (f : WireQuery → Bytes).
          (Field.message 1 (f m.fail_if_events_match) ++ Field.number 2 m.after)
          ++ Field.optional (λ x. Field.message 3 (f x)) m.fail_if_exists)
        query_format

condition_format : encode_condition ≡ Format.condition
condition_format i m = condition_at m i

append_request_at : (m : WireAppendRequest) → encode_append_request m ≡ Format.append_request m
unfolding append_request_bytes Format.append_request
append_request_at m = encode_append_request-eq m ∙ (λ i.
    flat_map (λ x. Field.message 1 (event_format i x)) m.events
    ++ Field.optional (λ x. Field.message 2 (condition_format i x)) m.condition)

read_request_at : (m : WireReadRequest) → encode_read_request m ≡ Format.read_request m
unfolding read_request_bytes Format.read_request
read_request_at m =
    encode_read_request-eq m
    ∙ ap
        (λ (q : Bytes).
          ((Field.message 1 q ++ Field.number 2 m.after)
            ++ Field.optional (Field.present 3) m.limit)
          ++ Field.bool 4 m.reverse)
        (query_at m.query)

subscribe_request_at :
    (m : WireSubscribeRequest) → encode_subscribe_request m ≡ Format.subscribe_request m
unfolding subscribe_request_bytes Format.subscribe_request
subscribe_request_at m =
    encode_subscribe_request-eq m
    ∙ ap (λ (q : Bytes). Field.message 1 q ++ Field.number 2 m.after) (query_at m.query)

cancel_request_at : (m : WireCancelRequest) → encode_cancel_request m ≡ Format.cancel_request m
unfolding cancel_request_bytes Format.cancel_request
cancel_request_at m = encode_cancel_request-eq m

hello_at : (m : WireHello) → encode_hello m ≡ Format.hello m
unfolding hello_bytes Format.hello
hello_at m = encode_hello-eq m

body_format : (k : RequestKind) → sent_bytes k ≡ Format.request_body k
unfolding Format.request_body
body_format (RequestKind.append x) = ap (Field.message 2) (append_request_at x)
body_format (RequestKind.read x) = ap (Field.message 3) (read_request_at x)
body_format (RequestKind.subscribe x) = ap (Field.message 4) (subscribe_request_at x)
body_format (RequestKind.cancel x) = ap (Field.message 5) (cancel_request_at x)
body_format RequestKind.stats = refl
body_format (RequestKind.hello x) = ap (Field.message 7) (hello_at x)
body_format RequestKind.none = refl

-- encodeRequest writes the bytes that the wire format gives for a request, described field by field
-- and without the encoders, the nested messages included: for each kind the field numbers of the
-- schema in their order, a default left out unless its field has presence. The hello, which the
-- schema does not have, is described by the numbers that messages.ts gives it.
pub encode_request_format : (m : WireRequest) → encode_request m ≡ Format.request m
unfolding Format.request
encode_request_format m =
    encode_request-eq m ∙ ap (λ b. Field.number 1 m.request_id ++ b) (body_format m.kind)
