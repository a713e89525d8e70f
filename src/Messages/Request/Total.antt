-- ===== src/Messages/Request/Total.antt =====
-- decodeRequest of src/proto/messages.ts on arbitrary bytes.
use tephra_js.Base.{ℕ, ◌==◌}
use tephra_js.Text.{Bytes}
use tephra_js.Wire.Fields.Total.{
  Settled, Moves, if-Moves, store-Moves, nested-Moves, skipping-Moves, varint_big-Moves,
  varint-Moves, bool-Moves, bytes-Moves, string-Moves, message-Moves, decode_fields-Settled,
}
use tephra_js.Wire.Reader.{Reader, new_reader}
use tephra_js.Messages.Event.{WireEvent, event_field, decode_event}
use tephra_js.Messages.Query.{
  WireQueryItem, query_item_field, decode_query_item, WireQuery, query_field, decode_query,
  WireAppendCondition, condition_field, decode_condition,
}
use tephra_js.Messages.Bodies.{
  WireAppendRequest, append_request_field, decode_append_request, WireReadRequest,
  read_request_field, decode_read_request, WireSubscribeRequest, subscribe_request_field,
  decode_subscribe_request, WireCancelRequest, cancel_request_field, decode_cancel_request,
  WireHello, hello_field, decode_hello,
}
use tephra_js.Messages.Request.{WireRequest, request_field, decode_request}

event_field-Moves : (f t : ℕ) (m : WireEvent) (r : Reader) → Moves 0 r (event_field f t m r)
unfolding event_field
event_field-Moves f t m r =
    if-Moves (f == 1) (λ _. store-Moves _ (string-Moves r))
      λ _.
        if-Moves (f == 2) (λ _. store-Moves _ (string-Moves r))
          λ _. if-Moves (f == 3) (λ _. store-Moves _ (bytes-Moves r)) λ _. skipping-Moves t m r

pub decode_event-Settled : (r : Reader) → Settled (decode_event r)
unfolding decode_event
decode_event-Settled r = decode_fields-Settled event_field event_field-Moves _ r

query_item_field-Moves :
    (f t : ℕ) (m : WireQueryItem) (r : Reader) → Moves 0 r (query_item_field f t m r)
unfolding query_item_field
query_item_field-Moves f t m r =
    if-Moves (f == 1) (λ _. store-Moves _ (string-Moves r))
      λ _. if-Moves (f == 2) (λ _. store-Moves _ (string-Moves r)) λ _. skipping-Moves t m r

pub decode_query_item-Settled : (r : Reader) → Settled (decode_query_item r)
unfolding decode_query_item
decode_query_item-Settled r = decode_fields-Settled query_item_field query_item_field-Moves _ r

query_field-Moves : (f t : ℕ) (m : WireQuery) (r : Reader) → Moves 0 r (query_field f t m r)
unfolding query_field
query_field-Moves f t m r =
    if-Moves (f == 1) (λ _. store-Moves _ (bool-Moves r))
      λ _.
        if-Moves (f == 2) (λ _. nested-Moves decode_query_item _ r decode_query_item-Settled)
          λ _. skipping-Moves t m r

pub decode_query-Settled : (r : Reader) → Settled (decode_query r)
unfolding decode_query
decode_query-Settled r = decode_fields-Settled query_field query_field-Moves _ r

condition_field-Moves :
    (f t : ℕ) (m : WireAppendCondition) (r : Reader) → Moves 0 r (condition_field f t m r)
unfolding condition_field
condition_field-Moves f t m r =
    if-Moves (f == 1) (λ _. nested-Moves decode_query _ r decode_query-Settled)
      λ _.
        if-Moves (f == 2) (λ _. store-Moves _ (varint_big-Moves r))
          λ _.
            if-Moves (f == 3) (λ _. nested-Moves decode_query _ r decode_query-Settled)
              λ _. skipping-Moves t m r

pub decode_condition-Settled : (r : Reader) → Settled (decode_condition r)
unfolding decode_condition
decode_condition-Settled r = decode_fields-Settled condition_field condition_field-Moves _ r

append_request_field-Moves :
    (f t : ℕ) (m : WireAppendRequest) (r : Reader) → Moves 0 r (append_request_field f t m r)
unfolding append_request_field
append_request_field-Moves f t m r =
    if-Moves (f == 1) (λ _. nested-Moves decode_event _ r decode_event-Settled)
      λ _.
        if-Moves (f == 2) (λ _. nested-Moves decode_condition _ r decode_condition-Settled)
          λ _. skipping-Moves t m r

pub decode_append_request-Settled : (r : Reader) → Settled (decode_append_request r)
unfolding decode_append_request
decode_append_request-Settled r =
    decode_fields-Settled append_request_field append_request_field-Moves _ r

read_request_field-Moves :
    (f t : ℕ) (m : WireReadRequest) (r : Reader) → Moves 0 r (read_request_field f t m r)
unfolding read_request_field
read_request_field-Moves f t m r =
    if-Moves (f == 1) (λ _. nested-Moves decode_query _ r decode_query-Settled)
      λ _.
        if-Moves (f == 2) (λ _. store-Moves _ (varint_big-Moves r))
          λ _.
            if-Moves (f == 3) (λ _. store-Moves _ (varint_big-Moves r))
              λ _. if-Moves (f == 4) (λ _. store-Moves _ (bool-Moves r)) λ _. skipping-Moves t m r

pub decode_read_request-Settled : (r : Reader) → Settled (decode_read_request r)
unfolding decode_read_request
decode_read_request-Settled r =
    decode_fields-Settled read_request_field read_request_field-Moves _ r

subscribe_request_field-Moves :
    (f t : ℕ) (m : WireSubscribeRequest) (r : Reader) → Moves 0 r (subscribe_request_field f t m r)
unfolding subscribe_request_field
subscribe_request_field-Moves f t m r =
    if-Moves (f == 1) (λ _. nested-Moves decode_query _ r decode_query-Settled)
      λ _. if-Moves (f == 2) (λ _. store-Moves _ (varint_big-Moves r)) λ _. skipping-Moves t m r

pub decode_subscribe_request-Settled : (r : Reader) → Settled (decode_subscribe_request r)
unfolding decode_subscribe_request
decode_subscribe_request-Settled r =
    decode_fields-Settled subscribe_request_field subscribe_request_field-Moves _ r

cancel_request_field-Moves :
    (f t : ℕ) (m : WireCancelRequest) (r : Reader) → Moves 0 r (cancel_request_field f t m r)
unfolding cancel_request_field
cancel_request_field-Moves f t m r =
    if-Moves (f == 1) (λ _. store-Moves _ (varint_big-Moves r)) λ _. skipping-Moves t m r

pub decode_cancel_request-Settled : (r : Reader) → Settled (decode_cancel_request r)
unfolding decode_cancel_request
decode_cancel_request-Settled r =
    decode_fields-Settled cancel_request_field cancel_request_field-Moves _ r

hello_field-Moves : (f t : ℕ) (m : WireHello) (r : Reader) → Moves 0 r (hello_field f t m r)
unfolding hello_field
hello_field-Moves f t m r =
    if-Moves (f == 1) (λ _. store-Moves _ (varint-Moves r))
      λ _. if-Moves (f == 2) (λ _. store-Moves _ (string-Moves r)) λ _. skipping-Moves t m r

pub decode_hello-Settled : (r : Reader) → Settled (decode_hello r)
unfolding decode_hello
decode_hello-Settled r = decode_fields-Settled hello_field hello_field-Moves _ r

request_field-Moves : (f t : ℕ) (m : WireRequest) (r : Reader) → Moves 0 r (request_field f t m r)
unfolding request_field
request_field-Moves f t m r =
    if-Moves (f == 1) (λ _. store-Moves _ (varint_big-Moves r))
      λ _.
        if-Moves (f == 2)
          (λ _. nested-Moves decode_append_request _ r decode_append_request-Settled)
          λ _.
            if-Moves (f == 3)
              (λ _. nested-Moves decode_read_request _ r decode_read_request-Settled)
              λ _.
                if-Moves (f == 4)
                  (λ _. nested-Moves decode_subscribe_request _ r decode_subscribe_request-Settled)
                  λ _.
                    if-Moves (f == 5)
                      (λ _. nested-Moves decode_cancel_request _ r decode_cancel_request-Settled)
                      λ _.
                        if-Moves (f == 6) (λ _. store-Moves _ (message-Moves r))
                          λ _.
                            if-Moves (f == 7)
                              (λ _. nested-Moves decode_hello _ r decode_hello-Settled)
                              λ _. skipping-Moves t m r

-- On every sequence of bytes decode_request ends: it returns a request or one of the errors that
-- the source throws, and never runs out of the rounds that the model gives to its loops.
pub decode_request-Settled : (bytes : Bytes) → Settled (decode_request bytes)
unfolding decode_request
decode_request-Settled bytes =
    decode_fields-Settled request_field request_field-Moves _ (new_reader bytes)
