-- ===== src/Messages/Bodies.antt =====
-- The bodies of the requests in src/proto/messages.ts: append, read, subscribe, cancel and hello.
pub mod RoundTrip
use tephra_js.Base.{
  ◌≡◌, ◌%◌, ◌^◌, ℕ, Bool, true, false, Option, none, some, List, [], ◌∷◌, ◌++◌, ◌==◌, if◌then◌else◌,
  Result,
}
use tephra_js.Text.{Text, Bytes}
use tephra_js.Wire.Fields.{Step, store, nested, skipping, decode_fields}
use tephra_js.Wire.Reader.{Reader, Fault}
use tephra_js.Wire.Reader
use tephra_js.Wire.Writer.{new_writer, finish, ◌▷◌, each, when_some}
use tephra_js.Wire.Writer
use tephra_js.Messages.Event.{WireEvent, encode_event, decode_event}
use tephra_js.Messages.Query.{
  WireQuery, no_query, encode_query, decode_query, WireAppendCondition, encode_condition,
  decode_condition,
}

pub record WireAppendRequest : Type 0 where
  pub events : List WireEvent
  pub condition : Option WireAppendCondition

unfoldable pub encode_append_request : WireAppendRequest → Bytes
encode_append_request m = finish (
    new_writer 64
    ▷ each (λ x. Writer.message 1 (encode_event x)) m.events
    ▷ when_some (λ x. Writer.message 2 (encode_condition x)) m.condition)

abbrev pub no_append_request : WireAppendRequest
no_append_request = record { events = []; condition = none }

unfoldable pub append_request_field : Step WireAppendRequest
append_request_field field_no wire_type m r =
    if field_no == 1
    then store (λ x. record m { events = m.events ++ x ∷ [] }) (nested decode_event r)
    else if field_no == 2
    then store (λ x. record m { condition = some x }) (nested decode_condition r)
    else skipping wire_type m r

unfoldable pub decode_append_request : Reader → Result Fault WireAppendRequest
decode_append_request r = decode_fields append_request_field no_append_request r

pub record WireReadRequest : Type 0 where
  pub query : WireQuery
  pub after : ℕ
  pub limit : Option ℕ
  pub reverse : Bool

unfoldable pub encode_read_request : WireReadRequest → Bytes
encode_read_request m = finish (
    new_writer 64
    ▷ Writer.message 1 (encode_query m.query)
    ▷ Writer.uint64 2 m.after
    ▷ when_some (Writer.uint64_present 3) m.limit
    ▷ Writer.bool 4 m.reverse)

abbrev pub no_read_request : WireReadRequest
no_read_request = record { query = no_query; after = 0; limit = none; reverse = false }

unfoldable pub read_request_field : Step WireReadRequest
read_request_field field_no wire_type m r =
    if field_no == 1
    then store (λ x. record m { query = x }) (nested decode_query r)
    else if field_no == 2
    then store (λ x. record m { after = x }) (Reader.varint_big r)
    else if field_no == 3
    then store (λ x. record m { limit = some x }) (Reader.varint_big r)
    else if field_no == 4
    then store (λ x. record m { reverse = x }) (Reader.bool r)
    else skipping wire_type m r

unfoldable pub decode_read_request : Reader → Result Fault WireReadRequest
decode_read_request r = decode_fields read_request_field no_read_request r

pub record WireSubscribeRequest : Type 0 where
  pub query : WireQuery
  pub after : ℕ

unfoldable pub encode_subscribe_request : WireSubscribeRequest → Bytes
encode_subscribe_request m =
    finish (new_writer 64 ▷ Writer.message 1 (encode_query m.query) ▷ Writer.uint64 2 m.after)

abbrev pub no_subscribe_request : WireSubscribeRequest
no_subscribe_request = record { query = no_query; after = 0 }

unfoldable pub subscribe_request_field : Step WireSubscribeRequest
subscribe_request_field field_no wire_type m r =
    if field_no == 1
    then store (λ x. record m { query = x }) (nested decode_query r)
    else if field_no == 2
    then store (λ x. record m { after = x }) (Reader.varint_big r)
    else skipping wire_type m r

unfoldable pub decode_subscribe_request : Reader → Result Fault WireSubscribeRequest
decode_subscribe_request r = decode_fields subscribe_request_field no_subscribe_request r

pub record WireCancelRequest : Type 0 where
  pub target : ℕ

unfoldable pub encode_cancel_request : WireCancelRequest → Bytes
encode_cancel_request m = finish (new_writer 64 ▷ Writer.uint64 1 m.target)

abbrev pub no_cancel_request : WireCancelRequest
no_cancel_request = record { target = 0 }

unfoldable pub cancel_request_field : Step WireCancelRequest
cancel_request_field field_no wire_type m r =
    if field_no == 1
    then store (λ x. record m { target = x }) (Reader.varint_big r)
    else skipping wire_type m r

unfoldable pub decode_cancel_request : Reader → Result Fault WireCancelRequest
decode_cancel_request r = decode_fields cancel_request_field no_cancel_request r

pub record WireHello : Type 0 where
  pub protocol_version : ℕ
  pub auth_token : Option Text

unfoldable pub encode_hello : WireHello → Bytes
encode_hello m =
    finish (
      new_writer 64 ▷ Writer.uint32 1 m.protocol_version ▷ when_some (Writer.string 2) m.auth_token)

abbrev pub no_hello : WireHello
no_hello = record { protocol_version = 0; auth_token = none }

unfoldable pub hello_field : Step WireHello
hello_field field_no wire_type m r =
    if field_no == 1
    then store (λ x. record m { protocol_version = x }) (Reader.varint r)
    else if field_no == 2
    then store (λ x. record m { auth_token = some x }) (Reader.string r)
    else skipping wire_type m r

unfoldable pub decode_hello : Reader → Result Fault WireHello
decode_hello r = decode_fields hello_field no_hello r
