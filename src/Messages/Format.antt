-- ===== src/Messages/Format.antt =====
-- The bytes of every message in the wire format of proto/tephra/v1/tephra.proto, field by field and
-- without an encoder: what the encoders of src/proto/messages.ts are to write. Fields stand in the
-- order of their numbers. The hello of a request (field 7) and its answer (field 8) are in no
-- .proto file; here they are as messages.ts numbers them.
pub mod Requests
pub mod Responses
use tephra_js.Base.{ℕ, [], ◌++◌}
use mathlib.Core.List.{flat_map}
use tephra_js.Text.{Bytes}
use tephra_js.Wire.Field
use tephra_js.Messages.Event.{WireEvent}
use tephra_js.Messages.Query.{WireQueryItem, WireQuery, WireAppendCondition}
use tephra_js.Messages.Bodies.{
  WireAppendRequest, WireReadRequest, WireSubscribeRequest, WireCancelRequest, WireHello,
}
use tephra_js.Messages.Replies.{WireSequencedEvent, WireAppendResponse, WireReadEvents}
use tephra_js.Messages.Status.{WireStatsResponse, WireErrorResponse, WireHelloAck}
use tephra_js.Messages.Request.{RequestKind, WireRequest}
use tephra_js.Messages.Response.{ResponseKind, WireResponse}

unfoldable pub event : WireEvent → Bytes
event m =
    (Field.string 1 m.type ++ flat_map (Field.repeated_string 2) m.tags) ++ Field.bytes 3 m.payload

unfoldable pub query_item : WireQueryItem → Bytes
query_item m =
    flat_map (Field.repeated_string 1) m.types ++ flat_map (Field.repeated_string 2) m.tags

unfoldable pub query : WireQuery → Bytes
query m = Field.bool 1 m.all ++ flat_map (λ x. Field.message 2 (query_item x)) m.items

unfoldable pub condition : WireAppendCondition → Bytes
condition m =
    (Field.message 1 (query m.fail_if_events_match) ++ Field.number 2 m.after)
    ++ Field.optional (λ x. Field.message 3 (query x)) m.fail_if_exists

unfoldable pub append_request : WireAppendRequest → Bytes
append_request m =
    flat_map (λ x. Field.message 1 (event x)) m.events
    ++ Field.optional (λ x. Field.message 2 (condition x)) m.condition

unfoldable pub read_request : WireReadRequest → Bytes
read_request m =
    ((Field.message 1 (query m.query) ++ Field.number 2 m.after)
      ++ Field.optional (Field.present 3) m.limit)
    ++ Field.bool 4 m.reverse

unfoldable pub subscribe_request : WireSubscribeRequest → Bytes
subscribe_request m = Field.message 1 (query m.query) ++ Field.number 2 m.after

unfoldable pub cancel_request : WireCancelRequest → Bytes
cancel_request m = Field.number 1 m.target

unfoldable pub hello : WireHello → Bytes
hello m = Field.number 1 m.protocol_version ++ Field.optional (Field.string 2) m.auth_token

unfoldable pub sequenced_event : WireSequencedEvent → Bytes
sequenced_event m =
    Field.number 1 m.position ++ Field.optional (λ x. Field.message 2 (event x)) m.event

unfoldable pub append_response : WireAppendResponse → Bytes
append_response m = Field.number 1 m.first ++ Field.number 2 m.last

unfoldable pub read_events : WireReadEvents → Bytes
read_events m = flat_map (λ x. Field.message 1 (sequenced_event x)) m.events

unfoldable pub watermark : ℕ → Bytes
watermark n = Field.number 1 n

unfoldable pub stats_response : WireStatsResponse → Bytes
stats_response m =
    ((((((((Field.number 1 m.event_count ++ Field.number 2 m.segment_count)
                  ++ Field.number 3 m.disk_bytes)
                ++ Field.number 4 m.uptime_seconds)
              ++ Field.number 5 m.active_connections)
            ++ Field.number 6 m.active_subscriptions)
          ++ Field.string 7 m.version)
        ++ Field.number 8 m.connections_refused)
      ++ Field.number 9 m.max_connections)
    ++ Field.number 10 m.connections_reaped

unfoldable pub error_response : WireErrorResponse → Bytes
error_response m =
    ((Field.number 1 m.code ++ Field.string 2 m.message)
      ++ Field.optional (Field.present 3) m.conflict_position)
    ++ Field.bool 4 m.retryable

unfoldable pub hello_ack : WireHelloAck → Bytes
hello_ack m = Field.number 1 m.protocol_version ++ Field.string 2 m.server_version

unfoldable pub request_body : RequestKind → Bytes
request_body (RequestKind.append x) = Field.message 2 (append_request x)
request_body (RequestKind.read x) = Field.message 3 (read_request x)
request_body (RequestKind.subscribe x) = Field.message 4 (subscribe_request x)
request_body (RequestKind.cancel x) = Field.message 5 (cancel_request x)
request_body RequestKind.stats = Field.message 6 []
request_body (RequestKind.hello x) = Field.message 7 (hello x)
request_body RequestKind.none = []

unfoldable pub request : WireRequest → Bytes
request m = Field.number 1 m.request_id ++ request_body m.kind

unfoldable pub response_body : ResponseKind → Bytes
response_body (ResponseKind.append x) = Field.message 2 (append_response x)
response_body (ResponseKind.read_events x) = Field.message 3 (read_events x)
response_body (ResponseKind.read_end x) = Field.message 4 (watermark x)
response_body (ResponseKind.error x) = Field.message 5 (error_response x)
response_body (ResponseKind.caught_up x) = Field.message 6 (watermark x)
response_body (ResponseKind.stats x) = Field.message 7 (stats_response x)
response_body (ResponseKind.hello_ack x) = Field.message 8 (hello_ack x)
response_body ResponseKind.none = []

unfoldable pub response : WireResponse → Bytes
response m = Field.number 1 m.request_id ++ response_body m.kind
