-- ===== src/Messages/Status.antt =====
-- The bodies of the responses in src/proto/messages.ts that report on the server: statistics, errors
-- and the answer to a hello.
pub mod RoundTrip
pub mod StatsRoundTrip
use tephra_js.Base.{
  ◌≡◌, ◌%◌, ◌^◌, ℕ, Bool, true, false, Option, none, some, List, [], ◌∷◌, ◌++◌, ◌==◌, if◌then◌else◌,
  Result,
}
use tephra_js.Text.{Text, Bytes}
use tephra_js.Wire.Fields.{Step, store, nested, skipping, decode_fields}
use tephra_js.Wire.Reader.{Reader, Fault}
use tephra_js.Wire.Reader
use tephra_js.Wire.Writer.{new_writer, finish, ◌▷◌, each, when_some}
use tephra_js.Wire.Writer

pub record WireStatsResponse : Type 0 where
  pub event_count : ℕ
  pub segment_count : ℕ
  pub disk_bytes : ℕ
  pub uptime_seconds : ℕ
  pub active_connections : ℕ
  pub active_subscriptions : ℕ
  pub version : Text
  pub connections_refused : ℕ
  pub max_connections : ℕ
  pub connections_reaped : ℕ

unfoldable pub encode_stats_response : WireStatsResponse → Bytes
encode_stats_response m = finish (
    new_writer 64
    ▷ Writer.uint64 1 m.event_count
    ▷ Writer.uint64 2 m.segment_count
    ▷ Writer.uint64 3 m.disk_bytes
    ▷ Writer.uint64 4 m.uptime_seconds
    ▷ Writer.uint64 5 m.active_connections
    ▷ Writer.uint64 6 m.active_subscriptions
    ▷ Writer.string 7 m.version
    ▷ Writer.uint64 8 m.connections_refused
    ▷ Writer.uint64 9 m.max_connections
    ▷ Writer.uint64 10 m.connections_reaped)

abbrev pub no_stats_response : WireStatsResponse
no_stats_response = record {
  event_count = 0;
  segment_count = 0;
  disk_bytes = 0;
  uptime_seconds = 0;
  active_connections = 0;
  active_subscriptions = 0;
  version = [];
  connections_refused = 0;
  max_connections = 0;
  connections_reaped = 0;
}

unfoldable pub stats_response_field : Step WireStatsResponse
stats_response_field field_no wire_type m r =
    if field_no == 1
    then store (λ x. record m { event_count = x }) (Reader.varint_big r)
    else if field_no == 2
    then store (λ x. record m { segment_count = x }) (Reader.varint_big r)
    else if field_no == 3
    then store (λ x. record m { disk_bytes = x }) (Reader.varint_big r)
    else if field_no == 4
    then store (λ x. record m { uptime_seconds = x }) (Reader.varint_big r)
    else if field_no == 5
    then store (λ x. record m { active_connections = x }) (Reader.varint_big r)
    else if field_no == 6
    then store (λ x. record m { active_subscriptions = x }) (Reader.varint_big r)
    else if field_no == 7
    then store (λ x. record m { version = x }) (Reader.string r)
    else if field_no == 8
    then store (λ x. record m { connections_refused = x }) (Reader.varint_big r)
    else if field_no == 9
    then store (λ x. record m { max_connections = x }) (Reader.varint_big r)
    else if field_no == 10
    then store (λ x. record m { connections_reaped = x }) (Reader.varint_big r)
    else skipping wire_type m r

unfoldable pub decode_stats_response : Reader → Result Fault WireStatsResponse
decode_stats_response r = decode_fields stats_response_field no_stats_response r

pub record WireErrorResponse : Type 0 where
  pub code : ℕ
  pub message : Text
  pub conflict_position : Option ℕ
  pub retryable : Bool

unfoldable pub encode_error_response : WireErrorResponse → Bytes
encode_error_response m = finish (
    new_writer 64
    ▷ Writer.enum 1 m.code
    ▷ Writer.string 2 m.message
    ▷ when_some (Writer.uint64_present 3) m.conflict_position
    ▷ Writer.bool 4 m.retryable)

abbrev pub no_error_response : WireErrorResponse
no_error_response = record { code = 0; message = []; conflict_position = none; retryable = false }

unfoldable pub error_response_field : Step WireErrorResponse
error_response_field field_no wire_type m r =
    if field_no == 1
    then store (λ x. record m { code = x }) (Reader.varint r)
    else if field_no == 2
    then store (λ x. record m { message = x }) (Reader.string r)
    else if field_no == 3
    then store (λ x. record m { conflict_position = some x }) (Reader.varint_big r)
    else if field_no == 4
    then store (λ x. record m { retryable = x }) (Reader.bool r)
    else skipping wire_type m r

unfoldable pub decode_error_response : Reader → Result Fault WireErrorResponse
decode_error_response r = decode_fields error_response_field no_error_response r

pub record WireHelloAck : Type 0 where
  pub protocol_version : ℕ
  pub server_version : Text

unfoldable pub encode_hello_ack : WireHelloAck → Bytes
encode_hello_ack m =
    finish (new_writer 64 ▷ Writer.uint32 1 m.protocol_version ▷ Writer.string 2 m.server_version)

abbrev pub no_hello_ack : WireHelloAck
no_hello_ack = record { protocol_version = 0; server_version = [] }

unfoldable pub hello_ack_field : Step WireHelloAck
hello_ack_field field_no wire_type m r =
    if field_no == 1
    then store (λ x. record m { protocol_version = x }) (Reader.varint r)
    else if field_no == 2
    then store (λ x. record m { server_version = x }) (Reader.string r)
    else skipping wire_type m r

unfoldable pub decode_hello_ack : Reader → Result Fault WireHelloAck
decode_hello_ack r = decode_fields hello_ack_field no_hello_ack r
