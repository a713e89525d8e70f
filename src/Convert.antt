-- ===== src/Convert.antt =====
-- src/convert.ts: the public values of src/types.ts as wire structs and back; and from src/errors.ts
-- the table of error codes. The text that ServerError's constructor makes of its arguments is left
-- out.
pub mod Stored
use tephra_js.Base.{
  ℕ, Bool, true, false, Option, none, some, List, [], ◌∷◌, map, Result, ok, err, ◌==◌,
  if◌then◌else◌,
}
use tephra_js.Text.{Text, Bytes}
use mathlib.Core.Option
use tephra_js.Messages.Event.{WireEvent}
use tephra_js.Messages.Query.{WireQueryItem, WireQuery, WireAppendCondition}
use tephra_js.Messages.Replies.{WireAppendResponse, WireSequencedEvent}
use tephra_js.Messages.Status.{WireStatsResponse, WireErrorResponse}
use tephra_js.Values.{Event, from_server, SequencedEvent, QueryItem, Query, AppendCondition}

unfoldable pub event_to_wire : Event → WireEvent
event_to_wire event = record { type = event.type; tags = event.tags; payload = event.payload }

unfoldable pub item_to_wire : QueryItem → WireQueryItem
item_to_wire item = record { types = item.types; tags = item.tags }

unfoldable pub query_to_wire : Query → WireQuery
query_to_wire query =
    if query.match_all
    then record { all = true; items = [] }
    else record { all = false; items = map item_to_wire query.items }

unfoldable pub condition_to_wire : AppendCondition → WireAppendCondition
condition_to_wire condition = record {
  fail_if_events_match = query_to_wire condition.fail_if_events_match;
  after = condition.after;
  fail_if_exists = Option.map query_to_wire condition.fail_if_exists;
}

pub record AppendResult : Type 0 where
  pub first : ℕ
  pub last : ℕ

unfoldable pub append_result_from_wire : WireAppendResponse → AppendResult
append_result_from_wire res = record { first = res.first; last = res.last }

-- A ProtocolError of `sequencedFromWire`.
pub data ProtocolError : Type 0 where
  no_event : ProtocolError

unfoldable pub sequenced_event : ℕ → Option WireEvent → Result ProtocolError SequencedEvent
sequenced_event position none = err no_event
sequenced_event position (some event) =
    ok (record { position = position; event = from_server event.type event.tags event.payload })

unfoldable pub sequenced_from_wire : WireSequencedEvent → Result ProtocolError SequencedEvent
sequenced_from_wire seq = sequenced_event seq.position seq.event

pub record Stats : Type 0 where
  pub event_count : ℕ
  pub segment_count : ℕ
  pub disk_bytes : ℕ
  pub uptime_seconds : ℕ
  pub active_connections : ℕ
  pub active_subscriptions : ℕ
  pub connections_refused : ℕ
  pub connections_reaped : ℕ
  pub max_connections : ℕ
  pub version : Text

unfoldable pub stats_from_wire : WireStatsResponse → Stats
stats_from_wire res = record {
  event_count = res.event_count;
  segment_count = res.segment_count;
  disk_bytes = res.disk_bytes;
  uptime_seconds = res.uptime_seconds;
  active_connections = res.active_connections;
  active_subscriptions = res.active_subscriptions;
  connections_refused = res.connections_refused;
  connections_reaped = res.connections_reaped;
  max_connections = res.max_connections;
  version = res.version;
}

pub data ErrorCode : Type 0 where
  unknown conflict already_exists after_beyond_tip empty too_large bad_request internal : ErrorCode
  shutdown unauthenticated : ErrorCode

unfoldable pub error_code_from_wire : ℕ → ErrorCode
error_code_from_wire code =
    if code == 1
    then conflict
    else if code == 2
    then after_beyond_tip
    else if code == 3
    then empty
    else if code == 4
    then too_large
    else if code == 5
    then bad_request
    else if code == 6
    then internal
    else if code == 7
    then shutdown
    else if code == 8
    then unauthenticated
    else if code == 9
    then already_exists
    else unknown

pub record ServerError : Type 0 where
  pub code : ErrorCode
  pub message : Text
  pub retryable : Bool
  pub conflict_position : Option ℕ

unfoldable pub server_error_from_wire : WireErrorResponse → ServerError
server_error_from_wire res = record {
  code = error_code_from_wire res.code;
  message = res.message;
  retryable = res.retryable;
  conflict_position = res.conflict_position;
}
