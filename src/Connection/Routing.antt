-- ===== src/Connection/Routing.antt =====
-- The receiving half of src/connection.ts: chunks from the socket, and the routing of responses.
use tephra_js.Base.{
  ℕ, Option, none, some, List, [], ◌∷◌, if◌then◌else◌, ◌==◌, Result, ok, err, ◌>>=◌,
}
use tephra_js.Base.Maps.{get}
use tephra_js.Text.{Bytes}
use tephra_js.Framing.{FrameError, FrameDecoder, push}
use tephra_js.Failure.{
  Failure, framing_error, protocol_error, unattributed, server, unexpected_response,
  version_mismatch, sequenced, frame, malformed,
}
use tephra_js.Messages.Replies.{WireSequencedEvent}
use tephra_js.Messages.Response.{ResponseKind, WireResponse, decode_response}
use tephra_js.Convert.{ProtocolError, server_error_from_wire, sequenced_from_wire}
use tephra_js.Values.{SequencedEvent}
use tephra_js.Wire.Reader.{Fault}
use tephra_js.Streams.{deliver_item, fail_with, end_with, ReadStream, BaseStream}
use tephra_js.Connection.{
  Expect, append, stats, Role, unary, hello, read, subscribe, Entry, SubEvent, event, caught_up,
  Outcome, appended, reported, greeted, rejected, Conn, settle, on_read, on_subscription, fail_read,
  fail_connection, finalize,
}
use tephra_js.Connection.Sending.{send_cancel, unless_thrown}

abbrev protocol_version : ℕ
protocol_version = 1

-- What a hello is answered by.
unfoldable pub greeting : ResponseKind → Outcome
greeting (ResponseKind.hello_ack ack) =
    if ack.protocol_version == protocol_version then greeted else rejected version_mismatch
greeting (ResponseKind.error e) = rejected (server (server_error_from_wire e))
greeting (ResponseKind.append x) = rejected unexpected_response
greeting (ResponseKind.read_events x) = rejected unexpected_response
greeting (ResponseKind.read_end x) = rejected unexpected_response
greeting (ResponseKind.caught_up x) = rejected unexpected_response
greeting (ResponseKind.stats x) = rejected unexpected_response
greeting ResponseKind.none = rejected unexpected_response

-- What a request with one answer is answered by.
unfoldable pub reply : Expect → ResponseKind → Outcome
reply expect (ResponseKind.error e) = rejected (server (server_error_from_wire e))
reply append (ResponseKind.append x) = appended x
reply stats (ResponseKind.append x) = rejected unexpected_response
reply append (ResponseKind.stats x) = rejected unexpected_response
reply stats (ResponseKind.stats x) = reported x
reply expect (ResponseKind.read_events x) = rejected unexpected_response
reply expect (ResponseKind.read_end x) = rejected unexpected_response
reply expect (ResponseKind.caught_up x) = rejected unexpected_response
reply expect (ResponseKind.hello_ack x) = rejected unexpected_response
reply expect ResponseKind.none = rejected unexpected_response

-- `abortStream`: `fail` fails the stream, if the cancel does not throw.
unfoldable pub abort_as : Option Entry → ℕ → (Conn → Conn) → Conn → Conn × Option Failure
abort_as none id fail c = (fail c, none)
abort_as (some entry) id fail c = unless_thrown (send_cancel id c) (λ d. fail (finalize id d))

unfoldable pub abort_stream : ℕ → (Conn → Conn) → Conn → Conn × Option Failure
abort_stream id fail c = abort_as (get id c.pending) id fail c

-- `events.map(sequencedFromWire)`.
unfoldable pub sequenced_all : List WireSequencedEvent → Result ProtocolError (List SequencedEvent)
sequenced_all [] = ok []
sequenced_all (e ∷ es) = do x ← sequenced_from_wire e; xs ← sequenced_all es; ok (x ∷ xs)

unfoldable pub deliver_to_read :
    List SequencedEvent → ReadStream SequencedEvent → ReadStream SequencedEvent
deliver_to_read [] r = r
deliver_to_read (x ∷ xs) r = deliver_to_read xs (record r { base = deliver_item x r.base })

unfoldable pub deliver_to_subscription :
    List SequencedEvent → BaseStream SubEvent → BaseStream SubEvent
deliver_to_subscription [] b = b
deliver_to_subscription (x ∷ xs) b = deliver_to_subscription xs (deliver_item (event x) b)

unfoldable pub read_events_as :
    Result ProtocolError (List SequencedEvent) → ℕ → Conn → Conn × Option Failure
read_events_as (err e) id c = abort_stream id (on_read id (fail_read (sequenced e))) c
read_events_as (ok events) id c = (on_read id (deliver_to_read events) c, none)

abbrev unexpected_for_read : ℕ → Conn → Conn × Option Failure
unexpected_for_read id c = abort_stream id (on_read id (fail_read unexpected_response)) c

unfoldable pub route_read : ResponseKind → ℕ → Conn → Conn × Option Failure
route_read (ResponseKind.read_events x) id c = read_events_as (sequenced_all x.events) id c
route_read (ResponseKind.read_end watermark) id c =
    (on_read id (end_with watermark) (finalize id c), none)
route_read (ResponseKind.error e) id c =
    (on_read id (fail_read (server (server_error_from_wire e))) (finalize id c), none)
route_read (ResponseKind.append x) id c = unexpected_for_read id c
route_read (ResponseKind.caught_up x) id c = unexpected_for_read id c
route_read (ResponseKind.stats x) id c = unexpected_for_read id c
route_read (ResponseKind.hello_ack x) id c = unexpected_for_read id c
route_read ResponseKind.none id c = unexpected_for_read id c

unfoldable pub subscribed_events_as :
    Result ProtocolError (List SequencedEvent) → ℕ → Conn → Conn × Option Failure
subscribed_events_as (err e) id c = abort_stream id (on_subscription id (fail_with (sequenced e))) c
subscribed_events_as (ok events) id c =
    (on_subscription id (deliver_to_subscription events) c, none)

abbrev unexpected_for_subscription : ℕ → Conn → Conn × Option Failure
unexpected_for_subscription id c =
    abort_stream id (on_subscription id (fail_with unexpected_response)) c

unfoldable pub route_subscribe : ResponseKind → ℕ → Conn → Conn × Option Failure
route_subscribe (ResponseKind.read_events x) id c =
    subscribed_events_as (sequenced_all x.events) id c
route_subscribe (ResponseKind.caught_up watermark) id c =
    (on_subscription id (deliver_item (caught_up watermark)) c, none)
route_subscribe (ResponseKind.error e) id c =
    (on_subscription id (fail_with (server (server_error_from_wire e))) (finalize id c), none)
route_subscribe (ResponseKind.append x) id c = unexpected_for_subscription id c
route_subscribe (ResponseKind.read_end x) id c = unexpected_for_subscription id c
route_subscribe (ResponseKind.stats x) id c = unexpected_for_subscription id c
route_subscribe (ResponseKind.hello_ack x) id c = unexpected_for_subscription id c
route_subscribe ResponseKind.none id c = unexpected_for_subscription id c

unfoldable pub route_role : Role → ResponseKind → ℕ → Conn → Conn × Option Failure
route_role hello kind id c = (settle id (greeting kind) (finalize id c), none)
route_role (unary expect) kind id c = (settle id (reply expect kind) (finalize id c), none)
route_role read kind id c = route_read kind id c
route_role subscribe kind id c = route_subscribe kind id c

unfoldable pub route_entry : Option Entry → ResponseKind → ℕ → Conn → Conn × Option Failure
route_entry none kind id c = (c, none)
route_entry (some entry) kind id c = route_role entry.role kind id c

-- A frame that the server could not attribute to a request.
unfoldable pub route_unattributed : ResponseKind → Conn → Conn
route_unattributed (ResponseKind.error e) c =
    fail_connection (unattributed (server_error_from_wire e)) c
route_unattributed (ResponseKind.append x) c = c
route_unattributed (ResponseKind.read_events x) c = c
route_unattributed (ResponseKind.read_end x) c = c
route_unattributed (ResponseKind.caught_up x) c = c
route_unattributed (ResponseKind.stats x) c = c
route_unattributed (ResponseKind.hello_ack x) c = c
route_unattributed ResponseKind.none c = c

unfoldable pub route_response : WireResponse → Conn → Conn × Option Failure
route_response response c =
    if response.request_id == 0
    then (route_unattributed response.kind c, none)
    else route_entry (get response.request_id c.pending) response.kind response.request_id c

unfoldable pub route_decoded : Result Fault WireResponse → Conn → Conn × Option Failure
route_decoded (err e) c = (c, some (malformed e))
route_decoded (ok response) c = route_response response c

-- `route`, with what it throws.
unfoldable pub route : Bytes → Conn → Conn × Option Failure
route body c = route_decoded (decode_response body) c

-- The loop of `onData`: a throw ends the connection and the loop.
unfoldable pub after_route : (Conn → Conn) → Conn × Option Failure → Conn
after_route more (c, none) = more c
after_route more (c, some e) = fail_connection (protocol_error e) c

unfoldable pub route_frames : List Bytes → Conn → Conn
route_frames [] c = c
route_frames (body ∷ bodies) c = after_route (route_frames bodies) (route body c)

unfoldable pub decoded : FrameDecoder × Result FrameError (List Bytes) → Conn → Conn
decoded (d, err e) c = fail_connection (framing_error (frame e)) (record c { decoder = d })
decoded (d, ok frames) c = route_frames frames (record c { decoder = d })

unfoldable pub on_data : Bytes → Conn → Conn
on_data chunk c = decoded (push c.decoder chunk) c
