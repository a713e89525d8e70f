-- ===== src/Connection/Invariant/Routes.antt =====
-- The receiving half of a connection (src/connection.ts) keeps the books.
use tephra_js.Base.{
  ℕ, ◌≡◌, refl, sym, subst, Option, none, some, List, [], ◌∷◌, ◌==◌, if-elim, Result, ok, err,
}
use tephra_js.Base.Maps.{get}
use tephra_js.Text.{Bytes}
use tephra_js.Framing.{FrameError, FrameDecoder, push}
use tephra_js.Failure.{Failure}
use tephra_js.Messages.Response.{ResponseKind, WireResponse, decode_response}
use tephra_js.Convert.{ProtocolError}
use tephra_js.Values.{SequencedEvent}
use tephra_js.Wire.Reader.{Fault}
use tephra_js.Connection.{
  Role, unary, hello, read, subscribe, Entry, Conn, on_read, on_subscription, fail_read, finalize,
}
use tephra_js.Streams.{fail_with}
use tephra_js.Connection.Sending.{send_cancel, unless_thrown}
use tephra_js.Connection.Routing.{
  greeting, reply, abort_as, abort_stream, read_events_as, route_read, subscribed_events_as,
  route_subscribe, route_role, route_entry, route_unattributed, route_response, route_decoded,
  route, after_route, route_frames, decoded, on_data, sequenced_all,
}
use tephra_js.Connection.Invariant.{Inv, Balanced, books}
use tephra_js.Connection.Invariant.Ends.{finalize-Inv, settle-books, fail_connection-Inv}
use tephra_js.Connection.Invariant.Cancels.{send_cancel-Inv}

module _ {limit depth held slots : ℕ} where
  -- `fail` leaves the books alone.
  abort_stream-Inv :
      (id : ℕ) (fail : Conn → Conn) (c : Conn)
      → ((d : Conn) → books (fail d) ≡ books d)
      → Inv limit depth held slots c
      → Inv limit depth held slots (abort_stream id fail c).0
  unfolding abort_stream
  abort_stream-Inv id fail c same v = aborted (get id c.pending)
    where
      fails : (d : Conn) → Inv limit depth held slots d → Inv limit depth held slots (fail d)
      fails d w = subst (Balanced limit depth held slots) (sym (same d)) w

      after :
          (r : Conn × Option Failure)
          → Inv limit depth held slots r.0
          → Inv limit depth held slots (unless_thrown r (λ d. fail (finalize id d))).0
      after (d, some e) w = w
      after (d, none) w = fails _ (finalize-Inv id d w)

      aborted : (o : Option Entry) → Inv limit depth held slots (abort_as o id fail c).0
      aborted none = unfold abort_as in fails c v
      aborted (some entry) = unfold abort_as in after (send_cancel id c) (send_cancel-Inv id c v)

  abort_read-Inv :
      (id : ℕ) (e : Failure) (c : Conn)
      → Inv limit depth held slots c
      → Inv limit depth held slots (abort_stream id (on_read id (fail_read e)) c).0
  abort_read-Inv id e c v = abort_stream-Inv id _ c (λ d. unfold on_read in refl) v

  read_events-Inv :
      (r : Result ProtocolError (List SequencedEvent)) (id : ℕ) (c : Conn)
      → Inv limit depth held slots c
      → Inv limit depth held slots (read_events_as r id c).0
  unfolding read_events_as
  read_events-Inv (err e) id c v = abort_read-Inv id _ c v
  read_events-Inv (ok events) id c v = unfold on_read in v

  route_read-Inv :
      (kind : ResponseKind) (id : ℕ) (c : Conn)
      → Inv limit depth held slots c
      → Inv limit depth held slots (route_read kind id c).0
  unfolding route_read
  route_read-Inv (ResponseKind.read_events x) id c v =
      read_events-Inv (sequenced_all x.events) id c v
  route_read-Inv (ResponseKind.read_end x) id c v = unfold on_read in finalize-Inv id c v
  route_read-Inv (ResponseKind.error x) id c v = unfold on_read in finalize-Inv id c v
  route_read-Inv (ResponseKind.append x) id c v = abort_read-Inv id _ c v
  route_read-Inv (ResponseKind.caught_up x) id c v = abort_read-Inv id _ c v
  route_read-Inv (ResponseKind.stats x) id c v = abort_read-Inv id _ c v
  route_read-Inv (ResponseKind.hello_ack x) id c v = abort_read-Inv id _ c v
  route_read-Inv ResponseKind.none id c v = abort_read-Inv id _ c v

  abort_subscription-Inv :
      (id : ℕ) (e : Failure) (c : Conn)
      → Inv limit depth held slots c
      → Inv limit depth held slots (abort_stream id (on_subscription id (fail_with e)) c).0
  abort_subscription-Inv id e c v = abort_stream-Inv id _ c (λ d. unfold on_subscription in refl) v

  subscribed_events-Inv :
      (r : Result ProtocolError (List SequencedEvent)) (id : ℕ) (c : Conn)
      → Inv limit depth held slots c
      → Inv limit depth held slots (subscribed_events_as r id c).0
  unfolding subscribed_events_as
  subscribed_events-Inv (err e) id c v = abort_subscription-Inv id _ c v
  subscribed_events-Inv (ok events) id c v = unfold on_subscription in v

  route_subscribe-Inv :
      (kind : ResponseKind) (id : ℕ) (c : Conn)
      → Inv limit depth held slots c
      → Inv limit depth held slots (route_subscribe kind id c).0
  unfolding route_subscribe
  route_subscribe-Inv (ResponseKind.read_events x) id c v =
      subscribed_events-Inv (sequenced_all x.events) id c v
  route_subscribe-Inv (ResponseKind.caught_up x) id c v = unfold on_subscription in v
  route_subscribe-Inv (ResponseKind.error x) id c v = unfold on_subscription in finalize-Inv id c v
  route_subscribe-Inv (ResponseKind.append x) id c v = abort_subscription-Inv id _ c v
  route_subscribe-Inv (ResponseKind.read_end x) id c v = abort_subscription-Inv id _ c v
  route_subscribe-Inv (ResponseKind.stats x) id c v = abort_subscription-Inv id _ c v
  route_subscribe-Inv (ResponseKind.hello_ack x) id c v = abort_subscription-Inv id _ c v
  route_subscribe-Inv ResponseKind.none id c v = abort_subscription-Inv id _ c v

  route_role-Inv :
      (role : Role) (kind : ResponseKind) (id : ℕ) (c : Conn)
      → Inv limit depth held slots c
      → Inv limit depth held slots (route_role role kind id c).0
  unfolding route_role
  route_role-Inv (unary expect) kind id c v =
      subst (Balanced limit depth held slots)
        (sym (settle-books id (reply expect kind) (finalize id c))) (finalize-Inv id c v)
  route_role-Inv hello kind id c v =
      subst (Balanced limit depth held slots)
        (sym (settle-books id (greeting kind) (finalize id c))) (finalize-Inv id c v)
  route_role-Inv read kind id c v = route_read-Inv kind id c v
  route_role-Inv subscribe kind id c v = route_subscribe-Inv kind id c v

  route_entry-Inv :
      (o : Option Entry) (kind : ResponseKind) (id : ℕ) (c : Conn)
      → Inv limit depth held slots c
      → Inv limit depth held slots (route_entry o kind id c).0
  unfolding route_entry
  route_entry-Inv none kind id c v = v
  route_entry-Inv (some entry) kind id c v = route_role-Inv entry.role kind id c v

  route_unattributed-Inv :
      (kind : ResponseKind) (c : Conn)
      → Inv limit depth held slots c
      → Inv limit depth held slots (route_unattributed kind c)
  unfolding route_unattributed
  route_unattributed-Inv (ResponseKind.error e) c v = fail_connection-Inv _ c v
  route_unattributed-Inv (ResponseKind.append x) c v = v
  route_unattributed-Inv (ResponseKind.read_events x) c v = v
  route_unattributed-Inv (ResponseKind.read_end x) c v = v
  route_unattributed-Inv (ResponseKind.caught_up x) c v = v
  route_unattributed-Inv (ResponseKind.stats x) c v = v
  route_unattributed-Inv (ResponseKind.hello_ack x) c v = v
  route_unattributed-Inv ResponseKind.none c v = v

  route-Inv :
      (body : Bytes) (c : Conn)
      → Inv limit depth held slots c
      → Inv limit depth held slots (route body c).0
  unfolding route
  route-Inv body c v = routed (decode_response body)
    where
      routed : (r : Result Fault WireResponse) → Inv limit depth held slots (route_decoded r c).0
      routed (err e) = unfold route_decoded in v
      routed (ok response) =
          unfold route_decoded in
          unfold route_response in
          if-elim (λ (r : Conn × Option Failure). Inv limit depth held slots r.0)
            (response.request_id == 0) (λ _. route_unattributed-Inv response.kind c v)
            λ _. route_entry-Inv _ response.kind response.request_id c v

  route_frames-Inv :
      (bodies : List Bytes) (c : Conn)
      → Inv limit depth held slots c
      → Inv limit depth held slots (route_frames bodies c)
  unfolding route_frames
  route_frames-Inv [] c v = v
  route_frames-Inv (body ∷ bodies) c v =
      then_rest (route body c) (λ d. route_frames-Inv bodies d) (route-Inv body c v)
    where
      then_rest :
          (r : Conn × Option Failure)
          → ((d : Conn)
              → Inv limit depth held slots d
              → Inv limit depth held slots (route_frames bodies d))
          → Inv limit depth held slots r.0
          → Inv limit depth held slots (after_route (route_frames bodies) r)
      then_rest (d, none) more w = unfold after_route in more d w
      then_rest (d, some e) more w = unfold after_route in fail_connection-Inv _ d w

  pub on_data-Inv :
      (chunk : Bytes) (c : Conn)
      → Inv limit depth held slots c
      → Inv limit depth held slots (on_data chunk c)
  unfolding on_data
  on_data-Inv chunk c v = pushed (push c.decoder chunk)
    where
      pushed :
          (r : FrameDecoder × Result FrameError (List Bytes))
          → Inv limit depth held slots (decoded r c)
      pushed (d, err e) = unfold decoded in fail_connection-Inv _ (record c { decoder = d }) v
      pushed (d, ok frames) = unfold decoded in route_frames-Inv frames (record c { decoder = d }) v
