-- ===== src/Connection/Steps.antt =====
-- class Conn of src/connection.ts as a state machine: what may happen between two turns of the
-- event loop, and what the connection does then.
use tephra_js.Base.{ℕ, zero, suc, Bool, Option, none, some, List, [], ◌∷◌, if◌then◌else◌}
use tephra_js.Base.Maps.{get}
use tephra_js.Text.{Text, Bytes}
use tephra_js.Failure.{Failure, connection_error, connection_closed, aborted}
use tephra_js.Messages.Event.{WireEvent}
use tephra_js.Messages.Query.{WireQuery, WireAppendCondition}
use tephra_js.Streams.{BaseStream, ReadStream, mark_closed, cancels, after_abort, after_close, next}
use tephra_js.Values.{SequencedEvent}
use tephra_js.Connection.{
  Outcome, appended, reported, greeted, rejected, SubEvent, acquiring, permitted, queueing, slotted,
  refused, Task, Writer, asleep, ready, draining, stopped, Conn, on_read, on_subscription,
  fail_connection, new_conn,
}
use tephra_js.Connection.Sending.{
  append_events, ask_stats, greet, start_read, start_subscription, after_permit, after_slot,
  catch_send, cancel_unary, cancel_stream, unless_thrown, Write, write_round, drained, drain_failed,
}
use tephra_js.Connection.Routing.{on_data}

pub data Event : Type 0 where
  -- Calls of the client; the Boolean tells whether the signal is aborted, or a listener attached.
  appends : List WireEvent → Option WireAppendCondition → Bool → Event
  asks_stats : Bool → Event
  reads : WireQuery → ℕ → Option ℕ → Bool → Bool → Event
  subscribes : WireQuery → ℕ → Bool → Event
  closes : Event
  -- Signals of single operations, and calls on the streams given out. The client has them for the
  -- ids of its own requests; a run may name any id.
  aborts_unary aborts_read aborts_subscription closes_read closes_subscription : ℕ → Event
  nexts_read nexts_subscription : ℕ → ℕ → Event
  -- Events of the socket.
  receives : Bytes → Event
  socket_fails socket_closes socket_drains drain_fails : Event
  -- A continuation runs: the send function at a place of the list, or the writer.
  resumes : ℕ → Event
  writes : Write → Event

-- The task at a place, and the others.
abbrev pub past : Task → Option (Task × List Task) → Option (Task × List Task)
past t none = none
past t (some (u, us)) = some (u, t ∷ us)

unfoldable pub pick : ℕ → List Task → Option (Task × List Task)
pick n [] = none
pick zero (t ∷ ts) = some (t, ts)
pick (suc n) (t ∷ ts) = past t (pick n ts)

-- A task that is ready runs; one that waits does not.
unfoldable pub resume_task : Task → List Task → Conn → Conn
resume_task (id, s, acquiring kind) rest c = c
resume_task (id, s, permitted kind) rest c = after_permit s id kind (record c { tasks = rest })
resume_task (id, s, queueing bytes) rest c = c
resume_task (id, s, slotted bytes) rest c = after_slot s id bytes (record c { tasks = rest })
resume_task (id, s, refused e) rest c = catch_send s id e (record c { tasks = rest })

unfoldable pub resume : Option (Task × List Task) → Conn → Conn
resume none c = c
resume (some (t, rest)) c = resume_task t rest c

-- The writer, if it is ready; and if it waits for the socket.
unfoldable pub write_as : Writer → Write → Conn → Conn
write_as ready w c = write_round w c
write_as asleep w c = c
write_as draining w c = c
write_as stopped w c = c

unfoldable pub drain_as : Writer → (Conn → Conn) → Conn → Conn
drain_as draining f c = f c
drain_as ready f c = c
drain_as asleep f c = c
drain_as stopped f c = c

abbrev pub closing : ReadStream SequencedEvent → ReadStream SequencedEvent
closing r = record r { base = mark_closed r.base }

abbrev pub on_base :
    (BaseStream SequencedEvent → BaseStream SequencedEvent)
    → ReadStream SequencedEvent
    → ReadStream SequencedEvent
on_base f r = record r { base = f r.base }

-- `onAbort` and `close` of a stream: nothing if it is closed; otherwise it is closed, cancelled, and,
-- unless the cancel throws, its queue is ended by `f`.
unfoldable pub end_read :
    Option (ReadStream SequencedEvent)
    → (BaseStream SequencedEvent → BaseStream SequencedEvent)
    → ℕ
    → Conn
    → Conn
end_read none f id c = c
end_read (some r) f id c =
    if cancels r.base
    then (unless_thrown (cancel_stream id (on_read id closing c)) (on_read id (on_base f))).0
    else c

unfoldable pub end_subscription :
    Option (BaseStream SubEvent) → (BaseStream SubEvent → BaseStream SubEvent) → ℕ → Conn → Conn
end_subscription none f id c = c
end_subscription (some b) f id c =
    if cancels b
    then (unless_thrown (cancel_stream id (on_subscription id mark_closed c))
        (on_subscription id f)).0
    else c

unfoldable pub step : Event → Conn → Conn
step (appends events condition cancelled) c = (append_events events condition cancelled c).0
step (asks_stats cancelled) c = (ask_stats cancelled c).0
step (reads query after limit reverse attach) c = start_read query after limit reverse attach c
step (subscribes query after attach) c = start_subscription query after attach c
step closes c = fail_connection connection_closed c
step (aborts_unary id) c = (cancel_unary id aborted c).0
step (aborts_read id) c = end_read (get id c.reads) after_abort id c
step (aborts_subscription id) c = end_subscription (get id c.subscriptions) after_abort id c
step (closes_read id) c = end_read (get id c.reads) after_close id c
step (closes_subscription id) c = end_subscription (get id c.subscriptions) after_close id c
step (nexts_read id promise) c =
    on_read id (on_base (λ b. record b { sink = next promise b.sink })) c
step (nexts_subscription id promise) c =
    on_subscription id (λ b. record b { sink = next promise b.sink }) c
step (receives chunk) c = on_data chunk c
step socket_fails c = fail_connection connection_error c
step socket_closes c = fail_connection connection_closed c
step socket_drains c = drain_as c.writer drained c
step drain_fails c = drain_as c.writer drain_failed c
step (resumes n) c = resume (pick n c.tasks) c
step (writes w) c = write_as c.writer w c

unfoldable pub run : List Event → Conn → Conn
run [] c = c
run (e ∷ es) c = run es (step e c)

-- `Conn.connect` once the socket is open: the constructor, and the hello that comes first.
unfoldable pub connected : ℕ → ℕ → ℕ → Option Text → Conn
connected max_frame_len max_inflight queue_depth token =
    greet token (new_conn max_frame_len max_inflight queue_depth)

-- What `connect` comes to, by the promise of the hello.
pub data Dialled : Type 0 where
  waits : Dialled
  opened : Conn → Dialled
  turned_down : Failure → Conn → Dialled

-- The connection is closed before the failure is passed on.
unfoldable pub after_hello : Option (Option Outcome) → Conn → Dialled
after_hello none c = waits
after_hello (some none) c = waits
after_hello (some (some (rejected e))) c = turned_down e (step closes c)
after_hello (some (some greeted)) c = opened c
after_hello (some (some (appended x))) c = opened c
after_hello (some (some (reported x))) c = opened c

-- The hello is the first request.
unfoldable pub dialled : Conn → Dialled
dialled c = after_hello (get 1 c.deferreds) c
