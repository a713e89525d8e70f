-- ===== src/Connection/Sending.antt =====
-- The sending half of src/connection.ts: requests on their way to the queue, cancels, and the
-- writer loop.
use tephra_js.Base.{
  ℕ, zero, suc, ◌+◌, Bool, true, false, ◌&&◌, Option, none, some, List, [], ◌∷◌, ◌++◌,
  if◌then◌else◌, length, Result, ok, err,
}
use tephra_js.Base.Maps.{get, set}
use tephra_js.Text.{Bytes}
use tephra_js.Framing.{FrameError, write_frame}
use tephra_js.Failure.{Failure, frame, write_failed, socket_threw, aborted}
use tephra_js.Messages.Query.{WireQuery, WireAppendCondition}
use tephra_js.Messages.Event.{WireEvent}
use tephra_js.Messages.Request.{RequestKind, encode_request}
use tephra_js.Streams.{new_stream}
use tephra_js.Util.{acquire, wait}
use tephra_js.Connection.{
  Expect, append, stats, Role, unary, hello, read, subscribe, Entry, rejected, Sender,
  unary_request, stream_request, hello_request, acquiring, permitted, queueing, slotted, refused,
  asleep, ready, draining, stopped, Conn, release_inflight, release_slot, signal_writer, settle,
  fail_entry, dead_error, fail_connection, finalize,
}
use mathlib.Core.List.{flatten}

abbrev pub next_id : Conn → Conn
next_id c = record c { id_counter = c.id_counter + 1 }

-- A send function up to its first `await`.
unfoldable pub start_send : Sender → ℕ → RequestKind → Conn → Conn
start_send sender id kind c =
    let (s, at_once) = acquire id c.inflight in
    record c {
      inflight = s;
      tasks = c.tasks ++ (id, sender, if at_once then permitted kind else acquiring kind) ∷ [];
    }

-- Whether the request is one of those that the function sends.
abbrev pub sends : Sender → Role → Bool
sends unary_request (unary expect) = true
sends stream_request read = true
sends stream_request subscribe = true
sends hello_request hello = true
sends unary_request hello = false
sends unary_request read = false
sends unary_request subscribe = false
sends stream_request (unary expect) = false
sends stream_request hello = false
sends hello_request (unary expect) = false
sends hello_request read = false
sends hello_request subscribe = false

unfoldable pub refuse : Option Entry → Sender → ℕ → Failure → Conn → Conn
refuse none sender id e c = c
refuse (some entry) sender id e c =
    if sends sender entry.role then fail_entry e id entry.role c else c

-- The `catch` of a send function; a permit that is held without its entry has been released before.
unfoldable pub catch_send : Sender → ℕ → Failure → Conn → Conn
catch_send sender id e c = refuse (get id c.pending) sender id e (finalize id c)

-- `enqueue` up to its `await`.
unfoldable pub enqueue : Sender → ℕ → Bytes → Conn → Conn
enqueue sender id bytes c =
    let (s, at_once) = acquire id c.queue_slots in
    record c {
      queue_slots = s;
      tasks = c.tasks ++ (id, sender, if at_once then slotted bytes else queueing bytes) ∷ [];
    }

unfoldable pub enqueue_frame : Result FrameError Bytes → Sender → ℕ → Conn → Conn
enqueue_frame (err e) sender id c = catch_send sender id (frame e) c
enqueue_frame (ok bytes) sender id c = enqueue sender id bytes c

unfoldable pub send_entry : Option Entry → Sender → ℕ → RequestKind → Conn → Conn
send_entry none sender id kind c = release_inflight c
send_entry (some entry) sender id kind c =
    let frame' =
      write_frame (encode_request (record { request_id = id; kind = kind })) c.max_frame_len in
    if c.dead
    then catch_send sender id (dead_error c) (release_inflight c)
    else enqueue_frame frame' sender id
        (record c { pending = set id (record entry { permit = true }) c.pending })

-- From the permit to the next `await`.
unfoldable pub after_permit : Sender → ℕ → RequestKind → Conn → Conn
after_permit sender id kind c = send_entry (get id c.pending) sender id kind c

-- The rest of `enqueue`. Its throw is caught when the caller's task runs.
unfoldable pub after_slot : Sender → ℕ → Bytes → Conn → Conn
after_slot sender id bytes c =
    if c.dead
    then (let d = release_slot c in
        record d { tasks = d.tasks ++ (id, sender, refused (dead_error c)) ∷ [] })
    else signal_writer (record c { outbound = c.outbound ++ bytes ∷ [] })

unfoldable pub queue_cancel : Result FrameError Bytes → Conn → Conn × Option Failure
queue_cancel (err e) c = (c, some (frame e))
queue_cancel (ok bytes) c = (signal_writer (record c { priority = c.priority ++ bytes ∷ [] }), none)

-- With what it throws: a cancel may be larger than the largest frame.
unfoldable pub send_cancel : ℕ → Conn → Conn × Option Failure
send_cancel target c =
    let d = next_id c in
    if c.dead
    then (c, none)
    else queue_cancel
        (write_frame
          (encode_request (record {
            request_id = d.id_counter;
            kind = RequestKind.cancel (record { target = target });
          }))
          c.max_frame_len)
        d

-- What follows a call that may throw.
abbrev pub unless_thrown : Conn × Option Failure → (Conn → Conn) → Conn × Option Failure
unless_thrown (c, some e) f = (c, some e)
unless_thrown (c, none) f = (f c, none)

unfoldable pub cancel_stream_as : Option Entry → ℕ → Conn → Conn × Option Failure
cancel_stream_as none id c = (c, none)
cancel_stream_as (some entry) id c = unless_thrown (send_cancel id c) (finalize id)

unfoldable pub cancel_stream : ℕ → Conn → Conn × Option Failure
cancel_stream id c = cancel_stream_as (get id c.pending) id c

unfoldable pub reject_unary : Role → ℕ → Failure → Conn → Conn
reject_unary (unary expect) id e c = settle id (rejected e) c
reject_unary hello id e c = c
reject_unary read id e c = c
reject_unary subscribe id e c = c

unfoldable pub cancel_unary_as : Option Entry → ℕ → Failure → Conn → Conn × Option Failure
cancel_unary_as none id e c = (c, none)
cancel_unary_as (some entry) id e c =
    unless_thrown (send_cancel id c) (λ d. reject_unary entry.role id e (finalize id d))

unfoldable pub cancel_unary : ℕ → Failure → Conn → Conn × Option Failure
cancel_unary id e c = cancel_unary_as (get id c.pending) id e c

-- What a call of `unary` gives: a promise with the id of the request, a promise rejected at once,
-- or a throw.
pub data Started : Type 0 where
  promise : ℕ → Started
  rejects : Failure → Started
  throws : Failure → Started

abbrev pub begin_unary : Expect → Conn → Conn
begin_unary expect c =
    let d = next_id c in
    record d {
      pending = set d.id_counter (record { role = unary expect; permit = false }) c.pending;
      deferreds = set d.id_counter none c.deferreds;
    }

unfoldable pub send_unary : RequestKind → ℕ → Conn × Option Failure → Conn × Started
send_unary kind id (c, some e) = (c, throws e)
send_unary kind id (c, none) = (start_send unary_request id kind c, promise id)

-- `cancelled`: the signal given is aborted already.
unfoldable pub unary_request_of : RequestKind → Expect → Bool → Conn → Conn × Started
unary_request_of kind expect cancelled c =
    let d = begin_unary expect c in
    let id = c.id_counter + 1 in
    if c.dead
    then (c, rejects (dead_error c))
    else send_unary kind id (if cancelled then cancel_unary id aborted d else (d, none))

unfoldable pub append_events :
    List WireEvent → Option WireAppendCondition → Bool → Conn → Conn × Started
append_events events condition cancelled c =
    unary_request_of (RequestKind.append (record { events = events; condition = condition })) append
      cancelled c

unfoldable pub ask_stats : Bool → Conn → Conn × Started
ask_stats cancelled c = unary_request_of RequestKind.stats stats cancelled c

-- `hello`, from `connect`.
unfoldable pub greet : Option (List ℕ) → Conn → Conn
greet token c =
    let d = next_id c in
    let id = d.id_counter in
    start_send hello_request id
      (RequestKind.hello (record { protocol_version = 1; auth_token = token }))
      (record d {
        pending = set id (record { role = hello; permit = false }) c.pending;
        deferreds = set id none c.deferreds;
      })

-- `read` and `subscribe`; `attach` tells whether an abort listener is attached.
unfoldable pub start_read : WireQuery → ℕ → Option ℕ → Bool → Bool → Conn → Conn
start_read query after limit reverse attach c =
    let d = next_id c in
    let id = d.id_counter in
    start_send stream_request id
      (RequestKind.read (record { query = query; after = after; limit = limit; reverse = reverse }))
      (record d {
        pending = set id (record { role = read; permit = false }) c.pending;
        reads = set id (record { base = new_stream attach; watermark_value = none }) c.reads;
      })

unfoldable pub start_subscription : WireQuery → ℕ → Bool → Conn → Conn
start_subscription query after attach c =
    let d = next_id c in
    let id = d.id_counter in
    start_send stream_request id (RequestKind.subscribe (record { query = query; after = after }))
      (record d {
        pending = set id (record { role = subscribe; permit = false }) c.pending;
        subscriptions = set id (new_stream attach) c.subscriptions;
      })

-- What `socket.write` does: it takes the bytes, and has room for more or not; or it throws.
pub data Write : Type 0 where
  takes fills fails : Write

unfoldable pub release_slots : ℕ → Conn → Conn
release_slots zero c = c
release_slots (suc n) c = release_slots n (release_slot c)

unfoldable pub concat_frames : List Bytes → Bytes
concat_frames [] = []
concat_frames (f ∷ []) = f
concat_frames (f ∷ g ∷ fs) = f ++ flatten (g ∷ fs)

-- What follows the call of `socket.write`: the slots of the queued requests are released, or the
-- throw is caught, with `c` as the state before the call and `n` requests taken off the queue.
unfoldable pub wrote : Write → ℕ → Bytes → Conn → Conn
wrote takes n batch c = record (release_slots n (record c { written = c.written ++ batch ∷ [] })) {
  writer = ready;
}
wrote fills n batch c = record (release_slots n (record c { written = c.written ++ batch ∷ [] })) {
  writer = draining;
}
wrote fails n batch c = record (fail_connection (write_failed socket_threw) c) { writer = stopped }

-- A round of the loop with something to write: cancels first, and both queues are emptied.
unfoldable pub flush : Write → Conn → Conn
flush w c =
    wrote w (length c.outbound) (concat_frames (c.priority ++ c.outbound))
      (record c { priority = []; outbound = [] })

-- A round without.
unfoldable pub sleep : Conn → Conn
sleep c =
    let (g, at_once) = wait c.gate in
    record c { gate = g; writer = if at_once then ready else asleep }

abbrev pub is_empty : List Bytes → Bool
is_empty [] = true
is_empty (f ∷ fs) = false

-- One round of `runWriter`, from the test of its loop.
unfoldable pub write_round : Write → Conn → Conn
write_round w c =
    if c.dead
    then record c { writer = stopped }
    else if is_empty c.priority && is_empty c.outbound
    then sleep c
    else flush w c

-- The promise of `waitDrain` is resolved, or rejected and caught.
unfoldable pub drained : Conn → Conn
drained c = record c { writer = ready }

unfoldable pub drain_failed : Conn → Conn
drain_failed c = record (fail_connection (write_failed (dead_error c)) c) { writer = stopped }
