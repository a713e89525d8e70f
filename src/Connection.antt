-- ===== src/Connection.antt =====
-- class Conn of src/connection.ts: its state, what it shares with the promises and streams that it
-- has given out, and the bookkeeping that its methods have in common.
--
-- The program runs on one thread, from one `await` to the next. An asynchronous function that waits
-- is a `Task`: what it waits for, and what it goes on with. A promise that is resolved does not run
-- its task: it makes it ready, and `Steps` takes ready tasks in any order.
pub mod Sending
pub mod Tasks
pub mod Picking
pub mod Invariant
pub mod Answers
pub mod Fates
pub mod Handshake
pub mod Wire
pub mod Batches
pub mod Routing
pub mod Steps
use tephra_js.Base.{
  ℕ, ◌+◌, Bool, true, false, Option, none, some, List, [], ◌∷◌, ◌++◌, if◌then◌else◌, ◌==◌,
}
use tephra_js.Base.Maps.{Map, get, set, update, delete}
use tephra_js.Text.{Bytes}
use tephra_js.Framing.{FrameDecoder, new_decoder}
use tephra_js.Failure.{Failure, connection_closed}
use tephra_js.Messages.Request.{RequestKind}
use tephra_js.Messages.Replies.{WireAppendResponse}
use tephra_js.Messages.Status.{WireStatsResponse}
use tephra_js.Values.{SequencedEvent}
use tephra_js.Streams.{ReadStream, BaseStream, fail_with}
use tephra_js.Util.{Semaphore, new_semaphore, acquire, release, drain_waiters, Gate, signal}

pub data Expect : Type 0 where
  append stats : Expect

-- `Pending`: the kind of a request, and whether it holds a permit. Its promise or its stream is the
-- one of the same id.
pub data Role : Type 0 where
  unary : Expect → Role
  hello read subscribe : Role

pub record Entry : Type 0 where
  pub role : Role
  pub permit : Bool

-- `SubEvent`.
pub data SubEvent : Type 0 where
  event : SequencedEvent → SubEvent
  caught_up : ℕ → SubEvent

-- What a promise of `unary` or `hello` is settled with.
pub data Outcome : Type 0 where
  appended : WireAppendResponse → Outcome
  reported : WireStatsResponse → Outcome
  greeted : Outcome
  rejected : Failure → Outcome

-- The send functions: `sendUnaryRequest`, `sendStreamRequest` and `sendHelloRequest`.
pub data Sender : Type 0 where
  unary_request stream_request hello_request : Sender

-- Where a send function stands: at `inflight.acquire()`, or with its permit and the continuation to
-- run; the same at `queueSlots.acquire()`; or with the error that `enqueue` threw.
pub data Point : Type 0 where
  acquiring permitted : RequestKind → Point
  queueing slotted : Bytes → Point
  refused : Failure → Point

-- The id of the request, the function and where it stands.
abbrev pub Task : Type 0
Task = ℕ × Sender × Point

-- `runWriter`: asleep at the gate, with a continuation to run, at `waitDrain`, or returned.
pub data Writer : Type 0 where
  asleep ready draining stopped : Writer

pub record Conn : Type 0 where
  pub max_frame_len : ℕ
  pub pending : Map Entry
  pub inflight : Semaphore
  pub queue_slots : Semaphore
  pub decoder : FrameDecoder
  pub gate : Gate
  pub outbound : List Bytes
  pub priority : List Bytes
  pub id_counter : ℕ
  pub dead : Bool
  pub death_cause : Option Failure
  -- The promises of `unary` and `hello`, and the streams, by request id.
  pub deferreds : Map (Option Outcome)
  pub reads : Map (ReadStream SequencedEvent)
  pub subscriptions : Map (BaseStream SubEvent)
  -- The send functions that wait, in the order in which they came to wait.
  pub tasks : List Task
  pub writer : Writer
  -- What `socket.write` was given.
  pub written : List Bytes

-- The constructor. `runWriter`, called at its end, finds nothing to write and comes to wait at the
-- gate.
unfoldable pub new_conn : ℕ → ℕ → ℕ → Conn
unfolding new_semaphore new_decoder
new_conn max_frame_len max_inflight queue_depth = record {
  max_frame_len = max_frame_len;
  pending = [];
  inflight = new_semaphore max_inflight;
  queue_slots = new_semaphore queue_depth;
  decoder = new_decoder max_frame_len;
  gate = record { waiter = true; signalled = false };
  outbound = [];
  priority = [];
  id_counter = 0;
  dead = false;
  death_cause = none;
  deferreds = [];
  reads = [];
  subscriptions = [];
  tasks = [];
  writer = asleep;
  written = [];
}

-- The promise of a waiting task is resolved: the task becomes ready.
unfoldable pub wake_permit : ℕ → List Task → List Task
wake_permit id [] = []
wake_permit id ((i, s, acquiring kind) ∷ ts) =
    if i == id then (i, s, permitted kind) ∷ ts else (i, s, acquiring kind) ∷ wake_permit id ts
wake_permit id ((i, s, permitted kind) ∷ ts) = (i, s, permitted kind) ∷ wake_permit id ts
wake_permit id ((i, s, queueing frame) ∷ ts) = (i, s, queueing frame) ∷ wake_permit id ts
wake_permit id ((i, s, slotted frame) ∷ ts) = (i, s, slotted frame) ∷ wake_permit id ts
wake_permit id ((i, s, refused e) ∷ ts) = (i, s, refused e) ∷ wake_permit id ts

unfoldable pub wake_slot : ℕ → List Task → List Task
wake_slot id [] = []
wake_slot id ((i, s, queueing frame) ∷ ts) =
    if i == id then (i, s, slotted frame) ∷ ts else (i, s, queueing frame) ∷ wake_slot id ts
wake_slot id ((i, s, acquiring kind) ∷ ts) = (i, s, acquiring kind) ∷ wake_slot id ts
wake_slot id ((i, s, permitted kind) ∷ ts) = (i, s, permitted kind) ∷ wake_slot id ts
wake_slot id ((i, s, slotted frame) ∷ ts) = (i, s, slotted frame) ∷ wake_slot id ts
wake_slot id ((i, s, refused e) ∷ ts) = (i, s, refused e) ∷ wake_slot id ts

-- At `inflight` and at `queueSlots` a task waits by its request id.
abbrev pub resolve : (ℕ → List Task → List Task) → Option ℕ → List Task → List Task
resolve wake none ts = ts
resolve wake (some id) ts = wake id ts

unfoldable pub release_inflight : Conn → Conn
release_inflight c =
    let (s, next) = release c.inflight in
    record c { inflight = s; tasks = resolve wake_permit next c.tasks }

unfoldable pub release_slot : Conn → Conn
release_slot c =
    let (s, next) = release c.queue_slots in
    record c { queue_slots = s; tasks = resolve wake_slot next c.tasks }

unfoldable pub wake_slots : List ℕ → List Task → List Task
wake_slots [] ts = ts
wake_slots (id ∷ ids) ts = wake_slots ids (wake_slot id ts)

unfoldable pub drain_slots : Conn → Conn
drain_slots c =
    let (s, ids) = drain_waiters c.queue_slots in
    record c { queue_slots = s; tasks = wake_slots ids c.tasks }

-- `writerGate.signal()`.
unfoldable pub signal_writer : Conn → Conn
signal_writer c =
    let (g, resumed) = signal c.gate in
    record c { gate = g; writer = if resumed then ready else c.writer }

-- A promise that is settled stays as it is.
unfoldable pub settle_as : Option (Option Outcome) → ℕ → Outcome → Conn → Conn
settle_as (some none) id o c = record c { deferreds = set id (some o) c.deferreds }
settle_as (some (some other)) id o c = c
settle_as none id o c = c

unfoldable pub settle : ℕ → Outcome → Conn → Conn
settle id o c = settle_as (get id c.deferreds) id o c

-- A call of a method of the stream that a request feeds.
unfoldable pub on_read : ℕ → (ReadStream SequencedEvent → ReadStream SequencedEvent) → Conn → Conn
on_read id f c = record c { reads = update id f c.reads }

unfoldable pub on_subscription : ℕ → (BaseStream SubEvent → BaseStream SubEvent) → Conn → Conn
on_subscription id f c = record c { subscriptions = update id f c.subscriptions }

abbrev pub fail_read : Failure → ReadStream SequencedEvent → ReadStream SequencedEvent
fail_read e r = record r { base = fail_with e r.base }

-- A request fails: its promise is rejected, or its stream.
unfoldable pub fail_entry : Failure → ℕ → Role → Conn → Conn
fail_entry e id (unary expect) c = settle id (rejected e) c
fail_entry e id hello c = settle id (rejected e) c
fail_entry e id read c = on_read id (fail_read e) c
fail_entry e id subscribe c = on_subscription id (fail_with e) c

unfoldable pub fail_entries : Failure → Map Entry → Conn → Conn
fail_entries e [] c = c
fail_entries e ((id, entry) ∷ rest) c = fail_entries e rest (fail_entry e id entry.role c)

-- `deathCause ?? new ConnError("connection closed")`.
abbrev pub cause_or_closed : Option Failure → Failure
cause_or_closed none = connection_closed
cause_or_closed (some e) = e

unfoldable pub dead_error : Conn → Failure
dead_error c = cause_or_closed c.death_cause

unfoldable pub fail_connection : Failure → Conn → Conn
fail_connection e c =
    let dying = record c { dead = true; death_cause = some e; pending = [] } in
    if c.dead then c else drain_slots (signal_writer (fail_entries e c.pending dying))

unfoldable pub release_if : Bool → Conn → Conn
release_if held c = if held then release_inflight c else c

unfoldable pub finalize_as : Option Entry → ℕ → Conn → Conn
finalize_as none id c = c
finalize_as (some entry) id c = release_if entry.permit (record c { pending = delete id c.pending })

-- The entry that `finalize` returns is the one that `pending.get` finds before it.
unfoldable pub finalize : ℕ → Conn → Conn
finalize id c = finalize_as (get id c.pending) id c
