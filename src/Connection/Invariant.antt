-- ===== src/Connection/Invariant.antt =====
-- The books of a connection (src/connection.ts): permits, queue slots, ids, and the sleeping writer.
pub mod Primitives
pub mod Ends
pub mod Sends
pub mod Resumes
pub mod Cancels
pub mod Calls
pub mod Writes
pub mod Routes
pub mod Runs
use tephra_js.Base.{
  ℕ, zero, suc, ◌+◌, ◌≡◌, ◌≢◌, ◌≤◌, ◌<◌, refl, Bool, true, false, Option, none, some, List, [], ◌∷◌,
  if◌then◌else◌, ◌==◌, arith, ◌⊎◌, inl, inr, length,
}
use tephra_js.Base.Maps.{Map, Below, get, set, delete, weigh}
use tephra_js.Text.{Bytes}
use tephra_js.Util.{Semaphore, Gate}
use tephra_js.Connection.{Entry, Conn, Task, Writer, asleep}
use tephra_js.Connection.Tasks.{
  count_at, permit_of, slot_of, early, acquiring_ids, queueing_ids, IdsBelow,
}

abbrev pub permit_in : Entry → ℕ
permit_in e = if e.permit then 1 else 0

-- The permits recorded with the entries of one id.
unfoldable pub held_at : ℕ → Map Entry → ℕ
held_at k [] = 0
held_at k ((j, e) ∷ m) = (if j == k then permit_in e else 0) + held_at k m

-- What the books are about.
pub record Books : Type 0 where
  pub pending : Map Entry
  pub id_counter : ℕ
  pub tasks : List Task
  pub inflight : Semaphore
  pub queue_slots : Semaphore
  pub outbound : List Bytes
  pub priority : List Bytes
  pub gate : Gate
  pub writer : Writer
  pub dead : Bool

abbrev pub books : Conn → Books
books c = record {
  pending = c.pending;
  id_counter = c.id_counter;
  tasks = c.tasks;
  inflight = c.inflight;
  queue_slots = c.queue_slots;
  outbound = c.outbound;
  priority = c.priority;
  gate = c.gate;
  writer = c.writer;
  dead = c.dead;
}

-- Permits that are free, recorded with a request, or on their way to one.
abbrev pub permits_of : Books → ℕ
permits_of b = b.inflight.permits + weigh permit_in b.pending + count_at permit_of b.tasks

-- Slots that are free, taken by a queued frame, or on their way to one.
abbrev pub slots_of : Books → ℕ
slots_of b = b.queue_slots.permits + length b.outbound + count_at slot_of b.tasks

-- `held` permits and `slots` slots are in the hand of the code that runs.
pub record Balanced (limit depth held slots : ℕ) (b : Books) : Type 0 where
  -- Ids are given out in order, and a request takes one permit at most.
  pub fresh : Below b.id_counter b.pending
  pub early_ids : IdsBelow b.id_counter b.tasks
  pub once : (k : ℕ) → early k b.tasks + held_at k b.pending ≤ 1
  -- The tasks that wait are those that the semaphores know, in the same order.
  pub asking : b.inflight.waiters ≡ acquiring_ids b.tasks
  pub queued : b.queue_slots.waiters ≡ queueing_ids b.tasks
  -- While the connection lives, no permit and no slot is lost or made; it never has too many.
  pub bounded : permits_of b + held ≤ limit
  pub exact : (b.dead ≡ true) ⊎ (permits_of b + held ≡ limit)
  pub room : (b.dead ≡ true) ⊎ (slots_of b + slots ≡ depth)
  pub short : length b.outbound ≤ depth
  -- The writer sleeps only with nothing to write, and a gate that wakes it.
  pub awake :
      (b.writer ≢ asleep)
      ⊎ ((b.gate.waiter ≡ true) × (b.outbound ≡ []) × (b.priority ≡ []) × (b.dead ≡ false))

abbrev pub Inv : ℕ → ℕ → ℕ → ℕ → Conn → Type 0
Inv limit depth held slots c = Balanced limit depth held slots (books c)

pub held_at-delete : (k j : ℕ) (m : Map Entry) → held_at k (delete j m) ≤ held_at k m
unfolding held_at delete
held_at-delete k j [] = omega arith
held_at-delete k j ((i, e) ∷ m) = ground (arith, held_at-delete k j m)

pub held_at-get : (k : ℕ) (e : Entry) (m : Map Entry) → get k m ≡ some e → permit_in e ≤ held_at k m
unfolding held_at get
held_at-get k e [] h = cc
held_at-get k e ((i, b) ∷ m) h = ground (arith, held_at-get k e m)

-- An entry with no permit.
pub held_at-set_new :
    (k j : ℕ) (e : Entry) (m : Map Entry) → e.permit ≡ false → held_at k (set j e m) ≤ held_at k m
unfolding held_at set
held_at-set_new k j e [] h = ground arith
held_at-set_new k j e ((i, b) ∷ m) h = ground (arith, held_at-set_new k j e m)

pub held_at-set :
    (k j : ℕ) (e : Entry) (m : Map Entry)
    → held_at k (set j e m) ≤ held_at k m + (if j == k then 1 else 0)
unfolding held_at set
held_at-set k j e [] = ground arith
held_at-set k j e ((i, b) ∷ m) = ground (arith, held_at-set k j e m)

pub held_at_fresh : (n k : ℕ) (m : Map Entry) → Below n m → n < k → held_at k m ≡ 0
unfolding held_at
held_at_fresh n k [] b h = refl
held_at_fresh n k ((j, e) ∷ m) b h = ground (arith, held_at_fresh n k m b.1 h)

-- A request that holds no permit, and has no task that will record one.
pub record Clear (id : ℕ) (b : Books) : Type 0 where
  pub low : id ≤ b.id_counter
  pub unheld : early id b.tasks + held_at id b.pending ≡ 0
