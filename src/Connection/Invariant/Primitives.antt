-- ===== src/Connection/Invariant/Primitives.antt =====
-- The bookkeeping steps that the methods of a connection (src/connection.ts) are made of.
use tephra_js.Base.{
  ℕ, ◌+◌, ◌≡◌, ◌≢◌, refl, sym, ◌∙◌, true, false, List, [], ◌∷◌, arith, ◌⊎◌, inl, inr, Bool-cases,
}
use tephra_js.Util.{release, hand_over, drain_waiters, signal, Gate}
use tephra_js.Connection.{
  Conn, Writer, asleep, ready, release_inflight, release_slot, drain_slots, wake_permit, wake_slot,
  resolve, signal_writer,
}
use tephra_js.Connection.Tasks.Waking.{
  wake_permit-PermitWoken, wake_permit-Alike, wake_slot-SlotWoken, wake_slot-Alike,
  wake_slots-SlotWoken, wake_slots-Alike,
}
use tephra_js.Connection.Invariant.{Inv, Books, books, Balanced}

-- A writer that sleeps can be woken.
pub weak :
    {limit depth held slots : ℕ} {b : Books}
    → Balanced limit depth held slots b
    → (b.writer ≢ asleep) ⊎ (b.gate.waiter ≡ true)
weak v = wakes v.awake
  where
    wakes : {w p x y z : Type 0} → w ⊎ (p × x × y × z) → w ⊎ p
    wakes (inl h) = inl h
    wakes (inr h) = inr h.0

pub ready-ne-asleep : ready ≢ asleep
ready-ne-asleep e = cc

module _ {limit depth held slots : ℕ} where
  release_inflight-as :
      (c : Conn) (ws : List ℕ)
      → c.inflight.waiters ≡ ws
      → Inv limit depth (held + 1) slots c
      → Inv limit depth held slots (record c {
        inflight = (hand_over ws c.inflight).0;
        tasks = resolve wake_permit (hand_over ws c.inflight).1 c.tasks;
      })
  unfolding hand_over
  release_inflight-as c [] e v = record {
    fresh = v.fresh;
    early_ids = v.early_ids;
    once = v.once;
    asking = v.asking;
    bounded = omega (arith, v.bounded);
    exact = ground (arith, v.exact);
    queued = v.queued;
    room = v.room;
    short = v.short;
    awake = v.awake;
  }
  release_inflight-as c (next ∷ rest) e v =
      let w = wake_permit-PermitWoken next rest c.tasks (sym v.asking ∙ e) in
      let a = wake_permit-Alike next c.tasks in
      record {
        fresh = v.fresh;
        early_ids = a.below _ v.early_ids;
        once = λ k. omega (arith, v.once k, a.earliness k);
        asking = sym w.waiting;
        bounded = omega (arith, v.bounded, w.granted);
        exact = ground (arith, v.exact, w.granted);
        queued = v.queued ∙ sym w.queued;
        room = ground (arith, v.room, w.slots);
        short = v.short;
        awake = v.awake;
      }

  pub release_inflight-Inv :
      (c : Conn)
      → Inv limit depth (held + 1) slots c
      → Inv limit depth held slots (release_inflight c)
  unfolding release_inflight release
  release_inflight-Inv c v = release_inflight-as c c.inflight.waiters refl v

  release_slot-as :
      (c : Conn) (ws : List ℕ)
      → c.queue_slots.waiters ≡ ws
      → Inv limit depth held (slots + 1) c
      → Inv limit depth held slots (record c {
        queue_slots = (hand_over ws c.queue_slots).0;
        tasks = resolve wake_slot (hand_over ws c.queue_slots).1 c.tasks;
      })
  unfolding hand_over
  release_slot-as c [] e v = record {
    fresh = v.fresh;
    early_ids = v.early_ids;
    once = v.once;
    asking = v.asking;
    bounded = v.bounded;
    exact = v.exact;
    queued = v.queued;
    room = ground (arith, v.room);
    short = v.short;
    awake = v.awake;
  }
  release_slot-as c (next ∷ rest) e v =
      let w = wake_slot-SlotWoken next rest c.tasks (sym v.queued ∙ e) in
      let a = wake_slot-Alike next c.tasks in
      record {
        fresh = v.fresh;
        early_ids = a.below _ v.early_ids;
        once = λ k. omega (arith, v.once k, a.earliness k);
        asking = v.asking ∙ sym w.asking;
        bounded = omega (arith, v.bounded, w.granted);
        exact = ground (arith, v.exact, w.granted);
        queued = sym w.waiting;
        room = ground (arith, v.room, w.slots);
        short = v.short;
        awake = v.awake;
      }

  pub release_slot-Inv :
      (c : Conn) → Inv limit depth held (slots + 1) c → Inv limit depth held slots (release_slot c)
  unfolding release_slot release
  release_slot-Inv c v = release_slot-as c c.queue_slots.waiters refl v

  -- Once the connection is dead the slots are no longer counted.
  pub drain_slots-Inv :
      (c : Conn)
      → c.dead ≡ true
      → Inv limit depth held slots c
      → Inv limit depth held slots (drain_slots c)
  unfolding drain_slots drain_waiters
  drain_slots-Inv c d v =
      let (w, asking, granted) =
        wake_slots-SlotWoken c.queue_slots.waiters c.tasks (sym v.queued) in
      let a = wake_slots-Alike c.queue_slots.waiters c.tasks in
      record {
        fresh = v.fresh;
        early_ids = a.below _ v.early_ids;
        once = λ k. omega (arith, v.once k, a.earliness k);
        asking = v.asking ∙ sym asking;
        bounded = omega (arith, v.bounded, granted);
        exact = inl d;
        queued = sym w;
        room = inl d;
        short = v.short;
        awake = v.awake;
      }

  -- The writer and the gate are spoken of by one field alone.
  pub awaken :
      (b : Books) (g : Gate) (w : Writer)
      → Balanced limit depth held slots b
      → (w ≢ asleep)
        ⊎ ((g.waiter ≡ true) × (b.outbound ≡ []) × (b.priority ≡ []) × (b.dead ≡ false))
      → Balanced limit depth held slots (record b { gate = g; writer = w })
  awaken b g w v h = record {
    fresh = v.fresh;
    early_ids = v.early_ids;
    once = v.once;
    asking = v.asking;
    bounded = v.bounded;
    exact = v.exact;
    queued = v.queued;
    room = v.room;
    short = v.short;
    awake = h;
  }

  -- The writer is woken if it sleeps, so what was put in the queues before does not matter.
  pub signal_writer-Inv :
      (c : Conn)
      → Balanced limit depth held slots (record (books c) { writer = ready })
      → (c.writer ≢ asleep) ⊎ (c.gate.waiter ≡ true)
      → Inv limit depth held slots (signal_writer c)
  unfolding signal_writer signal
  signal_writer-Inv c v w = elim (Bool-cases c.gate.waiter) [
    | inl waits ↦ rw waits (awaken _ _ ready v (inl ready-ne-asleep))
    | inr not_waiting ↦ rw not_waiting (awaken _ _ c.writer v (inl (up not_waiting w)))
  ]
    where
      up : c.gate.waiter ≡ false → (c.writer ≢ asleep) ⊎ (c.gate.waiter ≡ true) → c.writer ≢ asleep
      up n (inl h) = h
      up n (inr h) = cc
