-- ===== src/Connection/Invariant/Writes.antt =====
-- The writer loop of a connection (src/connection.ts) keeps the books.
use tephra_js.Base.{
  ℕ, zero, suc, ◌+◌, ◌≡◌, ◌≢◌, refl, subst, true, false, ◌&&◌, List, [], ◌∷◌, ◌++◌, arith, inl, inr,
  length, if-elim, Bool-cases,
}
use tephra_js.Text.{Bytes}
use tephra_js.Failure.{write_failed, socket_threw}
use tephra_js.Util.{wait}
use tephra_js.Connection.{Conn, Writer, asleep, ready, draining, stopped, release_slot}
use tephra_js.Connection.Sending.{
  Write, takes, fills, fails, release_slots, wrote, flush, sleep, is_empty, write_round, drained,
  drain_failed,
}
use tephra_js.Connection.Invariant.{Inv, Books, books, Balanced}
use tephra_js.Connection.Invariant.Primitives.{ready-ne-asleep, awaken, release_slot-Inv}
use tephra_js.Connection.Invariant.Ends.{fail_connection-Inv, fail_connection-dead}

draining-ne-asleep : draining ≢ asleep
draining-ne-asleep e = cc

stopped-ne-asleep : stopped ≢ asleep
stopped-ne-asleep e = cc

module _ {limit depth held : ℕ} where
  release_slots-Inv :
      (n slots : ℕ) (c : Conn)
      → Inv limit depth held (slots + n) c
      → Inv limit depth held slots (release_slots n c)
  unfolding release_slots
  release_slots-Inv zero slots c v = subst (λ m. Inv limit depth held m c) (none_left slots) v
    where
      none_left : (s : ℕ) → s + 0 ≡ s
      none_left s = omega arith
  release_slots-Inv (suc n) slots c v =
      release_slots-Inv n slots (release_slot c)
        (release_slot-Inv c (subst (λ m. Inv limit depth held m c) (one_first slots n) v))
    where
      one_first : (s m : ℕ) → s + suc m ≡ s + m + 1
      one_first s m = omega arith

module _ {limit depth held slots : ℕ} where
  -- The writer does not sleep after it.
  set_writer :
      (w : Writer) (b : Books)
      → w ≢ asleep
      → Balanced limit depth held slots b
      → Balanced limit depth held slots (record b { writer = w })
  set_writer w b h v = awaken b b.gate w v (inl h)

  -- Once the connection is dead the slots are no longer counted.
  dead_slots :
      {slots' : ℕ} (b : Books)
      → b.dead ≡ true
      → Balanced limit depth held slots' b
      → Balanced limit depth held slots b
  dead_slots b h v = record {
    fresh = v.fresh;
    early_ids = v.early_ids;
    once = v.once;
    asking = v.asking;
    bounded = v.bounded;
    exact = v.exact;
    queued = v.queued;
    room = inl h;
    short = v.short;
    awake = v.awake;
  }

  -- A slot is in hand for each request that is taken off the queue.
  wrote-Inv :
      (w : Write) (n : ℕ) (batch : Bytes) (c : Conn)
      → Inv limit depth held (slots + n) c
      → Inv limit depth held slots (wrote w n batch c)
  unfolding wrote
  wrote-Inv takes n batch c v =
      set_writer ready _ ready-ne-asleep
        (release_slots-Inv n slots (record c { written = c.written ++ batch ∷ [] }) v)
  wrote-Inv fills n batch c v =
      set_writer draining _ draining-ne-asleep
        (release_slots-Inv n slots (record c { written = c.written ++ batch ∷ [] }) v)
  wrote-Inv fails n batch c v = set_writer stopped _ stopped-ne-asleep (
      dead_slots _ (fail_connection-dead _ c) (fail_connection-Inv (write_failed socket_threw) c v))

  flush-Inv :
      (w : Write) (c : Conn)
      → c.writer ≢ asleep
      → Inv limit depth held slots c
      → Inv limit depth held slots (flush w c)
  unfolding flush
  flush-Inv w c h v =
      wrote-Inv w (length c.outbound) _ (record c { priority = []; outbound = [] })
        (record {
          fresh = v.fresh;
          early_ids = v.early_ids;
          once = v.once;
          asking = v.asking;
          bounded = v.bounded;
          exact = v.exact;
          queued = v.queued;
          room = ground (arith, v.room);
          short = omega arith;
          awake = inl h;
        })

  sleep-Inv :
      (c : Conn)
      → c.dead ≡ false
      → is_empty c.priority && is_empty c.outbound ≡ true
      → Inv limit depth held slots c
      → Inv limit depth held slots (sleep c)
  unfolding sleep wait
  sleep-Inv c h e v = elim (Bool-cases c.gate.signalled) [
    | inl s ↦ rw s (awaken (books c) _ ready v (inl ready-ne-asleep))
    | inr s ↦ rw s (awaken (books c) _ asleep v (inr (refl, empty.1, empty.0, h)))
  ]
    where
      both : (p o : List Bytes) → is_empty p && is_empty o ≡ true → (p ≡ []) × (o ≡ [])
      both [] [] x = (refl, refl)
      both [] (f ∷ fs) x = cc
      both (f ∷ fs) o x = cc

      empty : (c.priority ≡ []) × (c.outbound ≡ [])
      empty = both c.priority c.outbound e

  pub write_round-Inv :
      (w : Write) (c : Conn)
      → c.writer ≢ asleep
      → Inv limit depth held slots c
      → Inv limit depth held slots (write_round w c)
  unfolding write_round
  write_round-Inv w c h v =
      if-elim (Inv limit depth held slots) c.dead
        (λ _. set_writer stopped (books c) stopped-ne-asleep v)
        λ alive.
          if-elim (Inv limit depth held slots) (is_empty c.priority && is_empty c.outbound)
            (λ e. sleep-Inv c alive e v) λ _. flush-Inv w c h v

  pub drained-Inv :
      (c : Conn) → Inv limit depth held slots c → Inv limit depth held slots (drained c)
  unfolding drained
  drained-Inv c v = set_writer ready (books c) ready-ne-asleep v

  pub drain_failed-Inv :
      (c : Conn) → Inv limit depth held slots c → Inv limit depth held slots (drain_failed c)
  unfolding drain_failed
  drain_failed-Inv c v = set_writer stopped _ stopped-ne-asleep (fail_connection-Inv _ c v)
