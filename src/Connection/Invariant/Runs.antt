-- ===== src/Connection/Invariant/Runs.antt =====
-- Every step of a connection (src/connection.ts) keeps the books, and so does every run.
use tephra_js.Base.{
  ℕ, ◌+◌, ◌≡◌, refl, subst, sym, ◌∙◌, Option, none, some, List, [], ◌∷◌, if-elim, arith, inr, eq→==,
}
use tephra_js.Base.Maps.{get, weigh}
use tephra_js.Text.{Text}
use tephra_js.Messages.Request.{RequestKind}
use tephra_js.Failure.{Failure}
use tephra_js.Values.{SequencedEvent}
use tephra_js.Streams.{BaseStream, ReadStream, cancels}
use tephra_js.Connection.{
  SubEvent, Sender, acquiring, permitted, queueing, slotted, refused, Task, Writer, asleep, ready,
  draining, stopped, Conn, new_conn, on_read, on_subscription,
}
use tephra_js.Util.{new_semaphore}
use tephra_js.Connection.Sending.{drained, drain_failed, Write, cancel_stream, unless_thrown}
use tephra_js.Connection.Steps.{
  Event, appends, asks_stats, reads, subscribes, closes, aborts_unary, aborts_read,
  aborts_subscription, closes_read, closes_subscription, nexts_read, nexts_subscription, receives,
  socket_fails, socket_closes, socket_drains, drain_fails, resumes, writes, pick, resume,
  resume_task, write_as, drain_as, end_read, end_subscription, step, run, connected,
}
use tephra_js.Connection.Tasks.{
  permit_of, slot_of, count_at, early, acquiring_ids, queueing_ids, IdsBelow,
}
use tephra_js.Connection.Picking.{Picked, pick-Picked}
use tephra_js.Connection.Invariant.{Inv, books, Balanced, held_at}
use tephra_js.Connection.Invariant.Ends.{fail_connection-Inv}
use tephra_js.Connection.Invariant.Sends.{catch_send-Inv}
use tephra_js.Connection.Invariant.Resumes.{after_permit-Inv, after_slot-Inv}
use tephra_js.Connection.Invariant.Calls.{
  append_events-Inv, ask_stats-Inv, greet-Inv, start_read-Inv, start_subscription-Inv,
}
use tephra_js.Connection.Invariant.Cancels.{cancel_unary-Inv, cancel_stream-Inv}
use tephra_js.Connection.Invariant.Writes.{write_round-Inv, drained-Inv, drain_failed-Inv}
use tephra_js.Connection.Invariant.Routes.{on_data-Inv}

module _ {limit depth held slots : ℕ} where
  -- A ready task is taken out of the list: what it holds is in hand.
  taken-Inv :
      {held' slots' : ℕ} (t : Task) (rest : List Task) (c : Conn)
      → held' ≡ held + permit_of t.2
      → slots' ≡ slots + slot_of t.2
      → Picked c.id_counter t c.tasks rest
      → acquiring_ids (t ∷ []) ≡ []
      → queueing_ids (t ∷ []) ≡ []
      → Inv limit depth held slots c
      → Inv limit depth held' slots' (record c { tasks = rest })
  taken-Inv t rest c h s p a q v = record {
    fresh = v.fresh;
    early_ids = p.below v.early_ids;
    once = λ k. omega (arith, v.once k, p.earliness k);
    asking = v.asking ∙ p.asking a;
    queued = v.queued ∙ p.queued q;
    bounded = omega (arith, v.bounded, p.granted, h);
    exact = ground (arith, v.exact, p.granted, h);
    room = ground (arith, v.room, p.slots, s);
    short = v.short;
    awake = v.awake;
  }

  resume-Inv :
      (n : ℕ) (c : Conn)
      → Inv limit depth held slots c
      → Inv limit depth held slots (resume (pick n c.tasks) c)
  unfolding resume
  resume-Inv n c v = resumed (pick n c.tasks) refl
    where
      first :
          (id : ℕ) (s : Sender) (kind : RequestKind) (rest : List Task)
          → Picked c.id_counter (id, s, permitted kind) c.tasks rest
          → early id rest + held_at id c.pending ≡ 0
      first id s kind rest p =
          let e = rw (eq→== id id refl) at (p.earliness id) in omega (arith, e, v.once id)

      with_task :
          (t : Task) (rest : List Task)
          → Picked c.id_counter t c.tasks rest
          → Inv limit depth held slots (resume_task t rest c)
      with_task (id, s, acquiring kind) rest p = unfold resume_task in v
      with_task (id, s, queueing bytes) rest p = unfold resume_task in v
      with_task (id, s, permitted kind) rest p =
          unfold resume_task in
          after_permit-Inv s id kind (record c { tasks = rest }) (p.id_low v.early_ids)
            (first id s kind rest p)
            (taken-Inv (id, s, permitted kind) rest c (omega arith) (omega arith) p
              (unfold acquiring_ids in refl) (unfold queueing_ids in refl) v)
      with_task (id, s, slotted bytes) rest p =
          unfold resume_task in
          after_slot-Inv s id bytes (record c { tasks = rest }) (p.id_low v.early_ids)
            (taken-Inv (id, s, slotted bytes) rest c (omega arith) (omega arith) p
              (unfold acquiring_ids in refl) (unfold queueing_ids in refl) v)
      with_task (id, s, refused e) rest p =
          unfold resume_task in
          catch_send-Inv s id e (record c { tasks = rest })
            (taken-Inv (id, s, refused e) rest c (omega arith) (omega arith) p
              (unfold acquiring_ids in refl) (unfold queueing_ids in refl) v)

      resumed :
          (o : Option (Task × List Task))
          → pick n c.tasks ≡ o
          → Inv limit depth held slots (resume o c)
      resumed none e = v
      resumed (some (t, rest)) e = with_task t rest (pick-Picked _ n t c.tasks rest e)

  cancelled-Inv :
      (f : Conn → Conn) (id : ℕ) (c : Conn)
      → ((d : Conn) → books (f d) ≡ books d)
      → Inv limit depth held slots c
      → Inv limit depth held slots (unless_thrown (cancel_stream id c) f).0
  cancelled-Inv f id c same v = after (cancel_stream id c) (cancel_stream-Inv id c v)
    where
      after :
          (r : Conn × Option Failure)
          → Inv limit depth held slots r.0
          → Inv limit depth held slots (unless_thrown r f).0
      after (d, some e) w = w
      after (d, none) w = subst (Balanced limit depth held slots) (sym (same d)) w

  end_read-Inv :
      (o : Option (ReadStream SequencedEvent))
      (f : BaseStream SequencedEvent → BaseStream SequencedEvent) (id : ℕ) (c : Conn)
      → Inv limit depth held slots c
      → Inv limit depth held slots (end_read o f id c)
  unfolding end_read on_read
  end_read-Inv none f id c v = v
  end_read-Inv (some r) f id c v =
      if-elim (Inv limit depth held slots) (cancels r.base)
        (λ _. cancelled-Inv _ id _ (λ d. refl) v) λ _. v

  end_subscription-Inv :
      (o : Option (BaseStream SubEvent)) (f : BaseStream SubEvent → BaseStream SubEvent) (id : ℕ)
      (c : Conn)
      → Inv limit depth held slots c
      → Inv limit depth held slots (end_subscription o f id c)
  unfolding end_subscription on_subscription
  end_subscription-Inv none f id c v = v
  end_subscription-Inv (some b) f id c v =
      if-elim (Inv limit depth held slots) (cancels b) (λ _. cancelled-Inv _ id _ (λ d. refl) v)
        λ _. v

  write_as-Inv :
      (state : Writer) (w : Write) (c : Conn)
      → c.writer ≡ state
      → Inv limit depth held slots c
      → Inv limit depth held slots (write_as state w c)
  unfolding write_as
  write_as-Inv ready w c e v = write_round-Inv w c (λ a. cc) v
  write_as-Inv asleep w c e v = v
  write_as-Inv draining w c e v = v
  write_as-Inv stopped w c e v = v

  drain_as-Inv :
      (state : Writer) (f : Conn → Conn) (c : Conn)
      → Inv limit depth held slots (f c)
      → Inv limit depth held slots c
      → Inv limit depth held slots (drain_as state f c)
  unfolding drain_as
  drain_as-Inv ready f c v w = w
  drain_as-Inv asleep f c v w = w
  drain_as-Inv draining f c v w = v
  drain_as-Inv stopped f c v w = w

  pub step-Inv :
      (e : Event) (c : Conn) → Inv limit depth held slots c → Inv limit depth held slots (step e c)
  unfolding step
  step-Inv (appends events condition cancelled) c v =
      append_events-Inv events condition cancelled c v
  step-Inv (asks_stats cancelled) c v = ask_stats-Inv cancelled c v
  step-Inv (reads query after limit' reverse attach) c v =
      start_read-Inv query after limit' reverse attach c v
  step-Inv (subscribes query after attach) c v = start_subscription-Inv query after attach c v
  step-Inv closes c v = fail_connection-Inv _ c v
  step-Inv (aborts_unary id) c v = cancel_unary-Inv id _ c v
  step-Inv (aborts_read id) c v = end_read-Inv (get id c.reads) _ id c v
  step-Inv (aborts_subscription id) c v = end_subscription-Inv (get id c.subscriptions) _ id c v
  step-Inv (closes_read id) c v = end_read-Inv (get id c.reads) _ id c v
  step-Inv (closes_subscription id) c v = end_subscription-Inv (get id c.subscriptions) _ id c v
  step-Inv (nexts_read id promise) c v = unfold on_read in v
  step-Inv (nexts_subscription id promise) c v = unfold on_subscription in v
  step-Inv (receives chunk) c v = on_data-Inv chunk c v
  step-Inv socket_fails c v = fail_connection-Inv _ c v
  step-Inv socket_closes c v = fail_connection-Inv _ c v
  step-Inv socket_drains c v = drain_as-Inv c.writer drained c (drained-Inv c v) v
  step-Inv drain_fails c v = drain_as-Inv c.writer drain_failed c (drain_failed-Inv c v) v
  step-Inv (resumes n) c v = resume-Inv n c v
  step-Inv (writes w) c v = write_as-Inv c.writer w c refl v

  pub run-Inv :
      (es : List Event) (c : Conn)
      → Inv limit depth held slots c
      → Inv limit depth held slots (run es c)
  unfolding run
  run-Inv [] c v = v
  run-Inv (e ∷ es) c v = run-Inv es (step e c) (step-Inv e c v)

new_conn-Inv :
    (max_frame_len limit depth : ℕ) → Inv limit depth 0 0 (new_conn max_frame_len limit depth)
unfolding new_conn new_semaphore weigh count_at early held_at IdsBelow acquiring_ids queueing_ids
new_conn-Inv max_frame_len limit depth = record {
  fresh = tt;
  early_ids = tt;
  once = λ k. omega arith;
  asking = refl;
  queued = refl;
  bounded = omega arith;
  exact = inr (omega arith);
  room = inr (omega arith);
  short = omega arith;
  awake = inr (refl, refl, refl, refl);
}

-- After any run of a connection from its hello on (calls of the client, cancels, bytes and errors
-- from the socket, writes that succeed or throw, and waiting functions resumed in any order) its
-- books are balanced: no id in use is above the last one given out, and a request takes at most one
-- permit; those that wait at the two semaphores are the waiting tasks, in the same order; the
-- permits that are free, recorded with a request or on their way to one are never more than
-- maxInflightRequests, and while the connection lives exactly as many; while it lives the free
-- slots, the queued frames and the slots on their way to a frame are requestQueueDepth together;
-- the queue is never longer than that; and the writer sleeps only on a live connection with nothing
-- to write and a gate that wakes it.
pub run-Balanced :
    (max_frame_len limit depth : ℕ) (token : Option Text) (es : List Event)
    → Balanced limit depth 0 0 (books (run es (connected max_frame_len limit depth token)))
unfolding connected
run-Balanced max_frame_len limit depth token es =
    run-Inv es _ (
      greet-Inv token (new_conn max_frame_len limit depth) (new_conn-Inv max_frame_len limit depth))
