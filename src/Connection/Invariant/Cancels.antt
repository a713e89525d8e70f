-- ===== src/Connection/Invariant/Cancels.antt =====
-- The cancels of a connection (src/connection.ts) keep the books.
use tephra_js.Base.{
  ℕ, ◌+◌, ◌≡◌, refl, sym, subst, Option, none, some, [], ◌∷◌, ◌++◌, arith, inl, if-elim, Result, ok,
  err, Bool, List,
}
use tephra_js.Base.Maps.{get, raise-Below, delete}
use tephra_js.Text.{Bytes}
use tephra_js.Failure.{Failure}
use tephra_js.Framing.{FrameError}
use tephra_js.Util.{release, hand_over}
use tephra_js.Connection.{
  Entry, Conn, ready, release_inflight, finalize, Role, unary, hello, read, subscribe, release_if,
  wake_permit, resolve, signal_writer, finalize_as,
}
use tephra_js.Connection.Sending.{
  queue_cancel, send_cancel, next_id, unless_thrown, cancel_stream, cancel_stream_as, cancel_unary,
  cancel_unary_as, reject_unary,
}
use tephra_js.Connection.Tasks.{raise-IdsBelow}
use tephra_js.Connection.Invariant.{Inv, books, Balanced, Clear, held_at-delete}
use tephra_js.Connection.Invariant.Primitives.{ready-ne-asleep, signal_writer-Inv, weak}
use tephra_js.Connection.Invariant.Ends.{finalize-Inv, settle-books}
use tephra_js.Connection.Tasks.Waking.{wake_permit-Alike}

module _ {limit depth held slots : ℕ} where
  queue_cancel-Inv :
      (r : Result FrameError Bytes) (c : Conn)
      → Inv limit depth held slots c
      → Inv limit depth held slots (queue_cancel r c).0
  unfolding queue_cancel
  queue_cancel-Inv (err e) c v = v
  queue_cancel-Inv (ok bytes) c v =
      signal_writer-Inv (record c { priority = c.priority ++ bytes ∷ [] }) cancelled (weak v)
    where
      cancelled :
          Balanced limit depth held slots
            (record (books c) { priority = c.priority ++ bytes ∷ []; writer = ready })
      cancelled = record {
        fresh = v.fresh;
        early_ids = v.early_ids;
        once = v.once;
        asking = v.asking;
        bounded = v.bounded;
        exact = v.exact;
        queued = v.queued;
        room = v.room;
        short = v.short;
        awake = inl ready-ne-asleep;
      }

  pub next_id-Inv :
      (c : Conn) → Inv limit depth held slots c → Inv limit depth held slots (next_id c)
  next_id-Inv c v = record {
    fresh = raise-Below c.id_counter (c.id_counter + 1) c.pending (omega arith) v.fresh;
    early_ids = raise-IdsBelow c.id_counter (c.id_counter + 1) c.tasks (omega arith) v.early_ids;
    once = v.once;
    asking = v.asking;
    bounded = v.bounded;
    exact = v.exact;
    queued = v.queued;
    room = v.room;
    short = v.short;
    awake = v.awake;
  }

  pub send_cancel-Inv :
      (target : ℕ) (c : Conn)
      → Inv limit depth held slots c
      → Inv limit depth held slots (send_cancel target c).0
  unfolding send_cancel
  send_cancel-Inv target c v =
      if-elim (λ (r : Conn × Option Failure). Inv limit depth held slots r.0) c.dead (λ _. v)
        λ _. queue_cancel-Inv _ (next_id c) (next_id-Inv c v)

-- A request stays clear when another permit is released, its entry removed, or a cancel queued.
release_if-Clear :
    (id : ℕ) (held : Bool) (c : Conn) → Clear id (books c) → Clear id (books (release_if held c))
unfolding release_if release_inflight release
release_if-Clear id held c v =
    if-elim (λ (d : Conn). Clear id (books d)) held (λ _. released c.inflight.waiters) (λ _. v)
  where
    released :
        (ws : List ℕ)
        → Clear id (record (books c) {
          inflight = (hand_over ws c.inflight).0;
          tasks = resolve wake_permit (hand_over ws c.inflight).1 c.tasks;
        })
    released [] = unfold hand_over in record { low = v.low; unheld = v.unheld }
    released (next ∷ rest) =
        unfold hand_over in
        record {
          low = v.low;
          unheld = omega (arith, v.unheld, (wake_permit-Alike next c.tasks).earliness id);
        }

finalize-Clear :
    (id other : ℕ) (c : Conn) → Clear id (books c) → Clear id (books (finalize other c))
unfolding finalize
finalize-Clear id other c v = finalized (get other c.pending)
  where
    finalized : (o : Option Entry) → Clear id (books (finalize_as o other c))
    finalized none = unfold finalize_as in v
    finalized (some entry) =
        unfold finalize_as in
        release_if-Clear id entry.permit (record c { pending = delete other c.pending })
          (record {
            low = v.low;
            unheld = omega (arith, v.unheld, held_at-delete id other c.pending);
          })

send_cancel-Clear :
    (id target : ℕ) (c : Conn) → Clear id (books c) → Clear id (books (send_cancel target c).0)
unfolding send_cancel
send_cancel-Clear id target c v =
    if-elim (λ (r : Conn × Option Failure). Clear id (books r.0)) c.dead (λ _. v)
      λ _. queued _ (next_id c) (record { low = omega (arith, v.low); unheld = v.unheld })
  where
    queued :
        (r : Result FrameError Bytes) (d : Conn)
        → Clear id (books d)
        → Clear id (books (queue_cancel r d).0)
    queued (err e) d w = unfold queue_cancel in w
    queued (ok bytes) d w =
        unfold queue_cancel in unfold signal_writer in record { low = w.low; unheld = w.unheld }

reject_unary-books :
    (role : Role) (id : ℕ) (e : Failure) (c : Conn) → books (reject_unary role id e c) ≡ books c
unfolding reject_unary
reject_unary-books (unary expect) id e c = settle-books id _ c
reject_unary-books hello id e c = refl
reject_unary-books read id e c = refl
reject_unary-books subscribe id e c = refl

pub cancel_unary-Clear :
    (id : ℕ) (e : Failure) (c : Conn)
    → Clear id (books c)
    → Clear id (books (cancel_unary id e c).0)
unfolding cancel_unary
cancel_unary-Clear id e c v = cancelled (get id c.pending)
  where
    after :
        (entry : Entry) (r : Conn × Option Failure)
        → Clear id (books r.0)
        → Clear id (books (unless_thrown r (λ d. reject_unary entry.role id e (finalize id d))).0)
    after entry (d, some x) w = w
    after entry (d, none) w =
        subst (Clear id) (sym (reject_unary-books entry.role id e (finalize id d)))
          (finalize-Clear id id d w)

    cancelled : (o : Option Entry) → Clear id (books (cancel_unary_as o id e c).0)
    cancelled none = unfold cancel_unary_as in v
    cancelled (some entry) =
        unfold cancel_unary_as in after entry (send_cancel id c) (send_cancel-Clear id id c v)

module _ {limit depth held slots : ℕ} where
  pub cancel_stream-Inv :
      (id : ℕ) (c : Conn)
      → Inv limit depth held slots c
      → Inv limit depth held slots (cancel_stream id c).0
  unfolding cancel_stream
  cancel_stream-Inv id c v = cancelled (get id c.pending)
    where
      after :
          (r : Conn × Option Failure)
          → Inv limit depth held slots r.0
          → Inv limit depth held slots (unless_thrown r (finalize id)).0
      after (d, some x) w = w
      after (d, none) w = finalize-Inv id d w

      cancelled : (o : Option Entry) → Inv limit depth held slots (cancel_stream_as o id c).0
      cancelled none = unfold cancel_stream_as in v
      cancelled (some entry) =
          unfold cancel_stream_as in after (send_cancel id c) (send_cancel-Inv id c v)

  pub cancel_unary-Inv :
      (id : ℕ) (e : Failure) (c : Conn)
      → Inv limit depth held slots c
      → Inv limit depth held slots (cancel_unary id e c).0
  unfolding cancel_unary
  cancel_unary-Inv id e c v = cancelled (get id c.pending)
    where
      after :
          (entry : Entry) (r : Conn × Option Failure)
          → Inv limit depth held slots r.0
          → Inv limit depth held slots
              (unless_thrown r (λ d. reject_unary entry.role id e (finalize id d))).0
      after entry (d, some x) w = w
      after entry (d, none) w =
          subst (Balanced limit depth held slots)
            (sym (reject_unary-books entry.role id e (finalize id d))) (finalize-Inv id d w)

      cancelled : (o : Option Entry) → Inv limit depth held slots (cancel_unary_as o id e c).0
      cancelled none = unfold cancel_unary_as in v
      cancelled (some entry) =
          unfold cancel_unary_as in after entry (send_cancel id c) (send_cancel-Inv id c v)
