-- ===== src/Connection/Invariant/Sends.antt =====
-- The sending half of a connection (src/connection.ts) keeps the books.
use tephra_js.Base.{
  ℕ, ◌+◌, ◌≡◌, ◌≤◌, ap, sym, ◌∙◌, subst, true, Option, none, some, [], ◌∷◌, ◌++◌, if◌then◌else◌,
  ◌==◌, arith, inl, inr, Bool-cases, ltb, if-elim, Result, ok, err, append-nil, ==→eq, ◌-◌,
}
use tephra_js.Base.Maps.{get}
use tephra_js.Text.{Bytes}
use tephra_js.Failure.{Failure, frame}
use tephra_js.Framing.{FrameError}
use tephra_js.Messages.Request.{RequestKind}
use tephra_js.Util.{acquire}
use tephra_js.Connection.{Entry, Sender, acquiring, permitted, queueing, slotted, Conn, finalize}
use tephra_js.Connection.Sending.{start_send, sends, refuse, catch_send, enqueue, enqueue_frame}
use tephra_js.Connection.Tasks.{count_at, early, acquiring_ids, queueing_ids, Added, add-Added}
use tephra_js.Connection.Invariant.{Inv, books, Balanced, held_at}
use tephra_js.Connection.Invariant.Ends.{finalize-Inv, fail_entry-books}

module _ {limit depth held slots : ℕ} where
  -- A task of a request that has no other task on the way to its permit, and no permit.
  pub start_send-Inv :
      (sender : Sender) (id : ℕ) (kind : RequestKind) (c : Conn)
      → id ≤ c.id_counter
      → early id c.tasks + held_at id c.pending ≡ 0
      → Inv limit depth held slots c
      → Inv limit depth held slots (start_send sender id kind c)
  unfolding start_send acquire acquiring_ids queueing_ids count_at early
  start_send-Inv sender id kind c low first v = elim (Bool-cases (ltb 0 c.inflight.permits)) [
    | inl h ↦ rw h (free (add-Added (id, sender, permitted kind) c.tasks) h)
    | inr h ↦ rw h (busy (add-Added (id, sender, acquiring kind) c.tasks))
  ]
    where
      once_more :
          (k : ℕ) → early k c.tasks + ((if id == k then 1 else 0) + 0) + held_at k c.pending ≤ 1
      once_more k = elim (Bool-cases (id == k)) [
        | inl e ↦ rw e (
            omega
              (arith, subst (λ j. early j c.tasks + held_at j c.pending ≡ 0) (==→eq id k e) first))
        | inr e ↦ rw e (omega (arith, v.once k))
      ]

      free :
          Added (id, sender, permitted kind) c.tasks
          → ltb 0 c.inflight.permits ≡ true
          → Balanced limit depth held slots (record (books c) {
            inflight = record c.inflight { permits = c.inflight.permits - 1 };
            tasks = c.tasks ++ (id, sender, permitted kind) ∷ [];
          })
      free a h = record {
        fresh = v.fresh;
        early_ids = a.below _ low v.early_ids;
        once = λ k. rw (a.earliness k) (once_more k);
        asking = v.asking ∙ sym (append-nil _) ∙ sym a.asking;
        bounded = ground (arith, v.bounded, a.granted);
        exact = ground (arith, v.exact, a.granted);
        queued = v.queued ∙ sym (append-nil _) ∙ sym a.queued;
        room = ground (arith, v.room, a.slots);
        short = v.short;
        awake = v.awake;
      }

      busy :
          Added (id, sender, acquiring kind) c.tasks
          → Balanced limit depth held slots (record (books c) {
            inflight = record c.inflight { waiters = c.inflight.waiters ++ id ∷ [] };
            tasks = c.tasks ++ (id, sender, acquiring kind) ∷ [];
          })
      busy a = record {
        fresh = v.fresh;
        early_ids = a.below _ low v.early_ids;
        once = λ k. rw (a.earliness k) (once_more k);
        asking = ap (λ l. l ++ id ∷ []) v.asking ∙ sym a.asking;
        bounded = ground (arith, v.bounded, a.granted);
        exact = ground (arith, v.exact, a.granted);
        queued = v.queued ∙ sym (append-nil _) ∙ sym a.queued;
        room = ground (arith, v.room, a.slots);
        short = v.short;
        awake = v.awake;
      }

  pub enqueue-Inv :
      (sender : Sender) (id : ℕ) (bytes : Bytes) (c : Conn)
      → id ≤ c.id_counter
      → Inv limit depth held slots c
      → Inv limit depth held slots (enqueue sender id bytes c)
  unfolding enqueue acquire acquiring_ids queueing_ids count_at early
  enqueue-Inv sender id bytes c low v = elim (Bool-cases (ltb 0 c.queue_slots.permits)) [
    | inl h ↦ rw h (free (add-Added (id, sender, slotted bytes) c.tasks) h)
    | inr h ↦ rw h (busy (add-Added (id, sender, queueing bytes) c.tasks))
  ]
    where
      same : (k n : ℕ) → n ≡ 0 → early k c.tasks + n + held_at k c.pending ≤ 1
      same k n e = omega (arith, v.once k)

      none_early : (k : ℕ) → (if id == k then 0 else 0) + 0 ≡ 0
      none_early k = ground arith

      free :
          Added (id, sender, slotted bytes) c.tasks
          → ltb 0 c.queue_slots.permits ≡ true
          → Balanced limit depth held slots (record (books c) {
            queue_slots = record c.queue_slots { permits = c.queue_slots.permits - 1 };
            tasks = c.tasks ++ (id, sender, slotted bytes) ∷ [];
          })
      free a h = record {
        fresh = v.fresh;
        early_ids = a.below _ low v.early_ids;
        once = λ k. rw (a.earliness k) (same k _ (none_early k));
        asking = v.asking ∙ sym (append-nil _) ∙ sym a.asking;
        bounded = ground (arith, v.bounded, a.granted);
        exact = ground (arith, v.exact, a.granted);
        queued = v.queued ∙ sym (append-nil _) ∙ sym a.queued;
        room = ground (arith, v.room, a.slots);
        short = v.short;
        awake = v.awake;
      }

      busy :
          Added (id, sender, queueing bytes) c.tasks
          → Balanced limit depth held slots (record (books c) {
            queue_slots = record c.queue_slots { waiters = c.queue_slots.waiters ++ id ∷ [] };
            tasks = c.tasks ++ (id, sender, queueing bytes) ∷ [];
          })
      busy a = record {
        fresh = v.fresh;
        early_ids = a.below _ low v.early_ids;
        once = λ k. rw (a.earliness k) (same k _ (none_early k));
        asking = v.asking ∙ sym (append-nil _) ∙ sym a.asking;
        bounded = ground (arith, v.bounded, a.granted);
        exact = ground (arith, v.exact, a.granted);
        queued = ap (λ l. l ++ id ∷ []) v.queued ∙ sym a.queued;
        room = ground (arith, v.room, a.slots);
        short = v.short;
        awake = v.awake;
      }

  -- The catch of a send function: the entry is finalized, and its request fails.
  pub catch_send-Inv :
      (sender : Sender) (id : ℕ) (e : Failure) (c : Conn)
      → Inv limit depth held slots c
      → Inv limit depth held slots (catch_send sender id e c)
  unfolding catch_send
  catch_send-Inv sender id e c v = caught (get id c.pending)
    where
      caught :
          (o : Option Entry) → Inv limit depth held slots (refuse o sender id e (finalize id c))
      caught none = unfold refuse in finalize-Inv id c v
      caught (some entry) =
          unfold refuse in
          if-elim (Inv limit depth held slots) (sends sender entry.role)
            (λ _.
              subst (Balanced limit depth held slots)
                (sym (fail_entry-books e id entry.role (finalize id c))) (finalize-Inv id c v))
            λ _. finalize-Inv id c v

  pub enqueue_frame-Inv :
      (r : Result FrameError Bytes) (sender : Sender) (id : ℕ) (c : Conn)
      → id ≤ c.id_counter
      → Inv limit depth held slots c
      → Inv limit depth held slots (enqueue_frame r sender id c)
  unfolding enqueue_frame
  enqueue_frame-Inv (err e) sender id c low v = catch_send-Inv sender id (frame e) c v
  enqueue_frame-Inv (ok bytes) sender id c low v = enqueue-Inv sender id bytes c low v
