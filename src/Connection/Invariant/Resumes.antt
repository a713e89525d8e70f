-- ===== src/Connection/Invariant/Resumes.antt =====
-- A send function of a connection (src/connection.ts) that goes on with its permit or its slot.
use tephra_js.Base.{
  ℕ, ◌+◌, ◌≡◌, ◌≤◌, refl, sym, ◌∙◌, subst, true, false, Option, none, some, [], ◌∷◌, ◌++◌,
  if◌then◌else◌, ◌==◌, arith, inl, inr, length-append, Bool-cases, if-elim, append-nil, ==→eq,
}
use tephra_js.Base.Maps.{get, set, weigh-set_old, set-Below}
use tephra_js.Text.{Bytes}
use tephra_js.Messages.Request.{RequestKind}
use tephra_js.Connection.{
  Entry, Sender, refused, Conn, ready, release_inflight, release_slot, dead_error,
}
use tephra_js.Connection.Sending.{send_entry, after_permit, after_slot}
use tephra_js.Connection.Tasks.{count_at, early, acquiring_ids, queueing_ids, add-Added}
use tephra_js.Connection.Invariant.{
  Inv, books, Balanced, permit_in, held_at, held_at-set, held_at-get,
}
use tephra_js.Connection.Invariant.Primitives.{
  ready-ne-asleep, release_inflight-Inv, release_slot-Inv, signal_writer-Inv, weak,
}
use tephra_js.Connection.Invariant.Sends.{catch_send-Inv, enqueue_frame-Inv}

module _ {limit depth held slots : ℕ} where
  -- The permit in hand is recorded with the entry, or given back.
  pub after_permit-Inv :
      (sender : Sender) (id : ℕ) (kind : RequestKind) (c : Conn)
      → id ≤ c.id_counter
      → early id c.tasks + held_at id c.pending ≡ 0
      → Inv limit depth (held + 1) slots c
      → Inv limit depth held slots (after_permit sender id kind c)
  unfolding after_permit
  after_permit-Inv sender id kind c low first v = with_entry (get id c.pending) refl
    where
      granted :
          (entry : Entry)
          → get id c.pending ≡ some entry
          → Inv limit depth held slots
              (record c { pending = set id (record entry { permit = true }) c.pending })
      granted entry e =
          let w = weigh-set_old permit_in id (record entry { permit = true }) entry c.pending e in
          let g = held_at-get id entry c.pending e in
          record {
            fresh = set-Below _ id _ c.pending low v.fresh;
            early_ids = v.early_ids;
            once = λ k. recorded k (held_at-set k id (record entry { permit = true }) c.pending);
            asking = v.asking;
            bounded = omega (arith, v.bounded, w, g, first);
            exact = ground (arith, v.exact, w, g, first);
            queued = v.queued;
            room = v.room;
            short = v.short;
            awake = v.awake;
          }
        where
          recorded :
              (k : ℕ) {n : ℕ}
              → n ≤ held_at k c.pending + (if id == k then 1 else 0)
              → early k c.tasks + n ≤ 1
          recorded k h = elim (Bool-cases (id == k)) [
            | inl e ↦
                let z =
                  subst (λ j. early j c.tasks + held_at j c.pending ≡ 0) (==→eq id k e) first in
                omega (arith, rw e at h, z)
            | inr e ↦ omega (arith, rw e at h, v.once k)
          ]

      with_entry :
          (o : Option Entry)
          → get id c.pending ≡ o
          → Inv limit depth held slots (send_entry o sender id kind c)
      with_entry none e = unfold send_entry in release_inflight-Inv c v
      with_entry (some entry) e =
          unfold send_entry in
          if-elim (Inv limit depth held slots) c.dead
            (λ _.
              catch_send-Inv sender id (dead_error c) (release_inflight c)
                (release_inflight-Inv c v))
            λ _. enqueue_frame-Inv _ sender id _ low (granted entry e)

  -- The slot in hand goes to the frame, or is given back.
  pub after_slot-Inv :
      (sender : Sender) (id : ℕ) (bytes : Bytes) (c : Conn)
      → id ≤ c.id_counter
      → Inv limit depth held (slots + 1) c
      → Inv limit depth held slots (after_slot sender id bytes c)
  unfolding after_slot acquiring_ids queueing_ids count_at early
  after_slot-Inv sender id bytes c low v =
      if-elim (Inv limit depth held slots) c.dead
        (λ _. refuse_task (release_slot c) (unfold release_slot in low) (release_slot-Inv c v))
        λ h.
          signal_writer-Inv (record c { outbound = c.outbound ++ bytes ∷ [] }) (queued_frame h)
            (weak v)
    where
      queued_frame :
          c.dead ≡ false
          → Balanced limit depth held slots
              (record (books c) { outbound = c.outbound ++ bytes ∷ []; writer = ready })
      queued_frame h = record {
        fresh = v.fresh;
        early_ids = v.early_ids;
        once = v.once;
        asking = v.asking;
        bounded = v.bounded;
        exact = v.exact;
        queued = v.queued;
        room = ground (arith, v.room, length-append c.outbound (bytes ∷ []));
        short = ground (arith, v.room, length-append c.outbound (bytes ∷ []));
        awake = inl ready-ne-asleep;
      }

      refuse_task :
          (d : Conn)
          → id ≤ d.id_counter
          → Inv limit depth held slots d
          → Inv limit depth held slots
              (record d { tasks = d.tasks ++ (id, sender, refused (dead_error c)) ∷ [] })
      refuse_task d l w =
          let a = add-Added (id, sender, refused (dead_error c)) d.tasks in
          record {
            fresh = w.fresh;
            early_ids = a.below _ l w.early_ids;
            once = λ k. ground (arith, w.once k, a.earliness k);
            asking = w.asking ∙ sym (append-nil _) ∙ sym a.asking;
            bounded = omega (arith, w.bounded, a.granted);
            exact = ground (arith, w.exact, a.granted);
            queued = w.queued ∙ sym (append-nil _) ∙ sym a.queued;
            room = ground (arith, w.room, a.slots);
            short = w.short;
            awake = w.awake;
          }
