-- ===== src/Connection/Invariant/Ends.antt =====
-- A request of a connection that ends, and the connection itself (src/connection.ts).
use tephra_js.Base.{
  ℕ, ◌+◌, ◌≡◌, ◌≢◌, refl, ap, sym, ◌∙◌, subst, Bool, true, false, Option, none, some, [], ◌∷◌,
  if◌then◌else◌, arith, ◌⊎◌, inl, inr, Bool-cases, if-elim,
}
use tephra_js.Base.Maps.{Map, get, delete, weigh, weigh-delete, delete-Below}
use tephra_js.Failure.{Failure}
use tephra_js.Connection.{
  Role, unary, hello, read, subscribe, Entry, Outcome, Conn, asleep, ready, drain_slots,
  signal_writer, settle, settle_as, on_read, on_subscription, fail_entry, fail_entries,
  fail_connection, release_if, finalize, finalize_as,
}
use tephra_js.Connection.Invariant.{Inv, Books, books, Balanced, permit_in, held_at, held_at-delete}
use tephra_js.Connection.Invariant.Primitives.{
  weak, ready-ne-asleep, release_inflight-Inv, drain_slots-Inv, signal_writer-Inv,
}

module _ {limit depth held slots : ℕ} where
  pub release_if-Inv :
      (entry : Entry) (c : Conn)
      → Inv limit depth (held + permit_in entry) slots c
      → Inv limit depth held slots (release_if entry.permit c)
  unfolding release_if
  release_if-Inv entry c v = elim (Bool-cases entry.permit) [
    | inl h ↦
        rw h (release_inflight-Inv c (subst (λ n. Inv limit depth (held + n) slots c) (ap one h) v))
    | inr h ↦ rw h (subst (λ n. Inv limit depth n slots c) (zero_more h) v)
  ]
    where
      one : Bool → ℕ
      one b = if b then 1 else 0

      zero_more : entry.permit ≡ false → held + permit_in entry ≡ held
      zero_more h = ground arith

  pub finalize-Inv :
      (id : ℕ) (c : Conn)
      → Inv limit depth held slots c
      → Inv limit depth held slots (finalize id c)
  unfolding finalize
  finalize-Inv id c v = finalized (get id c.pending) refl
    where
      finalized :
          (o : Option Entry)
          → get id c.pending ≡ o
          → Inv limit depth held slots (finalize_as o id c)
      finalized none e = unfold finalize_as in v
      finalized (some entry) e =
          let w = weigh-delete permit_in id entry c.pending e in
          unfold finalize_as in
          release_if-Inv entry (record c { pending = delete id c.pending })
            (record {
              fresh = delete-Below _ id c.pending v.fresh;
              early_ids = v.early_ids;
              once = λ k. omega (arith, v.once k, held_at-delete k id c.pending);
              asking = v.asking;
              bounded = omega (arith, v.bounded, w);
              exact = ground (arith, w, v.exact);
              queued = v.queued;
              room = v.room;
              short = v.short;
              awake = v.awake;
            })

-- Promises and streams are no part of the books.
pub settle-books : (id : ℕ) (o : Outcome) (c : Conn) → books (settle id o c) ≡ books c
unfolding settle
settle-books id o c = settled (get id c.deferreds)
  where
    settled : (d : Option (Option Outcome)) → books (settle_as d id o c) ≡ books c
    settled none = unfold settle_as in refl
    settled (some none) = unfold settle_as in refl
    settled (some (some p)) = unfold settle_as in refl

pub fail_entry-books :
    (e : Failure) (id : ℕ) (role : Role) (c : Conn) → books (fail_entry e id role c) ≡ books c
unfolding fail_entry on_read on_subscription
fail_entry-books e id (unary expect) c = settle-books id _ c
fail_entry-books e id hello c = settle-books id _ c
fail_entry-books e id read c = refl
fail_entry-books e id subscribe c = refl

pub fail_entries-books :
    (e : Failure) (m : Map Entry) (c : Conn) → books (fail_entries e m c) ≡ books c
unfolding fail_entries
fail_entries-books e [] c = refl
fail_entries-books e ((id, entry) ∷ rest) c =
    fail_entries-books e rest _ ∙ fail_entry-books e id entry.role c

module _ {limit depth held slots : ℕ} where
  pub fail_connection-Inv :
      (e : Failure) (c : Conn)
      → Inv limit depth held slots c
      → Inv limit depth held slots (fail_connection e c)
  unfolding fail_connection
  fail_connection-Inv e c v =
      if-elim (Inv limit depth held slots) c.dead (λ _. v)
        λ _. drain_slots-Inv failed dead_now (signal_writer-Inv entries waking w)
    where
      dying : Conn
      dying = record c { dead = true; death_cause = some e; pending = [] }

      entries : Conn
      entries = fail_entries e c.pending dying

      failed : Conn
      failed = signal_writer entries

      same : books entries ≡ books dying
      same = fail_entries-books e c.pending dying

      dead_now : failed.dead ≡ true
      dead_now = unfold signal_writer in ap (λ b. b.dead) same

      waking : Balanced limit depth held slots (record (books entries) { writer = ready })
      waking =
          subst (λ (b : Books). Balanced limit depth held slots (record b { writer = ready }))
            (sym same)
            (record {
              fresh = tt;
              early_ids = v.early_ids;
              once = λ k. unfold held_at in omega (arith, v.once k);
              asking = v.asking;
              bounded = unfold weigh in omega (arith, v.bounded);
              exact = inl refl;
              queued = v.queued;
              room = inl refl;
              short = v.short;
              awake = inl ready-ne-asleep;
            })

      w : (entries.writer ≢ asleep) ⊎ (entries.gate.waiter ≡ true)
      w = subst (λ (b : Books). (b.writer ≢ asleep) ⊎ (b.gate.waiter ≡ true)) (sym same) (weak v)

pub fail_connection-dead : (e : Failure) (c : Conn) → (fail_connection e c).dead ≡ true
unfolding fail_connection drain_slots signal_writer
fail_connection-dead e c =
    if-elim (λ (d : Conn). d.dead ≡ true) c.dead (λ h. h)
      λ _. ap (λ (b : Books). b.dead) (fail_entries-books e c.pending _)
