-- ===== src/Connection/Tasks.antt =====
-- The waiting send functions of a connection (src/connection.ts), counted by where they stand.
pub mod Waking
use tephra_js.Base.{
  ℕ, ◌+◌, ◌≡◌, ◌≤◌, ◌<◌, refl, ap, ◌∙◌, List, [], ◌∷◌, ◌++◌, if◌then◌else◌, ◌==◌, arith, Bool-cases,
  inl, inr, eq→==,
}
use tephra_js.Connection.{
  Point, acquiring, permitted, queueing, slotted, refused, Task, wake_permit, wake_slot, wake_slots,
}

-- A task that holds a permit, or a slot, that is recorded nowhere else.
abbrev pub permit_of : Point → ℕ
permit_of (acquiring kind) = 0
permit_of (permitted kind) = 1
permit_of (queueing bytes) = 0
permit_of (slotted bytes) = 0
permit_of (refused e) = 0

abbrev pub slot_of : Point → ℕ
slot_of (acquiring kind) = 0
slot_of (permitted kind) = 0
slot_of (queueing bytes) = 0
slot_of (slotted bytes) = 1
slot_of (refused e) = 0

-- A task that has not given its permit to its entry.
abbrev pub early_of : Point → ℕ
early_of (acquiring kind) = 1
early_of (permitted kind) = 1
early_of (queueing bytes) = 0
early_of (slotted bytes) = 0
early_of (refused e) = 0

unfoldable pub count_at : (Point → ℕ) → List Task → ℕ
count_at w [] = 0
count_at w ((i, s, p) ∷ ts) = w p + count_at w ts

-- The tasks of one request that are early.
unfoldable pub early : ℕ → List Task → ℕ
early k [] = 0
early k ((i, s, p) ∷ ts) = (if i == k then early_of p else 0) + early k ts

-- The ids of those that wait, at `inflight` and at `queueSlots`.
unfoldable pub acquiring_ids : List Task → List ℕ
acquiring_ids [] = []
acquiring_ids ((i, s, acquiring kind) ∷ ts) = i ∷ acquiring_ids ts
acquiring_ids ((i, s, permitted kind) ∷ ts) = acquiring_ids ts
acquiring_ids ((i, s, queueing bytes) ∷ ts) = acquiring_ids ts
acquiring_ids ((i, s, slotted bytes) ∷ ts) = acquiring_ids ts
acquiring_ids ((i, s, refused e) ∷ ts) = acquiring_ids ts

unfoldable pub queueing_ids : List Task → List ℕ
queueing_ids [] = []
queueing_ids ((i, s, acquiring kind) ∷ ts) = queueing_ids ts
queueing_ids ((i, s, permitted kind) ∷ ts) = queueing_ids ts
queueing_ids ((i, s, queueing bytes) ∷ ts) = i ∷ queueing_ids ts
queueing_ids ((i, s, slotted bytes) ∷ ts) = queueing_ids ts
queueing_ids ((i, s, refused e) ∷ ts) = queueing_ids ts

unfoldable pub IdsBelow : ℕ → List Task → Type 0
IdsBelow n [] = Unit {0}
IdsBelow n ((i, s, p) ∷ ts) = (i ≤ n) × IdsBelow n ts

-- One more task at the end.
pub record Added (t : Task) (ts : List Task) : Type 0 where
  pub asking : acquiring_ids (ts ++ t ∷ []) ≡ acquiring_ids ts ++ acquiring_ids (t ∷ [])
  pub queued : queueing_ids (ts ++ t ∷ []) ≡ queueing_ids ts ++ queueing_ids (t ∷ [])
  pub granted :
      count_at permit_of (ts ++ t ∷ []) ≡ count_at permit_of ts + count_at permit_of (t ∷ [])
  pub slots : count_at slot_of (ts ++ t ∷ []) ≡ count_at slot_of ts + count_at slot_of (t ∷ [])
  pub earliness : (k : ℕ) → early k (ts ++ t ∷ []) ≡ early k ts + early k (t ∷ [])
  pub below : (n : ℕ) → t.0 ≤ n → IdsBelow n ts → IdsBelow n (ts ++ t ∷ [])

pub add-Added : (t : Task) (ts : List Task) → Added t ts
unfolding acquiring_ids queueing_ids count_at early IdsBelow
add-Added t [] = record {
  asking = refl;
  queued = refl;
  granted = omega arith;
  slots = omega arith;
  earliness = λ k. omega arith;
  below = λ n h b. (h, tt);
}
add-Added t ((i, s, acquiring kind) ∷ ts) =
    let r = add-Added t ts in
    record {
      asking = ap (◌∷◌ i) r.asking;
      queued = r.queued;
      granted = omega (arith, r.granted);
      slots = omega (arith, r.slots);
      earliness = λ k. omega (arith, r.earliness k);
      below = λ n h b. (b.0, r.below n h b.1);
    }
add-Added t ((i, s, permitted kind) ∷ ts) =
    let r = add-Added t ts in
    record {
      asking = r.asking;
      queued = r.queued;
      granted = omega (arith, r.granted);
      slots = omega (arith, r.slots);
      earliness = λ k. omega (arith, r.earliness k);
      below = λ n h b. (b.0, r.below n h b.1);
    }
add-Added t ((i, s, queueing bytes) ∷ ts) =
    let r = add-Added t ts in
    record {
      asking = r.asking;
      queued = ap (◌∷◌ i) r.queued;
      granted = omega (arith, r.granted);
      slots = omega (arith, r.slots);
      earliness = λ k. omega (arith, r.earliness k);
      below = λ n h b. (b.0, r.below n h b.1);
    }
add-Added t ((i, s, slotted bytes) ∷ ts) =
    let r = add-Added t ts in
    record {
      asking = r.asking;
      queued = r.queued;
      granted = omega (arith, r.granted);
      slots = omega (arith, r.slots);
      earliness = λ k. omega (arith, r.earliness k);
      below = λ n h b. (b.0, r.below n h b.1);
    }
add-Added t ((i, s, refused e) ∷ ts) =
    let r = add-Added t ts in
    record {
      asking = r.asking;
      queued = r.queued;
      granted = omega (arith, r.granted);
      slots = omega (arith, r.slots);
      earliness = λ k. omega (arith, r.earliness k);
      below = λ n h b. (b.0, r.below n h b.1);
    }

pub raise-IdsBelow : (n n' : ℕ) (ts : List Task) → n ≤ n' → IdsBelow n ts → IdsBelow n' ts
unfolding IdsBelow
raise-IdsBelow n n' [] h b = tt
raise-IdsBelow n n' ((i, s, p) ∷ ts) h b = (omega arith, raise-IdsBelow n n' ts h b.1)

-- A new id has no task.
pub early-fresh : (n k : ℕ) (ts : List Task) → IdsBelow n ts → n < k → early k ts ≡ 0
unfolding IdsBelow early
early-fresh n k [] b h = refl
early-fresh n k ((i, s, p) ∷ ts) b h = ground (arith, early-fresh n k ts b.1 h)
