-- ===== src/Connection/Tasks/Waking.antt =====
-- The tasks of a connection (src/connection.ts) that a promise makes ready.
use tephra_js.Base.{
  ℕ, ◌+◌, ◌≡◌, refl, ap, ◌∙◌, List, [], ◌∷◌, ◌==◌, arith, Bool-cases, inl, inr, eq→==,
}
use tephra_js.Connection.{
  acquiring, permitted, queueing, slotted, refused, Task, wake_permit, wake_slot, wake_slots,
}
use tephra_js.Connection.Tasks.{
  permit_of, slot_of, count_at, early, acquiring_ids, queueing_ids, IdsBelow,
}

-- Two lists of tasks that differ in nothing but the tasks that wait or have been woken.
pub record Alike (ts us : List Task) : Type 0 where
  pub earliness : (k : ℕ) → early k us ≡ early k ts
  pub below : (n : ℕ) → IdsBelow n ts → IdsBelow n us

pub record PermitWoken (ts us : List Task) (rest : List ℕ) : Type 0 where
  pub waiting : acquiring_ids us ≡ rest
  pub granted : count_at permit_of us ≡ count_at permit_of ts + 1
  pub queued : queueing_ids us ≡ queueing_ids ts
  pub slots : count_at slot_of us ≡ count_at slot_of ts

pub record SlotWoken (ts us : List Task) (rest : List ℕ) : Type 0 where
  pub waiting : queueing_ids us ≡ rest
  pub slots : count_at slot_of us ≡ count_at slot_of ts + 1
  pub asking : acquiring_ids us ≡ acquiring_ids ts
  pub granted : count_at permit_of us ≡ count_at permit_of ts

cons-eq : {A : Type 0} {a b : A} {as' bs : List A} → a ∷ as' ≡ b ∷ bs → (a ≡ b) × (as' ≡ bs)
cons-eq e = (cc, cc)

pub wake_permit-PermitWoken :
    (id : ℕ) (rest : List ℕ) (ts : List Task)
    → acquiring_ids ts ≡ id ∷ rest
    → PermitWoken ts (wake_permit id ts) rest
unfolding acquiring_ids count_at queueing_ids wake_permit
wake_permit-PermitWoken id rest [] h = cc
wake_permit-PermitWoken id rest ((i, s, acquiring kind) ∷ ts) h =
    let (same, more) = cons-eq h in
    rw (eq→== i id same)
      (record { waiting = more; granted = omega arith; queued = refl; slots = omega arith })
wake_permit-PermitWoken id rest ((i, s, permitted kind) ∷ ts) h =
    let r = wake_permit-PermitWoken id rest ts h in
    record {
      waiting = r.waiting;
      granted = omega (arith, r.granted);
      queued = r.queued;
      slots = omega (arith, r.slots);
    }
wake_permit-PermitWoken id rest ((i, s, queueing bytes) ∷ ts) h =
    let r = wake_permit-PermitWoken id rest ts h in
    record {
      waiting = r.waiting;
      granted = omega (arith, r.granted);
      queued = ap (◌∷◌ i) r.queued;
      slots = omega (arith, r.slots);
    }
wake_permit-PermitWoken id rest ((i, s, slotted bytes) ∷ ts) h =
    let r = wake_permit-PermitWoken id rest ts h in
    record {
      waiting = r.waiting;
      granted = omega (arith, r.granted);
      queued = r.queued;
      slots = omega (arith, r.slots);
    }
wake_permit-PermitWoken id rest ((i, s, refused e) ∷ ts) h =
    let r = wake_permit-PermitWoken id rest ts h in
    record {
      waiting = r.waiting;
      granted = omega (arith, r.granted);
      queued = r.queued;
      slots = omega (arith, r.slots);
    }

wake_permit-early : (id k : ℕ) (ts : List Task) → early k (wake_permit id ts) ≡ early k ts
unfolding early wake_permit
wake_permit-early id k [] = refl
wake_permit-early id k ((i, s, acquiring kind) ∷ ts) = ground (arith, wake_permit-early id k ts)
wake_permit-early id k ((i, s, permitted kind) ∷ ts) = ground (arith, wake_permit-early id k ts)
wake_permit-early id k ((i, s, queueing bytes) ∷ ts) = ground (arith, wake_permit-early id k ts)
wake_permit-early id k ((i, s, slotted bytes) ∷ ts) = ground (arith, wake_permit-early id k ts)
wake_permit-early id k ((i, s, refused e) ∷ ts) = ground (arith, wake_permit-early id k ts)

wake_permit-below : (id n : ℕ) (ts : List Task) → IdsBelow n ts → IdsBelow n (wake_permit id ts)
unfolding IdsBelow wake_permit
wake_permit-below id n [] h = tt
wake_permit-below id n ((i, s, acquiring kind) ∷ ts) h = elim (Bool-cases (i == id)) [
  | inl e ↦ rw e h
  | inr e ↦ rw e (h.0, wake_permit-below id n ts h.1)
]
wake_permit-below id n ((i, s, permitted kind) ∷ ts) h = (h.0, wake_permit-below id n ts h.1)
wake_permit-below id n ((i, s, queueing bytes) ∷ ts) h = (h.0, wake_permit-below id n ts h.1)
wake_permit-below id n ((i, s, slotted bytes) ∷ ts) h = (h.0, wake_permit-below id n ts h.1)
wake_permit-below id n ((i, s, refused e) ∷ ts) h = (h.0, wake_permit-below id n ts h.1)

pub wake_permit-Alike : (id : ℕ) (ts : List Task) → Alike ts (wake_permit id ts)
wake_permit-Alike id ts = record {
  earliness = λ k. wake_permit-early id k ts;
  below = λ n h. wake_permit-below id n ts h;
}

pub wake_slot-SlotWoken :
    (id : ℕ) (rest : List ℕ) (ts : List Task)
    → queueing_ids ts ≡ id ∷ rest
    → SlotWoken ts (wake_slot id ts) rest
unfolding acquiring_ids count_at queueing_ids wake_slot
wake_slot-SlotWoken id rest [] h = cc
wake_slot-SlotWoken id rest ((i, s, acquiring kind) ∷ ts) h =
    let r = wake_slot-SlotWoken id rest ts h in
    record {
      waiting = r.waiting;
      granted = omega (arith, r.granted);
      asking = ap (◌∷◌ i) r.asking;
      slots = omega (arith, r.slots);
    }
wake_slot-SlotWoken id rest ((i, s, permitted kind) ∷ ts) h =
    let r = wake_slot-SlotWoken id rest ts h in
    record {
      waiting = r.waiting;
      granted = omega (arith, r.granted);
      asking = r.asking;
      slots = omega (arith, r.slots);
    }
wake_slot-SlotWoken id rest ((i, s, queueing bytes) ∷ ts) h =
    let (same, more) = cons-eq h in
    rw (eq→== i id same)
      (record { waiting = more; granted = omega arith; asking = refl; slots = omega arith })
wake_slot-SlotWoken id rest ((i, s, slotted bytes) ∷ ts) h =
    let r = wake_slot-SlotWoken id rest ts h in
    record {
      waiting = r.waiting;
      granted = omega (arith, r.granted);
      asking = r.asking;
      slots = omega (arith, r.slots);
    }
wake_slot-SlotWoken id rest ((i, s, refused e) ∷ ts) h =
    let r = wake_slot-SlotWoken id rest ts h in
    record {
      waiting = r.waiting;
      granted = omega (arith, r.granted);
      asking = r.asking;
      slots = omega (arith, r.slots);
    }

wake_slot-early : (id k : ℕ) (ts : List Task) → early k (wake_slot id ts) ≡ early k ts
unfolding early wake_slot
wake_slot-early id k [] = refl
wake_slot-early id k ((i, s, acquiring kind) ∷ ts) = ground (arith, wake_slot-early id k ts)
wake_slot-early id k ((i, s, permitted kind) ∷ ts) = ground (arith, wake_slot-early id k ts)
wake_slot-early id k ((i, s, queueing bytes) ∷ ts) = ground (arith, wake_slot-early id k ts)
wake_slot-early id k ((i, s, slotted bytes) ∷ ts) = ground (arith, wake_slot-early id k ts)
wake_slot-early id k ((i, s, refused e) ∷ ts) = ground (arith, wake_slot-early id k ts)

wake_slot-below : (id n : ℕ) (ts : List Task) → IdsBelow n ts → IdsBelow n (wake_slot id ts)
unfolding IdsBelow wake_slot
wake_slot-below id n [] h = tt
wake_slot-below id n ((i, s, acquiring kind) ∷ ts) h = (h.0, wake_slot-below id n ts h.1)
wake_slot-below id n ((i, s, permitted kind) ∷ ts) h = (h.0, wake_slot-below id n ts h.1)
wake_slot-below id n ((i, s, queueing bytes) ∷ ts) h = elim (Bool-cases (i == id)) [
  | inl e ↦ rw e h
  | inr e ↦ rw e (h.0, wake_slot-below id n ts h.1)
]
wake_slot-below id n ((i, s, slotted bytes) ∷ ts) h = (h.0, wake_slot-below id n ts h.1)
wake_slot-below id n ((i, s, refused e) ∷ ts) h = (h.0, wake_slot-below id n ts h.1)

pub wake_slot-Alike : (id : ℕ) (ts : List Task) → Alike ts (wake_slot id ts)
wake_slot-Alike id ts = record {
  earliness = λ k. wake_slot-early id k ts;
  below = λ n h. wake_slot-below id n ts h;
}

-- All that wait for a slot are woken.
pub wake_slots-SlotWoken :
    (ids : List ℕ) (ts : List Task)
    → queueing_ids ts ≡ ids
    → (queueing_ids (wake_slots ids ts) ≡ [])
      × (acquiring_ids (wake_slots ids ts) ≡ acquiring_ids ts)
      × (count_at permit_of (wake_slots ids ts) ≡ count_at permit_of ts)
unfolding wake_slots
wake_slots-SlotWoken [] ts h = (h, refl, refl)
wake_slots-SlotWoken (id ∷ ids) ts h =
    let w = wake_slot-SlotWoken id ids ts h in
    let (a, b, c) = wake_slots-SlotWoken ids (wake_slot id ts) w.waiting in
    (a, b ∙ w.asking, c ∙ w.granted)

pub wake_slots-Alike : (ids : List ℕ) (ts : List Task) → Alike ts (wake_slots ids ts)
unfolding wake_slots
wake_slots-Alike [] ts = record { earliness = λ k. refl; below = λ n h. h }
wake_slots-Alike (id ∷ ids) ts =
    let w = wake_slot-Alike id ts in
    let r = wake_slots-Alike ids (wake_slot id ts) in
    record {
      earliness = λ k. r.earliness k ∙ w.earliness k;
      below = λ n h. r.below n (w.below n h);
    }
