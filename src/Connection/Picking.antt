-- ===== src/Connection/Picking.antt =====
-- A task that is taken out of the list of a connection (src/connection.ts) to run.
use tephra_js.Base.{
  ℕ, zero, suc, ◌+◌, ◌≡◌, ◌≤◌, refl, ap, Option, none, some, List, [], ◌∷◌, if◌then◌else◌, ◌==◌,
  arith,
}
use tephra_js.Connection.{acquiring, permitted, queueing, slotted, refused, Task}
use tephra_js.Connection.Steps.{pick, past}
use tephra_js.Connection.Tasks.{
  permit_of, slot_of, early_of, count_at, early, acquiring_ids, queueing_ids, IdsBelow,
}

-- What a ready task takes out of the list.
pub record Picked (n : ℕ) (t : Task) (ts us : List Task) : Type 0 where
  pub id_low : IdsBelow n ts → t.0 ≤ n
  pub below : IdsBelow n ts → IdsBelow n us
  pub granted : count_at permit_of ts ≡ count_at permit_of us + permit_of t.2
  pub slots : count_at slot_of ts ≡ count_at slot_of us + slot_of t.2
  pub earliness : (k : ℕ) → early k ts ≡ early k us + (if t.0 == k then early_of t.2 else 0)
  pub asking : (acquiring_ids (t ∷ []) ≡ []) → acquiring_ids ts ≡ acquiring_ids us
  pub queued : (queueing_ids (t ∷ []) ≡ []) → queueing_ids ts ≡ queueing_ids us

record PickedUnder (u t : Task) (o : Option (Task × List Task)) (us : List Task) : Type 0 where
  rest : List Task
  found : o ≡ some (t, rest)
  same : us ≡ u ∷ rest

past-inverse :
    (u t : Task) (o : Option (Task × List Task)) (us : List Task)
    → past u o ≡ some (t, us)
    → PickedUnder u t o us
past-inverse u t none us h = cc
past-inverse u t (some (w, ws)) us h = record { rest = ws; found = cc; same = cc }

head-inverse :
    (u t : Task) (ts us : List Task)
    → ◌≡◌ {A = Option (Task × List Task)} (some (u, ts)) (some (t, us))
    → (t ≡ u) × (us ≡ ts)
head-inverse u t ts us h = (cc, cc)

head-Picked : (n : ℕ) (t : Task) (us : List Task) → Picked n t (t ∷ us) us
unfolding IdsBelow count_at early acquiring_ids queueing_ids
head-Picked n (i, s, acquiring kind) us = record {
  id_low = λ b. b.0;
  below = λ b. b.1;
  granted = omega arith;
  slots = omega arith;
  earliness = λ k. omega arith;
  asking = λ h. cc;
  queued = λ _. refl;
}
head-Picked n (i, s, permitted kind) us = record {
  id_low = λ b. b.0;
  below = λ b. b.1;
  granted = omega arith;
  slots = omega arith;
  earliness = λ k. omega arith;
  asking = λ _. refl;
  queued = λ _. refl;
}
head-Picked n (i, s, queueing bytes) us = record {
  id_low = λ b. b.0;
  below = λ b. b.1;
  granted = omega arith;
  slots = omega arith;
  earliness = λ k. omega arith;
  asking = λ _. refl;
  queued = λ h. cc;
}
head-Picked n (i, s, slotted bytes) us = record {
  id_low = λ b. b.0;
  below = λ b. b.1;
  granted = omega arith;
  slots = omega arith;
  earliness = λ k. omega arith;
  asking = λ _. refl;
  queued = λ _. refl;
}
head-Picked n (i, s, refused e) us = record {
  id_low = λ b. b.0;
  below = λ b. b.1;
  granted = omega arith;
  slots = omega arith;
  earliness = λ k. omega arith;
  asking = λ _. refl;
  queued = λ _. refl;
}

tail-Picked :
    (n : ℕ) (u t : Task) (ts us : List Task) → Picked n t ts us → Picked n t (u ∷ ts) (u ∷ us)
unfolding IdsBelow count_at early acquiring_ids queueing_ids
tail-Picked n (i, s, acquiring kind) t ts us r = record {
  id_low = λ b. r.id_low b.1;
  below = λ b. (b.0, r.below b.1);
  granted = omega (arith, r.granted);
  slots = omega (arith, r.slots);
  earliness = λ k. omega (arith, r.earliness k);
  asking = λ h. ap (◌∷◌ i) (r.asking h);
  queued = r.queued;
}
tail-Picked n (i, s, permitted kind) t ts us r = record {
  id_low = λ b. r.id_low b.1;
  below = λ b. (b.0, r.below b.1);
  granted = omega (arith, r.granted);
  slots = omega (arith, r.slots);
  earliness = λ k. omega (arith, r.earliness k);
  asking = r.asking;
  queued = r.queued;
}
tail-Picked n (i, s, queueing bytes) t ts us r = record {
  id_low = λ b. r.id_low b.1;
  below = λ b. (b.0, r.below b.1);
  granted = omega (arith, r.granted);
  slots = omega (arith, r.slots);
  earliness = λ k. omega (arith, r.earliness k);
  asking = r.asking;
  queued = λ h. ap (◌∷◌ i) (r.queued h);
}
tail-Picked n (i, s, slotted bytes) t ts us r = record {
  id_low = λ b. r.id_low b.1;
  below = λ b. (b.0, r.below b.1);
  granted = omega (arith, r.granted);
  slots = omega (arith, r.slots);
  earliness = λ k. omega (arith, r.earliness k);
  asking = r.asking;
  queued = r.queued;
}
tail-Picked n (i, s, refused e) t ts us r = record {
  id_low = λ b. r.id_low b.1;
  below = λ b. (b.0, r.below b.1);
  granted = omega (arith, r.granted);
  slots = omega (arith, r.slots);
  earliness = λ k. omega (arith, r.earliness k);
  asking = r.asking;
  queued = r.queued;
}

pub pick-Picked :
    (n m : ℕ) (t : Task) (ts us : List Task) → pick m ts ≡ some (t, us) → Picked n t ts us
unfolding pick
pick-Picked n m t [] us h = cc
pick-Picked n zero t (u ∷ ts) us h =
    let (e, f) = head-inverse u t ts us h in rw (e, f) (head-Picked n u ts)
pick-Picked n (suc m) t (u ∷ ts) us h =
    let i = past-inverse u t (pick m ts) us h in
    rw i.same (tail-Picked n u t ts i.rest (pick-Picked n m t ts i.rest i.found))
