-- ===== src/Util/Fifo.antt =====
-- class Semaphore of src/util.ts over any sequence of calls.
use tephra_js.Base.{
  ℕ, ◌+◌, ◌≡◌, ◌⊎◌, inl, inr, refl, Option, none, some, List, [], ◌∷◌, ◌++◌, append_assoc,
  append-nil, length, length-append, if◌then◌else◌, ltb, arith, Bool-cases,
}
use tephra_js.Util.{Semaphore, new_semaphore, acquire, release, hand_over}

-- The calls made so far: the promises in the order of their `acquire`, those resolved in the order
-- in which they were, and the number of releases.
pub record History : Type 0 where
  pub semaphore : Semaphore
  pub asked : List ℕ
  pub granted : List ℕ
  pub released : ℕ

pub data Call : Type 0 where
  acquires : ℕ → Call
  releases : Call

abbrev resolved : Option ℕ → List ℕ
resolved none = []
resolved (some promise) = promise ∷ []

unfoldable pub call : Call → History → History
call (acquires promise) h =
    let (s, at_once) = acquire promise h.semaphore in
    record h {
      semaphore = s;
      asked = h.asked ++ promise ∷ [];
      granted = h.granted ++ (if at_once then promise ∷ [] else []);
    }
call releases h =
    let (s, next) = release h.semaphore in
    record h { semaphore = s; granted = h.granted ++ resolved next; released = h.released + 1 }

unfoldable pub calls : List Call → History → History
calls [] h = h
calls (c ∷ cs) h = calls cs (call c h)

unfoldable pub begin : ℕ → History
unfolding new_semaphore
begin permits = record { semaphore = new_semaphore permits; asked = []; granted = []; released = 0 }

-- Granted in the order asked; no permit is made or lost; nobody waits while one is free.
pub record Fair (permits : ℕ) (h : History) : Type 0 where
  pub in_order : h.granted ++ h.semaphore.waiters ≡ h.asked
  pub conserved : length h.granted + h.semaphore.permits ≡ permits + h.released
  pub busy : (h.semaphore.waiters ≡ []) ⊎ (h.semaphore.permits ≡ 0)

-- Where one waits, the first of them is granted next.
handed :
    (granted waiters : List ℕ)
    → (waiters ≡ [])
      ⊎ ((next : ℕ) × (rest : List ℕ) × (waiters ≡ next ∷ rest)
          × ((granted ++ next ∷ []) ++ rest ≡ granted ++ waiters)
          × (length (granted ++ next ∷ []) ≡ length granted + 1))
handed granted [] = inl refl
handed granted (next ∷ rest) = inr (
  next,
  rest,
  refl,
  append_assoc granted (next ∷ []) rest,
  omega (arith, length-append granted (next ∷ [])),
)

call-Fair : (permits : ℕ) (c : Call) (h : History) → Fair permits h → Fair permits (call c h)
unfolding call acquire release hand_over
call-Fair permits (acquires promise) h v = elim (Bool-cases (ltb 0 h.semaphore.permits)) [
  | inl free ↦ rw free (record {
    in_order = ground (arith, append-nil h.granted, append-nil (h.granted ++ promise ∷ []));
    conserved = ground (arith, length-append h.granted (promise ∷ []));
    busy = ground arith;
  })
  | inr none_free ↦ rw none_free (record {
    in_order =
        ground
          (arith, append_assoc h.granted h.semaphore.waiters (promise ∷ []), append-nil h.granted);
    conserved = ground (arith, append-nil h.granted);
    busy = inr (ground arith);
  })
]
call-Fair permits releases h v =
    ground (arith, append-nil h.granted, handed h.granted h.semaphore.waiters)

-- Over any sequence of acquire and release on a new semaphore, promises are resolved in the order
-- in which they were asked for, the resolved ones and the free permits are the initial permits and
-- the releases together, and nobody waits while a permit is free.
pub calls-Fair : (permits : ℕ) (cs : List Call) → Fair permits (calls cs (begin permits))
unfolding calls begin new_semaphore
calls-Fair permits cs = run cs (begin permits) begin-Fair
  where
    begin-Fair : Fair permits (begin permits)
    begin-Fair = record { in_order = refl; conserved = omega arith; busy = inl refl }

    run : (cs : List Call) (h : History) → Fair permits h → Fair permits (calls cs h)
    run [] h v = v
    run (c ∷ cs) h v = run cs (call c h) (call-Fair permits c h v)
