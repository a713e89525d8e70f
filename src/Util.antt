-- ===== src/Util.antt =====
-- src/util.ts: the semaphore and the gate of a connection. A promise that a call waits for is named
-- by a number, and what resolves it is returned. `Deferred` is a promise and the functions that
-- settle it: see Connection.
pub mod Fifo
use tephra_js.Base.{
  ℕ, ◌+◌, ◌-◌, Bool, true, false, Option, none, some, List, [], ◌∷◌, ◌++◌, ltb, if◌then◌else◌,
}

-- `waiters` holds the promises that wait, the oldest first.
pub record Semaphore : Type 0 where
  pub permits : ℕ
  pub waiters : List ℕ

unfoldable pub new_semaphore : ℕ → Semaphore
new_semaphore permits = record { permits = permits; waiters = [] }

-- Whether the promise is resolved at once.
unfoldable pub acquire : ℕ → Semaphore → Semaphore × Bool
acquire promise s =
    if ltb 0 s.permits
    then (record s { permits = s.permits - 1 }, true)
    else (record s { waiters = s.waiters ++ promise ∷ [] }, false)

unfoldable pub hand_over : List ℕ → Semaphore → Semaphore × Option ℕ
hand_over [] s = (record s { permits = s.permits + 1 }, none)
hand_over (next ∷ rest) s = (record s { waiters = rest }, some next)

-- The promise that is resolved, if one waits.
unfoldable pub release : Semaphore → Semaphore × Option ℕ
release s = hand_over s.waiters s

-- All the promises that wait are resolved, in order.
unfoldable pub drain_waiters : Semaphore → Semaphore × List ℕ
drain_waiters s = (record s { waiters = [] }, s.waiters)

-- The one promise that may wait needs no name.
pub record Gate : Type 0 where
  pub waiter : Bool
  pub signalled : Bool

abbrev pub new_gate : Gate
new_gate = record { waiter = false; signalled = false }

-- Whether a promise is resolved by it.
unfoldable pub signal : Gate → Gate × Bool
signal g =
    if g.waiter then (record g { waiter = false }, true) else (record g { signalled = true }, false)

-- Whether the promise is resolved at once.
unfoldable pub wait : Gate → Gate × Bool
wait g =
    if g.signalled
    then (record g { signalled = false }, true)
    else (record g { waiter = true }, false)
