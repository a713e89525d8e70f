-- ===== src/Client.antt =====
-- class Client of src/client.ts, over its connections.
pub mod Address
pub mod Rounds
pub mod Closing
use tephra_js.Base.{
  ℕ, zero, suc, ◌+◌, ◌%◌, Bool, true, false, Option, none, some, List, [], ◌∷◌, ◌++◌, if◌then◌else◌,
  Result, ok, err, length, map,
}
use tephra_js.Failure.{Failure}
use tephra_js.Values.{Event, Query, AppendCondition}
use tephra_js.Convert.{event_to_wire, condition_to_wire, query_to_wire}
use tephra_js.Messages.Query.{WireAppendCondition}
use tephra_js.Connection.{Conn}
use tephra_js.Connection.Sending.{Started, append_events, ask_stats, start_read, start_subscription}
use tephra_js.Connection.Steps.{closes, step}

-- What a call of the client may throw: ClosedError, and the RangeError of `BigInt`.
pub data CallError : Type 0 where
  closed_error range_error : CallError

pub record Client : Type 0 where
  pub control : Conn
  pub bulk : List Conn
  pub next_bulk : ℕ
  pub closed : Bool

-- `Conn.close`.
abbrev pub close_conn : Conn → Conn
close_conn c = step closes c

-- `Promise.allSettled`: the connections that were made, in order, and the first failure.

unfoldable pub made : List (Result Failure Conn) → List Conn
made [] = []
made (ok conn ∷ settled) = conn ∷ made settled
made (err reason ∷ settled) = made settled

unfoldable pub first_failure : List (Result Failure Conn) → Option Failure
first_failure [] = none
first_failure (ok conn ∷ settled) = first_failure settled
first_failure (err reason ∷ settled) = some reason

-- What `connect` leaves: a client, or a failure and the connections that it has closed. A first
-- dial is always there, so the third case does not come.
pub data Connected : Type 0 where
  client : Client → Connected
  refused : Failure → List Conn → Connected
  no_control : Connected

unfoldable pub connected_as : List Conn → Option Failure → Connected
connected_as conns (some failure) = refused failure (map close_conn conns)
connected_as (control ∷ bulk) none =
    client (record { control = control; bulk = bulk; next_bulk = 0; closed = false })
connected_as [] none = no_control

-- From the dials of the control connection and of the bulk connections, once all are settled.
unfoldable pub connect : Result Failure Conn → List (Result Failure Conn) → Connected
connect control bulk =
    let settled = control ∷ bulk in connected_as (made settled) (first_failure settled)

-- Which connection an operation uses.
pub data Lane : Type 0 where
  on_control : Lane
  on_bulk : ℕ → Lane

unfoldable pub pick_from : List Conn → Client → Lane × Client
pick_from [] c = (on_control, c)
pick_from (conn ∷ conns) c = (
  on_bulk (c.next_bulk % length (conn ∷ conns)),
  record c { next_bulk = (c.next_bulk + 1) % length (conn ∷ conns) },
)

unfoldable pub pick_bulk : Client → Lane × Client
pick_bulk c = pick_from c.bulk c

unfoldable pub change_at : ℕ → (Conn → Conn) → List Conn → List Conn
change_at n f [] = []
change_at zero f (conn ∷ conns) = f conn ∷ conns
change_at (suc n) f (conn ∷ conns) = conn ∷ change_at n f conns

-- A call of a method of a connection.
unfoldable pub on_lane : Lane → (Conn → Conn) → Client → Client
on_lane on_control f c = record c { control = f c.control }
on_lane (on_bulk i) f c = record c { bulk = change_at i f c.bulk }

-- `ensureOpen`, and what follows it.
unfoldable pub if_open :
    {A : Type 0} → (Client → Client × Result CallError A) → Client → Client × Result CallError A
if_open f c = let r = f c in if c.closed then (c, err closed_error) else r

unfoldable pub condition_given : Option AppendCondition → Option WireAppendCondition
condition_given none = none
condition_given (some condition) = some (condition_to_wire condition)

unfoldable pub append :
    List Event → Option AppendCondition → Bool → Client → Client × Result CallError Started
append events condition cancelled c =
    if_open
      (λ d.
        let (control, started) =
          append_events (map event_to_wire events) (condition_given condition) cancelled
            d.control in
        (record d { control = control }, ok started))
      c

unfoldable pub stats : Bool → Client → Client × Result CallError Started
stats cancelled c =
    if_open
      (λ d.
        let (control, started) = ask_stats cancelled d.control in
        (record d { control = control }, ok started))
      c

-- A limit: a bigint, a number with its integer part and whether it is whole, or NaN or an infinity.
-- Limits below zero are left out.
pub data Limit : Type 0 where
  bigint : ℕ → Limit
  finite : ℕ → Bool → Limit
  not_finite : Limit

-- `BigInt` throws for a number that is not whole.
unfoldable pub to_big_int_limit : Option Limit → Result CallError (Option ℕ)
to_big_int_limit none = ok none
to_big_int_limit (some (bigint n)) = ok (some n)
to_big_int_limit (some (finite n true)) = ok (some n)
to_big_int_limit (some (finite n false)) = err range_error
to_big_int_limit (some not_finite) = err range_error

-- The call on the connection that was picked; nothing of it if an argument throws. A stream is known
-- by its connection, where it has the last id that was given out.
unfoldable pub call_picked :
    {A : Type 0}
    → Result CallError A
    → (A → Conn → Conn)
    → Lane × Client
    → Client × Result CallError Lane
call_picked (err e) f (lane, c) = (c, err e)
call_picked (ok a) f (lane, c) = (on_lane lane (f a) c, ok lane)

-- `pickBulk` comes before the arguments of the call.
unfoldable pub read : Query → ℕ → Option Limit → Bool → Client → Client × Result CallError Lane
read query after limit attach c =
    if_open
      (λ d.
        call_picked (to_big_int_limit limit)
          (λ l. start_read (query_to_wire query) after l false attach) (pick_bulk d))
      c

unfoldable pub read_back : Query → ℕ → Option Limit → Bool → Client → Client × Result CallError Lane
read_back query before limit attach c =
    if_open
      (λ d.
        call_picked (to_big_int_limit limit)
          (λ l. start_read (query_to_wire query) before l true attach) (pick_bulk d))
      c

unfoldable pub subscribe : Query → ℕ → Bool → Client → Client × Result CallError Lane
subscribe query after attach c =
    if_open
      (λ d.
        call_picked (ok (query_to_wire query)) (λ q. start_subscription q after attach)
          (pick_bulk d))
      c

unfoldable pub close : Client → Client
close c =
    if c.closed
    then c
    else record c { closed = true; control = close_conn c.control; bulk = map close_conn c.bulk }
