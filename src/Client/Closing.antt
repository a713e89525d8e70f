-- ===== src/Client/Closing.antt =====
-- What src/client.ts leaves behind when a connect fails and when a client is closed.
use tephra_js.Base.{
  ℕ, ◌≡◌, refl, ap, sym, subst, ◌∙◌, Bool, true, false, Option, none, some, List, [], ◌∷◌, ◌++◌,
  Result, ok, err, map, All,
}
use tephra_js.Failure.{Failure}
use tephra_js.Values.{Event, Query, AppendCondition}
use tephra_js.Connection.{Conn}
use tephra_js.Connection.Steps.{step}
use tephra_js.Connection.Invariant.Ends.{fail_connection-dead}
use tephra_js.Client.{
  Client, CallError, closed_error, Limit, close_conn, made, first_failure, Connected, client,
  refused, no_control, connected_as, connect, if_open, append, stats, read, read_back, subscribe,
  close,
}

close_conn-dead : (c : Conn) → (close_conn c).dead ≡ true
unfolding step
close_conn-dead c = fail_connection-dead _ c

close_all-dead : (conns : List Conn) → All (λ (c : Conn). c.dead ≡ true) (map close_conn conns)
close_all-dead [] = tt
close_all-dead (c ∷ conns) = (close_conn-dead c, close_all-dead conns)

-- The connections of the dials that succeeded, all of them and in order.
pub data Opened : List (Result Failure Conn) → List Conn → Type 0 where
  no_more : Opened [] []
  succeeded :
      {conn : Conn} {settled : List (Result Failure Conn)} {conns : List Conn}
      → Opened settled conns
      → Opened (ok conn ∷ settled) (conn ∷ conns)
  failed :
      {e : Failure} {settled : List (Result Failure Conn)} {conns : List Conn}
      → Opened settled conns
      → Opened (err e ∷ settled) conns

made-Opened : (settled : List (Result Failure Conn)) → Opened settled (made settled)
unfolding made
made-Opened [] = no_more
made-Opened (ok conn ∷ settled) = succeeded (made-Opened settled)
made-Opened (err e ∷ settled) = failed (made-Opened settled)

-- What the settled dials of a connect have to do with what it leaves.
abbrev pub AllOrNone : List (Result Failure Conn) → Connected → Type 0
AllOrNone settled (client c) = (settled ≡ map ok (c.control ∷ c.bulk)) × (c.closed ≡ false)
AllOrNone settled (refused e conns) =
    ((before : List Conn) × (after : List (Result Failure Conn)) × (settled
        ≡ map ok before ++ err e ∷ after))
    × ((opened : List Conn) × Opened settled opened × (conns ≡ map close_conn opened))
    × All (λ (c : Conn). c.dead ≡ true) conns
AllOrNone settled no_control = ⊥

all_made :
    (settled : List (Result Failure Conn))
    → first_failure settled ≡ none
    → settled ≡ map ok (made settled)
unfolding first_failure made
all_made [] h = refl
all_made (ok conn ∷ settled) h = ap (◌∷◌ (ok conn)) (all_made settled h)
all_made (err e ∷ settled) h = cc

first_failed :
    (settled : List (Result Failure Conn)) (e : Failure)
    → first_failure settled ≡ some e
    → (before : List Conn) × (after : List (Result Failure Conn)) × (settled
        ≡ map ok before ++ err e ∷ after)
unfolding first_failure
first_failed [] e h = cc
first_failed (ok conn ∷ settled) e h =
    let (before, after, same) = first_failed settled e h in
    (conn ∷ before, after, ap (◌∷◌ (ok conn)) same)
first_failed (err f ∷ settled) e h = ([], settled, ap (λ x. err x ∷ settled) (reason h))
  where
    reason : ◌≡◌ {A = Option Failure} (some f) (some e) → f ≡ e
    reason x = cc

-- From the settled dials, the control connection first: either every dial succeeded, and connect
-- gives an open client of exactly these connections in their order; or it fails with the first
-- failure, and the connections of all the dials that succeeded, wherever they stand, have been
-- closed, and are dead.
pub connect-AllOrNone :
    (control : Result Failure Conn) (bulk : List (Result Failure Conn))
    → AllOrNone (control ∷ bulk) (connect control bulk)
unfolding connect
connect-AllOrNone control bulk = settled (first_failure (control ∷ bulk)) refl
  where
    alive :
        (conns : List Conn)
        → control ∷ bulk ≡ map ok conns
        → AllOrNone (control ∷ bulk) (connected_as conns none)
    alive [] h = cc
    alive (conn ∷ conns) h = unfold connected_as in (h, refl)

    settled :
        (failure : Option Failure)
        → first_failure (control ∷ bulk) ≡ failure
        → AllOrNone (control ∷ bulk) (connected_as (made (control ∷ bulk)) failure)
    settled none h = alive (made (control ∷ bulk)) (all_made (control ∷ bulk) h)
    settled (some e) h =
        unfold connected_as in
        (
          first_failed (control ∷ bulk) e h,
          (made (control ∷ bulk), made-Opened (control ∷ bulk), refl),
          close_all-dead (made (control ∷ bulk)),
        )

-- A closed client throws from every operation.
pub record Rejects (c : Client) : Type 0 where
  pub appends :
      (events : List Event) (condition : Option AppendCondition) (cancelled : Bool)
      → append events condition cancelled c ≡ (c, err closed_error)
  pub asks : (cancelled : Bool) → stats cancelled c ≡ (c, err closed_error)
  pub reads :
      (query : Query) (after : ℕ) (limit : Option Limit) (attach : Bool)
      → (read query after limit attach c ≡ (c, err closed_error))
        × (read_back query after limit attach c ≡ (c, err closed_error))
  pub subscribes :
      (query : Query) (after : ℕ) (attach : Bool)
      → subscribe query after attach c ≡ (c, err closed_error)
  pub closes : close c ≡ c

if_open-closed :
    {A : Type 0} (f : Client → Client × Result CallError A) (c : Client)
    → c.closed ≡ true
    → if_open f c ≡ (c, err closed_error)
unfolding if_open
if_open-closed f c h = rw h refl

closed-Rejects : (c : Client) → c.closed ≡ true → Rejects c
unfolding append stats read read_back subscribe close
closed-Rejects c h = record {
  appends = λ events condition cancelled. if_open-closed _ c h;
  asks = λ cancelled. if_open-closed _ c h;
  reads = λ query after limit attach. (if_open-closed _ c h, if_open-closed _ c h);
  subscribes = λ query after attach. if_open-closed _ c h;
  closes = rw h refl;
}

-- Closing an open client leaves its control connection and every bulk connection dead; from then on
-- append, stats, read, readBack and subscribe throw ClosedError and change nothing, and closing
-- again changes nothing.
pub close-Rejects :
    (c : Client)
    → c.closed ≡ false
    → ((close c).control.dead ≡ true)
      × All (λ (conn : Conn). conn.dead ≡ true) (close c).bulk
      × Rejects (close c)
close-Rejects c h = (
  ap (λ (d : Client). d.control.dead) e ∙ close_conn-dead c.control,
  subst (λ (d : Client). All (λ (conn : Conn). conn.dead ≡ true) d.bulk) (sym e)
      (close_all-dead c.bulk),
  closed-Rejects (close c) (ap (λ (d : Client). d.closed) e),
)
  where
    e :
        close c
        ≡ record c { closed = true; control = close_conn c.control; bulk = map close_conn c.bulk }
    e = unfold close in rw h refl
