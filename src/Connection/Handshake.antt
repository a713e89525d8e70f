-- ===== src/Connection/Handshake.antt =====
-- The hello of src/connection.ts, from its answer to the end of `connect`.
use tephra_js.Base.{
  ℕ, ◌≡◌, refl, ap, ◌∙◌, true, false, none, some, ◌==◌, if-elim, ==→eq, inl, inr, ◌⊎◌, arith,
}
use tephra_js.Base.Maps.{get}
use tephra_js.Failure.{Failure}
use tephra_js.Messages.Response.{ResponseKind, WireResponse}
use tephra_js.Connection.{hello, Entry, Outcome, rejected, Conn, settle, finalize}
use tephra_js.Connection.Routing.{greeting, route_response, route_entry, route_role}
use tephra_js.Connection.Steps.{closes, step, Dialled, opened, turned_down, after_hello, dialled}
use tephra_js.Connection.Fates.{settle-same, finalize-kept}
use tephra_js.Connection.Invariant.Ends.{fail_connection-dead}

-- The one answer that opens a connection.
abbrev pub IsAccepted : ResponseKind → Type 0
IsAccepted (ResponseKind.hello_ack ack) = ack.protocol_version ≡ 1
IsAccepted (ResponseKind.error e) = ⊥
IsAccepted (ResponseKind.append x) = ⊥
IsAccepted (ResponseKind.read_events x) = ⊥
IsAccepted (ResponseKind.read_end x) = ⊥
IsAccepted (ResponseKind.caught_up x) = ⊥
IsAccepted (ResponseKind.stats x) = ⊥
IsAccepted ResponseKind.none = ⊥

-- A connect that failed, and has closed its connection.
pub record TurnedDown (d : Dialled) : Type 0 where
  pub reason : Failure
  pub conn : Conn
  pub result : d ≡ turned_down reason conn
  pub dead : conn.dead ≡ true

down : (e : Failure) (c : Conn) → TurnedDown (after_hello (some (some (rejected e))) c)
unfolding after_hello step
down e c = record {
  reason = e;
  conn = step closes c;
  result = refl;
  dead = fail_connection-dead _ c;
}

greeted-or-down :
    (kind : ResponseKind) (c : Conn)
    → (IsAccepted kind × (after_hello (some (some (greeting kind))) c ≡ opened c))
      ⊎ ((¬ IsAccepted kind) × TurnedDown (after_hello (some (some (greeting kind))) c))
unfolding greeting
greeted-or-down (ResponseKind.hello_ack ack) c =
    if-elim
      (λ (o : Outcome).
        ((ack.protocol_version ≡ 1) × (after_hello (some (some o)) c ≡ opened c))
        ⊎ ((¬ (ack.protocol_version ≡ 1)) × TurnedDown (after_hello (some (some o)) c)))
      (ack.protocol_version == 1) (λ e. inl (==→eq _ 1 e, unfold after_hello in refl))
      λ e. inr (unequal _ _ e, down _ c)
  where
    unequal : (a b : ℕ) → a == b ≡ false → ¬ (a ≡ b)
    unequal a b h = ground arith
greeted-or-down (ResponseKind.error e) c = inr (λ x. x, down _ c)
greeted-or-down (ResponseKind.append x) c = inr (λ x. x, down _ c)
greeted-or-down (ResponseKind.read_events x) c = inr (λ x. x, down _ c)
greeted-or-down (ResponseKind.read_end x) c = inr (λ x. x, down _ c)
greeted-or-down (ResponseKind.caught_up x) c = inr (λ x. x, down _ c)
greeted-or-down (ResponseKind.stats x) c = inr (λ x. x, down _ c)
greeted-or-down ResponseKind.none c = inr (λ x. x, down _ c)

-- When the hello, which is the first request, is pending and not settled, a response to it opens
-- the connection if it acknowledges protocol version 1; any other response makes connect fail with
-- a connection that has been closed, and is dead.
pub dialled-IsAccepted :
    (response : WireResponse) (entry : Entry) (c : Conn)
    → response.request_id ≡ 1
    → get 1 c.pending ≡ some entry
    → entry.role ≡ hello
    → get 1 c.deferreds ≡ some none
    → let d = (route_response response c).0 in
      (IsAccepted response.kind × (dialled d ≡ opened d))
      ⊎ ((¬ IsAccepted response.kind) × TurnedDown (dialled d))
unfolding dialled route_response route_entry route_role
dialled-IsAccepted response entry c first g r h =
    rw
      (
        first,
        g,
        r,
        settle-same 1 (greeting response.kind) (finalize 1 c)
            (ap (get 1) (finalize-kept 1 c).0 ∙ h),
      )
      (greeted-or-down response.kind (settle 1 (greeting response.kind) (finalize 1 c)))
