-- ===== src/Connection/Invariant/Calls.antt =====
-- The calls of the client on a connection (src/connection.ts) keep the books.
use tephra_js.Base.{
  ℕ, ◌+◌, ◌≡◌, refl, sym, subst, Bool, false, Option, none, some, List, arith, if-elim,
}
use tephra_js.Base.Maps.{set, weigh-set_new, set-Below, get_fresh}
use tephra_js.Text.{Text}
use tephra_js.Failure.{Failure, aborted}
use tephra_js.Messages.Event.{WireEvent}
use tephra_js.Messages.Query.{WireQuery, WireAppendCondition}
use tephra_js.Messages.Request.{RequestKind}
use tephra_js.Connection.{
  Expect, Role, unary, hello, read, subscribe, Sender, unary_request, stream_request, hello_request,
  Conn,
}
use tephra_js.Connection.Sending.{
  next_id, start_send, begin_unary, Started, send_unary, unary_request_of, append_events, ask_stats,
  greet, start_read, start_subscription,
}
use tephra_js.Connection.Tasks.{early-fresh}
use tephra_js.Connection.Invariant.{
  Inv, Books, books, Balanced, Clear, permit_in, held_at-set_new, held_at_fresh,
}
use tephra_js.Connection.Invariant.Sends.{start_send-Inv}
use tephra_js.Connection.Invariant.Cancels.{next_id-Inv}
use tephra_js.Connection.Invariant.Cancels.{cancel_unary-Clear, cancel_unary-Inv}

-- The entry of a new request, under the next id.
abbrev entered : Role → Conn → Books
entered role c = record (books (next_id c)) {
  pending = set (c.id_counter + 1) (record { role = role; permit = false }) c.pending;
}

entered-Clear :
    {limit depth held slots : ℕ} (role : Role) (c : Conn)
    → Inv limit depth held slots c
    → Clear (c.id_counter + 1) (entered role c)
entered-Clear role c v =
    let n = c.id_counter in
    let e = early-fresh n (n + 1) c.tasks v.early_ids (omega arith) in
    let z = held_at_fresh n (n + 1) c.pending v.fresh (omega arith) in
    let s =
      held_at-set_new (n + 1) (n + 1) (record { role = role; permit = false }) c.pending refl in
    record { low = omega arith; unheld = omega (arith, e, z, s) }

module _ {limit depth held slots : ℕ} where
  entered-Inv :
      (role : Role) (c : Conn)
      → Inv limit depth held slots c
      → Balanced limit depth held slots (entered role c)
  entered-Inv role c v =
      let n = c.id_counter in
      let new = get_fresh n (n + 1) c.pending v.fresh (omega arith) in
      let w =
        weigh-set_new permit_in (n + 1) (record { role = role; permit = false }) c.pending new in
      let up = next_id-Inv c v in
      record {
        fresh = set-Below _ (n + 1) _ c.pending (omega arith) up.fresh;
        early_ids = up.early_ids;
        once = λ k. omega (
          arith,
          v.once k,
          held_at-set_new k (n + 1) (record { role = role; permit = false }) c.pending refl,
        );
        asking = v.asking;
        queued = v.queued;
        bounded = omega (arith, v.bounded, w);
        exact = ground (arith, v.exact, w);
        room = v.room;
        short = v.short;
        awake = v.awake;
      }

  -- A request is entered and sent.
  sent-Inv :
      (sender : Sender) (role : Role) (kind : RequestKind) (c d : Conn)
      → Inv limit depth held slots c
      → books d ≡ entered role c
      → Inv limit depth held slots (start_send sender (c.id_counter + 1) kind d)
  sent-Inv sender role kind c d v e =
      let clear = subst (Clear (c.id_counter + 1)) (sym e) (entered-Clear role c v) in
      start_send-Inv sender (c.id_counter + 1) kind d clear.low clear.unheld
        (subst (Balanced limit depth held slots) (sym e) (entered-Inv role c v))

  unary_request_of-Inv :
      (kind : RequestKind) (expect : Expect) (cancelled : Bool) (c : Conn)
      → Inv limit depth held slots c
      → Inv limit depth held slots (unary_request_of kind expect cancelled c).0
  unfolding unary_request_of
  unary_request_of-Inv kind expect cancelled c v =
      if-elim (λ (r : Conn × Started). Inv limit depth held slots r.0) c.dead (λ _. v)
        λ _.
          if-elim
            (λ (r : Conn × Option Failure). Inv limit depth held slots (send_unary kind id r).0)
            cancelled
            (λ _.
              sends_on _ (cancel_unary-Inv id aborted d entry)
                (cancel_unary-Clear id aborted d clear))
            λ _. sends_on (d, none) entry clear
    where
      id : ℕ
      id = c.id_counter + 1

      d : Conn
      d = begin_unary expect c

      entry : Inv limit depth held slots d
      entry = entered-Inv (unary expect) c v

      clear : Clear id (books d)
      clear = entered-Clear (unary expect) c v

      sends_on :
          (r : Conn × Option Failure)
          → Inv limit depth held slots r.0
          → Clear id (books r.0)
          → Inv limit depth held slots (send_unary kind id r).0
      sends_on (x, some e) w k = unfold send_unary in w
      sends_on (x, none) w k =
          unfold send_unary in start_send-Inv unary_request id kind x k.low k.unheld w

  pub append_events-Inv :
      (events : List WireEvent) (condition : Option WireAppendCondition) (cancelled : Bool)
      (c : Conn)
      → Inv limit depth held slots c
      → Inv limit depth held slots (append_events events condition cancelled c).0
  unfolding append_events
  append_events-Inv events condition cancelled c v = unary_request_of-Inv _ _ cancelled c v

  pub ask_stats-Inv :
      (cancelled : Bool) (c : Conn)
      → Inv limit depth held slots c
      → Inv limit depth held slots (ask_stats cancelled c).0
  unfolding ask_stats
  ask_stats-Inv cancelled c v = unary_request_of-Inv _ _ cancelled c v

  pub greet-Inv :
      (token : Option Text) (c : Conn)
      → Inv limit depth held slots c
      → Inv limit depth held slots (greet token c)
  unfolding greet
  greet-Inv token c v = sent-Inv hello_request hello _ c _ v refl

  pub start_read-Inv :
      (query : WireQuery) (after : ℕ) (limit' : Option ℕ) (reverse attach : Bool) (c : Conn)
      → Inv limit depth held slots c
      → Inv limit depth held slots (start_read query after limit' reverse attach c)
  unfolding start_read
  start_read-Inv query after limit' reverse attach c v = sent-Inv stream_request read _ c _ v refl

  pub start_subscription-Inv :
      (query : WireQuery) (after : ℕ) (attach : Bool) (c : Conn)
      → Inv limit depth held slots c
      → Inv limit depth held slots (start_subscription query after attach c)
  unfolding start_subscription
  start_subscription-Inv query after attach c v = sent-Inv stream_request subscribe _ c _ v refl
