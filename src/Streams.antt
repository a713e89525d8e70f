-- ===== src/Streams.antt =====
-- src/streams.ts: the queue behind a stream, and the streams of a read and of a subscription. The
-- promises of `next` are named by numbers, and `answers` holds those that are settled. The callback
-- `onCancel` is the connection's: a method that may call it says so in its result.
pub mod Calls
pub mod Order
use tephra_js.Base.{ℕ, Bool, true, false, Option, none, some, List, [], ◌∷◌, ◌++◌, if◌then◌else◌}
use tephra_js.Failure.{Failure, stream_busy, aborted}

-- What a promise of `next` is settled with.
pub data Answer (T : Type 0) : Type 0 where
  item : T → Answer T
  finished : Answer T
  failed : Failure → Answer T

pub record Sink (T : Type 0) : Type 0 where
  pub queue : List T
  pub terminal_error : Option Failure
  pub done : Bool
  pub waiting : Option ℕ
  pub answers : List (ℕ × Answer T)

module _ {T : Type 0} where
  unfoldable pub new_sink : Sink T
  new_sink = record {
    queue = [];
    terminal_error = none;
    done = false;
    waiting = none;
    answers = [];
  }

  unfoldable pub answer : ℕ → Answer T → Sink T → Sink T
  answer promise a s = record s { answers = s.answers ++ (promise, a) ∷ [] }

  unfoldable pub push_to : Option ℕ → T → Sink T → Sink T
  push_to none x s = record s { queue = s.queue ++ x ∷ [] }
  push_to (some waiter) x s = answer waiter (item x) (record s { waiting = none })

  unfoldable pub push : T → Sink T → Sink T
  push x s = if s.done then s else push_to s.waiting x s

  -- The last step of `finish` and `fail`.
  unfoldable pub answer_waiting : Option ℕ → Answer T → Sink T → Sink T
  answer_waiting none a s = s
  answer_waiting (some waiter) a s = answer waiter a (record s { waiting = none })

  unfoldable pub finish : Sink T → Sink T
  finish s = if s.done then s else answer_waiting s.waiting finished (record s { done = true })

  unfoldable pub fail : Failure → Sink T → Sink T
  fail e s =
      if s.done
      then s
      else answer_waiting s.waiting (failed e) (record s { done = true; terminal_error = some e })

  abbrev pub outcome : Option Failure → Answer T
  outcome none = finished
  outcome (some e) = failed e

  unfoldable pub next_waiting : Option ℕ → ℕ → Sink T → Sink T
  next_waiting none promise s = record s { waiting = some promise }
  next_waiting (some other) promise s = answer promise (failed stream_busy) s

  unfoldable pub next_from : List T → ℕ → Sink T → Sink T
  next_from [] promise s =
      if s.done
      then answer promise (outcome s.terminal_error) s
      else next_waiting s.waiting promise s
  next_from (x ∷ rest) promise s = answer promise (item x) (record s { queue = rest })

  unfoldable pub next : ℕ → Sink T → Sink T
  next promise s = next_from s.queue promise s

-- class BaseStream. `listening` tells whether the abort listener is attached.
pub record BaseStream (T : Type 0) : Type 0 where
  pub sink : Sink T
  pub closed : Bool
  pub listening : Bool

module _ {T : Type 0} where
  -- With a signal that is not aborted yet the listener is attached; for one that is, the abort is
  -- queued as a microtask.
  unfoldable pub new_stream : Bool → BaseStream T
  unfolding new_sink
  new_stream attach = record { sink = new_sink; closed = false; listening = attach }

  unfoldable pub deliver_item : T → BaseStream T → BaseStream T
  deliver_item x b = record b { sink = push x b.sink }

  unfoldable pub mark_closed : BaseStream T → BaseStream T
  mark_closed b = record b { closed = true; listening = false }

  unfoldable pub fail_with : Failure → BaseStream T → BaseStream T
  fail_with e b = let c = mark_closed b in record c { sink = fail e c.sink }

  unfoldable pub finish_clean : BaseStream T → BaseStream T
  finish_clean b = let c = mark_closed b in record c { sink = finish c.sink }

  -- `onAbort` and `close` in two parts each, with the call of `onCancel` between them: whether it is
  -- made, and what follows if it returns.
  unfoldable pub cancels : BaseStream T → Bool
  cancels b = if b.closed then false else true

  unfoldable pub after_abort : BaseStream T → BaseStream T
  after_abort b = record b { sink = fail aborted b.sink }

  unfoldable pub after_close : BaseStream T → BaseStream T
  after_close b = record b { sink = finish b.sink }

pub record ReadStream (T : Type 0) : Type 0 where
  pub base : BaseStream T
  pub watermark_value : Option ℕ

unfoldable pub end_with : {T : Type 0} → ℕ → ReadStream T → ReadStream T
end_with watermark r = record { base = finish_clean r.base; watermark_value = some watermark }
