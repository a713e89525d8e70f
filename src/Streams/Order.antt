-- ===== src/Streams/Order.antt =====
-- The order of the items of class Sink of src/streams.ts, over any sequence of calls.
use tephra_js.Base.{
  ℕ, ◌+◌, ◌≡◌, ap, sym, ◌∙◌, false, none, List, [], ◌∷◌, ◌++◌, append_assoc, append-nil, arith, ◌⊎◌,
}
use tephra_js.Streams.{Sink}
use tephra_js.Streams.Calls.{
  Call, call-Keeps, accepted_step, asked_step, answered, waits_for, call, calls, accepted, asked,
  items, taken,
}

module _ {T : Type 0} where
  -- A sink `r` after the calls `cs` on a sink `s`.
  pub record Delivers (cs : List (Call T)) (s r : Sink T) : Type 0 where
    pub in_order : items r.answers ++ r.queue ≡ (items s.answers ++ s.queue) ++ accepted s.done cs
    pub counted :
        (k : ℕ)
        → answered k r.answers + waits_for k r.waiting
          ≡ answered k s.answers + waits_for k s.waiting + asked k cs
    pub waits : (r.waiting ≡ none) ⊎ ((r.queue ≡ []) × (r.done ≡ false))

-- Over any sequence of push, finish, fail and next on a sink where a consumer waits only if the
-- sink is open and its queue is empty: the items handed out and those queued are, in order, the
-- earlier ones followed by the items pushed before the end; for each promise, the times that it has
-- been answered or waits are those before and the calls of next with it, so that a promise asked
-- for once is answered once or is the one that waits; and again a consumer waits only if the sink
-- is open and its queue is empty.
pub calls-Delivers :
    {T : Type 0} (cs : List (Call T)) (s : Sink T)
    → (s.waiting ≡ none) ⊎ ((s.queue ≡ []) × (s.done ≡ false))
    → Delivers cs s (calls cs s)
unfolding calls
calls-Delivers [] s h = record {
  in_order = unfold accepted in sym (append-nil _);
  counted = λ k. unfold asked in omega arith;
  waits = h;
}
calls-Delivers (c ∷ cs) s h =
    let k = call-Keeps c s h in
    let d = calls-Delivers cs (call c s) k.waits in
    record {
      in_order =
          d.in_order
          ∙ ap (λ l. l ++ accepted (call c s).done cs) k.in_order
          ∙ append_assoc _ (taken s.done c) _
          ∙ ap (λ l. (items s.answers ++ s.queue) ++ (taken s.done c ++ accepted l cs)) k.over
          ∙ ap (λ l. (items s.answers ++ s.queue) ++ l) (sym (accepted_step s.done c cs));
      counted = λ j. omega (arith, d.counted j, k.counted j, asked_step j c cs);
      waits = d.waits;
    }
