-- ===== src/Streams/Calls.antt =====
-- class Sink of src/streams.ts over any sequence of calls.
use tephra_js.Base.{
  ℕ, ◌+◌, ◌≡◌, refl, ap, sym, ◌∙◌, Bool, true, false, Option, none, some, List, [], ◌∷◌, ◌++◌,
  append_assoc, append-nil, if◌then◌else◌, ◌==◌, arith, inl, inr, ◌⊎◌,
}
use tephra_js.Failure.{Failure, stream_busy}
use tephra_js.Streams.{
  Answer, item, finished, failed, Sink, answer, push_to, push, answer_waiting, finish, fail,
  next_waiting, next_from, next,
}

pub data Call (T : Type 0) : Type 0 where
  pushes : T → Call T
  finishes : Call T
  fails : Failure → Call T
  nexts : ℕ → Call T

-- Whether the promise `k` is the one named, as a number.
abbrev pub same : ℕ → ℕ → ℕ
same k promise = if promise == k then 1 else 0

abbrev pub waits_for : ℕ → Option ℕ → ℕ
waits_for k none = 0
waits_for k (some promise) = same k promise

module _ {T : Type 0} where
  unfoldable pub call : Call T → Sink T → Sink T
  call (pushes x) s = push x s
  call finishes s = finish s
  call (fails e) s = fail e s
  call (nexts promise) s = next promise s

  unfoldable pub calls : List (Call T) → Sink T → Sink T
  calls [] s = s
  calls (c ∷ cs) s = calls cs (call c s)

  -- The items pushed before the first end or failure; none once `over`.
  unfoldable pub accepted : Bool → List (Call T) → List T
  accepted over [] = []
  accepted true (c ∷ cs) = []
  accepted false (pushes x ∷ cs) = x ∷ accepted false cs
  accepted false (finishes ∷ cs) = []
  accepted false (fails e ∷ cs) = []
  accepted false (nexts promise ∷ cs) = accepted false cs

  -- How often `next` is called with the promise `k`.
  unfoldable pub asked : ℕ → List (Call T) → ℕ
  asked k [] = 0
  asked k (nexts promise ∷ cs) = same k promise + asked k cs
  asked k (c ∷ cs) = asked k cs

  -- How often the promise `k` is answered.
  unfoldable pub answered : ℕ → List (ℕ × Answer T) → ℕ
  answered k [] = 0
  answered k ((promise, a) ∷ as') = same k promise + answered k as'

  answered-append :
      (k : ℕ) (xs ys : List (ℕ × Answer T)) → answered k (xs ++ ys) ≡ answered k xs + answered k ys
  unfolding answered
  answered-append k [] ys = omega arith
  answered-append k ((p, a) ∷ xs) ys = omega (arith, answered-append k xs ys)

  -- The items handed out.
  unfoldable pub items : List (ℕ × Answer T) → List T
  items [] = []
  items ((promise, item x) ∷ as') = x ∷ items as'
  items ((promise, finished) ∷ as') = items as'
  items ((promise, failed e) ∷ as') = items as'

  items-append : (xs ys : List (ℕ × Answer T)) → items (xs ++ ys) ≡ items xs ++ items ys
  unfolding items
  items-append [] ys = refl
  items-append ((p, item x) ∷ xs) ys = ap (◌∷◌ x) (items-append xs ys)
  items-append ((p, finished) ∷ xs) ys = items-append xs ys
  items-append ((p, failed e) ∷ xs) ys = items-append xs ys

  abbrev pub taken : Bool → Call T → List T
  taken true c = []
  taken false (pushes x) = x ∷ []
  taken false c = []

  abbrev pub ends : Bool → Call T → Bool
  ends d finishes = true
  ends d (fails e) = true
  ends d (pushes x) = d
  ends d (nexts promise) = d

  abbrev pub asks : ℕ → Call T → ℕ
  asks k (nexts promise) = same k promise
  asks k c = 0

  none_taken : (d : Bool) (promise : ℕ) → taken d (nexts promise) ≡ []
  none_taken true promise = refl
  none_taken false promise = refl

  -- What one call does to the items handed out or queued, to the promises, and to `done`.
  pub record Keeps (c : Call T) (s r : Sink T) : Type 0 where
    pub waits : (r.waiting ≡ none) ⊎ ((r.queue ≡ []) × (r.done ≡ false))
    pub in_order : items r.answers ++ r.queue ≡ (items s.answers ++ s.queue) ++ taken s.done c
    pub over : r.done ≡ ends s.done c
    pub counted :
        (k : ℕ)
        → answered k r.answers + waits_for k r.waiting
          ≡ answered k s.answers + waits_for k s.waiting + asks k c

  abbrev sink : List T → Option Failure → Bool → Option ℕ → List (ℕ × Answer T) → Sink T
  sink q t d w a = record { queue = q; terminal_error = t; done = d; waiting = w; answers = a }

  -- A promise answered by `a`.
  one_more :
      (as' : List (ℕ × Answer T)) (p : ℕ) (a : Answer T)
      → (items (as' ++ (p, a) ∷ []) ≡ items as' ++ items ((p, a) ∷ []))
        × ((k : ℕ) → answered k (as' ++ (p, a) ∷ []) ≡ answered k as' + same k p)
  unfolding answered
  one_more as' p a = (items-append as' _, λ k. omega (arith, answered-append k as' ((p, a) ∷ [])))

  push-Keeps :
      (x : T) (q : List T) (t : Option Failure) (d : Bool) (w : Option ℕ) (a : List (ℕ × Answer T))
      → (w ≡ none) ⊎ ((q ≡ []) × (d ≡ false))
      → Keeps (pushes x) (sink q t d w a) (push x (sink q t d w a))
  unfolding push push_to answer items
  push-Keeps x q t true w a h = record {
    waits = h;
    in_order = sym (append-nil _);
    over = refl;
    counted = λ k. omega arith;
  }
  push-Keeps x q t false none a h = record {
    waits = inl refl;
    in_order = sym (append_assoc (items a) q (x ∷ []));
    over = refl;
    counted = λ k. omega arith;
  }
  push-Keeps x q t false (some p) a (inl e) = cc
  push-Keeps x q t false (some p) a (inr (e, _)) = record {
    waits = inl refl;
    in_order =
        rw e
          (append-nil _ ∙ (one_more a p (item x)).0 ∙ ap (λ z. z ++ x ∷ []) (sym (append-nil _)));
    over = refl;
    counted = λ k. omega (arith, (one_more a p (item x)).1 k);
  }

  end-Keeps :
      (c : Call T) (b : Answer T) (q : List T) (t t' : Option Failure) (w : Option ℕ)
      (a : List (ℕ × Answer T))
      → ((p : ℕ) → items ((p, b) ∷ []) ≡ [])
      → ((d : Bool) → ends d c ≡ true)
      → ((d : Bool) → taken d c ≡ [])
      → ((k : ℕ) → asks k c ≡ 0)
      → (w ≡ none) ⊎ ((q ≡ []) × (false ≡ false))
      → Keeps c (sink q t false w a) (answer_waiting w b (sink q t' true w a))
  unfolding answer_waiting answer
  end-Keeps c b q t t' none a n o k z h = record {
    waits = inl refl;
    in_order = sym (append-nil _) ∙ ap (λ l. (items a ++ q) ++ l) (sym (k false));
    over = sym (o false);
    counted = λ k. omega (arith, z k);
  }
  end-Keeps c b q t t' (some p) a n o k z (inl e) = cc
  end-Keeps c b q t t' (some p) a n o k z (inr (e, _)) = record {
    waits = inl refl;
    in_order =
        rw (e, k false)
          (ap (λ l. l ++ []) ((one_more a p b).0 ∙ ap (λ l. items a ++ l) (n p))
            ∙ ap (λ l. l ++ []) refl);
    over = sym (o false);
    counted = λ k. omega (arith, (one_more a p b).1 k, z k);
  }

  next-Keeps :
      (promise : ℕ) (q : List T) (t : Option Failure) (d : Bool) (w : Option ℕ)
      (a : List (ℕ × Answer T))
      → (w ≡ none) ⊎ ((q ≡ []) × (d ≡ false))
      → Keeps (nexts promise) (sink q t d w a) (next promise (sink q t d w a))
  unfolding next next_from next_waiting answer items
  next-Keeps promise (x ∷ rest) t d w a h = record {
    waits = first h;
    in_order =
        ap (λ l. l ++ rest) (one_more a promise (item x)).0
        ∙ append_assoc (items a) (x ∷ []) rest
        ∙ sym (append-nil _)
        ∙ ap (λ l. (items a ++ x ∷ rest) ++ l) (sym (none_taken d promise));
    over = refl;
    counted = λ k. omega (arith, (one_more a promise (item x)).1 k);
  }
    where
      first :
          (w ≡ none) ⊎ ((x ∷ rest ≡ []) × (d ≡ false)) → (w ≡ none) ⊎ ((rest ≡ []) × (d ≡ false))
      first (inl e) = inl e
      first (inr (e, _)) = cc
  next-Keeps promise [] none true w a h = record {
    waits = h;
    in_order =
        ap (λ l. l ++ []) ((one_more a promise finished).0 ∙ append-nil (items a))
        ∙ sym (append-nil _);
    over = refl;
    counted = λ k. omega (arith, (one_more a promise finished).1 k);
  }
  next-Keeps promise [] (some e) true w a h = record {
    waits = h;
    in_order =
        ap (λ l. l ++ []) ((one_more a promise (failed e)).0 ∙ append-nil (items a))
        ∙ sym (append-nil _);
    over = refl;
    counted = λ k. omega (arith, (one_more a promise (failed e)).1 k);
  }
  next-Keeps promise [] t false none a h = record {
    waits = inr (refl, refl);
    in_order = sym (append-nil _);
    over = refl;
    counted = λ k. omega arith;
  }
  next-Keeps promise [] t false (some other) a h = record {
    waits = h;
    in_order =
        ap (λ l. l ++ []) ((one_more a promise (failed stream_busy)).0 ∙ append-nil (items a))
        ∙ sym (append-nil _);
    over = refl;
    counted = λ k. omega (arith, (one_more a promise (failed stream_busy)).1 k);
  }

  -- A call on a sink that is over changes nothing of what the record speaks about.
  idle-Keeps :
      (c : Call T) (s : Sink T)
      → ends s.done c ≡ s.done
      → taken s.done c ≡ []
      → ((k : ℕ) → asks k c ≡ 0)
      → (s.waiting ≡ none) ⊎ ((s.queue ≡ []) × (s.done ≡ false))
      → Keeps c s s
  idle-Keeps c s o k z h = record {
    waits = h;
    in_order = rw k (sym (append-nil _));
    over = sym o;
    counted = λ k. omega (arith, z k);
  }

  never_taken : (c : Call T) → taken false c ≡ [] → (d : Bool) → taken d c ≡ []
  never_taken c e true = refl
  never_taken c e false = e

  finish-Keeps :
      (q : List T) (t : Option Failure) (d : Bool) (w : Option ℕ) (a : List (ℕ × Answer T))
      → (w ≡ none) ⊎ ((q ≡ []) × (d ≡ false))
      → Keeps finishes (sink q t d w a) (finish (sink q t d w a))
  unfolding finish items
  finish-Keeps q t true w a h = idle-Keeps finishes (sink q t true w a) refl refl (λ k. refl) h
  finish-Keeps q t false w a h =
      end-Keeps finishes finished q t t w a (λ p. refl) (λ d. refl) (never_taken finishes refl)
        (λ k. refl) h

  fail-Keeps :
      (e : Failure) (q : List T) (t : Option Failure) (d : Bool) (w : Option ℕ)
      (a : List (ℕ × Answer T))
      → (w ≡ none) ⊎ ((q ≡ []) × (d ≡ false))
      → Keeps (fails e) (sink q t d w a) (fail e (sink q t d w a))
  unfolding fail items
  fail-Keeps e q t true w a h = idle-Keeps (fails e) (sink q t true w a) refl refl (λ k. refl) h
  fail-Keeps e q t false w a h =
      end-Keeps (fails e) (failed e) q t (some e) w a (λ p. refl) (λ d. refl)
        (never_taken (fails e) refl) (λ k. refl) h

  pub call-Keeps :
      (c : Call T) (s : Sink T)
      → (s.waiting ≡ none) ⊎ ((s.queue ≡ []) × (s.done ≡ false))
      → Keeps c s (call c s)
  unfolding call
  call-Keeps (pushes x) s h = push-Keeps x s.queue s.terminal_error s.done s.waiting s.answers h
  call-Keeps finishes s h = finish-Keeps s.queue s.terminal_error s.done s.waiting s.answers h
  call-Keeps (fails e) s h = fail-Keeps e s.queue s.terminal_error s.done s.waiting s.answers h
  call-Keeps (nexts p) s h = next-Keeps p s.queue s.terminal_error s.done s.waiting s.answers h

  -- `accepted` and `asked` one call further.
  pub accepted_step :
      (d : Bool) (c : Call T) (cs : List (Call T))
      → accepted d (c ∷ cs) ≡ taken d c ++ accepted (ends d c) cs
  unfolding accepted
  accepted_step true (pushes x) [] = refl
  accepted_step true (pushes x) (c ∷ cs) = refl
  accepted_step true finishes [] = refl
  accepted_step true finishes (c ∷ cs) = refl
  accepted_step true (fails e) [] = refl
  accepted_step true (fails e) (c ∷ cs) = refl
  accepted_step true (nexts p) [] = refl
  accepted_step true (nexts p) (c ∷ cs) = refl
  accepted_step false (pushes x) cs = refl
  accepted_step false finishes [] = refl
  accepted_step false finishes (c ∷ cs) = refl
  accepted_step false (fails e) [] = refl
  accepted_step false (fails e) (c ∷ cs) = refl
  accepted_step false (nexts p) cs = refl

  pub asked_step :
      (k : ℕ) (c : Call T) (cs : List (Call T)) → asked k (c ∷ cs) ≡ asks k c + asked k cs
  unfolding asked
  asked_step k (pushes x) cs = omega arith
  asked_step k finishes cs = omega arith
  asked_step k (fails e) cs = omega arith
  asked_step k (nexts p) cs = omega arith
