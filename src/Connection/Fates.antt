-- ===== src/Connection/Fates.antt =====
-- What becomes of the promises of `unary` and `hello` (src/connection.ts): a response settles the
-- one it answers, and the death of the connection settles all.
use tephra_js.Base.{
  ℕ, ◌≡◌, ◌≢◌, refl, ap, sym, ◌∙◌, Option, none, some, [], ◌∷◌, ◌==◌, Bool, true, false, Bool-cases,
  inl, inr, arith, ==→eq, subst, if◌then◌else◌,
}
use tephra_js.Base.Maps.{Map, get, delete, get-set_same, get-set_other, get-delete_other}
use tephra_js.Failure.{Failure}
use tephra_js.Messages.Response.{WireResponse}
use tephra_js.Connection.{
  Expect, Role, unary, hello, read, subscribe, Entry, Outcome, rejected, Conn, settle, settle_as,
  on_read, on_subscription, fail_entry, fail_entries, fail_connection, drain_slots, signal_writer,
  finalize, finalize_as, release_if, release_inflight,
}
use tephra_js.Util.{release}
use tephra_js.Connection.Answers.{Answers, reply-Answers}
use tephra_js.Connection.Invariant.{Books}
use tephra_js.Connection.Invariant.Ends.{fail_entries-books, settle-books}
use tephra_js.Connection.Routing.{reply, route_response, route_entry, route_role}

-- A request with a promise.
abbrev pub promised : Role → Bool
promised (unary expect) = true
promised hello = true
promised read = false
promised subscribe = false

differ : (a b : ℕ) → a == b ≡ false → a ≢ b
differ a b h = ground arith

pub settle-same :
    (id : ℕ) (o : Outcome) (c : Conn)
    → get id c.deferreds ≡ some none
    → get id (settle id o c).deferreds ≡ some (some o)
unfolding settle settle_as
settle-same id o c h = rw h (get-set_same id (some o) c.deferreds)

settle-other :
    (id j : ℕ) (o : Outcome) (c : Conn)
    → id ≢ j
    → get id (settle j o c).deferreds ≡ get id c.deferreds
unfolding settle
settle-other id j o c h = settled (get j c.deferreds)
  where
    settled :
        (d : Option (Option Outcome)) → get id (settle_as d j o c).deferreds ≡ get id c.deferreds
    settled none = unfold settle_as in refl
    settled (some none) = unfold settle_as in get-set_other id j (some o) c.deferreds h
    settled (some (some p)) = unfold settle_as in refl

-- A promise is settled once.
settle-once :
    (id j : ℕ) (o p : Outcome) (c : Conn)
    → get id c.deferreds ≡ some (some p)
    → get id (settle j o c).deferreds ≡ some (some p)
settle-once id j o p c h = elim (Bool-cases (id == j)) [
  | inl e ↦ subst (λ k. get id (settle k o c).deferreds ≡ some (some p)) (==→eq id j e) own
  | inr e ↦ settle-other id j o c (differ id j e) ∙ h
]
  where
    own : get id (settle id o c).deferreds ≡ some (some p)
    own = unfold settle in unfold settle_as in rw h h

fail_entry-other :
    (e : Failure) (id j : ℕ) (role : Role) (c : Conn)
    → id ≢ j
    → get id (fail_entry e j role c).deferreds ≡ get id c.deferreds
unfolding fail_entry on_read on_subscription
fail_entry-other e id j (unary expect) c h = settle-other id j _ c h
fail_entry-other e id j hello c h = settle-other id j _ c h
fail_entry-other e id j read c h = refl
fail_entry-other e id j subscribe c h = refl

fail_entry-same :
    (e : Failure) (id : ℕ) (role : Role) (c : Conn)
    → promised role ≡ true
    → get id c.deferreds ≡ some none
    → get id (fail_entry e id role c).deferreds ≡ some (some (rejected e))
unfolding fail_entry
fail_entry-same e id (unary expect) c p h = settle-same id _ c h
fail_entry-same e id hello c p h = settle-same id _ c h
fail_entry-same e id read c p h = cc
fail_entry-same e id subscribe c p h = cc

fail_entry-once :
    (e : Failure) (id j : ℕ) (role : Role) (o : Outcome) (c : Conn)
    → get id c.deferreds ≡ some (some o)
    → get id (fail_entry e j role c).deferreds ≡ some (some o)
unfolding fail_entry on_read on_subscription
fail_entry-once e id j (unary expect) o c h = settle-once id j _ o c h
fail_entry-once e id j hello o c h = settle-once id j _ o c h
fail_entry-once e id j read o c h = h
fail_entry-once e id j subscribe o c h = h

fail_entries-once :
    (e : Failure) (id : ℕ) (m : Map Entry) (o : Outcome) (c : Conn)
    → get id c.deferreds ≡ some (some o)
    → get id (fail_entries e m c).deferreds ≡ some (some o)
unfolding fail_entries
fail_entries-once e id [] o c h = h
fail_entries-once e id ((j, entry) ∷ m) o c h =
    fail_entries-once e id m o _ (fail_entry-once e id j entry.role o c h)

fail_entries-rejects :
    (e : Failure) (id : ℕ) (entry : Entry) (m : Map Entry) (c : Conn)
    → get id m ≡ some entry
    → promised entry.role ≡ true
    → get id c.deferreds ≡ some none
    → get id (fail_entries e m c).deferreds ≡ some (some (rejected e))
unfolding fail_entries get
fail_entries-rejects e id entry [] c g p h = cc
fail_entries-rejects e id entry ((j, other) ∷ m) c g p h = elim (Bool-cases (j == id)) [
  | inl same ↦ fail_entries-once e id m (rejected e) _ (
      subst (λ k. get id (fail_entry e k other.role c).deferreds ≡ some (some (rejected e)))
        (sym (==→eq j id same))
        (fail_entry-same e id other.role c
          (ap (λ (x : Entry). promised x.role) (found (rw same at g)) ∙ p) h))
  | inr differs ↦
      fail_entries-rejects e id entry m _ (rw differs at g) p
        (fail_entry-other e id j other.role c (differ' j id differs) ∙ h)
]
  where
    found : ◌≡◌ {A = Option Entry} (some other) (some entry) → other ≡ entry
    found x = cc

    differ' : (a b : ℕ) → a == b ≡ false → b ≢ a
    differ' a b x = ground arith

-- When a live connection fails, the promise of every pending append, stats or hello request that is
-- not settled yet is rejected with the error, and no request is pending any more.
pub fail_connection-rejects :
    (e : Failure) (id : ℕ) (entry : Entry) (c : Conn)
    → c.dead ≡ false
    → get id c.pending ≡ some entry
    → promised entry.role ≡ true
    → get id c.deferreds ≡ some none
    → (get id (fail_connection e c).deferreds ≡ some (some (rejected e)))
      × ((fail_connection e c).pending ≡ [])
unfolding fail_connection drain_slots signal_writer
fail_connection-rejects e id entry c alive g p h = rw alive (
  fail_entries-rejects e id entry c.pending _ g p h,
  ap (λ (b : Books). b.pending) (fail_entries-books e c.pending _),
)

-- The promises and the entries after `finalize`.
pub finalize-kept :
    (id : ℕ) (c : Conn)
    → ((finalize id c).deferreds ≡ c.deferreds)
      × ((j : ℕ) → j ≢ id → get j (finalize id c).pending ≡ get j c.pending)
unfolding finalize
finalize-kept id c = finalized (get id c.pending)
  where
    released :
        (held : Bool) (d : Conn)
        → ((release_if held d).deferreds ≡ d.deferreds) × ((release_if held d).pending ≡ d.pending)
    released true d = unfold release_if in unfold release_inflight in (refl, refl)
    released false d = unfold release_if in (refl, refl)

    finalized :
        (o : Option Entry)
        → ((finalize_as o id c).deferreds ≡ c.deferreds)
          × ((j : ℕ) → j ≢ id → get j (finalize_as o id c).pending ≡ get j c.pending)
    finalized none = unfold finalize_as in (refl, λ j h. refl)
    finalized (some entry) =
        let (d, m) = released entry.permit (record c { pending = delete id c.pending }) in
        unfold finalize_as in (d, λ j h. ap (get j) m ∙ get-delete_other j id c.pending h)

route_response-eq :
    (response : WireResponse) (entry : Entry) (expect : Expect) (c : Conn)
    → response.request_id ≢ 0
    → get response.request_id c.pending ≡ some entry
    → entry.role ≡ unary expect
    → (route_response response c).0
      ≡ settle response.request_id (reply expect response.kind) (finalize response.request_id c)
unfolding route_response route_entry route_role
route_response-eq response entry expect c nonzero g r =
    rw (unequal response.request_id nonzero, g, r) refl
  where
    unequal : (n : ℕ) → n ≢ 0 → n == 0 ≡ false
    unequal n h = ground arith

-- The entry and the permit of a request that is finalized.
finalize-ended :
    (id : ℕ) (entry : Entry) (c : Conn)
    → get id c.pending ≡ some entry
    → ((finalize id c).pending ≡ delete id c.pending)
      × ((finalize id c).inflight ≡ (if entry.permit then (release c.inflight).0 else c.inflight))
unfolding finalize finalize_as
finalize-ended id entry c g =
    rw g (released entry.permit (record c { pending = delete id c.pending }))
  where
    released :
        (held : Bool) (d : Conn)
        → ((release_if held d).pending ≡ d.pending)
          × ((release_if held d).inflight ≡ (if held then (release d.inflight).0 else d.inflight))
    released true d = unfold release_if in unfold release_inflight in (refl, refl)
    released false d = unfold release_if in (refl, refl)

-- A response to a pending append or stats request whose promise is not settled settles that
-- promise, with an outcome that the table of answers allows (positions for an append, statistics
-- for a stats request, the error of the server with all its fields, and a rejection for every other
-- response), takes its entry out of the pending requests, releases its permit if it held one, and
-- leaves the promises and the entries of all other requests as they are.
pub route_response-settles :
    (response : WireResponse) (entry : Entry) (expect : Expect) (c : Conn)
    → response.request_id ≢ 0
    → get response.request_id c.pending ≡ some entry
    → entry.role ≡ unary expect
    → get response.request_id c.deferreds ≡ some none
    → let d = (route_response response c).0 in
      ((outcome : Outcome) × (get response.request_id d.deferreds ≡ some (some outcome))
        × Answers expect response.kind outcome)
      × (d.pending ≡ delete response.request_id c.pending)
      × (d.inflight ≡ (if entry.permit then (release c.inflight).0 else c.inflight))
      × ((j : ℕ) → j ≢ response.request_id → get j d.deferreds ≡ get j c.deferreds)
      × ((j : ℕ) → j ≢ response.request_id → get j d.pending ≡ get j c.pending)
route_response-settles response entry expect c nonzero g r h =
    let id = response.request_id in
    let o = reply expect response.kind in
    let (same, others) = finalize-kept id c in
    let (ended, freed) = finalize-ended id entry c g in
    let e = route_response-eq response entry expect c nonzero g r in
    let b = settle-books id o (finalize id c) in
    (
      (
        o,
        ap (λ (d : Conn). get id d.deferreds) e
            ∙ settle-same id o (finalize id c) (ap (get id) same ∙ h),
        reply-Answers expect response.kind,
      ),
      ap (λ (d : Conn). d.pending) e ∙ ap (λ (x : Books). x.pending) b ∙ ended,
      ap (λ (d : Conn). d.inflight) e ∙ ap (λ (x : Books). x.inflight) b ∙ freed,
      λ j n.
          ap (λ (d : Conn). get j d.deferreds) e
          ∙ settle-other j id o (finalize id c) n
          ∙ ap (get j) same,
      λ j n.
          ap (λ (d : Conn). get j d.pending) e ∙ ap (λ (x : Books). get j x.pending) b ∙ others j n,
    )
