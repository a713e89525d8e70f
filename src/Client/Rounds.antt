-- ===== src/Client/Rounds.antt =====
-- The round robin of src/client.ts over the bulk connections.
use tephra_js.Base.{
  ℕ, zero, suc, ◌+◌, ◌%◌, ◌<◌, ◌≡◌, ◌≢◌, refl, ap, sym, ◌∙◌, List, [], ◌∷◌, length, arith,
}
use native.Mathlib.Nat.{mod-lt, mod-add-mod}
use tephra_js.Connection.{Conn}
use tephra_js.Client.{Client, Lane, on_bulk, pick_from, pick_bulk}

-- The client after some picks.
unfoldable pub picked : ℕ → Client → Client
picked zero c = c
picked (suc n) c = picked n (pick_bulk c).1

pick_bulk-eq :
    (c : Client)
    → c.bulk ≢ []
    → pick_bulk c ≡ (
      on_bulk (c.next_bulk % length c.bulk),
      record c { next_bulk = (c.next_bulk + 1) % length c.bulk },
    )
unfolding pick_bulk
pick_bulk-eq c some_bulk = from c.bulk some_bulk
  where
    from :
        (conns : List Conn)
        → conns ≢ []
        → pick_from conns c ≡ (
          on_bulk (c.next_bulk % length conns),
          record c { next_bulk = (c.next_bulk + 1) % length conns },
        )
    from [] h = absurd (h refl)
    from (conn ∷ conns) h = unfold pick_from in refl

picked-next :
    (n : ℕ) (c : Client)
    → c.bulk ≢ []
    → ((picked n c).bulk ≡ c.bulk)
      × ((picked n c).next_bulk % length c.bulk ≡ (c.next_bulk + n) % length c.bulk)
unfolding picked
picked-next zero c h = (refl, ap (λ m. m % length c.bulk) (more c.next_bulk))
  where
    more : (m : ℕ) → m ≡ m + 0
    more m = omega arith
picked-next (suc n) c h =
    let d = record c { next_bulk = (c.next_bulk + 1) % length c.bulk } in
    let (same, next) = picked-next n d h in
    let e = ap (λ (r : Lane × Client). picked n r.1) (pick_bulk-eq c h) in
    (
      ap (λ (x : Client). x.bulk) e ∙ same,
      ap (λ (x : Client). x.next_bulk % length c.bulk) e
          ∙ next
          ∙ mod-add-mod (c.next_bulk + 1) (length c.bulk) n
          ∙ ap (λ m. m % length c.bulk) (shift c.next_bulk n),
    )
  where
    shift : (m k : ℕ) → m + 1 + k ≡ m + suc k
    shift m k = omega arith

-- A client with bulk connections that has picked n times picks next the one at (nextBulk + n)
-- modulo their number, which is in range: every bulk connection has its turn.
pub pick_bulk_rounds :
    (n : ℕ) (c : Client)
    → c.bulk ≢ []
    → ((pick_bulk (picked n c)).0 ≡ on_bulk ((c.next_bulk + n) % length c.bulk))
      × ((c.next_bulk + n) % length c.bulk < length c.bulk)
pick_bulk_rounds n c h =
    let (same, next) = picked-next n c h in
    (
      ap (λ (r : Lane × Client). r.0) (pick_bulk-eq (picked n c) (λ e. h (sym same ∙ e)))
          ∙ ap (λ (conns : List Conn). on_bulk ((picked n c).next_bulk % length conns)) same
          ∙ ap on_bulk next,
      mod-lt _ (positive c.bulk h),
    )
  where
    positive : (conns : List Conn) → conns ≢ [] → 0 < length conns
    positive [] k = absurd (k refl)
    positive (conn ∷ conns) k = omega arith
