-- ===== src/Wire/Varint.antt =====
-- The base-128 form of a number, in plain arithmetic: groups of seven bits, the lowest first, with
-- the top bit set on every byte but the last.
use tephra_js.Base.{
  ℕ, zero, suc, ◌+◌, ◌/◌, ◌%◌, ◌≤◌, ◌<◌, arith, List, [], ◌∷◌, length, ltb, if◌then◌else◌,
}

-- `v` in `k` bytes at most.
unfoldable pub groups : ℕ → ℕ → List ℕ
groups zero v = []
groups (suc k) v =
    let rest = groups k (v / 128) in if ltb v 128 then v ∷ [] else (v % 128 + 128) ∷ rest

-- A uint64 takes ten bytes at most.
abbrev pub varint_bytes : ℕ → List ℕ
varint_bytes v = groups 10 v

pub length-groups : (k v : ℕ) → (length (groups k v) ≤ k) × (0 < k → 0 < length (groups k v))
unfolding groups
length-groups zero v = (omega arith, λ h. h)
length-groups (suc k) v = ground (arith, length-groups k (v / 128))
