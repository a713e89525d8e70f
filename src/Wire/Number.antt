-- ===== src/Wire/Number.antt =====
-- The wire types, the 64-bit mask, and JavaScript's `Number` of a bigint: a double keeps 53 bits,
-- and rounds to the nearest, ties to even.
use tephra_js.Base.{
  ℕ, zero, suc, ◌+◌, ◌-◌, ◌*◌, ◌/◌, ◌%◌, ◌^◌, ◌<◌, ◌≡◌, ◌||◌, ◌&&◌, bit_and, ltb, ◌==◌,
  if◌then◌else◌, arith, refl, ap, ◌∙◌, lt→ltb,
}
use tephra_js.Base.Bits.{and_mask}

abbrev pub wire_varint : ℕ
wire_varint = 0

abbrev pub wire_fixed64 : ℕ
wire_fixed64 = 1

abbrev pub wire_len : ℕ
wire_len = 2

abbrev pub wire_fixed32 : ℕ
wire_fixed32 = 5

abbrev pub u64_mask : ℕ
u64_mask = 2 ^ 64 - 1

abbrev pub IsU64 : ℕ → Type 0
IsU64 v = v < 2 ^ 64

-- A number that `Number` keeps.
abbrev pub IsSafe : ℕ → Type 0
IsSafe v = v < 2 ^ 53

pub and-u64_mask : (v : ℕ) → bit_and v u64_mask ≡ v % 2 ^ 64
and-u64_mask v = and_mask 64 v

-- How many low bits a double has no room for, `fuel` at most. A uint64 has 11 such bits at most.
excess_bits : ℕ → ℕ → ℕ
excess_bits zero v = 0
excess_bits (suc fuel) v = let e = excess_bits fuel (v / 2) in if ltb v (2 ^ 53) then 0 else suc e

-- To a multiple of `unit`.
round_even : ℕ → ℕ → ℕ
round_even unit v =
    let q = v / unit in
    let r = v % unit in
    if ltb unit (2 * r) || ((2 * r == unit) && (q % 2 == 1)) then (q + 1) * unit else q * unit

unfoldable pub to_number : ℕ → ℕ
unfolding excess_bits round_even
to_number v = round_even (2 ^ excess_bits 11 v) v

excess_bits_safe : (fuel v : ℕ) → IsSafe v → excess_bits fuel v ≡ 0
unfolding excess_bits
excess_bits_safe zero v h = refl
excess_bits_safe (suc fuel) v h = rw (lt→ltb v (2 ^ 53) h)

round_even-one : (v : ℕ) → round_even 1 v ≡ v
unfolding round_even
round_even-one v = ground arith

pub to_number_safe : (v : ℕ) → IsSafe v → to_number v ≡ v
unfolding to_number
to_number_safe v h = ap (λ e. round_even (2 ^ e) v) (excess_bits_safe 11 v h) ∙ round_even-one v
