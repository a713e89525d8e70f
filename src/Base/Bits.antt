-- ===== src/Base/Bits.antt =====
-- Facts about the bitwise operations at variables: a mask is a remainder, and an `or` of parts
-- that do not overlap is a sum.
use Prim.Native.Nat.{
  ℕ, zero, suc, ◌+◌, ◌-◌, ◌*◌, ◌/◌, ◌%◌, ◌^◌, ◌≤◌, ◌<◌, min, max, bit_and, bit_or, digits,
  bit_and-bitwise, bit_or-bitwise,
}
use mathlib.Core.Path.{◌≡◌, refl, ap}
use native.Mathlib.Omega.{arith}
use native.Mathlib.Nat.{pow-suc, pow-succ', one-le-pow, div-div-eq-div-mul}

-- Both operations run the recursion `digits`, which is told how many digits there are at most.
module _ (z : ℕ → ℕ) (f : ℕ → ℕ → ℕ) where
  more_digits : (fuel a b : ℕ) → a ≤ fuel → digits z f fuel a b ≡ digits z f a a b
  more_digits fuel a b h = both fuel a a b h (omega arith)
    where
      both : (n m x y : ℕ) → x ≤ n → x ≤ m → digits z f n x y ≡ digits z f m x y
      both zero zero x y p q = refl
      both zero (suc m) zero y p q = refl
      both zero (suc m) (suc x) y p q = elim p [ ]
      both (suc n) zero zero y p q = refl
      both (suc n) zero (suc x) y p q = elim q [ ]
      both (suc n) (suc m) zero y p q = refl
      both (suc n) (suc m) (suc x) y p q =
          ap (λ t. t * 2 + f (suc x % 2) (y % 2))
            (both n m (suc x / 2) (y / 2) (omega arith) (omega arith))

and-zero_left : (b : ℕ) → bit_and 0 b ≡ 0
and-zero_left b = bit_and-bitwise 0 b

or-zero_left : (b : ℕ) → bit_or 0 b ≡ b
or-zero_left b = bit_or-bitwise 0 b

-- The lowest digit, and the others.
and_halves : (a b : ℕ) → bit_and a b ≡ bit_and (a / 2) (b / 2) * 2 + min (a % 2) (b % 2)
and_halves zero b = omega (arith, and-zero_left b, and-zero_left (b / 2))
and_halves (suc a) b = omega (
  arith,
  bit_and-bitwise (suc a) b,
  bit_and-bitwise (suc a / 2) (b / 2),
  more_digits (λ _. zero) min a (suc a / 2) (b / 2) (omega arith),
)

or_halves : (a b : ℕ) → bit_or a b ≡ bit_or (a / 2) (b / 2) * 2 + max (a % 2) (b % 2)
or_halves zero b = omega (arith, or-zero_left b, or-zero_left (b / 2))
or_halves (suc a) b = omega (
  arith,
  bit_or-bitwise (suc a) b,
  bit_or-bitwise (suc a / 2) (b / 2),
  more_digits (λ b. b) max a (suc a / 2) (b / 2) (omega arith),
)

and-zero_right : (fuel a : ℕ) → a ≤ fuel → bit_and a 0 ≡ 0
and-zero_right fuel zero h = refl
and-zero_right zero (suc a) h = elim h [ ]
and-zero_right (suc fuel) (suc a) h =
    omega (arith, and_halves (suc a) 0, and-zero_right fuel (suc a / 2) (omega arith))

or-zero_right : (fuel a : ℕ) → a ≤ fuel → bit_or a 0 ≡ a
or-zero_right fuel zero h = refl
or-zero_right zero (suc a) h = elim h [ ]
or-zero_right (suc fuel) (suc a) h =
    omega (arith, or_halves (suc a) 0, or-zero_right fuel (suc a / 2) (omega arith))

double_pow : (q k : ℕ) → q * 2 ^ suc k ≡ q * 2 ^ k * 2
double_pow q k = omega (arith, ap (λ t. q * t) (pow-suc 2 k))

pub pow-pos : (k : ℕ) → 0 < 2 ^ k
pow-pos k = one-le-pow k 2 (omega arith)

-- `a & (2^k - 1)` for `a` split at bit `k`.
and_split : (k q r : ℕ) → r < 2 ^ k → bit_and (q * 2 ^ k + r) (2 ^ k - 1) ≡ r
and_split zero q r h = omega (arith, and-zero_right (q * 2 ^ 0 + r) (q * 2 ^ 0 + r) (omega arith))
and_split (suc k) q r h = ground (
  arith,
  and_halves (q * 2 ^ suc k + r) (2 ^ suc k - 1),
  double_pow q k,
  pow-suc 2 k,
  pow-pos k,
  and_split k q (r / 2) (omega (arith, pow-suc 2 k)),
)

-- A mask of `k` ones is the remainder by `2 ^ k`.
pub and_mask : (k a : ℕ) → bit_and a (2 ^ k - 1) ≡ a % 2 ^ k
and_mask k a = ground (arith, pow-pos k, and_split k (a / 2 ^ k) (a % 2 ^ k))

-- `(q << k) | r` where `r` fits below bit `k`.
pub or_shifted : (k q r : ℕ) → r < 2 ^ k → bit_or (q * 2 ^ k) r ≡ q * 2 ^ k + r
or_shifted zero q r h = ground (arith, or-zero_right q q (omega arith))
or_shifted (suc k) q r h = ground (
  arith,
  or_halves (q * 2 ^ suc k) r,
  double_pow q k,
  or_shifted k q (r / 2) (omega (arith, pow-suc 2 k)),
)

-- `r | (q << k)`, the same the other way round.
pub shifted_or : (k q r : ℕ) → r < 2 ^ k → bit_or r (q * 2 ^ k) ≡ r + q * 2 ^ k
shifted_or zero q zero h = ground (arith, or-zero_left q)
shifted_or zero q (suc r) h = absurd (omega arith)
shifted_or (suc k) q r h = ground (
  arith,
  or_halves r (q * 2 ^ suc k),
  double_pow q k,
  shifted_or k q (r / 2) (omega (arith, pow-suc 2 k)),
)

-- A single bit.
pub and_bit : (k a : ℕ) → bit_and a (2 ^ k) ≡ a / 2 ^ k % 2 * 2 ^ k
and_bit zero a = omega (arith, and_halves a 1, and-zero_right (a / 2) (a / 2) (omega arith))
and_bit (suc k) a = ground (
  arith,
  and_halves a (2 ^ suc k),
  pow-suc 2 k,
  and_bit k (a / 2),
  double_pow (a / 2 ^ suc k % 2) k,
  quotient,
)
  where
    quotient : a / 2 / 2 ^ k ≡ a / 2 ^ suc k
    quotient = rw (div-div-eq-div-mul, pow-succ')
