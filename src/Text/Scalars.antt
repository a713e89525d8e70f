-- ===== src/Text/Scalars.antt =====
-- The scalar values of a string, and how a string comes back from them.
use tephra_js.Base.{
  ℕ, ◌≤◌, ◌<◌, ◌≡◌, refl, ◌⊎◌, inr, true, Option, none, some, [], ◌∷◌, ◌++◌, arith, All,
}
use tephra_js.Text.{Text, join, scalars_from, scalars, char_units, well_formed_from}
use mathlib.Core.List.{flat_map}

-- A code point that is no surrogate.
abbrev pub IsScalar : ℕ → Type 0
IsScalar c = (c < 0xd800) ⊎ ((0xdfff < c) × (c < 0x110000))

abbrev pub Waits : Option ℕ → Type 0
Waits none = Unit {0}
Waits (some h) = (0xd800 ≤ h) × (h ≤ 0xdbff)

abbrev pub held : Option ℕ → Text
held none = []
held (some h) = h ∷ []

char_units-join :
    (h l : ℕ)
    → (0xd800 ≤ h) × (h ≤ 0xdbff)
    → (0xdc00 ≤ l) × (l ≤ 0xdfff)
    → char_units (join h l) ≡ h ∷ l ∷ []
unfolding char_units
char_units-join h l p q = ground arith

char_units-one : (u : ℕ) → u < 0x10000 → char_units u ≡ u ∷ []
unfolding char_units
char_units-one u h = ground arith

char_units-scalars_from :
    (p : Option ℕ) (s : Text)
    → Waits p
    → All (λ u. u < 0x10000) s
    → well_formed_from p s ≡ true
    → flat_map char_units (scalars_from p s) ≡ held p ++ s
unfolding scalars_from well_formed_from flat_map
char_units-scalars_from none [] w a e = refl
char_units-scalars_from (some h) [] w a e = cc
char_units-scalars_from none (u ∷ us) w a e =
    ground (
      arith,
      char_units-one u,
      char_units-scalars_from none us,
      char_units-scalars_from (some u) us,
    )
char_units-scalars_from (some h) (u ∷ us) w a e =
    ground (arith, char_units-join h u, char_units-scalars_from none us)

scalars_from-IsScalar :
    (p : Option ℕ) (s : Text) → Waits p → All (λ u. u < 0x10000) s → All IsScalar (scalars_from p s)
unfolding scalars_from
scalars_from-IsScalar none [] w a = tt
scalars_from-IsScalar (some h) [] w a = (inr (omega arith), tt)
scalars_from-IsScalar none (u ∷ us) w a =
    ground (arith, scalars_from-IsScalar none us, scalars_from-IsScalar (some u) us)
scalars_from-IsScalar (some h) (u ∷ us) w a =
    ground (arith, scalars_from-IsScalar none us, scalars_from-IsScalar (some u) us)

-- A well-formed string is read as scalar values, and these spell it.
pub scalars-IsScalar : (s : Text) → All (λ u. u < 0x10000) s → All IsScalar (scalars s)
unfolding scalars
scalars-IsScalar s a = scalars_from-IsScalar none s tt a

pub char_units-scalars :
    (s : Text)
    → All (λ u. u < 0x10000) s
    → well_formed_from none s ≡ true
    → flat_map char_units (scalars s) ≡ s
unfolding scalars
char_units-scalars s a e = char_units-scalars_from none s tt a e
