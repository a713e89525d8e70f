-- ===== src/Base/Maps.antt =====
-- JavaScript's Map with numbers for keys, as the list of its entries in the order of insertion.
use Prim.Native.Nat.{ℕ, ◌+◌, ◌≤◌, ◌<◌}
use mathlib.Core.Path.{◌≡◌, refl}
use mathlib.Core.Logic.{◌≢◌}
use mathlib.Core.List.{List, [], ◌∷◌}
use mathlib.Core.Option.{Option, none, some}
use native.Mathlib.Omega.{arith}
use tephra_js.Base.Tests.{◌==◌, if◌then◌else◌}

abbrev pub Map {ℓ} : Type ℓ → Type ℓ
Map A = List (ℕ × A)

module _ {ℓ} {A : Type ℓ} where
  unfoldable pub get : ℕ → Map A → Option A
  get k [] = none
  get k ((j, a) ∷ m) = if j == k then some a else get k m

  -- A new key goes to the end, and an old one stays in its place.
  unfoldable pub set : ℕ → A → Map A → Map A
  set k a [] = (k, a) ∷ []
  set k a ((j, b) ∷ m) = if j == k then (j, a) ∷ m else (j, b) ∷ set k a m

  -- The value of a key is changed in its place.
  unfoldable pub update : ℕ → (A → A) → Map A → Map A
  update k f [] = []
  update k f ((j, b) ∷ m) = if j == k then (j, f b) ∷ m else (j, b) ∷ update k f m

  unfoldable pub delete : ℕ → Map A → Map A
  delete k [] = []
  delete k ((j, b) ∷ m) = if j == k then m else (j, b) ∷ delete k m

  -- Every key is at most `n`.
  abbrev pub Below : ℕ → Map A → Type 0
  Below n [] = Unit {0}
  Below n ((j, b) ∷ m) = (j ≤ n) × Below n m

  pub get-set_same : (k : ℕ) (a : A) (m : Map A) → get k (set k a m) ≡ some a
  unfolding get set
  get-set_same k a [] = ground arith
  get-set_same k a ((j, b) ∷ m) = ground (arith, get-set_same k a m)

  pub get-set_other : (j k : ℕ) (a : A) (m : Map A) → j ≢ k → get j (set k a m) ≡ get j m
  unfolding get set
  get-set_other j k a [] h = ground arith
  get-set_other j k a ((i, b) ∷ m) h = ground (arith, get-set_other j k a m h)

  pub get-delete_other : (j k : ℕ) (m : Map A) → j ≢ k → get j (delete k m) ≡ get j m
  unfolding get delete
  get-delete_other j k [] h = refl
  get-delete_other j k ((i, b) ∷ m) h = ground (arith, get-delete_other j k m h)

  pub get_fresh : (n k : ℕ) (m : Map A) → Below n m → n < k → get k m ≡ none
  unfolding get
  get_fresh n k [] b h = refl
  get_fresh n k ((j, a) ∷ m) b h = ground (arith, get_fresh n k m b.1 h)

  pub raise-Below : (n n' : ℕ) (m : Map A) → n ≤ n' → Below n m → Below n' m
  raise-Below n n' [] h b = tt
  raise-Below n n' ((j, a) ∷ m) h b = (omega arith, raise-Below n n' m h b.1)

  pub set-Below : (n k : ℕ) (a : A) (m : Map A) → k ≤ n → Below n m → Below n (set k a m)
  unfolding set
  set-Below n k a [] h b = (h, tt)
  set-Below n k a ((j, c) ∷ m) h b = ground (arith, set-Below n k a m h b.1)

  pub delete-Below : (n k : ℕ) (m : Map A) → Below n m → Below n (delete k m)
  unfolding delete
  delete-Below n k [] b = tt
  delete-Below n k ((j, c) ∷ m) b = ground (arith, delete-Below n k m b.1)

  -- The weights of the values, added up.
  module _ (w : A → ℕ) where
    unfoldable pub weigh : Map A → ℕ
    weigh [] = 0
    weigh ((j, a) ∷ m) = w a + weigh m

    pub weigh-delete :
        (k : ℕ) (a : A) (m : Map A) → get k m ≡ some a → weigh (delete k m) + w a ≡ weigh m
    unfolding get delete weigh
    weigh-delete k a [] h = cc
    weigh-delete k a ((j, b) ∷ m) h = ground (arith, weigh-delete k a m)

    pub weigh-set_new :
        (k : ℕ) (a : A) (m : Map A) → get k m ≡ none → weigh (set k a m) ≡ weigh m + w a
    unfolding get set weigh
    weigh-set_new k a [] h = omega arith
    weigh-set_new k a ((j, b) ∷ m) h = ground (arith, weigh-set_new k a m)

    pub weigh-set_old :
        (k : ℕ) (a b : A) (m : Map A) → get k m ≡ some b → weigh (set k a m) + w b ≡ weigh m + w a
    unfolding get set weigh
    weigh-set_old k a b [] h = cc
    weigh-set_old k a b ((j, c) ∷ m) h = ground (arith, weigh-set_old k a b m)
