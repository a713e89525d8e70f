-- ===== src/Values/Sorted.antt =====
-- The sort and the check of neighbours in validatedTagSet (src/types.ts).
use tephra_js.Base.{
  ◌≡◌, refl, subst, ap, sym, ◌∙◌, true, false, List, [], ◌∷◌, arith, Bool-cases, inl, inr, ok,
}
use tephra_js.Text.{Text}
use tephra_js.Values.{text_le, text_eq, insert, sort, check_neighbours}
use tephra_js.Values.Order.{
  text_le_total, text_le_antisym, text_eq_refl, text_eq-eq, text_le_refl, insert_le, insert_gt,
}
use mathlib.Core.List.{Permᴰ}
use mathlib.Core.List.Permᴰ

-- Strictly increasing, so that no tag comes twice.
abbrev pub Ascending : List Text → Type 0
Ascending [] = Unit {0}
Ascending (a ∷ []) = Unit {0}
Ascending (a ∷ b ∷ rest) = (text_le b a ≡ false) × Ascending (b ∷ rest)

-- A sort's output: each text is at most the next.
abbrev pub Sorted : List Text → Type 0
Sorted [] = Unit {0}
Sorted (a ∷ []) = Unit {0}
Sorted (a ∷ b ∷ rest) = (text_le a b ≡ true) × Sorted (b ∷ rest)

insert-Sorted : (a : Text) (xs : List Text) → Sorted xs → Sorted (insert a xs)
unfolding insert
insert-Sorted a [] s = tt
insert-Sorted a (b ∷ []) s = elim (Bool-cases (text_le a b)) [
  | inl h ↦ rw h (h, tt)
  | inr h ↦ rw h (text_le_total a b h, tt)
]
insert-Sorted a (b ∷ c ∷ xs) s = elim (Bool-cases (text_le a b)) [
  | inl h ↦ rw h (h, s)
  | inr h ↦ elim (Bool-cases (text_le a c)) [
    | inl k ↦ rw (h, k) (text_le_total a b h, (k, s.1))
    | inr k ↦ rw (h, k) (s.0, subst Sorted (insert_gt a c xs k) (insert-Sorted a (c ∷ xs) s.1))
  ]
]

pub sort-Sorted : (xs : List Text) → Sorted (sort xs)
unfolding sort
sort-Sorted [] = tt
sort-Sorted (x ∷ xs) = insert-Sorted x (sort xs) (sort-Sorted xs)

insert-perm : (a : Text) (xs : List Text) → Permᴰ (a ∷ xs) (insert a xs)
unfolding insert
insert-perm a [] = Permᴰ.refl _
insert-perm a (b ∷ bs) = elim (Bool-cases (text_le a b)) [
  | inl h ↦ rw h (Permᴰ.refl _)
  | inr h ↦ rw h (Permᴰ.trans (Permᴰ.swap refl refl) (Permᴰ.cons refl (insert-perm a bs)))
]

pub perm-sort : (xs : List Text) → Permᴰ xs (sort xs)
unfolding sort
perm-sort [] = Permᴰ.nil
perm-sort (x ∷ xs) = Permᴰ.trans (Permᴰ.cons refl (perm-sort xs)) (insert-perm x (sort xs))

strict : (a b : Text) → text_le a b ≡ true → text_eq b a ≡ false → text_le b a ≡ false
strict a b h k = ground (arith, text_le_antisym a b, text_eq_refl a)

pub check_neighbours-Ascending :
    (xs : List Text) → Sorted xs → check_neighbours xs ≡ ok tt → Ascending xs
unfolding check_neighbours
check_neighbours-Ascending [] s e = tt
check_neighbours-Ascending (a ∷ []) s e = tt
check_neighbours-Ascending (a ∷ b ∷ rest) s e = elim (Bool-cases (text_eq b a)) [
  | inl h ↦ absurd (ground arith)
  | inr h ↦ (strict a b s.0 h, check_neighbours-Ascending (b ∷ rest) s.1 (ground arith))
]

pub sort-Ascending : (xs : List Text) → Ascending xs → sort xs ≡ xs
unfolding sort
sort-Ascending [] h = refl
sort-Ascending (a ∷ []) h = unfold insert in refl
sort-Ascending (a ∷ b ∷ rest) h =
    ap (insert a) (sort-Ascending (b ∷ rest) h.1) ∙ insert_le a b rest (text_le_total b a h.0)

irreflexive : (a : Text) → ¬ (text_le a a ≡ false)
irreflexive a k = ground (arith, text_le_refl a)

pub Ascending-check_neighbours : (xs : List Text) → Ascending xs → check_neighbours xs ≡ ok tt
unfolding check_neighbours
Ascending-check_neighbours [] h = refl
Ascending-check_neighbours (a ∷ []) h = refl
Ascending-check_neighbours (a ∷ b ∷ rest) h =
    rw (differs a b h.0) (Ascending-check_neighbours (b ∷ rest) h.1)
  where
    differs : (a b : Text) → text_le b a ≡ false → text_eq b a ≡ false
    differs a b k = elim (Bool-cases (text_eq b a)) [
      | inl same ↦
          absurd (irreflexive b (subst (λ t. text_le b t ≡ false) (sym (text_eq-eq b a same)) k))
      | inr apart ↦ apart
    ]
