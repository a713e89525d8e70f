-- ===== src/Values/Order.antt =====
-- The order of strings and the sort behind validatedTagSet (src/types.ts).
use tephra_js.Base.{◌≡◌, refl, sym, ◌∙◌, true, false, List, [], ◌∷◌, arith, Bool-cases, inl, inr}
use tephra_js.Text.{Text}
use tephra_js.Values.{text_le, text_eq, insert, sort}
use mathlib.Core.List.{Permᴰ}

pub text_le_refl : (a : Text) → text_le a a ≡ true
unfolding text_le
text_le_refl [] = refl
text_le_refl (x ∷ a) = ground (arith, text_le_refl a)

pub text_le_total : (a b : Text) → text_le a b ≡ false → text_le b a ≡ true
unfolding text_le
text_le_total [] b h = cc
text_le_total (x ∷ a) [] h = refl
text_le_total (x ∷ a) (y ∷ b) h = ground (arith, text_le_total a b)

pub text_le_antisym : (a b : Text) → text_le a b ≡ true → text_le b a ≡ true → a ≡ b
unfolding text_le
text_le_antisym [] [] h k = refl
text_le_antisym [] (y ∷ b) h k = cc
text_le_antisym (x ∷ a) [] h k = cc
text_le_antisym (x ∷ a) (y ∷ b) h k = ground (arith, text_le_antisym a b)

pub text_le_trans : (a b c : Text) → text_le a b ≡ true → text_le b c ≡ true → text_le a c ≡ true
unfolding text_le
text_le_trans [] b c h k = refl
text_le_trans (x ∷ a) [] c h k = cc
text_le_trans (x ∷ a) (y ∷ b) [] h k = cc
text_le_trans (x ∷ a) (y ∷ b) (z ∷ c) h k = ground (arith, text_le_trans a b c)

pub text_eq_refl : (a : Text) → text_eq a a ≡ true
unfolding text_eq
text_eq_refl [] = refl
text_eq_refl (x ∷ a) = ground (arith, text_eq_refl a)

pub text_eq-eq : (a b : Text) → text_eq a b ≡ true → a ≡ b
unfolding text_eq
text_eq-eq [] [] h = refl
text_eq-eq [] (y ∷ b) h = cc
text_eq-eq (x ∷ a) [] h = cc
text_eq-eq (x ∷ a) (y ∷ b) h = ground (arith, text_eq-eq a b)

pub insert_le : (a b : Text) (bs : List Text) → text_le a b ≡ true → insert a (b ∷ bs) ≡ a ∷ b ∷ bs
unfolding insert
insert_le a b bs h = rw h

pub insert_gt :
    (a b : Text) (bs : List Text) → text_le a b ≡ false → insert a (b ∷ bs) ≡ b ∷ insert a bs
unfolding insert
insert_gt a b bs h = rw h

-- Of two texts in order, the insertions swap.
insert_ordered :
    (a b : Text) (xs : List Text)
    → text_le a b ≡ true
    → insert a (insert b xs) ≡ insert b (insert a xs)
unfolding insert
insert_ordered a b [] h = ground (arith, text_le_antisym a b)
insert_ordered a b (x ∷ xs) h = ground (
  arith,
  text_le_antisym a b,
  text_le_total a b,
  text_le_trans a b x,
  text_le_trans b a x,
  text_le_antisym a x,
  text_le_antisym b x,
  text_le_total a x,
  text_le_total b x,
  text_le_total x a,
  insert_ordered a b xs,
)

pub insert_swap : (a b : Text) (xs : List Text) → insert a (insert b xs) ≡ insert b (insert a xs)
insert_swap a b xs = elim (Bool-cases (text_le a b)) [
  | inl h ↦ insert_ordered a b xs h
  | inr h ↦ sym (insert_ordered b a xs (text_le_total a b h))
]

pub sort-perm : {xs ys : List Text} → Permᴰ xs ys → sort xs ≡ sort ys
unfolding sort
sort-perm Permᴰ.nil = refl
sort-perm (Permᴰ.cons e p) = rw (e, sort-perm p) refl
sort-perm (Permᴰ.swap {a = a} {b = b} {l = l} e f) = rw (sym e, sym f) (insert_swap a b (sort l))
sort-perm (Permᴰ.trans p q) = sort-perm p ∙ sort-perm q
