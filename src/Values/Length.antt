-- ===== src/Values/Length.antt =====
-- utf8ByteLength of src/types.ts against the encoder.
use tephra_js.Base.{
  ℕ, ◌+◌, ◌<◌, ◌≤◌, sym, append_assoc, append-nil, Bool-cases, inl, inr, ◌≡◌, refl, ap, ◌∙◌, Bool,
  true, false, Option, none, some, List, [], ◌∷◌, ◌++◌, length, length-append, All, arith,
  if◌then◌else◌, ltb,
}
use tephra_js.Text.{
  Text, Bytes, is_high, is_low, scalars_from, scalars, char_bytes, encode_utf8, well_formed_from,
  unit_step, join,
}
use tephra_js.Values.{count_from, utf8_byte_length}
use mathlib.Core.List.{flat_map}

length-char_bytes_unit :
    (u : ℕ)
    → u < 0x10000
    → length (char_bytes u) ≡ (if ltb u 0x80 then 1 else if ltb u 0x800 then 2 else 3)
unfolding char_bytes
length-char_bytes_unit u h = ground arith

length-char_bytes_wide : (c : ℕ) → 0x10000 ≤ c → length (char_bytes c) ≡ 4
unfolding char_bytes
length-char_bytes_wide c h = ground arith

-- A held high surrogate has been counted already, with four bytes.
abbrev held_bytes : Option ℕ → ℕ
held_bytes none = 0
held_bytes (some h) = 4

abbrev passes : Option ℕ → Bool
passes none = false
passes (some h) = true

flat_map-append :
    (f : ℕ → Bytes) (xs ys : List ℕ) → flat_map f (xs ++ ys) ≡ flat_map f xs ++ flat_map f ys
unfolding flat_map
flat_map-append f [] ys = refl
flat_map-append f (x ∷ xs) ys =
    ap (f x ++◌) (flat_map-append f xs ys)
    ∙ sym (append_assoc (f x) (flat_map f xs) (flat_map f ys))

length-flat_map_one : (c : ℕ) → length (flat_map char_bytes (c ∷ [])) ≡ length (char_bytes c)
unfolding flat_map
length-flat_map_one c = ap length (append-nil (char_bytes c))

-- How each of the three functions passes one code unit.
record Passed (u : ℕ) (us : Text) (p : Option ℕ) (q : Option ℕ) (out : List ℕ) (n : ℕ)
    : Type 0 where
  read : scalars_from p (u ∷ us) ≡ out ++ scalars_from q us
  counted :
      held_bytes p + count_from (passes p) (u ∷ us) ≡ n + (held_bytes q + count_from (passes q) us)
  paired : well_formed_from p (u ∷ us) ≡ well_formed_from q us

plain-Passed :
    (u : ℕ) (us : Text)
    → is_high u ≡ false
    → is_low u ≡ false
    → Passed u us none none (u ∷ []) (if ltb u 0x80 then 1 else if ltb u 0x800 then 2 else 3)
unfolding scalars_from unit_step count_from well_formed_from
plain-Passed u us h l = record {
  read = ground arith;
  counted = ground arith;
  paired = ground arith;
}

high-Passed : (u : ℕ) (us : Text) → is_high u ≡ true → Passed u us none (some u) [] 0
unfolding scalars_from unit_step count_from well_formed_from
high-Passed u us h = record { read = ground arith; counted = ground arith; paired = ground arith }

low-Passed : (h u : ℕ) (us : Text) → is_low u ≡ true → Passed u us (some h) none (join h u ∷ []) 4
unfolding scalars_from unit_step count_from well_formed_from
low-Passed h u us l = record { read = ground arith; counted = ground arith; paired = ground arith }

-- One unit further, given the count of what follows it.
length-Passed :
    {u : ℕ} {us : Text} {p q : Option ℕ} {out : List ℕ} {n : ℕ}
    → Passed u us p q out n
    → length (flat_map char_bytes out) ≡ n
    → length (flat_map char_bytes (scalars_from q us)) ≡ held_bytes q + count_from (passes q) us
    → length (flat_map char_bytes (scalars_from p (u ∷ us)))
      ≡ held_bytes p + count_from (passes p) (u ∷ us)
length-Passed {us = us} {q = q} {out = out} s e r =
    ap (λ cs. length (flat_map char_bytes cs)) s.read
    ∙ omega (
      arith,
      ap length (flat_map-append char_bytes out (scalars_from q us)),
      length-append (flat_map char_bytes out) (flat_map char_bytes (scalars_from q us)),
      e,
      r,
      s.counted,
    )

unpaired : (h : ℕ) → ¬ (well_formed_from (some h) [] ≡ true)
unfolding well_formed_from
unpaired h e = cc

not_low : (u : ℕ) (us : Text) → well_formed_from none (u ∷ us) ≡ true → is_low u ≡ false
unfolding well_formed_from
not_low u us e = ground arith

is_second : (h u : ℕ) (us : Text) → well_formed_from (some h) (u ∷ us) ≡ true → is_low u ≡ true
unfolding well_formed_from
is_second h u us e = ground arith

length-scalars_from :
    (p : Option ℕ) (s : Text)
    → All (λ u. u < 0x10000) s
    → well_formed_from p s ≡ true
    → length (flat_map char_bytes (scalars_from p s)) ≡ held_bytes p + count_from (passes p) s
length-scalars_from none [] a e =
    unfold scalars_from in unfold flat_map in unfold count_from in refl
length-scalars_from (some h) [] a e = absurd (unpaired h e)
length-scalars_from none (u ∷ us) a e = elim (Bool-cases (is_high u)) [
  | inl h ↦
      let s = high-Passed u us h in
      length-Passed s (unfold flat_map in refl)
        (length-scalars_from (some u) us a.1 (sym s.paired ∙ e))
  | inr h ↦
      let s = plain-Passed u us h (not_low u us e) in
      length-Passed s (length-flat_map_one u ∙ length-char_bytes_unit u a.0)
        (length-scalars_from none us a.1 (sym s.paired ∙ e))
]
length-scalars_from (some h) (u ∷ us) a e =
    let s = low-Passed h u us (is_second h u us e) in
    length-Passed s
      (length-flat_map_one (join h u) ∙ length-char_bytes_wide (join h u) (omega arith))
      (length-scalars_from none us a.1 (sym s.paired ∙ e))

-- On a well-formed string of 16-bit code units utf8ByteLength, which encodes nothing, counts
-- exactly the bytes that the encoder writes.
pub utf8_byte_length-encode_utf8 :
    (s : Text)
    → All (λ u. u < 0x10000) s
    → well_formed_from none s ≡ true
    → utf8_byte_length s ≡ length (encode_utf8 s)
unfolding utf8_byte_length encode_utf8 scalars
utf8_byte_length-encode_utf8 s a e = omega (arith, length-scalars_from none s a e)
