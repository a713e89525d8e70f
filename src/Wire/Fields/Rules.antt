-- ===== src/Wire/Fields/Rules.antt =====
-- What the decoding loop makes of each kind of field that the writer writes.
use tephra_js.Base.{
  ℕ, ◌≢◌, zero, suc, ◌<◌, ◌≡◌, refl, ap, ◌∙◌, List, [], ◌∷◌, ◌++◌, append_assoc, length,
  length-append, Result, ok, if◌then◌else◌, Bool, true, false, ◌==◌, arith, ◌%◌, ◌^◌, append-nil,
  sym, subst, le→leb, drop-nil, length-eq-zero, ==→eq, All, Given, Option, none, some,
}
use mathlib.Core.List.{flat_map}
use tephra_js.Text.{Text, Bytes, IsText, encode_utf8}
use tephra_js.Text.RoundTrip.{empty-encode_utf8}
use tephra_js.Wire.Number.{IsU64, IsSafe, wire_varint, wire_len}
use tephra_js.Wire.Field
use tephra_js.Wire.Field.{key, u64_bytes}
use tephra_js.Wire.Fields.{Step, store, nested, fields, decode_fields}
use tephra_js.Wire.Reader.{Reader, Fault, Reads, out_of_fuel, done, tag, new_reader}
use tephra_js.Wire.Reader
use tephra_js.Wire.Reader.Unread.{
  unread, Faces, next-byte, Finds, tag-Finds, varint_big-Finds, varint-Finds, bool-Finds,
  bytes-Finds, string-Finds, message-Finds,
}

-- `bs` next in the buffer takes the loop from `m` to `m'`.
pub record Puts {M : Type 0} (step : Step M) (m : M) (bs : Bytes) (m' : M) : Type 0 where
  pub run :
      (r : Reader) (rest : Bytes) (fuel : ℕ)
      → Faces (bs ++ rest) r
      → length (bs ++ rest) < fuel
      → (r' : Reader) × (fuel' : ℕ) × Faces rest r'
        × (length rest < fuel')
        × (fields step fuel m r ≡ fields step fuel' m' r')

module _ {M : Type 0} (step : Step M) where
  pub Puts-none : (m : M) → Puts step m [] m
  Puts-none m = record { run = λ r rest fuel e h. (r, fuel, e, h, refl) }

  pub Puts-then :
      {m₁ m₂ m₃ : M} {xs ys : Bytes}
      → Puts step m₁ xs m₂
      → Puts step m₂ ys m₃
      → Puts step m₁ (xs ++ ys) m₃
  Puts-then {xs = xs} {ys = ys} f g = record {
    run = λ r rest fuel e h.
        let (r', fuel', e', h', p) =
          f.run r (ys ++ rest) fuel (rw append_assoc at e) (rw append_assoc at h) in
        let (r'', fuel'', e'', h'', q) = g.run r' rest fuel' e' h' in
        (r'', fuel'', e'', h'', p ∙ q);
  }

  -- A field whose tag and body are in front, and which the switch takes from `m` to `m'`.
  field_run :
      (f t : ℕ) (body : Bytes) (m m' : M)
      → f < 16
      → t < 8
      → Finds (step f t m) body m'
      → (r : Reader) (rest : Bytes) (fuel : ℕ) → Faces (key f t ∷ (body ++ rest)) r
      → length (key f t ∷ (body ++ rest)) < fuel
      → (r' : Reader) × (fuel' : ℕ) × Faces rest r'
        × (length rest < fuel')
        × (fields step fuel m r ≡ fields step fuel' m' r')
  unfolding fields
  field_run f t body m m' hf ht h r rest zero e k = absurd (omega arith)
  field_run f t body m m' hf ht h r rest (suc fuel) e k =
      let (r', e', p) = tag-Finds f t hf ht r (body ++ rest) e.0 in
      let (r'', e'', q) = h r' rest e'.0 in
      (
        r'',
        fuel,
        e'',
        omega (arith, length-append body rest),
        rw ((next-byte r (key f t) (body ++ rest) e.0).0, p, q),
      )

  pub Puts-field :
      (f t : ℕ) (body : Bytes) (m m' : M)
      → f < 16
      → t < 8
      → Finds (step f t m) body m'
      → Puts step m (key f t ∷ body) m'
  Puts-field f t body m m' hf ht h = record { run = field_run f t body m m' hf ht h }

  -- After the last field the loop ends.
  at_end : (m : M) (r : Reader) (fuel : ℕ) → unread r ≡ [] → 0 < fuel → fields step fuel m r ≡ ok m
  unfolding fields
  at_end m r zero e h = elim h [ ]
  at_end m r (suc fuel) e h = rw (le→leb (length r.buf) r.pos (drop-nil r.pos r.buf e))

  pub decode_fields-Puts :
      {m m' : M} {bs : Bytes} → Puts step m bs m' → decode_fields step m (new_reader bs) ≡ ok m'
  unfolding decode_fields
  decode_fields-Puts {m' = m'} {bs = bs} h =
      let (r', fuel, e, k, p) =
        h.run (new_reader bs) [] (suc (length bs))
          (unfold new_reader in (sym (append-nil bs), omega arith))
          (omega (arith, ap length (append-nil bs))) in
      unfold new_reader in (p ∙ at_end m' r' fuel e.0 k)

-- The rules for the fields of each kind. `set` is what the switch does with the value.
module _ {M : Type 0} (step : Step M) (f : ℕ) (m : M) (low : f < 16) where
  taken :
      {A : Type 0} (t : ℕ) (read : Reads A) (body : Bytes) (a : A) (set : A → M)
      → t < 8
      → ((r : Reader) → step f t m r ≡ store set (read r))
      → Finds read body a
      → Puts step m (key f t ∷ body) (set a)
  taken t read body a set ht e h =
      Puts-field step f t body m (set a) low ht
        λ r rest u. let (r', u', p) = h r rest u in (r', u', e r ∙ rw p)

  pub Puts-present :
      (v : ℕ) (set : ℕ → M)
      → ((r : Reader) → step f wire_varint m r ≡ store set (Reader.varint_big r))
      → IsU64 v
      → Puts step m (Field.present f v) (set v)
  Puts-present v set e h =
      subst (λ n. Puts step m (Field.present f v) (set n)) (omega arith)
        (taken wire_varint Reader.varint_big (u64_bytes v) (v % 2 ^ 64) set (omega arith) e
          (varint_big-Finds v))

  -- A default, which takes no bytes, is the value that was there.
  defaulted :
      (absent : Bool) (bs : Bytes) (m' : M)
      → (absent ≡ true → m ≡ m')
      → (absent ≡ false → Puts step m bs m')
      → Puts step m (if absent then [] else bs) m'
  defaulted true bs m' d h = subst (Puts step m []) (d refl) (Puts-none step m)
  defaulted false bs m' d h = h refl

  pub Puts-uint64 :
      (v : ℕ) (set : ℕ → M)
      → ((r : Reader) → step f wire_varint m r ≡ store set (Reader.varint_big r))
      → IsU64 v
      → m ≡ set 0
      → Puts step m (Field.number f v) (set v)
  Puts-uint64 v set e h d =
      defaulted (v == 0) (Field.present f v) (set v) (λ z. d ∙ ap set (sym (==→eq v 0 z)))
        (λ _. Puts-present v set e h)

  -- A uint32 or an enum.
  pub Puts-number :
      (v : ℕ) (set : ℕ → M)
      → ((r : Reader) → step f wire_varint m r ≡ store set (Reader.varint r))
      → IsSafe v
      → m ≡ set 0
      → Puts step m (Field.number f v) (set v)
  Puts-number v set e h d =
      defaulted (v == 0) (Field.present f v) (set v) (λ z. d ∙ ap set (sym (==→eq v 0 z)))
        λ _. taken wire_varint Reader.varint (u64_bytes v) v set (omega arith) e (varint-Finds v h)

  pub Puts-bool :
      (b : Bool) (set : Bool → M)
      → ((r : Reader) → step f wire_varint m r ≡ store set (Reader.bool r))
      → m ≡ set false
      → Puts step m (Field.bool f b) (set b)
  Puts-bool true set e d =
      taken wire_varint Reader.bool (1 ∷ []) true set (omega arith) e bool-Finds
  Puts-bool false set e d = subst (Puts step m []) d (Puts-none step m)

  pub Puts-bytes :
      (xs : Bytes) (set : Bytes → M)
      → ((r : Reader) → step f wire_len m r ≡ store set (Reader.bytes r))
      → IsSafe (length xs)
      → m ≡ set []
      → Puts step m (Field.bytes f xs) (set xs)
  Puts-bytes xs set e h d =
      defaulted (length xs == 0) (Field.message f xs) (set xs)
        (λ z. d ∙ ap set (sym (length-eq-zero xs (==→eq (length xs) 0 z))))
        λ _. taken wire_len Reader.bytes _ xs set (omega arith) e (bytes-Finds xs h)

  pub Puts-repeated_string :
      (s : Text) (set : Text → M)
      → ((r : Reader) → step f wire_len m r ≡ store set (Reader.string r))
      → IsText s
      → IsSafe (length (encode_utf8 s))
      → Puts step m (Field.repeated_string f s) (set s)
  Puts-repeated_string s set e t h =
      taken wire_len Reader.string _ s set (omega arith) e (string-Finds s t h)

  pub Puts-string :
      (s : Text) (set : Text → M)
      → ((r : Reader) → step f wire_len m r ≡ store set (Reader.string r))
      → IsText s
      → IsSafe (length (encode_utf8 s))
      → m ≡ set []
      → Puts step m (Field.string f s) (set s)
  Puts-string s set e t h d =
      defaulted (length s == 0) (Field.bytes f (encode_utf8 s)) (set s)
        (λ z. d ∙ ap set (sym (length-eq-zero s (==→eq (length s) 0 z))))
        λ _.
          defaulted (length (encode_utf8 s) == 0) (Field.message f (encode_utf8 s)) (set s)
            (λ z. d ∙ ap set (sym (empty-encode_utf8 s t (length-eq-zero _ (==→eq _ 0 z)))))
            λ _. Puts-repeated_string s set e t h

  -- A string that is known not to be empty, as an optional one must not be to be sent at all.
  pub Puts-set_string :
      (s : Text) (set : Text → M)
      → ((r : Reader) → step f wire_len m r ≡ store set (Reader.string r))
      → IsText s
      → IsSafe (length (encode_utf8 s))
      → s ≢ []
      → Puts step m (Field.string f s) (set s)
  Puts-set_string s set e t h ne =
      defaulted (length s == 0) (Field.bytes f (encode_utf8 s)) (set s)
        (λ z. absurd (ne (length-eq-zero s (==→eq (length s) 0 z))))
        λ _.
          defaulted (length (encode_utf8 s) == 0) (Field.message f (encode_utf8 s)) (set s)
            (λ z. absurd (ne (empty-encode_utf8 s t (length-eq-zero _ (==→eq _ 0 z)))))
            λ _. Puts-repeated_string s set e t h

  -- An embedded message that its own decoder gives back.
  pub Puts-message :
      {A : Type 0} (xs : Bytes) (decode : Reader → Result Fault A) (a : A) (set : A → M)
      → ((r : Reader) → step f wire_len m r ≡ store set (nested decode r))
      → decode (new_reader xs) ≡ ok a
      → IsSafe (length xs)
      → Puts step m (Field.message f xs) (set a)
  Puts-message xs decode a set e p h =
      taken wire_len (nested decode) _ a set (omega arith) e
        λ r rest u. let (r', u', q) = message-Finds xs h r rest u in (r', u', rw (q, p))

  -- An embedded message that is only skipped over.
  pub Puts-skipped :
      (xs : Bytes) (m' : M)
      → ((r : Reader) → step f wire_len m r ≡ store (λ _. m') (Reader.message r))
      → IsSafe (length xs)
      → Puts step m (Field.message f xs) m'
  Puts-skipped xs m' e h =
      taken wire_len Reader.message _ (new_reader xs) (λ _. m') (omega arith) e (message-Finds xs h)

-- A field that is written only if it has a value.
pub Puts-optional {ℓ} :
    {M : Type 0} {A : Type ℓ} (step : Step M) (P : A → Type 0) (field : A → Bytes) (m : M)
    (set : Option A → M)
    → m ≡ set none
    → ((x : A) → P x → Puts step m (field x) (set (some x)))
    → (o : Option A) → Given P o
    → Puts step m (Field.optional field o) (set o)
Puts-optional step P field m set d h none g = subst (Puts step m []) d (Puts-none step m)
Puts-optional step P field m set d h (some x) g = h x g

-- A repeated field: each element is one field, and is added behind those that are there.
pub Puts-each {ℓ} :
    {M : Type 0} {A : Type ℓ} (step : Step M) (P : A → Type 0) (field : A → Bytes)
    (set : List A → M)
    → ((done : List A) (x : A) → P x → Puts step (set done) (field x) (set (done ++ x ∷ [])))
    → (done xs : List A) → All P xs
    → Puts step (set done) (flat_map field xs) (set (done ++ xs))
unfolding flat_map
Puts-each step P field set h done [] a =
    subst (λ ys. Puts step (set done) [] (set ys)) (sym (append-nil done))
      (Puts-none step (set done))
Puts-each step P field set h done (x ∷ xs) a =
    subst (λ ys. Puts step (set done) (field x ++ flat_map field xs) (set ys))
      (append_assoc done (x ∷ []) xs)
      (Puts-then step (h done x a.0) (Puts-each step P field set h (done ++ x ∷ []) xs a.1))
