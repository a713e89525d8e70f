-- ===== src/Wire/Fields/Total.antt =====
-- The loops of the reader and of the decoders on any bytes, well formed or not, and their fuel.
use tephra_js.Base.{
  ℕ, zero, suc, ◌+◌, ◌≤◌, ◌<◌, ◌≡◌, ◌≢◌, refl, ap, ◌∙◌, Bool, true, false, Result, ok, err, ◌>>=◌,
  length, if◌then◌else◌, arith, ◌==◌, ltb, get_or, bit_and,
}
use tephra_js.Wire.Number.{wire_varint, wire_fixed64, wire_len, wire_fixed32, to_number}
use tephra_js.Wire.Fields.{Step, store, nested, skipping, fields, decode_fields}
use tephra_js.Wire.Reader.{
  Reader, Fault, Reads, out_of_fuel, done, advance, varint_loop, new_reader,
}
use tephra_js.Wire.Reader

-- The call did not run out of fuel.
pub data Settled {A : Type 0} : Result Fault A → Type 0 where
  value : (a : A) → Settled (ok a)
  thrown : {e : Fault} → e ≢ out_of_fuel → Settled (err e)

-- Nor did this one, which leaves the buffer and moves `n` bytes on at least.
pub data Moves {A : Type 0} (n : ℕ) (r : Reader) : Result Fault (A × Reader) → Type 0 where
  goes : (a : A) (r' : Reader) → r'.buf ≡ r.buf → r.pos + n ≤ r'.pos → Moves n r (ok (a, r'))
  stops : {e : Fault} → e ≢ out_of_fuel → Moves n r (err e)

further :
    {A : Type 0} (m n k : ℕ) {r r' : Reader} {s : Result Fault (A × Reader)}
    → r'.buf ≡ r.buf
    → r.pos + m ≤ r'.pos
    → k ≤ m + n
    → Moves n r' s
    → Moves k r s
further m n k b p h (goes a r'' c q) = goes a r'' (c ∙ b) (omega arith)
further m n k b p h (stops e) = stops e

Moves-bind :
    {A B : Type 0} {n : ℕ} {r : Reader} {f : Result Fault (A × Reader)}
    (g : A × Reader → Result Fault (B × Reader))
    → Moves n r f
    → ((a : A) (r' : Reader) → Moves 0 r' (g (a, r')))
    → Moves n r (f >>= g)
Moves-bind g (stops h) k = stops h
Moves-bind {n = n} g (goes a r' b p) k = further n 0 n b p (omega arith) (k a r')

pub if-Moves :
    {A : Type 0} {n : ℕ} {r : Reader} (b : Bool) {x y : Result Fault (A × Reader)}
    → (b ≡ true → Moves n r x)
    → (b ≡ false → Moves n r y)
    → Moves n r (if b then x else y)
if-Moves true h k = h refl
if-Moves false h k = k refl

ok-Moves :
    {A : Type 0} {n : ℕ} {r : Reader} (k : ℕ) (a : A) → n ≤ k → Moves n r (ok (a, advance k r))
ok-Moves k a h = goes a _ refl (omega arith)

varint_truncated-ne : Reader.varint_truncated ≢ out_of_fuel
varint_truncated-ne e = cc

field_truncated-ne : Reader.field_truncated ≢ out_of_fuel
field_truncated-ne e = cc

unsupported-ne : (w : ℕ) → Reader.unsupported_wire_type w ≢ out_of_fuel
unsupported-ne w e = cc

varint_loop-Moves :
    (fuel result shift : ℕ) (r : Reader)
    → 0 < fuel
    → length r.buf < fuel + r.pos
    → Moves 1 r (varint_loop fuel result shift r)
unfolding varint_loop
varint_loop-Moves zero result shift r p h = elim p [ ]
varint_loop-Moves (suc fuel) result shift r p h =
    if-Moves (done r) (λ _. stops varint_truncated-ne)
      λ more.
        if-Moves (bit_and (get_or r.buf r.pos 0) 0x80 == 0) (λ _. ok-Moves 1 _ (omega arith))
          λ _.
            further 1 1 1 refl (omega arith) (omega arith)
              (varint_loop-Moves fuel _ (shift + 7) (advance 1 r) (ground arith) (ground arith))

pub varint_big-Moves : (r : Reader) → Moves 1 r (Reader.varint_big r)
unfolding Reader.varint_big
varint_big-Moves r = varint_loop-Moves (suc (length r.buf)) 0 0 r (omega arith) (omega arith)

pub tag-Moves : (r : Reader) → Moves 1 r (Reader.tag r)
unfolding Reader.tag
tag-Moves r = Moves-bind _ (varint_big-Moves r) λ v r'. goes _ r' refl (omega arith)

pub varint-Moves : (r : Reader) → Moves 1 r (Reader.varint r)
unfolding Reader.varint
varint-Moves r = Moves-bind _ (varint_big-Moves r) λ v r'. goes _ r' refl (omega arith)

pub bool-Moves : (r : Reader) → Moves 1 r (Reader.bool r)
unfolding Reader.bool
bool-Moves r = Moves-bind _ (varint_big-Moves r) λ v r'. goes _ r' refl (omega arith)

pub bytes-Moves : (r : Reader) → Moves 1 r (Reader.bytes r)
unfolding Reader.bytes
bytes-Moves r = Moves-bind _ (varint_big-Moves r) λ v r'.
    if-Moves (ltb (length r'.buf) (r'.pos + to_number v)) (λ _. stops field_truncated-ne)
      λ _. ok-Moves (to_number v) _ (omega arith)

pub string-Moves : (r : Reader) → Moves 1 r (Reader.string r)
unfolding Reader.string
string-Moves r = Moves-bind _ (bytes-Moves r) λ v r'. goes _ r' refl (omega arith)

pub message-Moves : (r : Reader) → Moves 1 r (Reader.message r)
unfolding Reader.message
message-Moves r = Moves-bind _ (bytes-Moves r) λ v r'. goes _ r' refl (omega arith)

weaken : {A : Type 0} {r : Reader} {s : Result Fault (A × Reader)} → Moves 1 r s → Moves 0 r s
weaken (goes a r' b p) = goes a r' b (omega arith)
weaken (stops h) = stops h

data Skips (r : Reader) : Result Fault Reader → Type 0 where
  past : (r' : Reader) → r'.buf ≡ r.buf → r.pos ≤ r'.pos → Skips r (ok r')
  fails : {e : Fault} → e ≢ out_of_fuel → Skips r (err e)

if-Skips :
    {r : Reader} (b : Bool) {x y : Result Fault Reader}
    → Skips r x
    → Skips r y
    → Skips r (if b then x else y)
if-Skips true h k = h
if-Skips false h k = k

after_varint :
    {r : Reader} {s : Result Fault (ℕ × Reader)} (to : ℕ × Reader → Reader)
    → ((v : ℕ) (r' : Reader) → ((to (v, r')).buf ≡ r'.buf) × (r'.pos ≤ (to (v, r')).pos))
    → Moves 1 r s
    → Skips r (s >>= λ p. ok (to p))
after_varint to on (goes v r' b p) = past _ ((on v r').0 ∙ b) (omega (arith, (on v r').1))
after_varint to on (stops h) = fails h

skip-Skips : (wire_type : ℕ) (r : Reader) → Skips r (Reader.skip wire_type r)
unfolding Reader.skip
skip-Skips wire_type r =
    if-Skips (wire_type == wire_varint)
      (after_varint (λ p. p.1) (λ v r'. (refl, omega arith)) (varint_big-Moves r))
      (if-Skips (wire_type == wire_fixed64) (past (advance 8 r) refl (omega arith)) (
        if-Skips (wire_type == wire_len)
          (after_varint (λ p. advance (to_number p.0) p.1) (λ v r'. (refl, omega arith))
            (varint_big-Moves r))
          (if-Skips (wire_type == wire_fixed32) (past (advance 4 r) refl (omega arith))
            (fails (unsupported-ne wire_type)))))

-- The branches of a message's switch.
module _ {M : Type 0} where
  pub store-Moves :
      {A : Type 0} (set : A → M) {r : Reader} {s : Result Fault (A × Reader)}
      → Moves 1 r s
      → Moves 0 r (store set s)
  store-Moves set m = Moves-bind _ (weaken m) λ a r'. goes _ r' refl (omega arith)

  pub nested-Moves :
      {A : Type 0} (decode : Reader → Result Fault A) (set : A → M) (r : Reader)
      → ((sub : Reader) → Settled (decode sub))
      → Moves 0 r (store set (nested decode r))
  nested-Moves decode set r h =
      store-Moves set (Moves-bind _ (message-Moves r) λ body r'. inner (decode body) r' (h body))
    where
      inner :
          {A : Type 0} (s : Result Fault A) (r' : Reader)
          → Settled s
          → Moves 0 r' (s >>= λ a. ok (a, r'))
      inner s r' (value a) = goes a r' refl (omega arith)
      inner s r' (thrown e) = stops e

  pub skipping-Moves : (wire_type : ℕ) (m : M) (r : Reader) → Moves 0 r (skipping wire_type m r)
  skipping-Moves wire_type m r = kept (Reader.skip wire_type r) (skip-Skips wire_type r)
    where
      kept : (s : Result Fault Reader) → Skips r s → Moves 0 r (s >>= λ r'. ok (m, r'))
      kept s (past r' b p) = goes m r' b (omega arith)
      kept s (fails h) = stops h

if-Settled :
    {A : Type 0} (b : Bool) {x y : Result Fault A}
    → (b ≡ true → Settled x)
    → (b ≡ false → Settled y)
    → Settled (if b then x else y)
if-Settled true h k = h refl
if-Settled false h k = k refl

Settled-bind :
    {A B : Type 0} {n : ℕ} {r : Reader} {s : Result Fault (A × Reader)}
    (g : A × Reader → Result Fault B)
    → Moves n r s
    → ((a : A) (r' : Reader) → r'.buf ≡ r.buf → r.pos + n ≤ r'.pos → Settled (g (a, r')))
    → Settled (s >>= g)
Settled-bind g (goes a r' b p) k = k a r' b p
Settled-bind g (stops h) k = thrown h

-- A switch that moves forward makes a loop that ends.
module _ {M : Type 0} (step : Step M)
    (forward : (f t : ℕ) (m : M) (r : Reader) → Moves 0 r (step f t m r)) where
  fields-Settled :
      (fuel : ℕ) (m : M) (r : Reader)
      → 0 < fuel
      → length r.buf < fuel + r.pos
      → Settled (fields step fuel m r)
  unfolding fields
  fields-Settled zero m r p h = elim p [ ]
  fields-Settled (suc fuel) m r p h =
      if-Settled (done r) (λ _. value m)
        λ more. Settled-bind _ (tag-Moves r) λ (f, t) r' b q.
          Settled-bind _ (forward f t m r')
            λ m' r'' c s. fields-Settled fuel m' r'' (ground arith) (settle more b q c s)
    where
      settle :
          {r' r'' : Reader}
          → done r ≡ false
          → r'.buf ≡ r.buf
          → r.pos + 1 ≤ r'.pos
          → r''.buf ≡ r'.buf
          → r'.pos + 0 ≤ r''.pos
          → length r''.buf < fuel + r''.pos
      settle more b q c s = omega (arith, ap length b, ap length c)

  pub decode_fields-Settled : (m : M) (r : Reader) → Settled (decode_fields step m r)
  unfolding decode_fields
  decode_fields-Settled m r = fields-Settled (suc (length r.buf)) m r (omega arith) (omega arith)
