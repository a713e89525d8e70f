-- ===== src/Wire/Reader/Unread.antt =====
-- class Reader of src/proto/wire.ts over what the writer wrote, by the bytes that are unread.
use tephra_js.Base.{
  ℕ, zero, suc, ◌+◌, ◌*◌, ◌/◌, ◌%◌, ◌^◌, ◌<◌, ◌≤◌, ◌≡◌, refl, ap, ◌∙◌, true, false, bit_and, ltb,
  leb, ◌==◌, ok, [], ◌∷◌, ◌++◌, length, length-append, length-drop, get_or, drop,
  take-append_length, drop-append_length, append_assoc, arith, inl, inr, Bool-cases, ltb→lt, lt→ltb,
  le→ltb, drop-drop,
}
use native.Mathlib.Nat.{div-add-mod}
use native.Mathlib.Numerals.{towards_suc}
use tephra_js.Base.Bits.{and_mask, and_bit, shifted_or}
use tephra_js.Text.{Text, Bytes, encode_utf8, IsText}
use tephra_js.Text.RoundTrip.{decode_utf8_inverse}
use tephra_js.Wire.Number.{and-u64_mask, to_number, to_number_safe, IsSafe}
use tephra_js.Wire.Varint.{groups, length-groups}
use tephra_js.Wire.Field.{key, u64_bytes}
use tephra_js.Wire.Reader.{
  Reader, Reads, new_reader, advance, varint_loop, varint_big, tag, varint, bool, bytes, string,
  message,
}

abbrev pub unread : Reader → Bytes
unread r = drop r.pos r.buf

drop-cons :
    (xs : Bytes) (n b : ℕ) (bs : Bytes)
    → drop n xs ≡ b ∷ bs
    → (n < length xs) × (get_or xs n 0 ≡ b) × (drop (n + 1) xs ≡ bs)
drop-cons [] zero b bs e = cc
drop-cons [] (suc n) b bs e = cc
drop-cons (x ∷ xs) zero b bs e = ground arith
drop-cons (x ∷ xs) (suc n) b bs e = ground (arith, drop-cons xs n b bs)

-- `bs` is unread, and the position has not passed the end.
abbrev pub Faces : Bytes → Reader → Type 0
Faces bs r = (unread r ≡ bs) × (r.pos ≤ length r.buf)

-- The next byte, and the reader behind it.
pub next-byte :
    (r : Reader) (b : ℕ) (bs : Bytes)
    → unread r ≡ b ∷ bs
    → (leb (length r.buf) r.pos ≡ false) × (get_or r.buf r.pos 0 ≡ b) × Faces bs (advance 1 r)
next-byte r b bs e =
    let (h, g, u) = drop-cons r.buf r.pos b bs e in (ground arith, g, (u, omega arith))

-- `bs` can be read: from every reader that has them next, `f` gives `a` and stands behind them.
abbrev pub Finds : {A : Type 0} → Reads A → Bytes → A → Type 0
Finds {A} f bs a =
    (r : Reader) (rest : Bytes)
    → unread r ≡ bs ++ rest
    → (r' : Reader) × Faces rest r' × (f r ≡ ok (a, r'))

low_bits : (g : ℕ) → g < 128 → bit_and (g + 128) 0x7f ≡ g
low_bits g h = and_mask 7 (g + 128) ∙ omega arith

top_bit : (b : ℕ) → b < 256 → bit_and b 0x80 ≡ b / 128 * 128
top_bit b h = and_bit 7 b ∙ omega arith

module _ (fuel acc shift : ℕ) (r : Reader) (bs : Bytes) (below : acc < 2 ^ shift) where
  last_round :
      (b : ℕ)
      → b < 128
      → unread r ≡ b ∷ bs
      → varint_loop (suc fuel) acc shift r ≡ ok ((acc + b * 2 ^ shift) % 2 ^ 64, advance 1 r)
  unfolding varint_loop
  last_round b h e =
      let (more, byte, after) = next-byte r b bs e in
      rw (more, byte, top, low, shifted_or shift b acc below, and-u64_mask (acc + b * 2 ^ shift))
    where
      top : (bit_and b 0x80 == 0) ≡ true
      top = rw (top_bit b (omega arith)) (ground arith)

      low : bit_and b 0x7f ≡ b
      low = and_mask 7 b ∙ omega arith

  inner_round :
      (g : ℕ)
      → g < 128
      → unread r ≡ (g + 128) ∷ bs
      → varint_loop (suc fuel) acc shift r
        ≡ varint_loop fuel (acc + g * 2 ^ shift) (shift + 7) (advance 1 r)
  unfolding varint_loop
  inner_round g h e =
      let (more, byte, after) = next-byte r (g + 128) bs e in
      rw (more, byte, top, low_bits g h, shifted_or shift g acc below)
    where
      top : (bit_and (g + 128) 0x80 == 0) ≡ false
      top = rw (top_bit (g + 128) (omega arith)) (ground arith)

shift_seven : (s : ℕ) → 2 ^ (s + 7) ≡ 128 * 2 ^ s
shift_seven s = simp towards_suc (omega arith)

-- What a round leaves to be read weighs as much as what it has taken.
split_group : (acc v s : ℕ) → acc + v % 128 * 2 ^ s + v / 128 * 2 ^ (s + 7) ≡ acc + v * 2 ^ s
split_group acc v s =
    omega (arith, ap (λ t. v / 128 * t) (shift_seven s), ap (λ t. t * 2 ^ s) (div-add-mod v 128))

stays_below : (acc g s : ℕ) → acc < 2 ^ s → g < 128 → acc + g * 2 ^ s < 2 ^ (s + 7)
stays_below acc g s h k = grind (arith, shift_seven s)

shorter :
    (k v fuel : ℕ)
    → ltb v 128 ≡ false
    → length (groups (suc (suc k)) v) ≤ suc fuel
    → length (groups (suc k) (v / 128)) ≤ fuel
shorter k v fuel more h = unfold groups in ground arith

varint_loop-Finds :
    (k fuel v acc shift : ℕ) (r : Reader) (rest : Bytes)
    → v < 128 ^ suc k
    → acc < 2 ^ shift
    → length (groups (suc k) v) ≤ fuel
    → unread r ≡ groups (suc k) v ++ rest
    → (r' : Reader) × Faces rest r'
      × (varint_loop fuel acc shift r ≡ ok ((acc + v * 2 ^ shift) % 2 ^ 64, r'))
varint_loop-Finds k zero v acc shift r rest hv ha hf e =
    absurd (omega (arith, (length-groups (suc k) v).1 (omega arith)))
varint_loop-Finds zero (suc fuel) v acc shift r rest hv ha hf e =
    let e' : unread r ≡ v ∷ rest = e ∙ (unfold groups in rw (lt→ltb v 128 (omega arith))) in
    (advance 1 r, (next-byte r v rest e').2, last_round fuel acc shift r rest ha v (omega arith) e')
varint_loop-Finds (suc k) (suc fuel) v acc shift r rest hv ha hf e = elim (Bool-cases (ltb v 128)) [
  | inl last ↦
      let e' : unread r ≡ v ∷ rest = e ∙ (unfold groups in rw last) in
      (
        advance 1 r,
        (next-byte r v rest e').2,
        last_round fuel acc shift r rest ha v (ltb→lt v 128 last) e',
      )
  | inr more ↦
      let g = v % 128 in
      let tail = groups (suc k) (v / 128) ++ rest in
      let e' : unread r ≡ (g + 128) ∷ tail = e ∙ (unfold groups in rw more) in
      let (r', after, found) =
        varint_loop-Finds k fuel (v / 128) (acc + g * 2 ^ shift) (shift + 7) (advance 1 r) rest
          (omega arith) (stays_below acc g shift ha (omega arith)) (shorter k v fuel more hf)
          (next-byte r (g + 128) tail e').2.0 in
      (
        r',
        after,
        inner_round fuel acc shift r tail ha g (omega arith) e'
            ∙ found
            ∙ ap (λ n. ok (n % 2 ^ 64, r')) (split_group acc v shift),
      )
]

-- A buffer with `n` unread bytes is at least that long.
unread_bound : (r : Reader) (bs rest : Bytes) → unread r ≡ bs ++ rest → length bs ≤ length r.buf
unread_bound r bs rest e =
    omega (arith, ap length e, length-append bs rest, length-drop r.pos r.buf)

pub varint_big-Finds : (v : ℕ) → Finds varint_big (u64_bytes v) (v % 2 ^ 64)
unfolding varint_big
varint_big-Finds v r rest e =
    let (r', after, found) =
      varint_loop-Finds 9 (suc (length r.buf)) (v % 2 ^ 64) 0 0 r rest (omega arith) (omega arith)
        (omega (arith, unread_bound r (u64_bytes v) rest e)) e in
    (r', after, found ∙ ap (λ n. ok (n, r')) (omega arith))

-- One byte below 128 is a number by itself.
small-Finds : (b : ℕ) → b < 128 → Finds varint_big (b ∷ []) b
small-Finds b h r rest e =
    let (r', after, found) = varint_big-Finds b r rest (e ∙ (unfold groups in ground arith)) in
    (r', after, found ∙ ap (λ n. ok (n, r')) (omega arith))

pub tag-Finds : (f t : ℕ) → f < 16 → t < 8 → Finds tag (key f t ∷ []) (f, t)
unfolding tag
tag-Finds f t hf ht r rest e =
    let (r', after, found) = small-Finds (key f t) (omega arith) r rest e in
    (
      r',
      after,
      rw (found, to_number_safe (key f t) (omega arith), and_mask 3 (key f t % 2 ^ 32))
          (ground arith),
    )

pub varint-Finds : (v : ℕ) → IsSafe v → Finds varint (u64_bytes v) v
unfolding varint
varint-Finds v h r rest e =
    let (r', after, found) = varint_big-Finds v r rest e in (r', after, rw (found, number) refl)
  where
    number : to_number (v % 2 ^ 64) ≡ v
    number = to_number_safe (v % 2 ^ 64) (omega arith) ∙ omega arith

pub bool-Finds : Finds bool (1 ∷ []) true
unfolding bool
bool-Finds r rest e =
    let (r', after, found) = small-Finds 1 (omega arith) r rest e in (r', after, rw found)

-- A block of bytes behind its length.
pub bytes-Finds : (xs : Bytes) → IsSafe (length xs) → Finds bytes (u64_bytes (length xs) ++ xs) xs
unfolding bytes
bytes-Finds xs h r rest e =
    let n = length xs in
    let (r', (after, inside), found) =
      varint_big-Finds n r (xs ++ rest) (e ∙ append_assoc (u64_bytes n) xs rest) in
    (
      advance n r',
      (gone r' after, fits r' after inside),
      rw (found, number, le→ltb (length r'.buf) (r'.pos + n) (fits r' after inside), after)
          (ap (λ v. ok (v, advance n r')) (take-append_length xs rest)),
    )
  where
    number : to_number (length xs % 2 ^ 64) ≡ length xs
    number = to_number_safe (length xs % 2 ^ 64) (omega arith) ∙ omega arith

    fits :
        (r' : Reader)
        → unread r' ≡ xs ++ rest
        → r'.pos ≤ length r'.buf
        → r'.pos + length xs ≤ length r'.buf
    fits r' after inside =
        omega (arith, ap length after, length-append xs rest, length-drop r'.pos r'.buf)

    gone : (r' : Reader) → unread r' ≡ xs ++ rest → drop (r'.pos + length xs) r'.buf ≡ rest
    gone r' after =
        drop-drop (length xs) r'.pos r'.buf
        ∙ ap (drop (length xs)) after
        ∙ drop-append_length xs rest

pub string-Finds :
    (s : Text)
    → IsText s
    → IsSafe (length (encode_utf8 s))
    → Finds string (u64_bytes (length (encode_utf8 s)) ++ encode_utf8 s) s
unfolding string
string-Finds s t h r rest e =
    let (r', after, found) = bytes-Finds (encode_utf8 s) h r rest e in
    (r', after, rw (found, decode_utf8_inverse s t))

pub message-Finds :
    (xs : Bytes) → IsSafe (length xs) → Finds message (u64_bytes (length xs) ++ xs) (new_reader xs)
unfolding message
message-Finds xs h r rest e =
    let (r', after, found) = bytes-Finds xs h r rest e in (r', after, rw found)
