-- ===== src/Wire/Writer/Appends.antt =====
-- The growable buffer of src/proto/wire.ts seen from outside: its room, and the bytes written.
use tephra_js.Base.{
  ℕ, zero, suc, ◌+◌, ◌*◌, ◌%◌, ◌≤◌, ◌<◌, ◌≡◌, refl, ap, ◌∙◌, [], ◌∷◌, ◌++◌, append-nil,
  append_assoc, leb, length, replicate, take, length-replicate, length-take, arith, sym, inl, inr,
  Bool-cases,
}
use tephra_js.Text.{Bytes}
use tephra_js.Wire.Writer.{Writer, new_writer, grow, blit, reserve, push_byte, put_all, finish}

pub record IsValid (w : Writer) : Type 0 where
  pub fits : w.len ≤ length w.buf
  pub room : 0 < length w.buf

-- From a capacity above zero the doubling loop of reserve reaches the room that is needed within as
-- many rounds as the capacity falls short of it, and does not shrink the capacity.
pub grow_enough :
    (fuel cap needed : ℕ)
    → 0 < cap
    → needed ≤ fuel + cap
    → (needed ≤ grow fuel cap needed) × (cap ≤ grow fuel cap needed)
unfolding grow
grow_enough zero cap needed h k = omega arith
grow_enough (suc fuel) cap needed h k = ground (arith, grow_enough fuel (cap * 2) needed)

-- From capacity zero it never ends: no number of rounds brings it to its exit.
pub grow_stuck : (fuel needed : ℕ) → grow fuel 0 needed ≡ 0
unfolding grow
grow_stuck zero needed = refl
grow_stuck (suc fuel) needed = ground (arith, grow_stuck fuel needed)

length-blit :
    (buf : Bytes) (offset : ℕ) (source : Bytes) → length (blit buf offset source) ≡ length buf
unfolding blit
length-blit [] offset source = refl
length-blit (b ∷ bs) (suc offset) source = ap suc (length-blit bs offset source)
length-blit (b ∷ bs) zero [] = refl
length-blit (b ∷ bs) zero (x ∷ xs) = ap suc (length-blit bs zero xs)

take-blit :
    (buf : Bytes) (offset : ℕ) (source : Bytes) (n : ℕ)
    → n ≡ offset + length source
    → n ≤ length buf
    → take n (blit buf offset source) ≡ take offset buf ++ source
unfolding blit
take-blit [] zero [] zero e h = refl
take-blit [] zero (x ∷ xs) zero e h = absurd (omega arith)
take-blit [] (suc offset) source zero e h = absurd (omega arith)
take-blit [] offset source (suc n) e h = elim h [ ]
take-blit (b ∷ bs) zero [] zero e h = refl
take-blit (b ∷ bs) zero [] (suc n) e h = absurd (omega arith)
take-blit (b ∷ bs) zero (x ∷ xs) zero e h = absurd (omega arith)
take-blit (b ∷ bs) zero (x ∷ xs) (suc n) e h =
    ap (◌∷◌ x) (take-blit bs zero xs n (omega arith) (omega arith))
take-blit (b ∷ bs) (suc offset) source zero e h = absurd (omega arith)
take-blit (b ∷ bs) (suc offset) source (suc n) e h =
    ap (◌∷◌ b) (take-blit bs offset source n (omega arith) (omega arith))

-- `reserve` makes room for `extra` bytes and keeps what is written.
pub record Reserved (extra : ℕ) (w r : Writer) : Type 0 where
  pub same : r.len ≡ w.len
  pub kept : finish r ≡ finish w
  pub space : r.len + extra ≤ length r.buf
  pub room : 0 < length r.buf

pub reserve-Reserved : (extra : ℕ) (w : Writer) → IsValid w → Reserved extra w (reserve extra w)
unfolding reserve finish
reserve-Reserved extra w v = elim (Bool-cases (leb (w.len + extra) (length w.buf))) [
  | inl enough ↦
      rw enough (record { same = refl; kept = refl; space = ground arith; room = v.room })
  | inr short ↦ rw short (record {
    same = refl;
    kept = take-blit next 0 (take w.len w.buf) w.len written (omega (arith, wide, grown));
    space = omega (arith, length-blit next 0 (take w.len w.buf), wide, grown);
    room = omega (arith, length-blit next 0 (take w.len w.buf), wide, grown, v.room);
  })
]
  where
    needed : ℕ
    needed = w.len + extra

    cap : ℕ
    cap = grow needed (length w.buf * 2) needed

    next : Bytes
    next = replicate cap 0

    wide : length next ≡ cap
    wide = length-replicate cap 0

    grown : (needed ≤ cap) × (length w.buf * 2 ≤ cap)
    grown = grow_enough needed (length w.buf * 2) needed (omega (arith, v.room)) (omega arith)

    written : w.len ≡ 0 + length (take w.len w.buf)
    written = omega (arith, length-take w.len w.buf v.fits)

-- From `w` to `r` the bytes `xs` are added.
pub record Appends (xs : Bytes) (w r : Writer) : Type 0 where
  pub added : IsValid w → IsValid r × (finish r ≡ finish w ++ xs)

pub Appends-none : (w : Writer) → Appends [] w w
Appends-none w = record { added = λ v. (v, sym (append-nil (finish w))) }

pub Appends-then :
    {xs ys : Bytes} {w r s : Writer} → Appends xs w r → Appends ys r s → Appends (xs ++ ys) w s
Appends-then {xs} {ys} {w} f g = record {
  added = λ v.
      let (vr, er) = f.added v in
      let (vs, es) = g.added vr in (vs, es ∙ ap (λ t. t ++ ys) er ∙ append_assoc (finish w) xs ys);
}

written-Appends :
    (xs : Bytes) (w r : Writer)
    → Reserved (length xs) w r
    → IsValid (record { buf = blit r.buf r.len xs; len = r.len + length xs })
      × (finish (record { buf = blit r.buf r.len xs; len = r.len + length xs }) ≡ finish w ++ xs)
unfolding finish
written-Appends xs w r d = (
  record {
    fits = omega (arith, length-blit r.buf r.len xs, d.space);
    room = omega (arith, length-blit r.buf r.len xs, d.room);
  },
  take-blit r.buf r.len xs (r.len + length xs) refl d.space ∙ ap (λ t. t ++ xs) d.kept,
)

pub push_byte-Appends : (b : ℕ) (w : Writer) → Appends (b % 256 ∷ []) w (push_byte b w)
unfolding push_byte
push_byte-Appends b w = record {
  added = λ v. written-Appends (b % 256 ∷ []) w (reserve 1 w) (reserve-Reserved 1 w v);
}

pub put_all-Appends : (xs : Bytes) (w : Writer) → Appends xs w (put_all xs w)
unfolding put_all
put_all-Appends xs w = record {
  added = λ v. written-Appends xs w (reserve (length xs) w) (reserve-Reserved (length xs) w v);
}

-- A new writer has room if its capacity is above zero, and nothing is written.
pub new_writer-IsValid : (capacity : ℕ) → 0 < capacity → IsValid (new_writer capacity)
unfolding new_writer
new_writer-IsValid capacity h = record {
  fits = omega arith;
  room = omega (arith, length-replicate capacity (zero));
}

pub finish-new_writer : (capacity : ℕ) → finish (new_writer capacity) ≡ []
unfolding finish new_writer
finish-new_writer capacity = refl

-- What `finish` gives after writing to a new writer.
pub finish-Appends : {xs : Bytes} {w : Writer} → Appends xs (new_writer 64) w → finish w ≡ xs
finish-Appends {xs} h =
    (h.added (new_writer-IsValid 64 (omega arith))).1 ∙ ap (λ t. t ++ xs) (finish-new_writer 64)
