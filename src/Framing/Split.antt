-- ===== src/Framing/Split.antt =====
-- A reference for FrameDecoder of src/framing.ts, which takes frames off the front of a stream.
use tephra_js.Base.{
  ℕ, zero, suc, ◌-◌, ◌<◌, ◌≡◌, refl, ap, List, [], ◌∷◌, ltb, if◌then◌else◌, Result, ok, err, ◌>>=◌,
  length, take, drop, length-drop, arith, inl, inr, ◌⊎◌,
}
use tephra_js.Text.{Bytes}
use tephra_js.Framing.{FrameError, frame_too_large, out_of_fuel, read_u32_be}

-- What stands at the front of a stream.
pub data Front : Type 0 where
  waiting : Front
  oversized : ℕ → Front
  whole : Bytes → Bytes → Front

unfoldable pub front : ℕ → Bytes → Front
front max stream =
    let len = read_u32_be stream 0 in
    if ltb (length stream) 4
    then waiting
    else if ltb max len
    then oversized len
    else if ltb (length stream - 4) len
    then waiting
    else whole (take len (drop 4 stream)) (drop len (drop 4 stream))

-- The frames of a stream, and what is left of it.
abbrev pub prepend :
    Bytes → Result FrameError (List Bytes × Bytes) → Result FrameError (List Bytes × Bytes)
prepend body r = do (frames, left) ← r; ok (body ∷ frames, left)

abbrev pub split_front :
    (Bytes → Result FrameError (List Bytes × Bytes))
    → ℕ
    → Bytes
    → Front
    → Result FrameError (List Bytes × Bytes)
split_front more max stream waiting = ok ([], stream)
split_front more max stream (oversized len) = err (frame_too_large len max)
split_front more max stream (whole body left) = prepend body (more left)

unfoldable pub split_in : ℕ → ℕ → Bytes → Result FrameError (List Bytes × Bytes)
split_in zero max stream = err out_of_fuel
split_in (suc fuel) max stream = split_front (split_in fuel max) max stream (front max stream)

unfoldable pub split : ℕ → Bytes → Result FrameError (List Bytes × Bytes)
unfolding split_in
split max stream = split_in (suc (length stream)) max stream

-- A whole frame leaves a shorter stream.
pub front_shrinks :
    (max : ℕ) (stream body left : Bytes)
    → front max stream ≡ whole body left
    → length left < length stream
unfolding front
front_shrinks max stream body left e =
    ground (arith, length-drop (read_u32_be stream 0) (drop 4 stream), length-drop 4 stream)

pub Front-cases :
    (f : Front)
    → (f ≡ waiting) ⊎ ((len : ℕ) × (f ≡ oversized len)) ⊎ ((b l : Bytes) × (f ≡ whole b l))
Front-cases waiting = inl refl
Front-cases (oversized len) = inr (inl (len, refl))
Front-cases (whole b l) = inr (inr (b, l, refl))

-- Any fuel above the length of the stream gives the same.
pub split_fuel :
    (f g max : ℕ) (stream : Bytes)
    → length stream < f
    → length stream < g
    → split_in f max stream ≡ split_in g max stream
unfolding split_in
split_fuel zero g max stream h k = elim h [ ]
split_fuel (suc f) zero max stream h k = elim k [ ]
split_fuel (suc f) (suc g) max stream h k = elim (Front-cases (front max stream)) [
  | inl e ↦ rw e
  | inr (inl (len, e)) ↦ rw e
  | inr (inr (b, l, e)) ↦
      let short = front_shrinks max stream b l e in
      rw e (ap (prepend b) (split_fuel f g max l (omega arith) (omega arith)))
]

-- The reference by its cases, with no fuel in sight.
pub split_lem :
    (max : ℕ) (stream : Bytes)
    → split max stream ≡ split_front (split max) max stream (front max stream)
unfolding split
split_lem max stream = elim (Front-cases (front max stream)) [
  | inl e ↦ rw e
  | inr (inl (len, e)) ↦ rw e
  | inr (inr (b, l, e)) ↦
      let short = front_shrinks max stream b l e in
      rw e (ap (prepend b) (split_fuel (length stream) (suc (length l)) max l short (omega arith)))
]
