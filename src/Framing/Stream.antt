-- ===== src/Framing/Stream.antt =====
-- writeFrame and FrameDecoder of src/framing.ts on whole streams of frames.
use tephra_js.Base.{
  ℕ, zero, suc, ◌+◌, ◌^◌, ◌<◌, ◌≤◌, ◌≡◌, refl, ap, sym, ◌∙◌, List, [], ◌∷◌, ◌++◌, append-nil,
  append_assoc, Result, ok, err, ◌>>=◌, bind-eq-ok, length, All, take-append_length,
  drop-append_length, length-append, arith, inl, inr,
}
use mathlib.Core.List.{flat_map, flatten}
use tephra_js.Text.{Bytes}
use tephra_js.Framing.{
  FrameError, frame_too_large, read_u32_be, FrameDecoder, new_decoder, push, write_frame,
}
use tephra_js.Framing.Header.{header, read_u32_be-header, write_frame_cases}
use tephra_js.Framing.Split.{
  Front-cases, waiting, oversized, whole, front, front_shrinks, split, split_lem, prepend,
}
use tephra_js.Framing.Loop.{delivered, push-split}
use tephra_js.Framing.Chunks.{
  feed, feed-split, prepend_all, prepend_all-nil, prepend-prepend_all, prepend_all-eq-ok,
}

-- The stream of a list of bodies, each behind its prefix.
abbrev pub framed : Bytes → Bytes
framed body = header (length body) ++ body

front-framed :
    (max : ℕ) (body rest : Bytes)
    → length body ≤ max
    → length body < 2 ^ 32
    → front max (framed body ++ rest) ≡ whole body rest
unfolding front
front-framed max body rest h k =
    let r : read_u32_be (header (length body) ++ (body ++ rest)) 0 ≡ length body =
      read_u32_be-header (length body) (body ++ rest) ∙ omega arith in
    ground (
      arith,
      r,
      length-append body rest,
      take-append_length body rest,
      drop-append_length body rest,
    )

split-framed :
    (max : ℕ) (bodies : List Bytes) (tail : Bytes)
    → All (λ b. (length b ≤ max) × (length b < 2 ^ 32)) bodies
    → split max (flat_map framed bodies ++ tail) ≡ prepend_all bodies (split max tail)
unfolding flat_map
split-framed max [] tail h = prepend_all-nil (split max tail)
split-framed max (b ∷ bs) tail h =
    ap (split max) (append_assoc (framed b) (flat_map framed bs) tail)
    ∙ split_lem max (framed b ++ (flat_map framed bs ++ tail))
    ∙ rw (front-framed max b (flat_map framed bs ++ tail) h.0.0 h.0.1)
        (ap (prepend b) (split-framed max bs tail h.1) ∙ prepend-prepend_all b bs (split max tail))

split_nil : (max : ℕ) → split max [] ≡ ok ([], [])
split_nil max = split_lem max [] ∙ unfold front in refl

-- `write_frame` on each body in turn; the first that is refused ends it.
unfoldable pub write_frames : ℕ → List Bytes → Result FrameError Bytes
write_frames max [] = ok []
write_frames max (body ∷ bodies) = do
  frame ← write_frame body max
  rest ← write_frames max bodies
  ok (frame ++ rest)

err-ne-ok : {e : FrameError} {b : Bytes} → ¬ (err e ≡ ok b)
err-ne-ok e = cc

ok-injective : {a b : Bytes} → ◌≡◌ {A = Result FrameError Bytes} (ok a) (ok b) → a ≡ b
ok-injective e = cc

write_frames-framed :
    (max : ℕ) (bodies : List Bytes) (stream : Bytes)
    → write_frames max bodies ≡ ok stream
    → All (λ b. length b < 2 ^ 32) bodies
    → (stream ≡ flat_map framed bodies) × All (λ b. (length b ≤ max) × (length b < 2 ^ 32)) bodies
unfolding write_frames flat_map
write_frames-framed max [] stream e h = (ground arith, tt)
write_frames-framed max (b ∷ bs) stream e h =
    let (frame, more, f) = bind-eq-ok (write_frame b max) _ e in
    let (rest, q, r) = bind-eq-ok (write_frames max bs) _ more in
    let (p, fits) = write_frames-framed max bs rest r h.1 in
    elim (write_frame_cases b max) [
      | inl (over, refused) ↦ absurd (err-ne-ok (sym refused ∙ f))
      | inr (small, written) ↦ (
        sym (ok-injective q)
            ∙ ap (λ t. frame ++ t) p
            ∙ ap (λ t. t ++ flat_map framed bs) (sym (ok-injective (sym written ∙ f))),
        ((small, h.0), fits),
      )
    ]

-- When write_frames frames some bodies of fewer than 2^32 bytes each, and its output is cut into
-- chunks in any way, a new decoder fed these chunks yields exactly these bodies, in order, and ends
-- with an empty buffer.
pub feed-write_frames :
    (max : ℕ) (bodies chunks : List Bytes)
    → write_frames max bodies ≡ ok (flatten chunks)
    → All (λ b. length b < 2 ^ 32) bodies
    → feed (new_decoder max) chunks ≡ (new_decoder max, ok bodies)
unfolding new_decoder
feed-write_frames max bodies chunks e h =
    let (p, fits) = write_frames-framed max bodies (flatten chunks) e h in
    feed-split chunks (record { max_frame_len = max; buffer = [] }) bodies [] (split_nil max)
      (ap (split max) (p ∙ sym (append-nil _))
        ∙ split-framed max bodies [] fits
        ∙ ap (prepend_all bodies) (split_nil max)
        ∙ ap (λ bs. ok (bs, [])) (append-nil bodies))

-- When a new decoder is given one chunk that holds the frames of some bodies of fewer than 2^32
-- bytes each, as write_frame makes them, and behind them a prefix above the maximum, push throws
-- for the prefix, returns none of the frames in front of it, and keeps the whole chunk in the
-- buffer.
pub push-oversized :
    (max : ℕ) (bodies : List Bytes) (frames tail : Bytes)
    → write_frames max bodies ≡ ok frames
    → All (λ b. length b < 2 ^ 32) bodies
    → 4 ≤ length tail
    → max < read_u32_be tail 0
    → push (new_decoder max) (frames ++ tail) ≡ (
      record { max_frame_len = max; buffer = frames ++ tail },
      err (frame_too_large (read_u32_be tail 0) max),
    )
unfolding new_decoder
push-oversized max bodies frames tail e h long over =
    let (p, fits) = write_frames-framed max bodies frames e h in
    push-split (record { max_frame_len = max; buffer = [] }) (frames ++ tail)
    ∙ ap (delivered (record { max_frame_len = max; buffer = [] }) (frames ++ tail)) (
        ap (λ s. split max (s ++ tail)) p
        ∙ split-framed max bodies tail fits
        ∙ ap (prepend_all bodies) refused)
  where
    too_long : front max tail ≡ oversized (read_u32_be tail 0)
    too_long = unfold front in ground arith

    refused : split max tail ≡ err (frame_too_large (read_u32_be tail 0) max)
    refused = split_lem max tail ∙ rw too_long

-- What the reference leaves begins with no whole frame.
front-left :
    (fuel max : ℕ) (stream : Bytes) (frames : List Bytes) (left : Bytes)
    → length stream < fuel
    → split max stream ≡ ok (frames, left)
    → front max left ≡ waiting
front-left zero max stream frames left h e = elim h [ ]
front-left (suc fuel) max stream frames left h e = elim (Front-cases (front max stream)) [
  | inl w ↦ ground (arith, split_lem max stream)
  | inr (inl (len, o)) ↦ ground (arith, split_lem max stream)
  | inr (inr (body, l, f)) ↦
      let short = front_shrinks max stream body l f in
      let (more, m, _) =
        prepend_all-eq-ok (body ∷ []) (split max l) frames left
          (sym (split_lem max stream ∙ rw f) ∙ e) in
      front-left fuel max l more left (omega arith) m
]

waiting_bound : (max : ℕ) (left : Bytes) → front max left ≡ waiting → length left < 4 + max
unfolding front
waiting_bound max left e = ground arith

-- After a push that returns, the decoder buffers fewer than 4 + maxFrameLen bytes, whatever it was
-- given.
pub push_bounded :
    (d : FrameDecoder) (chunk : Bytes) (frames : List Bytes)
    → (push d chunk).1 ≡ ok frames
    → length (push d chunk).0.buffer < 4 + d.max_frame_len
push_bounded d chunk frames e =
    bounded (split d.max_frame_len stream) refl (ap (λ p. p.1) (sym (push-split d chunk)) ∙ e)
  where
    stream : Bytes
    stream = d.buffer ++ chunk

    bounded :
        (s : Result FrameError (List Bytes × Bytes))
        → split d.max_frame_len stream ≡ s
        → (delivered d stream s).1 ≡ ok frames
        → length (push d chunk).0.buffer < 4 + d.max_frame_len
    bounded (ok (fs, left)) p q =
        rw (push-split d chunk, p)
          (waiting_bound d.max_frame_len left
            (front-left (suc (length stream)) d.max_frame_len stream fs left (omega arith) p))
    bounded (err x) p q = cc
