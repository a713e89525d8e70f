-- ===== src/Framing/Chunks.antt =====
-- FrameDecoder of src/framing.ts fed chunk after chunk, against one chunk of all the bytes.
use tephra_js.Base.{
  ℕ, zero, suc, ◌<◌, ◌≤◌, ◌≡◌, refl, ap, sym, subst, ◌∙◌, List, [], ◌∷◌, ◌++◌, append-nil,
  append_assoc, Result, ok, err, ◌>>=◌, length, drop, length-drop, get_or-append, take-append_le,
  drop-append_le, length-append, arith, inl, inr,
}
use mathlib.Core.List.{flatten}
use tephra_js.Text.{Bytes}
use tephra_js.Framing.{FrameError, frame_too_large, read_u32_be, FrameDecoder, push}
use tephra_js.Framing.Split.{
  Front-cases, oversized, whole, front, front_shrinks, split, split_lem, prepend,
}
use tephra_js.Framing.Loop.{delivered, push-split}

read_u32_be-append : (a b : Bytes) → 4 ≤ length a → read_u32_be (a ++ b) 0 ≡ read_u32_be a 0
unfolding read_u32_be
read_u32_be-append a b h = rw (
  get_or-append a b 0 0 (omega arith),
  get_or-append a b 1 0 (omega arith),
  get_or-append a b 2 0 (omega arith),
  get_or-append a b 3 0 (omega arith),
)

front-append_whole :
    (max : ℕ) (a b body left : Bytes)
    → front max a ≡ whole body left
    → front max (a ++ b) ≡ whole body (left ++ b)
unfolding front
front-append_whole max a b body left e = ground (
  arith,
  read_u32_be-append a b,
  length-append a b,
  drop-append_le 4 a b,
  length-drop 4 a,
  take-append_le (read_u32_be a 0) (drop 4 a) b,
  drop-append_le (read_u32_be a 0) (drop 4 a) b,
)

front-append_oversized :
    (max : ℕ) (a b : Bytes) (len : ℕ)
    → front max a ≡ oversized len
    → front max (a ++ b) ≡ oversized len
unfolding front
front-append_oversized max a b len e = ground (arith, read_u32_be-append a b, length-append a b)

abbrev pub prepend_all :
    List Bytes → Result FrameError (List Bytes × Bytes) → Result FrameError (List Bytes × Bytes)
prepend_all frames r = do (more, left) ← r; ok (frames ++ more, left)

-- More bytes do not change the frames that were whole, nor mend a length that was too large.
pub data Extends (max : ℕ) (b : Bytes)
    : Result FrameError (List Bytes × Bytes) → Result FrameError (List Bytes × Bytes) → Type 0 where
  grows :
      (frames : List Bytes) (left : Bytes) {t : Result FrameError (List Bytes × Bytes)}
      → t ≡ prepend_all frames (split max (left ++ b))
      → split max left ≡ ok ([], left)
      → Extends max b (ok (frames, left)) t
  stays : (e : FrameError) → Extends max b (err e) (err e)

pub prepend_all-nil : (r : Result FrameError (List Bytes × Bytes)) → r ≡ prepend_all [] r
prepend_all-nil (ok r) = refl
prepend_all-nil (err e) = refl

pub prepend-prepend_all :
    (body : Bytes) (frames : List Bytes) (r : Result FrameError (List Bytes × Bytes))
    → prepend body (prepend_all frames r) ≡ prepend_all (body ∷ frames) r
prepend-prepend_all body frames (ok r) = refl
prepend-prepend_all body frames (err e) = refl

Extends-prepend :
    (max : ℕ) (b body : Bytes) (s t : Result FrameError (List Bytes × Bytes))
    → Extends max b s t
    → Extends max b (prepend body s) (prepend body t)
Extends-prepend max b body s t (grows frames left q i) =
    grows (body ∷ frames) left (ap (prepend body) q ∙ prepend-prepend_all body frames _) i
Extends-prepend max b body s t (stays e) = stays e

Extends-along :
    (max : ℕ) (b : Bytes) {s t s' t' : Result FrameError (List Bytes × Bytes)}
    → s ≡ s'
    → t ≡ t'
    → Extends max b s' t'
    → Extends max b s t
Extends-along max b {s = s} {t' = t'} p q h =
    subst (Extends max b s) (sym q) (subst (λ u. Extends max b u t') (sym p) h)

pub split-Extends :
    (fuel max : ℕ) (a b : Bytes)
    → length a < fuel
    → Extends max b (split max a) (split max (a ++ b))
split-Extends zero max a b h = elim h [ ]
split-Extends (suc fuel) max a b h = elim (Front-cases (front max a)) [
  | inl e ↦
      let p : split max a ≡ ok ([], a) = split_lem max a ∙ rw e in
      Extends-along max b p refl (grows [] a (prepend_all-nil _) p)
  | inr (inl (len, e)) ↦
      Extends-along max b (split_lem max a ∙ rw e)
        (split_lem max (a ++ b) ∙ rw (front-append_oversized max a b len e))
        (stays (frame_too_large len max))
  | inr (inr (body, left, e)) ↦
      let short = front_shrinks max a body left e in
      Extends-along max b (split_lem max a ∙ rw e)
        (split_lem max (a ++ b) ∙ rw (front-append_whole max a b body left e))
        (Extends-prepend max b body _ _ (split-Extends fuel max left b (omega arith)))
]

-- The frames of chunk after chunk, as the socket's `data` events feed them; a throw ends it.
abbrev pub fed :
    List Bytes
    → FrameDecoder × Result FrameError (List Bytes)
    → FrameDecoder × Result FrameError (List Bytes)
fed frames (d, ok more) = (d, ok (frames ++ more))
fed frames (d, err e) = (d, err e)

abbrev pub fed_on :
    (FrameDecoder → FrameDecoder × Result FrameError (List Bytes))
    → FrameDecoder × Result FrameError (List Bytes)
    → FrameDecoder × Result FrameError (List Bytes)
fed_on next (d, ok frames) = fed frames (next d)
fed_on next (d, err e) = (d, err e)

unfoldable pub feed : FrameDecoder → List Bytes → FrameDecoder × Result FrameError (List Bytes)
feed d [] = (d, ok [])
feed d (chunk ∷ chunks) = fed_on (λ d'. feed d' chunks) (push d chunk)

-- No whole frame is buffered: what every decoder holds between two calls of `push`.
abbrev pub IsIdle : FrameDecoder → Type 0
IsIdle d = split d.max_frame_len d.buffer ≡ ok ([], d.buffer)

pub prepend_all-eq-ok :
    (frames : List Bytes) (r : Result FrameError (List Bytes × Bytes)) (all : List Bytes)
    (left : Bytes)
    → prepend_all frames r ≡ ok (all, left)
    → (more : List Bytes) × (r ≡ ok (more, left)) × (frames ++ more ≡ all)
prepend_all-eq-ok frames (ok (more, l)) all left e = (more, ground arith, ground arith)
prepend_all-eq-ok frames (err x) all left e = cc

feed_chunk :
    (d : FrameDecoder) (chunk : Bytes) (chunks : List Bytes) (all : List Bytes) (left : Bytes)
    {s t : Result FrameError (List Bytes × Bytes)}
    → push d chunk ≡ delivered d (d.buffer ++ chunk) s
    → Extends d.max_frame_len (flatten chunks) s t
    → t ≡ ok (all, left)
    → ((buffer : Bytes) (frames : List Bytes)
        → IsIdle (record d { buffer = buffer })
        → split d.max_frame_len (buffer ++ flatten chunks) ≡ ok (frames, left)
        → feed (record d { buffer = buffer }) chunks ≡ (record d { buffer = left }, ok frames))
    → feed d (chunk ∷ chunks) ≡ (record d { buffer = left }, ok all)
unfolding feed
feed_chunk d chunk chunks all left p (grows frames l q idle) e next =
    let (more, m, a) = prepend_all-eq-ok frames _ all left (sym q ∙ e) in
    ap (fed_on (λ d'. feed d' chunks)) p ∙ ap (fed frames) (next l more idle m) ∙ rw a
feed_chunk d chunk chunks all left p (stays x) e next = cc

pub feed-split :
    (chunks : List Bytes) (d : FrameDecoder) (frames : List Bytes) (left : Bytes)
    → IsIdle d
    → split d.max_frame_len (d.buffer ++ flatten chunks) ≡ ok (frames, left)
    → feed d chunks ≡ (record d { buffer = left }, ok frames)
unfolding feed flatten
feed-split [] d frames left idle e = ground (arith, append-nil d.buffer)
feed-split (chunk ∷ chunks) d frames left idle e =
    let b = d.buffer ++ chunk in
    feed_chunk d chunk chunks frames left (push-split d chunk)
      (split-Extends (suc (length b)) d.max_frame_len b (flatten chunks) (omega arith))
      (rw (append_assoc d.buffer chunk (flatten chunks)) e)
      λ buffer more i q. feed-split chunks (record d { buffer = buffer }) more left i q

-- If an idle decoder (one that buffers no whole frame and no refused prefix) yields frames for some
-- bytes pushed in one chunk, then it yields the same frames and keeps the same buffer when the
-- bytes are pushed in any other chunks.
pub feed-push :
    (d : FrameDecoder) (chunks : List Bytes) (frames : List Bytes)
    → IsIdle d
    → (push d (flatten chunks)).1 ≡ ok frames
    → feed d chunks ≡ push d (flatten chunks)
feed-push d chunks frames idle e =
    whole_split (split d.max_frame_len (d.buffer ++ flatten chunks)) refl
      (sym (ap (λ p. p.1) (push-split d (flatten chunks))) ∙ e)
  where
    whole_split :
        (s : Result FrameError (List Bytes × Bytes))
        → split d.max_frame_len (d.buffer ++ flatten chunks) ≡ s
        → (delivered d (d.buffer ++ flatten chunks) s).1 ≡ ok frames
        → feed d chunks ≡ push d (flatten chunks)
    whole_split (ok (fs, left)) p q =
        feed-split chunks d fs left idle p
        ∙ sym (push-split d (flatten chunks) ∙ ap (delivered d (d.buffer ++ flatten chunks)) p)
    whole_split (err x) p q = cc
