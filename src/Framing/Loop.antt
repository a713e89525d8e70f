-- ===== src/Framing/Loop.antt =====
-- The loop of `push` in src/framing.ts against the reference `split`.
use tephra_js.Base.{
  ℕ, zero, suc, ◌+◌, ◌-◌, ◌<◌, ◌≤◌, ◌≡◌, refl, sym, ◌∙◌, List, [], ◌∷◌, ◌++◌, append-nil,
  append_assoc, ltb, Result, ok, err, length, take, drop, drop-drop, length-drop, get_or-drop,
  arith, Bool-cases, inl, inr, false,
}
use tephra_js.Text.{Bytes}
use tephra_js.Framing.{FrameError, read_u32_be, concat, FrameDecoder, frames_loop, after_loop, push}
use tephra_js.Framing.Split.{front, split_in, split, prepend}

-- The loop's result behind `frames`, against the reference's.
data Agrees (buffer : Bytes) (frames : List Bytes)
    : Result FrameError (List Bytes × ℕ) → Result FrameError (List Bytes × Bytes) → Type 0 where
  found :
      (more : List Bytes) (offset : ℕ) (left : Bytes) (all : List Bytes)
      → drop offset buffer ≡ left
      → all ≡ frames ++ more
      → Agrees buffer frames (ok (all, offset)) (ok (more, left))
  thrown : (e : FrameError) → Agrees buffer frames (err e) (err e)

read_u32_be-drop : (n : ℕ) (buffer : Bytes) → read_u32_be (drop n buffer) 0 ≡ read_u32_be buffer n
unfolding read_u32_be
read_u32_be-drop n buffer =
    rw
      (
        get_or-drop n 0 buffer 0,
        get_or-drop n 1 buffer 0,
        get_or-drop n 2 buffer 0,
        get_or-drop n 3 buffer 0,
      )
      (let e : n + 0 ≡ n = omega arith in rw e)

Agrees-prepend :
    (buffer : Bytes) (frames : List Bytes) (body : Bytes) (s : Result FrameError (List Bytes × ℕ))
    (t : Result FrameError (List Bytes × Bytes))
    → Agrees buffer (frames ++ body ∷ []) s t
    → Agrees buffer frames s (prepend body t)
Agrees-prepend buffer frames body s t (found more offset left all p q) =
    found (body ∷ more) offset left all p (q ∙ append_assoc frames (body ∷ []) more)
Agrees-prepend buffer frames body s t (thrown e) = thrown e

frames_loop-Agrees :
    (fuel max : ℕ) (buffer : Bytes) (offset : ℕ) (frames : List Bytes)
    → offset ≤ length buffer
    → length (drop offset buffer) < fuel
    → Agrees buffer frames
        (frames_loop fuel max buffer offset frames)
        (split_in fuel max (drop offset buffer))
unfolding frames_loop split_in front
frames_loop-Agrees zero max buffer offset frames h k = elim k [ ]
frames_loop-Agrees (suc fuel) max buffer offset frames h k =
    rw (length-drop offset buffer, read_u32_be-drop offset buffer, ← drop-drop 4 offset buffer)
      (elim (Bool-cases (ltb (length buffer - offset) 4)) [
        | inl short ↦ rw short (found [] offset _ frames refl (sym (append-nil frames)))
        | inr prefixed ↦ rw prefixed (elim (Bool-cases (ltb max len)) [
          | inl over ↦ rw over (thrown _)
          | inr fits ↦ rw fits (elim (Bool-cases (ltb (length buffer - offset - 4) len)) [
            | inl torn ↦ rw torn (found [] offset _ frames refl (sym (append-nil frames)))
            | inr here ↦
                rw (here, ← next_drop)
                  (Agrees-prepend buffer frames body _ _ (
                    frames_loop-Agrees fuel max buffer (offset + (4 + len)) (frames ++ body ∷ [])
                      (inside prefixed here) (less prefixed here)))
          ])
        ])
      ])
  where
    len : ℕ
    len = read_u32_be buffer offset

    body : Bytes
    body = take len (drop (offset + 4) buffer)

    next_drop : drop (offset + (4 + len)) buffer ≡ drop len (drop (offset + 4) buffer)
    next_drop =
        let e : offset + (4 + len) ≡ offset + 4 + len = omega arith in
        rw e (drop-drop len (offset + 4) buffer)

    inside :
        ltb (length buffer - offset) 4 ≡ false
        → ltb (length buffer - offset - 4) len ≡ false
        → offset + (4 + len) ≤ length buffer
    inside p q = ground arith

    less :
        ltb (length buffer - offset) 4 ≡ false
        → ltb (length buffer - offset - 4) len ≡ false
        → length (drop (offset + (4 + len)) buffer) < fuel
    less p q = ground (arith, length-drop offset buffer, length-drop (offset + (4 + len)) buffer)

-- What `push` leaves and returns, by the reference: on a throw the buffer keeps every byte.
abbrev pub delivered :
    FrameDecoder
    → Bytes
    → Result FrameError (List Bytes × Bytes)
    → FrameDecoder × Result FrameError (List Bytes)
delivered d buffer (ok (frames, left)) = (record d { buffer = left }, ok frames)
delivered d buffer (err e) = (record d { buffer = buffer }, err e)

concat-append : (a b : Bytes) → concat a b ≡ a ++ b
unfolding concat
concat-append [] b = refl
concat-append (x ∷ a) b = ground arith

after_loop-Agrees :
    (d : FrameDecoder) (buffer : Bytes) (s : Result FrameError (List Bytes × ℕ))
    (t : Result FrameError (List Bytes × Bytes))
    → Agrees buffer [] s t
    → after_loop d buffer s ≡ delivered d buffer t
after_loop-Agrees d buffer s t (thrown e) = refl
after_loop-Agrees d buffer s t (found more zero left all p q) = ground arith
after_loop-Agrees d buffer s t (found more (suc offset) left all p q) = ground arith

-- The loop of push over offsets takes from the buffered bytes and the chunk together the frames and
-- the rest that a reference takes which removes one frame at a time from the front of a stream;
-- where the reference throws, push throws the same error and keeps every byte in the buffer.
pub push-split :
    (d : FrameDecoder) (chunk : Bytes)
    → push d chunk ≡ delivered d (d.buffer ++ chunk) (split d.max_frame_len (d.buffer ++ chunk))
unfolding push split
push-split d chunk = rw (concat-append d.buffer chunk) (
    after_loop-Agrees d _ _ _ (
      frames_loop-Agrees (suc (length (d.buffer ++ chunk))) d.max_frame_len (d.buffer ++ chunk) 0 []
        (omega arith) (omega arith)))
