-- ===== src/Framing.antt =====
-- src/framing.ts: a frame is a 4-byte big-endian length and that many bytes. `write_frame` makes
-- one, and a `FrameDecoder` takes the frames out of the chunks that a socket delivers.
pub mod Header
pub mod Split
pub mod Loop
pub mod Chunks
pub mod Stream
use tephra_js.Base.{
  ℕ, zero, suc, ◌+◌, ◌-◌, ◌*◌, ◌/◌, ◌%◌, ◌^◌, Bool, List, [], ◌∷◌, ◌++◌, bit_and, bit_or, ltb, leb,
  ◌==◌, if◌then◌else◌, Result, ok, err, length, get_or, take, drop,
}
use tephra_js.Text.{Bytes}

-- FrameTooLargeError with its length and maximum. `out_of_fuel` is none of the program's errors: it
-- would mark a loop of the model that was given too few rounds.
pub data FrameError : Type 0 where
  frame_too_large : ℕ → ℕ → FrameError
  out_of_fuel : FrameError

-- `(len >>> k) & 0xff`, on the low 32 bits of a number.
abbrev pub shifted_byte : ℕ → ℕ → ℕ
shifted_byte len k = bit_and (len % 2 ^ 32 / 2 ^ k) 0xff

unfoldable pub write_frame : Bytes → ℕ → Result FrameError Bytes
write_frame body max_frame_len =
    let len = length body in
    if ltb max_frame_len len
    then err (frame_too_large len max_frame_len)
    else ok
        (shifted_byte len 24 ∷ shifted_byte len 16 ∷ shifted_byte len 8 ∷ shifted_byte len 0 ∷ body)

unfoldable pub read_u32_be : Bytes → ℕ → ℕ
read_u32_be buf offset =
    get_or buf offset 0 * 0x100_0000
    + bit_or (bit_or (get_or buf (offset + 1) 0 * 2 ^ 16) (get_or buf (offset + 2) 0 * 2 ^ 8))
        (get_or buf (offset + 3) 0)

unfoldable pub concat : Bytes → Bytes → Bytes
concat a b = if length a == 0 then b else a ++ b

pub record FrameDecoder : Type 0 where
  pub max_frame_len : ℕ
  pub buffer : Bytes

unfoldable pub new_decoder : ℕ → FrameDecoder
new_decoder max_frame_len = record { max_frame_len = max_frame_len; buffer = [] }

-- The loop of `push`: the frames found, and the offset behind them. Each round takes four bytes or
-- more, so one round more than the buffer has bytes is enough.
unfoldable pub frames_loop : ℕ → ℕ → Bytes → ℕ → List Bytes → Result FrameError (List Bytes × ℕ)
frames_loop zero max buffer offset frames = err out_of_fuel
frames_loop (suc fuel) max buffer offset frames =
    let len = read_u32_be buffer offset in
    let body = take len (drop (offset + 4) buffer) in
    let rest = frames_loop fuel max buffer (offset + (4 + len)) (frames ++ body ∷ []) in
    if ltb (length buffer - offset) 4
    then ok (frames, offset)
    else if ltb max len
    then err (frame_too_large len max)
    else if ltb (length buffer - offset - 4) len
    then ok (frames, offset)
    else rest

-- What the loop leaves: a throw keeps the whole buffer.
abbrev pub after_loop :
    FrameDecoder
    → Bytes
    → Result FrameError (List Bytes × ℕ)
    → FrameDecoder × Result FrameError (List Bytes)
after_loop d buffer (ok (frames, offset)) =
    (record d { buffer = if offset == 0 then buffer else drop offset buffer }, ok frames)
after_loop d buffer (err e) = (record d { buffer = buffer }, err e)

unfoldable pub push : FrameDecoder → Bytes → FrameDecoder × Result FrameError (List Bytes)
push d chunk =
    let buffer = concat d.buffer chunk in
    after_loop d buffer (frames_loop (suc (length buffer)) d.max_frame_len buffer 0 [])

unfoldable pub has_partial : FrameDecoder → Bool
has_partial d = ltb 0 (length d.buffer)
