-- ===== src/Examples/Framing.antt =====
-- Runs of src/framing.ts.
use tephra_js.Base.{◌%◌, ◌^◌, ◌+◌, ◌<◌, ◌≡◌, refl, List, [], ◌∷◌, ◌++◌, ok, err, length, arith}
use tephra_js.Text.{Bytes}
use tephra_js.Framing.{
  frame_too_large, read_u32_be, concat, FrameDecoder, new_decoder, frames_loop, push, write_frame,
}
use tephra_js.Framing.Header.{header, read_u32_be-header}
use tephra_js.Framing.Split.{front, split_in, split}
use tephra_js.Framing.Loop.{delivered, push-split}
use tephra_js.Framing.Chunks.{feed, feed-push}
use tephra_js.Framing.Stream.{write_frames, feed-write_frames, push-oversized, push_bounded}
use mathlib.Core.List.{flatten}

-- Two bodies, and their frames cut into three chunks inside the prefix and inside a body.
abbrev two_bodies : List Bytes
two_bodies = (7 ∷ 8 ∷ []) ∷ (9 ∷ []) ∷ []

abbrev three_chunks : List Bytes
three_chunks = (0 ∷ 0 ∷ []) ∷ (0 ∷ 2 ∷ 7 ∷ []) ∷ (8 ∷ 0 ∷ 0 ∷ 0 ∷ 1 ∷ 9 ∷ []) ∷ []

abbrev two_frames : Bytes
two_frames = 0 ∷ 0 ∷ 0 ∷ 2 ∷ 7 ∷ 8 ∷ 0 ∷ 0 ∷ 0 ∷ 1 ∷ 9 ∷ []

two_bodies-written : write_frames 16 two_bodies ≡ ok two_frames
unfolding write_frames write_frame
two_bodies-written = refl

two_frames-pushed : (push (new_decoder 16) two_frames).1 ≡ ok two_bodies
unfolding push new_decoder frames_loop read_u32_be concat
two_frames-pushed = refl

feed-write_frames_example : feed (new_decoder 16) three_chunks ≡ (new_decoder 16, ok two_bodies)
feed-write_frames_example =
    feed-write_frames 16 two_bodies three_chunks written (omega arith, (omega arith, tt))
  where
    written : write_frames 16 two_bodies ≡ ok (flatten three_chunks)
    written = unfold flatten in two_bodies-written

-- A decoder that holds the first two bytes of a prefix.
abbrev torn : FrameDecoder
torn = record { max_frame_len = 16; buffer = 0 ∷ 0 ∷ [] }

abbrev two_chunks : List Bytes
two_chunks = (0 ∷ 2 ∷ 7 ∷ []) ∷ (8 ∷ 0 ∷ []) ∷ []

feed-push_example : feed torn two_chunks ≡ push torn (flatten two_chunks)
unfolding push frames_loop read_u32_be concat split split_in front flatten
feed-push_example = feed-push torn two_chunks ((7 ∷ 8 ∷ []) ∷ []) refl refl

push-split_example :
    push torn (0 ∷ 2 ∷ 7 ∷ [])
    ≡ delivered torn (0 ∷ 0 ∷ 0 ∷ 2 ∷ 7 ∷ []) (split 16 (0 ∷ 0 ∷ 0 ∷ 2 ∷ 7 ∷ []))
push-split_example = push-split torn (0 ∷ 2 ∷ 7 ∷ [])

push-oversized_example : push (new_decoder 16) (two_frames ++ (0xff ∷ 0xff ∷ 0xff ∷ 0xff ∷ [])) ≡ (
  record { max_frame_len = 16; buffer = two_frames ++ (0xff ∷ 0xff ∷ 0xff ∷ 0xff ∷ []) },
  err (frame_too_large (read_u32_be (0xff ∷ 0xff ∷ 0xff ∷ 0xff ∷ []) 0) 16),
)
unfolding read_u32_be
push-oversized_example =
    push-oversized 16 two_bodies two_frames (0xff ∷ 0xff ∷ 0xff ∷ 0xff ∷ []) two_bodies-written
      (omega arith, (omega arith, tt)) (omega arith) (omega arith)

push_bounded_example : length (push (new_decoder 16) two_frames).0.buffer < 4 + 16
unfolding new_decoder
push_bounded_example = push_bounded (new_decoder 16) two_frames two_bodies two_frames-pushed

-- The length 2 ^ 32 + 5 is written as 5.
read_u32_be-header_example : read_u32_be (header 4294967301 ++ (1 ∷ [])) 0 ≡ 4294967301 % 2 ^ 32
read_u32_be-header_example = read_u32_be-header 4294967301 (1 ∷ [])
