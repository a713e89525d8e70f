-- ===== src/Connection/Batches.antt =====
-- What the writer loop of src/connection.ts gives to the socket.
use tephra_js.Base.{
  ℕ, zero, suc, ◌<◌, ◌≡◌, refl, ap, sym, ◌∙◌, ◌^◌, Bool, false, ◌&&◌, if◌then◌else◌, List, [], ◌∷◌,
  ◌++◌, All, length, ok, append-nil,
}
use mathlib.Core.List.{map, flatten}
use tephra_js.Text.{Bytes}
use tephra_js.Framing.{new_decoder}
use tephra_js.Framing.Chunks.{feed}
use tephra_js.Framing.Stream.{write_frames, feed-write_frames}
use tephra_js.Messages.Request.{WireRequest, encode_request, decode_request}
use tephra_js.Messages.Request.RoundTrip.{IsWireRequest, decode_request-encode_request}
use tephra_js.Connection.{Conn, release_slot}
use tephra_js.Connection.Sending.{
  takes, release_slots, concat_frames, wrote, flush, is_empty, write_round,
}

concat_frames-flatten : (frames : List Bytes) → concat_frames frames ≡ flatten frames
unfolding concat_frames flatten
concat_frames-flatten [] = refl
concat_frames-flatten (f ∷ []) = sym (append-nil f)
concat_frames-flatten (f ∷ g ∷ fs) = refl

-- The fields that the release of slots leaves alone.
record Untouched (c d : Conn) : Type 0 where
  written : d.written ≡ c.written
  outbound : d.outbound ≡ c.outbound
  priority : d.priority ≡ c.priority

release_slots-Untouched : (n : ℕ) (c : Conn) → Untouched c (release_slots n c)
unfolding release_slots release_slot
release_slots-Untouched zero c = record { written = refl; outbound = refl; priority = refl }
release_slots-Untouched (suc n) c =
    let u = release_slots-Untouched n (release_slot c) in
    record { written = u.written; outbound = u.outbound; priority = u.priority }

if-else : {A : Type 0} (b : Bool) (x y : A) → b ≡ false → (if b then x else y) ≡ y
if-else b x y h = rw h refl

flush-flatten :
    (c : Conn)
    → ((flush takes c).written ≡ c.written ++ flatten (c.priority ++ c.outbound) ∷ [])
      × ((flush takes c).outbound ≡ [])
      × ((flush takes c).priority ≡ [])
unfolding flush wrote
flush-flatten c =
    let batch = concat_frames (c.priority ++ c.outbound) in
    let u =
      release_slots-Untouched (length c.outbound)
        (record c { priority = []; outbound = []; written = c.written ++ batch ∷ [] }) in
    (
      u.written ∙ ap (λ b. c.written ++ b ∷ []) (concat_frames-flatten (c.priority ++ c.outbound)),
      u.outbound,
      u.priority,
    )

write_round-flush :
    (c : Conn)
    → c.dead ≡ false
    → is_empty c.priority && is_empty c.outbound ≡ false
    → write_round takes c ≡ flush takes c
unfolding write_round
write_round-flush c alive busy = if-else c.dead _ _ alive ∙ if-else _ _ _ busy

decoded_back :
    (requests : List WireRequest)
    → All IsWireRequest requests
    → map decode_request (map encode_request requests) ≡ map ok requests
decoded_back [] v = refl
decoded_back (r ∷ rs) v =
    ap (λ d. d ∷ map decode_request (map encode_request rs)) (decode_request-encode_request r v.0)
    ∙ ap (◌∷◌ (ok r)) (decoded_back rs v.1)

-- When the queued cancels and requests of a live connection are, one behind the other, the frames
-- of some valid requests of fewer than 2^32 bytes each, a round of the writer that the socket
-- accepts empties both queues and writes one batch, from which a new decoder takes exactly as many
-- bodies, and these are decoded to the requests in their order.
pub write_round-feed :
    (max : ℕ) (requests : List WireRequest) (c : Conn)
    → c.dead ≡ false
    → is_empty c.priority && is_empty c.outbound ≡ false
    → write_frames max (map encode_request requests) ≡ ok (flatten (c.priority ++ c.outbound))
    → All (λ b. length b < 2 ^ 32) (map encode_request requests)
    → All IsWireRequest requests
    → (batch : Bytes) × (bodies : List Bytes) × ((write_round takes c).written
        ≡ c.written ++ batch ∷ [])
      × ((write_round takes c).outbound ≡ [])
      × ((write_round takes c).priority ≡ [])
      × (feed (new_decoder max) (batch ∷ []) ≡ (new_decoder max, ok bodies))
      × (map decode_request bodies ≡ map ok requests)
write_round-feed max requests c alive busy queued short valid =
    let e = write_round-flush c alive busy in
    let (w, o, p) = flush-flatten c in
    (
      flatten (c.priority ++ c.outbound),
      map encode_request requests,
      ap (λ (d : Conn). d.written) e ∙ w,
      ap (λ (d : Conn). d.outbound) e ∙ o,
      ap (λ (d : Conn). d.priority) e ∙ p,
      feed-write_frames max (map encode_request requests) (flatten (c.priority ++ c.outbound) ∷ [])
          (queued ∙ unfold flatten in sym (ap ok (append-nil _))) short,
      decoded_back requests valid,
    )
