-- ===== src/Connection/Wire.antt =====
-- A chunk from the socket on its way through the decoder, the codec and the routing of a connection
-- (src/connection.ts, src/framing.ts and src/proto/messages.ts together).
use tephra_js.Base.{
  ◌<◌, ◌≡◌, refl, ap, sym, ◌∙◌, ◌^◌, List, [], ◌∷◌, All, length, ok, err, Result, Option, none,
  some, append-nil,
}
use tephra_js.Failure.{Failure, protocol_error}
use mathlib.Core.List.{map, flatten}
use tephra_js.Text.{Bytes}
use tephra_js.Framing.{FrameError, FrameDecoder, new_decoder, push}
use tephra_js.Framing.Chunks.{feed, fed_on}
use tephra_js.Framing.Stream.{write_frames, feed-write_frames}
use tephra_js.Messages.Response.{WireResponse, encode_response}
use tephra_js.Messages.Response.RoundTrip.{IsWireResponse, decode_response-encode_response}
use tephra_js.Connection.{Conn, fail_connection}
use tephra_js.Connection.Routing.{
  route, route_decoded, route_response, after_route, route_frames, decoded, on_data,
}

-- Responses routed one after the other, until one throws: then the connection fails, and the
-- responses behind it are dropped.
unfoldable pub routed : (Conn → Conn) → Conn × Option Failure → Conn
routed others (c, none) = others c
routed others (c, some e) = fail_connection (protocol_error e) c

unfoldable pub route_responses : List WireResponse → Conn → Conn
route_responses [] c = c
route_responses (r ∷ rs) c = routed (route_responses rs) (route_response r c)

push-feed :
    (d e : FrameDecoder) (chunk : Bytes) (bodies : List Bytes)
    → feed d (chunk ∷ []) ≡ (e, ok bodies)
    → push d chunk ≡ (e, ok bodies)
unfolding feed
push-feed d e chunk bodies h = pushed (push d chunk) h
  where
    pushed :
        (r : FrameDecoder × Result FrameError (List Bytes))
        → fed_on (λ d'. feed d' []) r ≡ (e, ok bodies)
        → r ≡ (e, ok bodies)
    pushed (x, ok frames) p = sym (ap (λ (fs : List Bytes). (x, ok fs)) (append-nil frames)) ∙ p
    pushed (x, err f) p = cc

route_frames-encode_response :
    (responses : List WireResponse) (c : Conn)
    → All IsWireResponse responses
    → route_frames (map encode_response responses) c ≡ route_responses responses c
unfolding route_frames route_responses route route_decoded
route_frames-encode_response [] c v = refl
route_frames-encode_response (r ∷ rs) c v =
    let e = decode_response-encode_response r v.0 in
    rw e (continues (route_response r c) (λ d. route_frames-encode_response rs d v.1))
  where
    continues :
        (x : Conn × Option Failure)
        → ((d : Conn) → route_frames (map encode_response rs) d ≡ route_responses rs d)
        → after_route (route_frames (map encode_response rs)) x ≡ routed (route_responses rs) x
    continues (d, none) k = unfold after_route in unfold routed in k d
    continues (d, some f) k = unfold after_route in unfold routed in refl

-- When a chunk holds the frames of some encoded responses, each valid and of fewer than 2^32 bytes,
-- and the decoder is new, onData does what routing these responses one after the other does, until
-- one throws.
pub on_data-write_frames :
    (responses : List WireResponse) (chunk : Bytes) (c : Conn)
    → c.decoder ≡ new_decoder c.max_frame_len
    → write_frames c.max_frame_len (map encode_response responses) ≡ ok chunk
    → All IsWireResponse responses
    → All (λ b. length b < 2 ^ 32) (map encode_response responses)
    → on_data chunk c
      ≡ route_responses responses (record c { decoder = new_decoder c.max_frame_len })
unfolding on_data
on_data-write_frames responses chunk c fresh w v short =
    let one =
      feed-write_frames c.max_frame_len (map encode_response responses) (chunk ∷ [])
        (unfold flatten in w ∙ sym (ap ok (append-nil chunk))) short in
    let p = push-feed (new_decoder c.max_frame_len) _ chunk _ one in
    rw (fresh, p)
      (unfold decoded in
        route_frames-encode_response responses (record c { decoder = new_decoder c.max_frame_len })
          v)
