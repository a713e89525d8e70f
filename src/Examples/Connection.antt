-- ===== src/Examples/Connection.antt =====
-- Runs of src/connection.ts.
use tephra_js.Base.{
  ◌^◌, ℕ, ◌<◌, ◌≡◌, ◌≢◌, ◌⊎◌, refl, true, false, none, some, List, [], ◌∷◌, ◌++◌, ◌∙◌, ap, ok,
  length, arith,
}
use tephra_js.Base.Maps.{get, delete}
use tephra_js.Text.{Bytes}
use tephra_js.Failure.{connection_error}
use tephra_js.Framing.{new_decoder, write_frame}
use tephra_js.Framing.Stream.{write_frames}
use tephra_js.Messages.Response.{ResponseKind, WireResponse, encode_response}
use tephra_js.Connection.Handshake.{IsAccepted, TurnedDown, dialled-IsAccepted}
use tephra_js.Util.{release}
use tephra_js.Connection.Answers.{Answers}
use tephra_js.Connection.{append, unary, hello, rejected, Outcome, asleep, Conn, fail_connection}
use tephra_js.Connection.Sending.{write_round, takes}
use tephra_js.Connection.Routing.{route_response, on_data}
use tephra_js.Connection.Steps.{
  opened, dialled, Event, appends, asks_stats, socket_fails, resumes, writes, run, connected,
}
use tephra_js.Connection.Invariant.{Balanced, books}
use tephra_js.Connection.Invariant.Runs.{run-Balanced}
use tephra_js.Connection.Fates.{fail_connection-rejects, route_response-settles}
use mathlib.Core.List.{map, flatten}
use tephra_js.Framing.Chunks.{feed}
use tephra_js.Wire.Writer.{
  grow, new_writer, finish, put_all, push_byte, reserve, blit, varint_loop, varint_big, varint, tag,
  uint64, message,
}
use tephra_js.Messages.Request.{
  RequestKind, request_kind, WireRequest, encode_request, decode_request,
}
use tephra_js.Messages.Request.RoundTrip.{IsWireRequest}
use tephra_js.Connection.Batches.{write_round-feed}
use tephra_js.Connection.Wire.{route_responses, on_data-write_frames}
use tephra_js.Examples.Messages.{refusal, refusal-IsWireResponse, refusal_bytes}

-- The hello takes the only permit, gets its slot and is written; an append waits for the permit,
-- and the connection breaks.
abbrev broken : List Event
broken =
    resumes 0
    ∷ resumes 0
    ∷ writes takes
    ∷ appends [] none false
    ∷ asks_stats true
    ∷ writes takes
    ∷ socket_fails
    ∷ resumes 0
    ∷ []

run-Balanced_example : Balanced 1 2 0 0 (books (run broken (connected 64 1 2 none)))
run-Balanced_example = run-Balanced 64 1 2 none broken

-- An append on the wire, with a promise that is not settled.
abbrev waiting : Conn
waiting = record {
  max_frame_len = 64;
  pending = (300, record { role = unary append; permit = true }) ∷ [];
  inflight = record { permits = 0; waiters = [] };
  queue_slots = record { permits = 2; waiters = [] };
  decoder = new_decoder 64;
  gate = record { waiter = true; signalled = false };
  outbound = [];
  priority = [];
  id_counter = 300;
  dead = false;
  death_cause = none;
  deferreds = (300, none) ∷ [];
  reads = [];
  subscriptions = [];
  tasks = [];
  writer = asleep;
  written = [];
}

fail_connection-rejects_example :
    (get 300 (fail_connection connection_error waiting).deferreds
      ≡ some (some (rejected connection_error)))
    × ((fail_connection connection_error waiting).pending ≡ [])
unfolding get
fail_connection-rejects_example =
    fail_connection-rejects connection_error 300 (record { role = unary append; permit = true })
      waiting refl refl refl refl

route_response-settles_example :
    ((outcome : Outcome) × (get 300 (route_response refusal waiting).0.deferreds
        ≡ some (some outcome))
      × Answers append refusal.kind outcome)
    × ((route_response refusal waiting).0.pending ≡ delete 300 waiting.pending)
    × ((route_response refusal waiting).0.inflight ≡ (release waiting.inflight).0)
    × ((j : ℕ)
        → j ≢ 300
        → get j (route_response refusal waiting).0.deferreds ≡ get j waiting.deferreds)
    × ((j : ℕ) → j ≢ 300 → get j (route_response refusal waiting).0.pending ≡ get j waiting.pending)
unfolding get
route_response-settles_example =
    route_response-settles refusal (record { role = unary append; permit = true }) append waiting
      (omega arith) refl refl refl

-- The frame of an error that answers the append.
abbrev refused_frame : Bytes
refused_frame =
    0 ∷ 0 ∷ 0 ∷ 15 ∷ 0x08 ∷ 0xac ∷ 0x02 ∷ 0x2a ∷ 0x0a ∷ 0x08 ∷ 0x05 ∷ 0x12 ∷ 0x02 ∷ 0x6e ∷ 0x6f
    ∷ 0x18 ∷ 0x07 ∷ 0x20 ∷ 0x01 ∷ []

refused_frame-written : write_frames 64 (encode_response refusal ∷ []) ≡ ok refused_frame
unfolding write_frames write_frame
refused_frame-written = rw refusal_bytes refl

refusal_short : length (encode_response refusal) < 2 ^ 32
refusal_short = rw refusal_bytes (omega arith)

on_data-write_frames_example :
    on_data refused_frame waiting
    ≡ route_responses (refusal ∷ []) (record waiting { decoder = new_decoder 64 })
on_data-write_frames_example =
    on_data-write_frames (refusal ∷ []) refused_frame waiting refl refused_frame-written
      (refusal-IsWireResponse, tt) (refusal_short, tt)

abbrev asking : WireRequest
asking = record { request_id = 1; kind = RequestKind.stats }

asking_bytes : encode_request asking ≡ 0x08 ∷ 0x01 ∷ 0x32 ∷ 0x00 ∷ []
unfolding encode_request request_kind new_writer finish put_all push_byte reserve grow blit
    varint_loop varint_big varint tag uint64 message
asking_bytes = refl

asking-IsWireRequest : IsWireRequest asking
asking-IsWireRequest = record { request_id = omega arith; kind = tt }

abbrev asking_frame : Bytes
asking_frame = 0 ∷ 0 ∷ 0 ∷ 4 ∷ 0x08 ∷ 0x01 ∷ 0x32 ∷ 0x00 ∷ []

asking_frame-written : write_frames 64 (encode_request asking ∷ []) ≡ ok asking_frame
unfolding write_frames write_frame
asking_frame-written = rw asking_bytes refl

asking_short : length (encode_request asking) < 2 ^ 32
asking_short = rw asking_bytes (omega arith)

-- A frame in the queue.
abbrev queued : Conn
queued = record waiting { outbound = asking_frame ∷ [] }

write_round-feed_example :
    (batch : Bytes) × (bodies : List Bytes) × ((write_round takes queued).written
      ≡ [] ++ batch ∷ [])
    × ((write_round takes queued).outbound ≡ [])
    × ((write_round takes queued).priority ≡ [])
    × (feed (new_decoder 64) (batch ∷ []) ≡ (new_decoder 64, ok bodies))
    × (map decode_request bodies ≡ map ok (asking ∷ []))
write_round-feed_example =
    write_round-feed 64 (asking ∷ []) queued refl refl (asking_frame-written ∙ ap ok flat)
      (asking_short, tt) (asking-IsWireRequest, tt)
  where
    flat : asking_frame ≡ flatten (asking_frame ∷ [])
    flat = unfold flatten in refl

-- A hello that waits, and a server of version 2.
abbrev dialling : Conn
dialling = record waiting {
  pending = (1, record { role = hello; permit = true }) ∷ [];
  deferreds = (1, none) ∷ [];
}

abbrev other_version : WireResponse
other_version = record {
  request_id = 1;
  kind = ResponseKind.hello_ack (record { protocol_version = 2; server_version = [] });
}

dialled-IsAccepted_example :
    (IsAccepted other_version.kind
      × (dialled (route_response other_version dialling).0
          ≡ opened (route_response other_version dialling).0))
    ⊎ ((¬ IsAccepted other_version.kind)
        × TurnedDown (dialled (route_response other_version dialling).0))
unfolding get
dialled-IsAccepted_example =
    dialled-IsAccepted other_version (record { role = hello; permit = true }) dialling refl refl
      refl refl
