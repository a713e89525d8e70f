-- ===== src/Examples/Messages.antt =====
-- Runs of the codec of src/proto/messages.ts and of the buffers of src/proto/wire.ts.
use tephra_js.Base.{◌≤◌, ◌≡◌, refl, true, some, none, [], ◌∷◌, ok, arith}
use tephra_js.Text.{Text, well_formed_from, encode_utf8, scalars, char_bytes}
use tephra_js.Wire.Fields.Total.{Settled}
use tephra_js.Wire.Writer.{
  grow, new_writer, finish, put_all, push_byte, reserve, blit, each, when_some, varint_loop,
  varint_big, varint, tag, uint64, uint64_present, bool, enum, uint32, bytes, string, message,
  repeated_string,
}
use mathlib.Core.List.{flat_map}
use tephra_js.Wire.Writer.Appends.{grow_enough}
use tephra_js.Messages.Sound.{IsName, Fits}
use tephra_js.Messages.Event.{WireEvent, encode_event}
use tephra_js.Messages.Event.RoundTrip.{IsWireEvent}
use tephra_js.Messages.Bodies.{encode_append_request}
use tephra_js.Messages.Request.{RequestKind, WireRequest, encode_request, decode_request}
use tephra_js.Messages.Request.RoundTrip.{IsWireRequest, decode_request-encode_request}
use tephra_js.Messages.Request.Total.{decode_request-Settled}
use tephra_js.Messages.Format
use tephra_js.Messages.Format.Requests.{encode_request_format}
use tephra_js.Messages.Format.Responses.{encode_response_format}
use tephra_js.Messages.Status.{encode_error_response}
use tephra_js.Messages.Response.{
  ResponseKind, response_kind, WireResponse, encode_response, decode_response,
}
use tephra_js.Messages.Response.RoundTrip.{IsWireResponse, decode_response-encode_response}
use tephra_js.Messages.Response.Total.{decode_response-Settled}

-- "no"
abbrev no_text : Text
no_text = 0x6e ∷ 0x6f ∷ []

no_text-IsName : IsName no_text
unfolding well_formed_from encode_utf8 scalars char_bytes flat_map
no_text-IsName = record {
  text = record { units = (omega arith, (omega arith, tt)); paired = refl; unmarked = refl };
  safe = omega arith;
}

abbrev pub refusal : WireResponse
refusal = record {
  request_id = 300;
  kind =
      ResponseKind.error
        (record { code = 5; message = no_text; conflict_position = some 7; retryable = true });
}

pub refusal_bytes :
    encode_response refusal
    ≡ 0x08 ∷ 0xac ∷ 0x02 ∷ 0x2a ∷ 0x0a ∷ 0x08 ∷ 0x05 ∷ 0x12 ∷ 0x02 ∷ 0x6e ∷ 0x6f ∷ 0x18 ∷ 0x07
      ∷ 0x20 ∷ 0x01 ∷ []
unfolding encode_response response_kind new_writer finish put_all push_byte reserve grow blit
    when_some each varint_loop varint_big varint tag uint64 uint64_present bool enum uint32 bytes
    string message encode_error_response encode_utf8 scalars char_bytes flat_map
refusal_bytes = refl

pub refusal-IsWireResponse : IsWireResponse refusal
unfolding new_writer finish put_all push_byte reserve grow blit when_some each varint_loop
    varint_big varint tag uint64 uint64_present bool enum uint32 bytes string message
    encode_error_response encode_utf8 scalars char_bytes flat_map
refusal-IsWireResponse = record {
  request_id = omega arith;
  kind = record {
    valid = record {
      code = omega arith;
      message = no_text-IsName;
      conflict_position = omega arith;
    };
    safe = omega arith;
  };
}

decode_response-encode_response_example : decode_response (encode_response refusal) ≡ ok refusal
decode_response-encode_response_example =
    decode_response-encode_response refusal refusal-IsWireResponse

encode_response_format_example : encode_response refusal ≡ Format.response refusal
encode_response_format_example = encode_response_format refusal

-- A response cut off inside a varint.
decode_response-Settled_example : Settled (decode_response (0x08 ∷ 0xac ∷ []))
decode_response-Settled_example = decode_response-Settled (0x08 ∷ 0xac ∷ [])

decode_request-Settled_example : Settled (decode_request (0x08 ∷ 0xac ∷ []))
decode_request-Settled_example = decode_request-Settled (0x08 ∷ 0xac ∷ [])

-- An event whose type is "no", with one tag and one byte of payload.
abbrev event : WireEvent
event = record { type = no_text; tags = no_text ∷ []; payload = 0xff ∷ [] }

abbrev appending : WireRequest
appending = record {
  request_id = 1;
  kind = RequestKind.append (record { events = event ∷ []; condition = none });
}

event-Fits : Fits IsWireEvent encode_event event
unfolding new_writer finish put_all push_byte reserve grow blit when_some each varint_loop
    varint_big varint tag uint64 uint64_present bool enum uint32 bytes string message encode_utf8
    scalars char_bytes flat_map encode_event repeated_string
event-Fits = record {
  valid = record { type = no_text-IsName; tags = (no_text-IsName, tt); payload = omega arith };
  safe = omega arith;
}

appending-IsWireRequest : IsWireRequest appending
unfolding new_writer finish put_all push_byte reserve grow blit when_some each varint_loop
    varint_big varint tag uint64 uint64_present bool enum uint32 bytes string message encode_utf8
    scalars char_bytes flat_map encode_append_request encode_event repeated_string
appending-IsWireRequest = record {
  request_id = omega arith;
  kind = record {
    valid = record { events = (event-Fits, tt); condition = tt };
    safe = omega arith;
  };
}

decode_request-encode_request_example : decode_request (encode_request appending) ≡ ok appending
decode_request-encode_request_example =
    decode_request-encode_request appending appending-IsWireRequest

encode_request_format_example : encode_request appending ≡ Format.request appending
encode_request_format_example = encode_request_format appending

-- From 64 bytes to 200.
grow_enough_example : (200 ≤ grow 200 64 200) × (64 ≤ grow 200 64 200)
grow_enough_example = grow_enough 200 64 200 (omega arith) (omega arith)
