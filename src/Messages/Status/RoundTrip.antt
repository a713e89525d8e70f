-- ===== src/Messages/Status/RoundTrip.antt =====
-- Error responses and answers to a hello (src/proto/messages.ts): encoders against decoders.
use tephra_js.Base.{◌≡◌, refl, some, ◌++◌, ok, Given, arith}
use tephra_js.Text.{Bytes}
use tephra_js.Wire.Field
use tephra_js.Wire.Fields.Rules.{
  Puts-then, decode_fields-Puts, Puts-string, Puts-bool, Puts-number, Puts-present, Puts-optional,
}
use tephra_js.Wire.Number.{IsSafe, IsU64}
use tephra_js.Wire.Reader.{new_reader}
use tephra_js.Wire.Writer.{new_writer}
use tephra_js.Wire.Writer.Appends.{Appends-then, finish-Appends}
use tephra_js.Wire.Writer.Methods.{
  string-Appends, bool-Appends, uint64_present-Appends, uint32-Appends, enum-Appends,
  when_some-Appends,
}
use tephra_js.Messages.Sound.{IsName}
use tephra_js.Messages.Status.{
  WireErrorResponse, encode_error_response, no_error_response, error_response_field,
  decode_error_response, WireHelloAck, encode_hello_ack, no_hello_ack, hello_ack_field,
  decode_hello_ack,
}

pub record IsWireErrorResponse (m : WireErrorResponse) : Type 0 where
  pub code : IsSafe m.code
  pub message : IsName m.message
  pub conflict_position : Given IsU64 m.conflict_position

unfoldable pub error_response_bytes : WireErrorResponse → Bytes
error_response_bytes m =
    (((Field.number 1 m.code ++ Field.string 2 m.message)
        ++ Field.optional (Field.present 3) m.conflict_position)
      ++ Field.bool 4 m.retryable)

pub encode_error_response-eq :
    (m : WireErrorResponse) → encode_error_response m ≡ error_response_bytes m
unfolding encode_error_response error_response_bytes
encode_error_response-eq m = finish-Appends (
    Appends-then
      (Appends-then
        (Appends-then (enum-Appends 1 (new_writer 64) (omega arith) m.code)
          (string-Appends 2 _ (omega arith) m.message))
        (when_some-Appends _ _ (λ x v. uint64_present-Appends 3 v (omega arith) x)
          m.conflict_position _))
      (bool-Appends 4 _ (omega arith) m.retryable))

pub decode_error_response-encode_error_response :
    (m : WireErrorResponse)
    → IsWireErrorResponse m
    → decode_error_response (new_reader (encode_error_response m)) ≡ ok m
unfolding decode_error_response error_response_field error_response_bytes
decode_error_response-encode_error_response m v = rw (encode_error_response-eq m) (
    decode_fields-Puts error_response_field (
      Puts-then error_response_field
        (Puts-then error_response_field
          (Puts-then error_response_field
            (Puts-number error_response_field 1 no_error_response (omega arith) m.code
              (λ x. record no_error_response { code = x }) (λ r. refl) v.code refl)
            (Puts-string error_response_field 2 (record no_error_response { code = m.code })
              (omega arith) m.message (λ x. record no_error_response { code = m.code; message = x })
              (λ r. refl) v.message.text v.message.safe refl))
          (Puts-optional error_response_field IsU64 (Field.present 3)
            (record no_error_response { code = m.code; message = m.message })
            (λ o. record no_error_response {
              code = m.code;
              message = m.message;
              conflict_position = o;
            })
            refl
            (λ x h.
              Puts-present error_response_field 3
                (record no_error_response { code = m.code; message = m.message }) (omega arith) x
                (λ y. record no_error_response {
                  code = m.code;
                  message = m.message;
                  conflict_position = some y;
                })
                (λ r. refl) h)
            m.conflict_position v.conflict_position))
        (Puts-bool error_response_field 4
          (record no_error_response {
            code = m.code;
            message = m.message;
            conflict_position = m.conflict_position;
          })
          (omega arith) m.retryable
          (λ x. record {
            code = m.code;
            message = m.message;
            conflict_position = m.conflict_position;
            retryable = x;
          })
          (λ r. refl) refl)))

pub record IsWireHelloAck (m : WireHelloAck) : Type 0 where
  pub protocol_version : IsSafe m.protocol_version
  pub server_version : IsName m.server_version

unfoldable pub hello_ack_bytes : WireHelloAck → Bytes
hello_ack_bytes m = (Field.number 1 m.protocol_version ++ Field.string 2 m.server_version)

pub encode_hello_ack-eq : (m : WireHelloAck) → encode_hello_ack m ≡ hello_ack_bytes m
unfolding encode_hello_ack hello_ack_bytes
encode_hello_ack-eq m = finish-Appends (
    Appends-then (uint32-Appends 1 (new_writer 64) (omega arith) m.protocol_version)
      (string-Appends 2 _ (omega arith) m.server_version))

pub decode_hello_ack-encode_hello_ack :
    (m : WireHelloAck)
    → IsWireHelloAck m
    → decode_hello_ack (new_reader (encode_hello_ack m)) ≡ ok m
unfolding decode_hello_ack hello_ack_field hello_ack_bytes
decode_hello_ack-encode_hello_ack m v = rw (encode_hello_ack-eq m) (
    decode_fields-Puts hello_ack_field (
      Puts-then hello_ack_field
        (Puts-number hello_ack_field 1 no_hello_ack (omega arith) m.protocol_version
          (λ x. record no_hello_ack { protocol_version = x }) (λ r. refl) v.protocol_version refl)
        (Puts-string hello_ack_field 2
          (record no_hello_ack { protocol_version = m.protocol_version }) (omega arith)
          m.server_version
          (λ x. record { protocol_version = m.protocol_version; server_version = x }) (λ r. refl)
          v.server_version.text v.server_version.safe refl)))
