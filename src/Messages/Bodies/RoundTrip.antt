-- ===== src/Messages/Bodies/RoundTrip.antt =====
-- The request bodies of src/proto/messages.ts: encoders against decoders.
use tephra_js.Base.{◌≡◌, ◌≢◌, refl, some, [], ◌∷◌, ◌++◌, ok, All, Given, arith}
use tephra_js.Text.{Bytes}
use tephra_js.Wire.Field
use tephra_js.Wire.Fields.Rules.{
  Puts-then, decode_fields-Puts, Puts-set_string, Puts-bool, Puts-uint64, Puts-number, Puts-present,
  Puts-message, Puts-optional, Puts-each,
}
use tephra_js.Wire.Number.{IsSafe, IsU64}
use tephra_js.Wire.Reader.{new_reader}
use tephra_js.Wire.Writer.{new_writer}
use tephra_js.Wire.Writer.Appends.{Appends-then, finish-Appends}
use tephra_js.Wire.Writer.Methods.{
  string-Appends, bool-Appends, uint64-Appends, uint64_present-Appends, uint32-Appends,
  message-Appends, when_some-Appends, each-Appends,
}
use tephra_js.Messages.Sound.{IsName, Fits}
use mathlib.Core.List.{flat_map}
use tephra_js.Messages.Bodies.{
  WireAppendRequest, encode_append_request, no_append_request, append_request_field,
  decode_append_request, WireReadRequest, encode_read_request, no_read_request, read_request_field,
  decode_read_request, WireSubscribeRequest, encode_subscribe_request, no_subscribe_request,
  subscribe_request_field, decode_subscribe_request, WireCancelRequest, encode_cancel_request,
  no_cancel_request, cancel_request_field, decode_cancel_request, WireHello, encode_hello, no_hello,
  hello_field, decode_hello,
}
use tephra_js.Messages.Event.{encode_event, decode_event}
use tephra_js.Messages.Query.{encode_query, decode_query, encode_condition, decode_condition}
use tephra_js.Messages.Event.RoundTrip.{IsWireEvent, decode_event-encode_event}
use tephra_js.Messages.Query.RoundTrip.{
  IsWireQuery, decode_query-encode_query, IsWireAppendCondition, decode_condition-encode_condition,
}

pub record IsWireAppendRequest (m : WireAppendRequest) : Type 0 where
  pub events : All (Fits IsWireEvent encode_event) m.events
  pub condition : Given (Fits IsWireAppendCondition encode_condition) m.condition

unfoldable pub append_request_bytes : WireAppendRequest → Bytes
append_request_bytes m =
    (flat_map (λ x. Field.message 1 (encode_event x)) m.events
      ++ Field.optional (λ x. Field.message 2 (encode_condition x)) m.condition)

pub encode_append_request-eq :
    (m : WireAppendRequest) → encode_append_request m ≡ append_request_bytes m
unfolding encode_append_request append_request_bytes
encode_append_request-eq m = finish-Appends (
    Appends-then
      (each-Appends _ _ (λ x v. message-Appends 1 v (omega arith) (encode_event x)) m.events
        (new_writer 64))
      (when_some-Appends _ _ (λ x v. message-Appends 2 v (omega arith) (encode_condition x))
        m.condition _))

pub decode_append_request-encode_append_request :
    (m : WireAppendRequest)
    → IsWireAppendRequest m
    → decode_append_request (new_reader (encode_append_request m)) ≡ ok m
unfolding decode_append_request append_request_field append_request_bytes
decode_append_request-encode_append_request m v = rw (encode_append_request-eq m) (
    decode_fields-Puts append_request_field (
      Puts-then append_request_field
        (Puts-each append_request_field (Fits IsWireEvent encode_event)
          (λ x. Field.message 1 (encode_event x)) (λ xs. record no_append_request { events = xs })
          (λ xs x h.
            Puts-message append_request_field 1 _ (omega arith) (encode_event x) decode_event x
              (λ y. record no_append_request { events = xs ++ y ∷ [] }) (λ r. refl)
              (decode_event-encode_event x h.valid) h.safe)
          [] m.events v.events)
        (Puts-optional append_request_field (Fits IsWireAppendCondition encode_condition)
          (λ x. Field.message 2 (encode_condition x))
          (record no_append_request { events = m.events })
          (λ o. record { events = m.events; condition = o }) refl
          (λ x h.
            Puts-message append_request_field 2 (record no_append_request { events = m.events })
              (omega arith) (encode_condition x) decode_condition x
              (λ y. record { events = m.events; condition = some y }) (λ r. refl)
              (decode_condition-encode_condition x h.valid) h.safe)
          m.condition v.condition)))

pub record IsWireReadRequest (m : WireReadRequest) : Type 0 where
  pub query : Fits IsWireQuery encode_query m.query
  pub after : IsU64 m.after
  pub limit : Given IsU64 m.limit

unfoldable pub read_request_bytes : WireReadRequest → Bytes
read_request_bytes m =
    (((Field.message 1 (encode_query m.query) ++ Field.number 2 m.after)
        ++ Field.optional (Field.present 3) m.limit)
      ++ Field.bool 4 m.reverse)

pub encode_read_request-eq : (m : WireReadRequest) → encode_read_request m ≡ read_request_bytes m
unfolding encode_read_request read_request_bytes
encode_read_request-eq m = finish-Appends (
    Appends-then
      (Appends-then
        (Appends-then (message-Appends 1 (new_writer 64) (omega arith) (encode_query m.query))
          (uint64-Appends 2 _ (omega arith) m.after))
        (when_some-Appends _ _ (λ x v. uint64_present-Appends 3 v (omega arith) x) m.limit _))
      (bool-Appends 4 _ (omega arith) m.reverse))

pub decode_read_request-encode_read_request :
    (m : WireReadRequest)
    → IsWireReadRequest m
    → decode_read_request (new_reader (encode_read_request m)) ≡ ok m
unfolding decode_read_request read_request_field read_request_bytes
decode_read_request-encode_read_request m v = rw (encode_read_request-eq m) (
    decode_fields-Puts read_request_field (
      Puts-then read_request_field
        (Puts-then read_request_field
          (Puts-then read_request_field
            (Puts-message read_request_field 1 no_read_request (omega arith) (encode_query m.query)
              decode_query m.query (λ x. record no_read_request { query = x }) (λ r. refl)
              (decode_query-encode_query m.query v.query.valid) v.query.safe)
            (Puts-uint64 read_request_field 2 (record no_read_request { query = m.query })
              (omega arith) m.after (λ x. record no_read_request { query = m.query; after = x })
              (λ r. refl) v.after refl))
          (Puts-optional read_request_field IsU64 (Field.present 3)
            (record no_read_request { query = m.query; after = m.after })
            (λ o. record no_read_request { query = m.query; after = m.after; limit = o }) refl
            (λ x h.
              Puts-present read_request_field 3
                (record no_read_request { query = m.query; after = m.after }) (omega arith) x
                (λ y. record no_read_request { query = m.query; after = m.after; limit = some y })
                (λ r. refl) h)
            m.limit v.limit))
        (Puts-bool read_request_field 4
          (record no_read_request { query = m.query; after = m.after; limit = m.limit })
          (omega arith) m.reverse
          (λ x. record { query = m.query; after = m.after; limit = m.limit; reverse = x })
          (λ r. refl) refl)))

pub record IsWireSubscribeRequest (m : WireSubscribeRequest) : Type 0 where
  pub query : Fits IsWireQuery encode_query m.query
  pub after : IsU64 m.after

unfoldable pub subscribe_request_bytes : WireSubscribeRequest → Bytes
subscribe_request_bytes m = (Field.message 1 (encode_query m.query) ++ Field.number 2 m.after)

pub encode_subscribe_request-eq :
    (m : WireSubscribeRequest) → encode_subscribe_request m ≡ subscribe_request_bytes m
unfolding encode_subscribe_request subscribe_request_bytes
encode_subscribe_request-eq m = finish-Appends (
    Appends-then (message-Appends 1 (new_writer 64) (omega arith) (encode_query m.query))
      (uint64-Appends 2 _ (omega arith) m.after))

pub decode_subscribe_request-encode_subscribe_request :
    (m : WireSubscribeRequest)
    → IsWireSubscribeRequest m
    → decode_subscribe_request (new_reader (encode_subscribe_request m)) ≡ ok m
unfolding decode_subscribe_request subscribe_request_field subscribe_request_bytes
decode_subscribe_request-encode_subscribe_request m v = rw (encode_subscribe_request-eq m) (
    decode_fields-Puts subscribe_request_field (
      Puts-then subscribe_request_field
        (Puts-message subscribe_request_field 1 no_subscribe_request (omega arith)
          (encode_query m.query) decode_query m.query
          (λ x. record no_subscribe_request { query = x }) (λ r. refl)
          (decode_query-encode_query m.query v.query.valid) v.query.safe)
        (Puts-uint64 subscribe_request_field 2 (record no_subscribe_request { query = m.query })
          (omega arith) m.after (λ x. record { query = m.query; after = x }) (λ r. refl) v.after
          refl)))

pub record IsWireCancelRequest (m : WireCancelRequest) : Type 0 where
  pub target : IsU64 m.target

unfoldable pub cancel_request_bytes : WireCancelRequest → Bytes
cancel_request_bytes m = Field.number 1 m.target

pub encode_cancel_request-eq :
    (m : WireCancelRequest) → encode_cancel_request m ≡ cancel_request_bytes m
unfolding encode_cancel_request cancel_request_bytes
encode_cancel_request-eq m =
    finish-Appends (uint64-Appends 1 (new_writer 64) (omega arith) m.target)

pub decode_cancel_request-encode_cancel_request :
    (m : WireCancelRequest)
    → IsWireCancelRequest m
    → decode_cancel_request (new_reader (encode_cancel_request m)) ≡ ok m
unfolding decode_cancel_request cancel_request_field cancel_request_bytes
decode_cancel_request-encode_cancel_request m v = rw (encode_cancel_request-eq m) (
    decode_fields-Puts cancel_request_field (
      Puts-uint64 cancel_request_field 1 no_cancel_request (omega arith) m.target
        (λ x. record { target = x }) (λ r. refl) v.target refl))

pub record IsWireHello (m : WireHello) : Type 0 where
  pub protocol_version : IsSafe m.protocol_version
  pub auth_token : Given (λ s. IsName s × (s ≢ [])) m.auth_token

unfoldable pub hello_bytes : WireHello → Bytes
hello_bytes m = (Field.number 1 m.protocol_version ++ Field.optional (Field.string 2) m.auth_token)

pub encode_hello-eq : (m : WireHello) → encode_hello m ≡ hello_bytes m
unfolding encode_hello hello_bytes
encode_hello-eq m = finish-Appends (
    Appends-then (uint32-Appends 1 (new_writer 64) (omega arith) m.protocol_version)
      (when_some-Appends _ _ (λ x v. string-Appends 2 v (omega arith) x) m.auth_token _))

pub decode_hello-encode_hello :
    (m : WireHello) → IsWireHello m → decode_hello (new_reader (encode_hello m)) ≡ ok m
unfolding decode_hello hello_field hello_bytes
decode_hello-encode_hello m v = rw (encode_hello-eq m) (
    decode_fields-Puts hello_field (
      Puts-then hello_field
        (Puts-number hello_field 1 no_hello (omega arith) m.protocol_version
          (λ x. record no_hello { protocol_version = x }) (λ r. refl) v.protocol_version refl)
        (Puts-optional hello_field _ (Field.string 2)
          (record no_hello { protocol_version = m.protocol_version })
          (λ o. record { protocol_version = m.protocol_version; auth_token = o }) refl
          (λ x h.
            Puts-set_string hello_field 2
              (record no_hello { protocol_version = m.protocol_version }) (omega arith) x
              (λ y. record { protocol_version = m.protocol_version; auth_token = some y })
              (λ r. refl) h.0.text h.0.safe h.1)
          m.auth_token v.auth_token)))
