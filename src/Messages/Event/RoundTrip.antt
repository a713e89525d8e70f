-- ===== src/Messages/Event/RoundTrip.antt =====
-- Events of src/proto/messages.ts: encodeEvent against decodeEvent.
use tephra_js.Base.{◌≡◌, refl, [], ◌∷◌, ◌++◌, ok, length, All, arith}
use tephra_js.Text.{Bytes}
use tephra_js.Wire.Field
use tephra_js.Wire.Fields.Rules.{
  Puts-then, decode_fields-Puts, Puts-string, Puts-repeated_string, Puts-bytes, Puts-each,
}
use tephra_js.Wire.Number.{IsSafe}
use tephra_js.Wire.Reader.{new_reader}
use tephra_js.Wire.Writer.{new_writer}
use tephra_js.Wire.Writer.Appends.{Appends-then, finish-Appends}
use tephra_js.Wire.Writer.Methods.{
  string-Appends, repeated_string-Appends, bytes-Appends, each-Appends,
}
use tephra_js.Messages.Sound.{IsName}
use mathlib.Core.List.{flat_map}
use tephra_js.Messages.Event.{WireEvent, encode_event, no_event, event_field, decode_event}

pub record IsWireEvent (m : WireEvent) : Type 0 where
  pub type : IsName m.type
  pub tags : All IsName m.tags
  pub payload : IsSafe (length m.payload)

unfoldable pub event_bytes : WireEvent → Bytes
event_bytes m =
    ((Field.string 1 m.type ++ flat_map (Field.repeated_string 2) m.tags)
      ++ Field.bytes 3 m.payload)

pub encode_event-eq : (m : WireEvent) → encode_event m ≡ event_bytes m
unfolding encode_event event_bytes
encode_event-eq m = finish-Appends (
    Appends-then
      (Appends-then (string-Appends 1 (new_writer 64) (omega arith) m.type)
        (each-Appends _ _ (λ x v. repeated_string-Appends 2 v (omega arith) x) m.tags _))
      (bytes-Appends 3 _ (omega arith) m.payload))

pub decode_event-encode_event :
    (m : WireEvent) → IsWireEvent m → decode_event (new_reader (encode_event m)) ≡ ok m
unfolding decode_event event_field event_bytes
decode_event-encode_event m v = rw (encode_event-eq m) (
    decode_fields-Puts event_field (
      Puts-then event_field
        (Puts-then event_field
          (Puts-string event_field 1 no_event (omega arith) m.type
            (λ x. record no_event { type = x }) (λ r. refl) v.type.text v.type.safe refl)
          (Puts-each event_field IsName (Field.repeated_string 2)
            (λ xs. record no_event { type = m.type; tags = xs })
            (λ xs x h.
              Puts-repeated_string event_field 2 _ (omega arith) x
                (λ y. record no_event { type = m.type; tags = xs ++ y ∷ [] }) (λ r. refl) h.text
                h.safe)
            [] m.tags v.tags))
        (Puts-bytes event_field 3 (record no_event { type = m.type; tags = m.tags }) (omega arith)
          m.payload (λ x. record { type = m.type; tags = m.tags; payload = x }) (λ r. refl)
          v.payload refl)))
