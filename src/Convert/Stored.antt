-- ===== src/Convert/Stored.antt =====
-- An event of src/types.ts on its way through src/convert.ts and src/proto/messages.ts and back.
use tephra_js.Base.{ℕ, ◌≡◌, refl, subst, sym, List, [], ◌∷◌, some, ok, length, All, arith}
use tephra_js.Text.{Text, Bytes, IsText}
use tephra_js.Wire.Number.{IsU64, IsSafe}
use tephra_js.Wire.Reader.{new_reader}
use tephra_js.Messages.Sound.{IsName}
use tephra_js.Messages.Event.{encode_event}
use tephra_js.Messages.Event.RoundTrip.{IsWireEvent}
use tephra_js.Messages.Replies.{WireSequencedEvent, encode_sequenced_event, decode_sequenced_event}
use tephra_js.Messages.Replies.RoundTrip.{decode_sequenced_event-encode_sequenced_event}
use tephra_js.Values.{Event, create, from_server}
use tephra_js.Values.Create.{IsValidName, All-perm, Made, create-Made}
use tephra_js.Values.Length.{utf8_byte_length-encode_utf8}
use tephra_js.Convert.{event_to_wire, sequenced_event, sequenced_from_wire}

-- A valid name that is a text fits the wire.
valid-IsName : (s : Text) → IsValidName s → IsText s → IsName s
valid-IsName s v t = record {
  text = t;
  safe = omega (arith, utf8_byte_length-encode_utf8 s t.units t.paired, v.short);
}

All-IsName : (xs : List Text) → All IsValidName xs → All IsText xs → All IsName xs
All-IsName [] v t = tt
All-IsName (x ∷ xs) v t = (valid-IsName x v.0 t.0, All-IsName xs v.1 t.1)

-- The struct in which the server sends an event back.
abbrev pub stored : ℕ → Event → WireSequencedEvent
stored position e = record { position = position; event = some (event_to_wire e) }

created-IsWireEvent :
    (type : Text) (tags : List Text) (payload : Bytes) (e : Event)
    → Made type tags payload e
    → IsText type
    → All IsText tags
    → IsSafe (length payload)
    → IsWireEvent (event_to_wire e)
unfolding event_to_wire
created-IsWireEvent type tags payload e m t ts safe = record {
  type = subst IsName (sym m.same_type) (valid-IsName type m.valid_type t);
  tags = All-perm IsName m.same_tags (All-IsName tags m.valid_tags ts);
  payload = subst (λ p. IsSafe (length p)) (sym m.same_payload) safe;
}

-- An event made by Event.create from well-formed texts without a leading byte order mark, sent in a
-- sequenced event at a 64-bit position, is decoded to the same struct, and sequencedFromWire gives
-- back the event and its position, when the lengths of its payload and of its bytes are below 2^53.
pub sequenced_from_wire-create :
    (position : ℕ) (type : Text) (tags : List Text) (payload : Bytes) (e : Event)
    → create type tags payload ≡ ok e
    → IsText type
    → All IsText tags
    → IsSafe (length payload)
    → IsSafe (length (encode_event (event_to_wire e)))
    → IsU64 position
    → (decode_sequenced_event (new_reader (encode_sequenced_event (stored position e)))
        ≡ ok (stored position e))
      × (sequenced_from_wire (stored position e) ≡ ok (record { position = position; event = e }))
unfolding sequenced_from_wire sequenced_event from_server event_to_wire
sequenced_from_wire-create position type tags payload e made t ts safe short low = (
  decode_sequenced_event-encode_sequenced_event (stored position e) (record {
    position = low;
    event = record {
      valid =
          created-IsWireEvent type tags payload e (create-Made type tags payload e made) t ts safe;
      safe = short;
    };
  }),
  refl,
)
