-- ===== src/Messages/Query/RoundTrip.antt =====
-- Queries and append conditions of src/proto/messages.ts: encoders against decoders.
use tephra_js.Base.{◌≡◌, refl, some, [], ◌∷◌, ◌++◌, ok, All, Given, arith}
use tephra_js.Text.{Bytes}
use tephra_js.Wire.Field
use tephra_js.Wire.Fields.Rules.{
  Puts-then, decode_fields-Puts, Puts-repeated_string, Puts-bool, Puts-uint64, Puts-message,
  Puts-optional, Puts-each,
}
use tephra_js.Wire.Number.{IsU64}
use tephra_js.Wire.Reader.{new_reader}
use tephra_js.Wire.Writer.{new_writer}
use tephra_js.Wire.Writer.Appends.{Appends-then, finish-Appends}
use tephra_js.Wire.Writer.Methods.{
  repeated_string-Appends, bool-Appends, uint64-Appends, message-Appends, when_some-Appends,
  each-Appends,
}
use tephra_js.Messages.Sound.{IsName, Fits}
use mathlib.Core.List.{flat_map}
use tephra_js.Messages.Query.{
  WireQueryItem, encode_query_item, no_query_item, query_item_field, decode_query_item, WireQuery,
  encode_query, no_query, query_field, decode_query, WireAppendCondition, encode_condition,
  no_condition, condition_field, decode_condition,
}

pub record IsWireQueryItem (m : WireQueryItem) : Type 0 where
  pub types : All IsName m.types
  pub tags : All IsName m.tags

unfoldable pub query_item_bytes : WireQueryItem → Bytes
query_item_bytes m =
    (flat_map (Field.repeated_string 1) m.types ++ flat_map (Field.repeated_string 2) m.tags)

pub encode_query_item-eq : (m : WireQueryItem) → encode_query_item m ≡ query_item_bytes m
unfolding encode_query_item query_item_bytes
encode_query_item-eq m = finish-Appends (
    Appends-then
      (each-Appends _ _ (λ x v. repeated_string-Appends 1 v (omega arith) x) m.types
        (new_writer 64))
      (each-Appends _ _ (λ x v. repeated_string-Appends 2 v (omega arith) x) m.tags _))

pub decode_query_item-encode_query_item :
    (m : WireQueryItem)
    → IsWireQueryItem m
    → decode_query_item (new_reader (encode_query_item m)) ≡ ok m
unfolding decode_query_item query_item_field query_item_bytes
decode_query_item-encode_query_item m v = rw (encode_query_item-eq m) (
    decode_fields-Puts query_item_field (
      Puts-then query_item_field
        (Puts-each query_item_field IsName (Field.repeated_string 1)
          (λ xs. record no_query_item { types = xs })
          (λ xs x h.
            Puts-repeated_string query_item_field 1 _ (omega arith) x
              (λ y. record no_query_item { types = xs ++ y ∷ [] }) (λ r. refl) h.text h.safe)
          [] m.types v.types)
        (Puts-each query_item_field IsName (Field.repeated_string 2)
          (λ xs. record { types = m.types; tags = xs })
          (λ xs x h.
            Puts-repeated_string query_item_field 2 _ (omega arith) x
              (λ y. record { types = m.types; tags = xs ++ y ∷ [] }) (λ r. refl) h.text h.safe)
          [] m.tags v.tags)))

pub record IsWireQuery (m : WireQuery) : Type 0 where
  pub items : All (Fits IsWireQueryItem encode_query_item) m.items

unfoldable pub query_bytes : WireQuery → Bytes
query_bytes m =
    (Field.bool 1 m.all ++ flat_map (λ x. Field.message 2 (encode_query_item x)) m.items)

pub encode_query-eq : (m : WireQuery) → encode_query m ≡ query_bytes m
unfolding encode_query query_bytes
encode_query-eq m = finish-Appends (
    Appends-then (bool-Appends 1 (new_writer 64) (omega arith) m.all)
      (each-Appends _ _ (λ x v. message-Appends 2 v (omega arith) (encode_query_item x)) m.items _))

pub decode_query-encode_query :
    (m : WireQuery) → IsWireQuery m → decode_query (new_reader (encode_query m)) ≡ ok m
unfolding decode_query query_field query_bytes
decode_query-encode_query m v = rw (encode_query-eq m) (
    decode_fields-Puts query_field (
      Puts-then query_field
        (Puts-bool query_field 1 no_query (omega arith) m.all (λ x. record no_query { all = x })
          (λ r. refl) refl)
        (Puts-each query_field (Fits IsWireQueryItem encode_query_item)
          (λ x. Field.message 2 (encode_query_item x)) (λ xs. record { all = m.all; items = xs })
          (λ xs x h.
            Puts-message query_field 2 _ (omega arith) (encode_query_item x) decode_query_item x
              (λ y. record { all = m.all; items = xs ++ y ∷ [] }) (λ r. refl)
              (decode_query_item-encode_query_item x h.valid) h.safe)
          [] m.items v.items)))

pub record IsWireAppendCondition (m : WireAppendCondition) : Type 0 where
  pub fail_if_events_match : Fits IsWireQuery encode_query m.fail_if_events_match
  pub after : IsU64 m.after
  pub fail_if_exists : Given (Fits IsWireQuery encode_query) m.fail_if_exists

unfoldable pub condition_bytes : WireAppendCondition → Bytes
condition_bytes m =
    ((Field.message 1 (encode_query m.fail_if_events_match) ++ Field.number 2 m.after)
      ++ Field.optional (λ x. Field.message 3 (encode_query x)) m.fail_if_exists)

pub encode_condition-eq : (m : WireAppendCondition) → encode_condition m ≡ condition_bytes m
unfolding encode_condition condition_bytes
encode_condition-eq m = finish-Appends (
    Appends-then
      (Appends-then
        (message-Appends 1 (new_writer 64) (omega arith) (encode_query m.fail_if_events_match))
        (uint64-Appends 2 _ (omega arith) m.after))
      (when_some-Appends _ _ (λ x v. message-Appends 3 v (omega arith) (encode_query x))
        m.fail_if_exists _))

pub decode_condition-encode_condition :
    (m : WireAppendCondition)
    → IsWireAppendCondition m
    → decode_condition (new_reader (encode_condition m)) ≡ ok m
unfolding decode_condition condition_field condition_bytes
decode_condition-encode_condition m v = rw (encode_condition-eq m) (
    decode_fields-Puts condition_field (
      Puts-then condition_field
        (Puts-then condition_field
          (Puts-message condition_field 1 no_condition (omega arith)
            (encode_query m.fail_if_events_match) decode_query m.fail_if_events_match
            (λ x. record no_condition { fail_if_events_match = x }) (λ r. refl)
            (decode_query-encode_query m.fail_if_events_match v.fail_if_events_match.valid)
            v.fail_if_events_match.safe)
          (Puts-uint64 condition_field 2
            (record no_condition { fail_if_events_match = m.fail_if_events_match }) (omega arith)
            m.after
            (λ x. record no_condition { fail_if_events_match = m.fail_if_events_match; after = x })
            (λ r. refl) v.after refl))
        (Puts-optional condition_field (Fits IsWireQuery encode_query)
          (λ x. Field.message 3 (encode_query x))
          (record no_condition { fail_if_events_match = m.fail_if_events_match; after = m.after })
          (λ o. record {
            fail_if_events_match = m.fail_if_events_match;
            after = m.after;
            fail_if_exists = o;
          })
          refl
          (λ x h.
            Puts-message condition_field 3
              (record no_condition {
                fail_if_events_match = m.fail_if_events_match;
                after = m.after;
              })
              (omega arith) (encode_query x) decode_query x
              (λ y. record {
                fail_if_events_match = m.fail_if_events_match;
                after = m.after;
                fail_if_exists = some y;
              })
              (λ r. refl) (decode_query-encode_query x h.valid) h.safe)
          m.fail_if_exists v.fail_if_exists)))
