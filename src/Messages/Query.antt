-- ===== src/Messages/Query.antt =====
-- WireQueryItem, WireQuery and WireAppendCondition of src/proto/messages.ts, with their codecs.
pub mod RoundTrip
use tephra_js.Base.{
  ◌≡◌, ◌%◌, ◌^◌, ℕ, Bool, true, false, Option, none, some, List, [], ◌∷◌, ◌++◌, ◌==◌, if◌then◌else◌,
  Result,
}
use tephra_js.Text.{Text, Bytes}
use tephra_js.Wire.Fields.{Step, store, nested, skipping, decode_fields}
use tephra_js.Wire.Reader.{Reader, Fault}
use tephra_js.Wire.Reader
use tephra_js.Wire.Writer.{new_writer, finish, ◌▷◌, each, when_some}
use tephra_js.Wire.Writer

pub record WireQueryItem : Type 0 where
  pub types : List Text
  pub tags : List Text

unfoldable pub encode_query_item : WireQueryItem → Bytes
encode_query_item m = finish (
    new_writer 64
    ▷ each (Writer.repeated_string 1) m.types
    ▷ each (Writer.repeated_string 2) m.tags)

abbrev pub no_query_item : WireQueryItem
no_query_item = record { types = []; tags = [] }

unfoldable pub query_item_field : Step WireQueryItem
query_item_field field_no wire_type m r =
    if field_no == 1
    then store (λ x. record m { types = m.types ++ x ∷ [] }) (Reader.string r)
    else if field_no == 2
    then store (λ x. record m { tags = m.tags ++ x ∷ [] }) (Reader.string r)
    else skipping wire_type m r

unfoldable pub decode_query_item : Reader → Result Fault WireQueryItem
decode_query_item r = decode_fields query_item_field no_query_item r

pub record WireQuery : Type 0 where
  pub all : Bool
  pub items : List WireQueryItem

unfoldable pub encode_query : WireQuery → Bytes
encode_query m = finish (
    new_writer 64
    ▷ Writer.bool 1 m.all
    ▷ each (λ x. Writer.message 2 (encode_query_item x)) m.items)

abbrev pub no_query : WireQuery
no_query = record { all = false; items = [] }

unfoldable pub query_field : Step WireQuery
query_field field_no wire_type m r =
    if field_no == 1
    then store (λ x. record m { all = x }) (Reader.bool r)
    else if field_no == 2
    then store (λ x. record m { items = m.items ++ x ∷ [] }) (nested decode_query_item r)
    else skipping wire_type m r

unfoldable pub decode_query : Reader → Result Fault WireQuery
decode_query r = decode_fields query_field no_query r

pub record WireAppendCondition : Type 0 where
  pub fail_if_events_match : WireQuery
  pub after : ℕ
  pub fail_if_exists : Option WireQuery

unfoldable pub encode_condition : WireAppendCondition → Bytes
encode_condition m = finish (
    new_writer 64
    ▷ Writer.message 1 (encode_query m.fail_if_events_match)
    ▷ Writer.uint64 2 m.after
    ▷ when_some (λ x. Writer.message 3 (encode_query x)) m.fail_if_exists)

abbrev pub no_condition : WireAppendCondition
no_condition = record { fail_if_events_match = no_query; after = 0; fail_if_exists = none }

unfoldable pub condition_field : Step WireAppendCondition
condition_field field_no wire_type m r =
    if field_no == 1
    then store (λ x. record m { fail_if_events_match = x }) (nested decode_query r)
    else if field_no == 2
    then store (λ x. record m { after = x }) (Reader.varint_big r)
    else if field_no == 3
    then store (λ x. record m { fail_if_exists = some x }) (nested decode_query r)
    else skipping wire_type m r

unfoldable pub decode_condition : Reader → Result Fault WireAppendCondition
decode_condition r = decode_fields condition_field no_condition r
