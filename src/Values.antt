-- ===== src/Values.antt =====
-- src/types.ts: the checks that an event, a query item and an append condition pass before they
-- reach the wire.
pub mod Length
pub mod Order
pub mod Sorted
pub mod Create
use tephra_js.Base.{
  ℕ, suc, ◌+◌, Bool, true, false, not, List, [], ◌∷◌, ◌++◌, Option, none, some, ltb, leb, ◌==◌,
  if◌then◌else◌, Result, ok, err, ◌>>=◌, length, ◌^◌, ◌-◌, ◌&&◌,
}
use tephra_js.Text.{Text, Bytes, is_high}

abbrev pub zero_position : ℕ
zero_position = 0

abbrev pub max_position : ℕ
max_position = 0xffff_ffff_ffff_ffff

abbrev pub max_name_len : ℕ
max_name_len = 65535

-- The loop of `utf8ByteLength`; `skip` is set where a high surrogate made it pass over the unit.
unfoldable pub count_from : Bool → Text → ℕ
count_from skip [] = 0
count_from true (code ∷ rest) = count_from false rest
count_from false (code ∷ rest) =
    (if ltb code 0x80 then 1 else if ltb code 0x800 then 2 else if is_high code then 4 else 3)
    + count_from (if ltb code 0x800 then false else is_high code) rest

unfoldable pub utf8_byte_length : Text → ℕ
unfolding count_from
utf8_byte_length value = count_from false value

-- What a name is checked for, and the ValidationError that the check throws.
pub data What : Type 0 where
  tag event_type : What

pub data Invalid : Type 0 where
  is_empty : What → Invalid
  too_long : What → ℕ → Invalid
  duplicate_tag : Text → Invalid

abbrev pub Checked : Type 0 → Type 0
Checked A = Result Invalid A

unfoldable pub validate_name : Text → What → Checked (Unit {0})
validate_name value what =
    let len = utf8_byte_length value in
    if length value == 0
    then err (is_empty what)
    else if ltb max_name_len len
    then err (too_long what len)
    else ok tt

-- The loop that validates each name in turn.
unfoldable pub validate_names : List Text → What → Checked (Unit {0})
validate_names [] what = ok tt
validate_names (name ∷ names) what = do _ ← validate_name name what; validate_names names what

-- JavaScript's order of strings, by code units, and its sort.
unfoldable pub text_le : Text → Text → Bool
text_le [] b = true
text_le (x ∷ a) [] = false
text_le (x ∷ a) (y ∷ b) =
    let rest = text_le a b in if ltb x y then true else if ltb y x then false else rest

unfoldable pub text_eq : Text → Text → Bool
text_eq [] [] = true
text_eq [] (y ∷ b) = false
text_eq (x ∷ a) [] = false
text_eq (x ∷ a) (y ∷ b) = (x == y) && text_eq a b

unfoldable pub insert : Text → List Text → List Text
insert a [] = a ∷ []
insert a (b ∷ bs) = if text_le a b then a ∷ b ∷ bs else b ∷ insert a bs

unfoldable pub sort : List Text → List Text
sort [] = []
sort (a ∷ as') = insert a (sort as')

-- `out[i] === out[i - 1]` for some `i`.
unfoldable pub check_neighbours : List Text → Checked (Unit {0})
check_neighbours [] = ok tt
check_neighbours (a ∷ []) = ok tt
check_neighbours (a ∷ b ∷ rest) =
    let more = check_neighbours (b ∷ rest) in if text_eq b a then err (duplicate_tag b) else more

unfoldable pub validated_tag_set : List Text → Checked (List Text)
validated_tag_set tags = do
  _ ← validate_names tags tag
  let out = sort tags
  _ ← check_neighbours out
  ok out

unfoldable pub validated_types : List Text → Checked (List Text)
validated_types types = do _ ← validate_names types event_type; ok types

pub record Event : Type 0 where
  pub type : Text
  pub tags : List Text
  pub payload : Bytes

unfoldable pub create : Text → List Text → Bytes → Checked Event
create type tags payload = do
  _ ← validate_name type event_type
  out ← validated_tag_set tags
  ok (record { type = type; tags = out; payload = payload })

unfoldable pub from_server : Text → List Text → Bytes → Event
from_server type tags payload = record { type = type; tags = tags; payload = payload }

pub record SequencedEvent : Type 0 where
  pub position : ℕ
  pub event : Event

pub record QueryItem : Type 0 where
  pub types : List Text
  pub tags : List Text

-- `QueryItem.of`, `ofTypes` and `withTags`.
unfoldable pub item_of : List Text → List Text → Checked QueryItem
item_of types tags = do
  ts ← validated_types types
  out ← validated_tag_set tags
  ok (record { types = ts; tags = out })

unfoldable pub of_types : List Text → Checked QueryItem
of_types types = item_of types []

unfoldable pub with_tags : List Text → Checked QueryItem
with_tags tags = item_of [] tags

pub record Query : Type 0 where
  pub match_all : Bool
  pub items : List QueryItem

abbrev pub query_all : Query
query_all = record { match_all = true; items = [] }

abbrev pub query_items : List QueryItem → Query
query_items items = record { match_all = false; items = items }

pub record AppendCondition : Type 0 where
  pub fail_if_events_match : Query
  pub after : ℕ
  pub fail_if_exists : Option Query

unfoldable pub condition_create : Query → ℕ → Option Query → AppendCondition
condition_create query after exists = record {
  fail_if_events_match = query;
  after = after;
  fail_if_exists = exists;
}

unfoldable pub exists_only : Query → AppendCondition
exists_only query = record {
  fail_if_events_match = query_items [];
  after = zero_position;
  fail_if_exists = some query;
}
