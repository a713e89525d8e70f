-- ===== src/Values/Create.antt =====
-- Event.create of src/types.ts: what it accepts, and the event that it makes.
use tephra_js.Base.{
  ℕ, ◌≤◌, ◌≡◌, ◌≢◌, refl, subst, ap, sym, ◌∙◌, List, [], ◌∷◌, arith, ok, bind-eq-ok, All,
}
use tephra_js.Text.{Text, Bytes}
use tephra_js.Values.{
  Checked, What, tag, event_type, sort, check_neighbours, validated_tag_set, validate_name,
  validate_names, Event, create, utf8_byte_length, max_name_len,
}
use tephra_js.Values.Order.{sort-perm}
use tephra_js.Values.Sorted.{
  Ascending, sort-Sorted, perm-sort, check_neighbours-Ascending, sort-Ascending,
  Ascending-check_neighbours,
}
use mathlib.Core.List.{Permᴰ}

-- What the server asks of a name: one byte at least, and no more than a uint16 counts.
pub record IsValidName (s : Text) : Type 0 where
  pub nonempty : s ≢ []
  pub short : utf8_byte_length s ≤ max_name_len

cons-ne-nil : {c : ℕ} {s : Text} → ¬ (◌≡◌ {A = Text} (c ∷ s) [])
cons-ne-nil e = cc

validate_name-IsValidName :
    (s : Text) (what : What) {u : Unit {0}} → validate_name s what ≡ ok u → IsValidName s
unfolding validate_name
validate_name-IsValidName [] what e = absurd (ground arith)
validate_name-IsValidName (c ∷ s) what e = record {
  nonempty = λ z. cons-ne-nil z;
  short = ground arith;
}

IsValidName-validate_name : (s : Text) (what : What) → IsValidName s → validate_name s what ≡ ok tt
unfolding validate_name
IsValidName-validate_name [] what v = absurd (v.nonempty refl)
IsValidName-validate_name (c ∷ s) what v = ground (arith, v.short)

validate_names-IsValidName :
    (names : List Text) (what : What) {u : Unit {0}}
    → validate_names names what ≡ ok u
    → All IsValidName names
unfolding validate_names
validate_names-IsValidName [] what e = tt
validate_names-IsValidName (n ∷ ns) what e =
    let (_, rest, first) = bind-eq-ok (validate_name n what) _ e in
    (validate_name-IsValidName n what first, validate_names-IsValidName ns what rest)

IsValidName-validate_names :
    (names : List Text) (what : What) → All IsValidName names → validate_names names what ≡ ok tt
unfolding validate_names
IsValidName-validate_names [] what v = refl
IsValidName-validate_names (n ∷ ns) what v =
    rw (IsValidName-validate_name n what v.0) (IsValidName-validate_names ns what v.1)

pub All-perm : (P : Text → Type 0) {xs ys : List Text} → Permᴰ xs ys → All P xs → All P ys
All-perm P Permᴰ.nil v = tt
All-perm P (Permᴰ.cons e p) v = (subst P e v.0, All-perm P p v.1)
All-perm P (Permᴰ.swap e f) v = (subst P f v.1.0, (subst P e v.0, v.1.1))
All-perm P (Permᴰ.trans p q) v = All-perm P q (All-perm P p v)

-- What `Event.create` needs, and no more: valid names, and no text twice in a row after the sort.
record Accepts (type : Text) (tags : List Text) : Type 0 where
  valid_type : IsValidName type
  valid_tags : All IsValidName tags
  apart : check_neighbours (sort tags) ≡ ok tt

ok-injective : {a b : Event} → ◌≡◌ {A = Checked Event} (ok a) (ok b) → a ≡ b
ok-injective e = cc

ok-injective_list : {a b : List Text} → ◌≡◌ {A = Checked (List Text)} (ok a) (ok b) → a ≡ b
ok-injective_list e = cc

create-Accepts :
    (type : Text) (tags : List Text) (payload : Bytes) (e : Event)
    → create type tags payload ≡ ok e
    → Accepts type tags × (e ≡ record { type = type; tags = sort tags; payload = payload })
unfolding create validated_tag_set
create-Accepts type tags payload e h =
    let (_, h2, named) = bind-eq-ok (validate_name type event_type) _ h in
    let (out, made, h3) = bind-eq-ok (validated_tag_set tags) _ h2 in
    let (_, h4, tagged) = bind-eq-ok (validate_names tags tag) _ h3 in
    let (_, o, apart) = bind-eq-ok (check_neighbours (sort tags)) _ h4 in
    (
      record {
        valid_type = validate_name-IsValidName type event_type named;
        valid_tags = validate_names-IsValidName tags tag tagged;
        apart = apart;
      },
      sym (ok-injective made)
          ∙ ap (λ t. record { type = type; tags = t; payload = payload })
              (sym (ok-injective_list o)),
    )

Accepts-create :
    (type : Text) (tags : List Text) (payload : Bytes)
    → Accepts type tags
    → create type tags payload ≡ ok (record { type = type; tags = sort tags; payload = payload })
unfolding create validated_tag_set
Accepts-create type tags payload a = rw (
  IsValidName-validate_name type event_type a.valid_type,
  IsValidName-validate_names tags tag a.valid_tags,
  a.apart,
)

-- An event of the type and the payload given, with the same tags in strictly ascending order, and
-- all names valid.
pub record Made (type : Text) (tags : List Text) (payload : Bytes) (e : Event) : Type 0 where
  pub same_type : e.type ≡ type
  pub same_payload : e.payload ≡ payload
  pub same_tags : Permᴰ tags e.tags
  pub ordered : Ascending e.tags
  pub valid_type : IsValidName type
  pub valid_tags : All IsValidName tags

-- When Event.create returns an event, it has the type and the payload given and the tags given,
-- rearranged in strictly ascending order (so that none comes twice), and every name is non-empty
-- and of at most 65535 bytes as utf8ByteLength counts them.
pub create-Made :
    (type : Text) (tags : List Text) (payload : Bytes) (e : Event)
    → create type tags payload ≡ ok e
    → Made type tags payload e
create-Made type tags payload e h =
    let (a, made) = create-Accepts type tags payload e h in
    rw made (record {
      same_type = refl;
      same_payload = refl;
      same_tags = perm-sort tags;
      ordered = check_neighbours-Ascending (sort tags) (sort-Sorted tags) a.apart;
      valid_type = a.valid_type;
      valid_tags = a.valid_tags;
    })

-- When Event.create returns an event for some tags, it returns the same event for the same tags in
-- any other order.
pub create_permuted :
    (type : Text) (tags others : List Text) (payload : Bytes) (e : Event)
    → Permᴰ tags others
    → create type tags payload ≡ ok e
    → create type others payload ≡ ok e
create_permuted type tags others payload e p h =
    let (a, made) = create-Accepts type tags payload e h in
    Accepts-create type others payload (record {
      valid_type = a.valid_type;
      valid_tags = All-perm IsValidName p a.valid_tags;
      apart = ap check_neighbours (sym (sort-perm p)) ∙ a.apart;
    })
    ∙ ap (λ t. ok (record { type = type; tags = t; payload = payload })) (sym (sort-perm p))
    ∙ ap ok (sym made)

-- When the type and the tags are valid names and the tags, rearranged, are strictly ascending,
-- Event.create returns the event with the tags in that arrangement.
pub create-Ascending :
    (type : Text) (tags ascending : List Text) (payload : Bytes)
    → IsValidName type
    → All IsValidName tags
    → Permᴰ tags ascending
    → Ascending ascending
    → create type tags payload ≡ ok (record { type = type; tags = ascending; payload = payload })
create-Ascending type tags ascending payload v w p h =
    Accepts-create type tags payload (record {
      valid_type = v;
      valid_tags = w;
      apart = ap check_neighbours sorted ∙ Ascending-check_neighbours ascending h;
    })
    ∙ ap (λ t. ok (record { type = type; tags = t; payload = payload })) sorted
  where
    sorted : sort tags ≡ ascending
    sorted = sort-perm p ∙ sort-Ascending ascending h
