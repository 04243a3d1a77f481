-- ===== src/Cache/Payload.antt =====
-- The payloads of cache.py and their readers `_decode` and `_decode_resolved`.
pub mod Roundtrip
use dj_hyperview.Prelude.{
  ℕ, Bool, true, false, ◌&&◌, Option, none, some, List, [], ◌∷◌, ◌==◌, if◌then◌else◌, Text, codes,
  text_eq,
}
use dj_hyperview.Sources.{ResolvedTemplate}
use dj_hyperview.Cache.Json.{
  Json, null, boolean, int, other_number, str, array, object, Fields, end, field, Value, json,
  loads, get_field, get_text, has_exactly,
}

-- `CacheEntry`: a template, or `CACHE_MISS`.
pub data CacheEntry : Type 0 where
  miss : CacheEntry
  hit : ResolvedTemplate → CacheEntry

-- `_FIELDS`, `_MISS_FIELDS`, `_TEMPLATE_FIELDS`, `_RESOLVED_FIELDS` and `_RESOLVED_MISS_FIELDS`
abbrev pub template_names : List Text
template_names =
    codes "name" ∷ codes "content" ∷ codes "origin" ∷ codes "source" ∷ codes "revision" ∷ []

abbrev pub miss_names : List Text
miss_names = codes "version" ∷ codes "state" ∷ codes "source" ∷ codes "name" ∷ codes "revision" ∷ []

abbrev pub entry_names : List Text
entry_names = codes "version" ∷ codes "state" ∷ codes "template" ∷ []

abbrev pub resolved_names : List Text
resolved_names =
    codes "version" ∷ codes "state" ∷ codes "source" ∷ codes "name" ∷ codes "template" ∷ []

abbrev pub resolved_miss_names : List Text
resolved_miss_names = codes "version" ∷ codes "state" ∷ codes "source" ∷ codes "name" ∷ []

-- `_contract_fields`
unfoldable pub contract_fields : ResolvedTemplate → Fields
contract_fields t = field (codes "name") (str t.name) (
    field (codes "content") (str t.content) (
      field (codes "origin") (str t.origin)
        (field (codes "source") (str t.source) (field (codes "revision") (str t.revision) end))))

abbrev pub header : Text → Fields → Value
header state fields =
    json (object (field (codes "version") (int 1) (field (codes "state") (str state) fields)))

-- The payload of `set`.
unfoldable pub template_payload : ResolvedTemplate → Value
unfolding contract_fields
template_payload t =
    header (codes "template") (field (codes "template") (object (contract_fields t)) end)

-- The payload of `set_miss`.
unfoldable pub miss_payload : Text → Text → Text → Value
miss_payload source name revision = header (codes "miss") (
    field (codes "source") (str source)
      (field (codes "name") (str name) (field (codes "revision") (str revision) end)))

-- The payload of `set_resolved`.
unfoldable pub resolved_payload : Text → Text → ResolvedTemplate → Value
unfolding contract_fields
resolved_payload source name t = header (codes "resolved") (
    field (codes "source") (str source)
      (field (codes "name") (str name) (field (codes "template") (object (contract_fields t)) end)))

-- The payload of `set_resolved_miss`.
unfoldable pub resolved_miss_payload : Text → Text → Value
resolved_miss_payload source name =
    header (codes "source-miss")
      (field (codes "source") (str source) (field (codes "name") (str name) end))

-- `value[key] == text`
unfoldable pub field_is : Text → Text → Fields → Bool
unfolding get_text get_field
field_is key text fs = elim (get_text key fs) [ some t ↦ text_eq t text | none ↦ false ]

-- `type(value.get("version")) is not int or value["version"] != 1`, the other way round.
unfoldable pub version_one : Fields → Bool
unfolding get_field
version_one fs = elim (get_field (codes "version") fs) [ some (int n) ↦ n == 1 | _ ↦ false ]

-- `ResolvedTemplate(**template)`, if the keys are those of the contract and all values are texts.
unfoldable pub read_fields : Fields → Option ResolvedTemplate
unfolding get_text get_field
read_fields fs = elim (get_text (codes "name") fs) [
  | none ↦ none
  | some name ↦ elim (get_text (codes "content") fs) [
    | none ↦ none
    | some content ↦ elim (get_text (codes "origin") fs) [
      | none ↦ none
      | some origin ↦ elim (get_text (codes "source") fs) [
        | none ↦ none
        | some source ↦ elim (get_text (codes "revision") fs) [
          | none ↦ none
          | some revision ↦ some (record {
            name = name;
            content = content;
            origin = origin;
            source = source;
            revision = revision;
          })
        ]
      ]
    ]
  ]
]

unfoldable pub read_template : Option Json → Option ResolvedTemplate
unfolding read_fields has_exactly
read_template (some (object fs)) = if has_exactly fs template_names then read_fields fs else none
read_template _ = none

abbrev pub accept : Bool → CacheEntry → Option CacheEntry
accept true e = some e
accept false e = none

abbrev pub accept_template : Option ResolvedTemplate → (ResolvedTemplate → Bool) → Option CacheEntry
accept_template none ok_for = none
accept_template (some t) ok_for = accept (ok_for t) (hit t)

module _ (source name : Text) where
  -- The body of `decode` in `_decode_resolved`, for the keys of the object. `none` is an exception.
  unfoldable pub decode_resolved_fields : Fields → Option CacheEntry
  decode_resolved_fields fs =
      if version_one fs
      then if field_is (codes "state") (codes "source-miss") fs
        then accept
            (has_exactly fs resolved_miss_names
              && (field_is (codes "source") source fs && field_is (codes "name") name fs))
            miss
        else if field_is (codes "state") (codes "resolved") fs && has_exactly fs resolved_names
        then accept_template (read_template (get_field (codes "template") fs)) (λ t.
          text_eq t.name name
          && (field_is (codes "source") source fs && field_is (codes "name") name fs))
        else none
      else none

  unfoldable pub decode_resolved : Value → Option CacheEntry
  decode_resolved payload = elim (loads payload) [
    | some (object fs) ↦ decode_resolved_fields fs
    | _ ↦ none
  ]

  module _ (revision : Text) where
    -- The body of `decode` in `_decode`.
    unfoldable pub decode_fields : Fields → Option CacheEntry
    decode_fields fs =
        if version_one fs
        then if field_is (codes "state") (codes "miss") fs
          then accept
              (has_exactly fs miss_names
                && (field_is (codes "source") source fs
                    && (field_is (codes "name") name fs
                        && field_is (codes "revision") revision fs)))
              miss
          else if field_is (codes "state") (codes "template") fs && has_exactly fs entry_names
          then accept_template (read_template (get_field (codes "template") fs))
              (λ t. text_eq t.source source && (text_eq t.name name && text_eq t.revision revision))
          else none
        else none

    unfoldable pub decode : Value → Option CacheEntry
    decode payload = elim (loads payload) [ some (object fs) ↦ decode_fields fs | _ ↦ none ]
