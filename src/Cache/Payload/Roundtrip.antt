-- ===== src/Cache/Payload/Roundtrip.antt =====
-- What is written to the cache reads back, and nothing else is read as an answer for the identity.
use dj_hyperview.Prelude.{
  ap, ◌∙◌, eq_of_text_eq, Bool, true, false, ◌≡◌, refl, ◌&&◌, Option, none, some, if◌then◌else◌,
  Text, codes, text_eq, arith,
}
use dj_hyperview.Sources.{ResolvedTemplate}
use dj_hyperview.Cache.Json.{Json, Fields, Value, loads, get_text}
use dj_hyperview.Cache.Json.{object}
use dj_hyperview.Cache.Payload.{
  field_is, version_one, read_template, accept, CacheEntry, miss, hit, template_payload,
  miss_payload, resolved_payload, resolved_miss_payload, decode_resolved_fields, decode_resolved,
  decode_fields, decode,
}

readers : Unit {0}
unfolding loads field_is version_one read_template decode_resolved_fields decode_resolved
    decode_fields decode text_eq
readers = tt

accept-if : (b : Bool) (e : CacheEntry) → accept b e ≡ (if b then some e else none)
accept-if true e = refl
accept-if false e = refl

-- What `_decode_resolved` reads in a payload that was written for some source and name: the template,
-- if source and name are those asked for and the template has the name, and an error otherwise.
pub decode_resolved-resolved_payload :
    (source name source' name' : Text) (t : ResolvedTemplate)
    → decode_resolved source name (resolved_payload source' name' t) ≡ (
        if text_eq t.name name && (text_eq source' source && text_eq name' name)
        then some (hit t)
        else none)
unfolding readers resolved_payload
decode_resolved-resolved_payload source name source' name' t = accept-if _ _

-- What `set_resolved_miss` writes for a source and a name reads back as a miss for that source and
-- name, and as nothing for any other.
pub decode_resolved-miss_payload :
    (source name source' name' : Text)
    → decode_resolved source name (resolved_miss_payload source' name')
      ≡ (if text_eq source' source && text_eq name' name then some miss else none)
unfolding readers resolved_miss_payload
decode_resolved-miss_payload source name source' name' = accept-if _ _

-- What `set` writes reads back as the template under its own source, name and revision, and as
-- nothing under any other.
decode-template_payload :
    (source name revision : Text) (t : ResolvedTemplate)
    → decode source name revision (template_payload t) ≡ (
        if text_eq t.source source && (text_eq t.name name && text_eq t.revision revision)
        then some (hit t)
        else none)
unfolding readers template_payload
decode-template_payload source name revision t = accept-if _ _

-- What `set_miss` writes reads back as a miss under its own source, name and revision, and as nothing
-- under any other.
decode-miss_payload :
    (source name revision source' name' revision' : Text)
    → decode source name revision (miss_payload source' name' revision') ≡ (
        if text_eq source' source && (text_eq name' name && text_eq revision' revision)
        then some miss
        else none)
unfolding readers miss_payload
decode-miss_payload source name revision source' name' revision' = accept-if _ _

field_is-get_text :
    (key value : Text) (fs : Fields) → field_is key value fs ≡ true → get_text key fs ≡ some value
unfolding field_is
field_is-get_text key value fs h = by_text (get_text key fs) refl
  where
    by_text : (o : Option Text) → get_text key fs ≡ o → get_text key fs ≡ some value
    by_text none e = absurd (cc (rw (e, field_is) at h))
    by_text (some t) e = e ∙ ap some (eq_of_text_eq t value (rw (e, field_is) at h))

-- The tests that a template has passed.
fields-hit :
    (source name : Text) (fs : Fields) (t : ResolvedTemplate)
    → decode_resolved_fields source name fs ≡ some (hit t)
    → (text_eq t.name name ≡ true)
      × (field_is (codes "source") source fs ≡ true)
      × (field_is (codes "name") name fs ≡ true)
unfolding decode_resolved_fields
fields-hit source name fs t h = (ground arith, ground arith, ground arith)

-- Whatever a backend returns, a template that `_decode_resolved` reads in it has the name asked for,
-- and the payload carries the source and the name asked for.
pub decode_resolved-hit :
    (source name : Text) (v : Value) (t : ResolvedTemplate)
    → decode_resolved source name v ≡ some (hit t)
    → (t.name ≡ name)
      × ((fs : Fields) × (loads v ≡ some (object fs))
          × (get_text (codes "source") fs ≡ some source)
          × (get_text (codes "name") fs ≡ some name))
unfolding decode_resolved
decode_resolved-hit source name v t h = by_value (loads v) refl
  where
    by_value :
        (o : Option Json)
        → loads v ≡ o
        → (t.name ≡ name)
          × ((fs : Fields) × (loads v ≡ some (object fs))
              × (get_text (codes "source") fs ≡ some source)
              × (get_text (codes "name") fs ≡ some name))
    by_value (some (object fs)) e =
        let (named, from_source, from_name) =
          fields-hit source name fs t (rw (e, decode_resolved) at h) in
        (
          eq_of_text_eq t.name name named,
          (fs, e, field_is-get_text _ source fs from_source, field_is-get_text _ name fs from_name),
        )
    by_value o e = absurd (cc (rw (e, decode_resolved) at h))

-- What `set_resolved` writes for some source and name reads back as the template, if source and name
-- are those asked for and the template has the name, and as nothing otherwise. What
-- `set_resolved_miss` writes reads back as a miss for its source and name, and as nothing for any
-- other.
pub decode_resolved-payloads :
    (source name source' name' : Text) (t : ResolvedTemplate)
    → (decode_resolved source name (resolved_payload source' name' t) ≡ (
        if text_eq t.name name && (text_eq source' source && text_eq name' name)
        then some (hit t)
        else none))
      × (decode_resolved source name (resolved_miss_payload source' name')
          ≡ (if text_eq source' source && text_eq name' name then some miss else none))
decode_resolved-payloads source name source' name' t = (
  decode_resolved-resolved_payload source name source' name' t,
  decode_resolved-miss_payload source name source' name',
)

-- What `set` writes reads back as the template under its own source, name and revision, and what
-- `set_miss` writes as a miss under those it was given. Under any other they read as nothing.
pub decode-payloads :
    (source name revision source' name' revision' : Text) (t : ResolvedTemplate)
    → (decode source name revision (template_payload t) ≡ (
        if text_eq t.source source && (text_eq t.name name && text_eq t.revision revision)
        then some (hit t)
        else none))
      × (decode source name revision (miss_payload source' name' revision') ≡ (
          if text_eq source' source && (text_eq name' name && text_eq revision' revision)
          then some miss
          else none))
decode-payloads source name revision source' name' revision' t = (
  decode-template_payload source name revision t,
  decode-miss_payload source name revision source' name' revision',
)
