-- ===== src/Realtime/Events/Closed.antt =====
-- realtime/_events.py: an event that was captured is captured again unchanged, so that what one process
-- publishes another one accepts.
use dj_hyperview.Prelude.{
  Bool, true, false, ◌≡◌, refl, Option, none, some, List, [], ◌∷◌, length, leb, if◌then◌else◌, Text,
  text_eq,
}
use dj_hyperview.Cache.Json.{
  Json, has_exactly, get_field, member, has_key, all_in, all_present, is_unique, is_unique_items,
  is_unique_fields,
}
use dj_hyperview.Realtime.Events.{
  Entity, Entities, Event, resync_event, auth_required, invalidate, mutation, json_texts,
  json_items, json_mutation, json_entities, json_event, shape_texts, shape_items, shape_mutation,
  shape_entities, shape_event, valid_event, captured, capture_event, also, bounded, encode_payload,
  payload,
}

shape_texts-json_texts : (ts : List Text) → shape_texts (json_texts ts) ≡ some ts
unfolding shape_texts json_texts
shape_texts-json_texts [] = refl
shape_texts-json_texts (t ∷ ts) = rw (shape_texts-json_texts ts) refl

shape_items-json_items : (es : List Entity) → shape_items (json_items es) ≡ some es
unfolding shape_items json_items has_exactly member all_in all_present has_key get_field text_eq
shape_items-json_items [] = refl
shape_items-json_items ((r, k) ∷ es) = rw (shape_items-json_items es) refl

shape_mutation-json_mutation : (m : Option Text) → shape_mutation (some (json_mutation m)) ≡ some m
unfolding json_mutation
shape_mutation-json_mutation none = refl
shape_mutation-json_mutation (some m) = refl

shape_entities-json_entities :
    (es : Option Entities) → shape_entities (some (json_entities es)) ≡ some es
unfolding json_entities has_exactly member all_in all_present has_key get_field text_eq
shape_entities-json_entities none = refl
shape_entities-json_entities (some (epoch, items)) = rw (shape_items-json_items items) refl

shape_event-json_event : (event : Event) → shape_event (json_event event) ≡ some event
unfolding shape_event json_event has_exactly member all_in all_present has_key get_field text_eq
shape_event-json_event resync_event = refl
shape_event-json_event auth_required = refl
shape_event-json_event (invalidate rs) = rw (shape_texts-json_texts rs) refl
shape_event-json_event (mutation rs m es) =
    rw (shape_texts-json_texts rs)
      (rw (shape_mutation-json_mutation m) (rw (shape_entities-json_entities es) refl))

capture_event-Event :
    (j c : Json)
    → capture_event j ≡ some c
    → (event : Event) × (shape_event j ≡ some event)
      × (valid_event event ≡ true)
      × (c ≡ json_event event)
unfolding capture_event
capture_event-Event j c h = by_shape (shape_event j) refl h
  where
    by_valid :
        (event : Event) (b : Bool)
        → shape_event j ≡ some event
        → valid_event event ≡ b
        → (if b then some (json_event event) else none) ≡ some c
        → (event : Event) × (shape_event j ≡ some event)
          × (valid_event event ≡ true)
          × (c ≡ json_event event)
    by_valid event true e v h = (event, e, v, cc)
    by_valid event false e v h = absurd (cc)

    by_shape :
        (o : Option Event)
        → shape_event j ≡ o
        → captured o ≡ some c
        → (event : Event) × (shape_event j ≡ some event)
          × (valid_event event ≡ true)
          × (c ≡ json_event event)
    by_shape none e h = absurd (cc)
    by_shape (some event) e h = by_valid event (valid_event event) e refl h

-- What `_capture_event` captures of any event, it captures again unchanged.
pub capture_event-captured : (j c : Json) → capture_event j ≡ some c → capture_event c ≡ some c
capture_event-captured j c h =
    let (event, e, v, same) = capture_event-Event j c h in
    rw same (unfold capture_event in rw (shape_event-json_event event) (rw v refl))

is_unique-json_texts : (ts : List Text) → is_unique_items (json_texts ts) ≡ true
unfolding is_unique is_unique_items json_texts
is_unique-json_texts [] = refl
is_unique-json_texts (t ∷ ts) = is_unique-json_texts ts

is_unique-json_items : (es : List Entity) → is_unique_items (json_items es) ≡ true
unfolding is_unique is_unique_items is_unique_fields has_key text_eq json_items
is_unique-json_items [] = refl
is_unique-json_items ((r, k) ∷ es) = is_unique-json_items es

is_unique-json_mutation : (m : Option Text) → is_unique (json_mutation m) ≡ true
unfolding is_unique json_mutation
is_unique-json_mutation none = refl
is_unique-json_mutation (some m) = refl

is_unique-json_entities : (es : Option Entities) → is_unique (json_entities es) ≡ true
unfolding is_unique is_unique_items is_unique_fields has_key text_eq json_entities
is_unique-json_entities none = refl
is_unique-json_entities (some (epoch, items)) = rw (is_unique-json_items items) refl

is_unique-json_event : (event : Event) → is_unique (json_event event) ≡ true
unfolding is_unique is_unique_items is_unique_fields has_key text_eq json_event
is_unique-json_event resync_event = refl
is_unique-json_event auth_required = refl
is_unique-json_event (invalidate rs) = rw (is_unique-json_texts rs) refl
is_unique-json_event (mutation rs m es) =
    rw (is_unique-json_texts rs)
      (rw (is_unique-json_mutation m) (rw (is_unique-json_entities es) refl))

also-some {ℓ} :
    {A B : Type ℓ} (o : Option A) (f : A → Option B) (b : B)
    → also o f ≡ some b
    → (a : A) × (o ≡ some a) × (f a ≡ some b)
also-some none f b h = absurd (cc)
also-some (some a) f b h = (a, refl, h)

module _ (dumps : Json → Text) (loads : Text → Option Json) where
  bounded-some :
      (t raw : Text) → bounded dumps loads t ≡ some raw → (raw ≡ t) × (leb (length t) 4096 ≡ true)
  bounded-some t raw h = by_size (leb (length t) 4096) refl h
    where
      by_size :
          (b : Bool)
          → leb (length t) 4096 ≡ b
          → (if b then some t else none) ≡ some raw
          → (raw ≡ t) × (leb (length t) 4096 ≡ true)
      by_size true e h = (cc, e)
      by_size false e h = absurd (cc)

  -- If `json.loads` reads back what `json.dumps` writes of the captured event, in which no key repeats,
  -- the payload that `_encode_payload` makes is one that `_payload` of a subscription accepts,
  -- unchanged.
  pub payload-encode_payload :
      (j : Json) (raw : Text)
      → ((c : Json) → capture_event j ≡ some c → is_unique c ≡ true → loads (dumps c) ≡ some c)
      → encode_payload dumps loads j ≡ some raw
      → payload dumps loads raw ≡ some raw
  unfolding encode_payload payload
  payload-encode_payload j raw reads h =
      let (c, got, fits) = also-some (capture_event j) (λ c. bounded dumps loads (dumps c)) raw h in
      let (event, e, v, same) = capture_event-Event j c got in
      let (same_raw, small) = bounded-some (dumps c) raw fits in
      let unique : is_unique c ≡ true = rw same (is_unique-json_event event) in
      rw same_raw
        (rw small (rw (reads c got unique) (rw (capture_event-captured j c got) (rw small refl))))
