-- ===== src/Realtime/Events.antt =====
-- realtime/_events.py: the closed envelopes, and `_payload` of realtime/_subscription.py. An event is
-- the JSON value that it is written as. Every refusal of the source is the same `ValueError`, so the
-- tests on types and keys (`shape_...`) stand apart from the tests on values (`valid_...`).
pub mod Closed
use dj_hyperview.Prelude.{
  ℕ, ◌+◌, ◌-◌, Bool, true, false, ◌&&◌, ◌||◌, not, Option, none, some, List, [], ◌∷◌, ◌++◌, length,
  leb, ◌==◌, if◌then◌else◌, Text, codes, text_eq,
}
use dj_hyperview.Cache.Json.{
  Json, null, boolean, int, str, array, object, Items, nil, cons, Fields, end, field, has_exactly,
  get_field, member,
}
use dj_hyperview.Cache.Generation.{all_hex}

abbrev pub event_names : List Text
event_names = codes "event" ∷ codes "data" ∷ []

abbrev pub plain_names : List Text
plain_names = codes "version" ∷ []

abbrev pub invalidate_names : List Text
invalidate_names = codes "version" ∷ codes "resources" ∷ []

abbrev pub mutation_names : List Text
mutation_names = codes "version" ∷ codes "resources" ∷ codes "mutation_id" ∷ codes "entities" ∷ []

abbrev pub entities_names : List Text
entities_names = codes "epoch" ∷ codes "items" ∷ []

abbrev pub entity_names : List Text
entity_names = codes "resource" ∷ codes "key" ∷ []

abbrev pub Entity : Type 0
Entity = Text × Text

abbrev pub Entities : Type 0
Entities = Text × List Entity

-- What `_capture_event` captures.
pub data Event : Type 0 where
  resync_event : Event
  auth_required : Event
  invalidate : List Text → Event
  mutation : List Text → Option Text → Option Entities → Event

-- The captured dictionary.
unfoldable pub json_texts : List Text → Items
json_texts [] = nil
json_texts (t ∷ ts) = cons (str t) (json_texts ts)

unfoldable pub json_items : List Entity → Items
json_items [] = nil
json_items ((r, k) ∷ es) =
    cons (object (field (codes "resource") (str r) (field (codes "key") (str k) end)))
      (json_items es)

unfoldable pub json_mutation : Option Text → Json
json_mutation none = null
json_mutation (some m) = str m

unfoldable pub json_entities : Option Entities → Json
json_entities none = null
json_entities (some (epoch, items)) =
    object
      (field (codes "epoch") (str epoch) (field (codes "items") (array (json_items items)) end))

abbrev pub envelope : Text → Fields → Json
envelope kind data_ =
    object (field (codes "event") (str kind) (field (codes "data") (object data_) end))

unfoldable pub json_event : Event → Json
json_event resync_event = envelope (codes "resync") (field (codes "version") (int 1) end)
json_event auth_required = envelope (codes "auth-required") (field (codes "version") (int 1) end)
json_event (invalidate resources) =
    envelope (codes "invalidate") (
      field (codes "version") (int 1)
        (field (codes "resources") (array (json_texts resources)) end))
json_event (mutation resources mutation_id entities) = envelope (codes "invalidate") (
    field (codes "version") (int 2) (
      field (codes "resources") (array (json_texts resources)) (
        field (codes "mutation_id") (json_mutation mutation_id)
          (field (codes "entities") (json_entities entities) end))))

-- The tests on types and keys.
abbrev pub also {ℓ} : {A B : Type ℓ} → Option A → (A → Option B) → Option B
also none f = none
also (some a) f = f a

-- A test in front of what follows it.
abbrev pub only {ℓ} : {A : Type ℓ} → Bool → Option A → Option A
only false o = none
only true o = o

abbrev pub shape_text : Option Json → Option Text
shape_text (some (str t)) = some t
shape_text _ = none

abbrev pub shape_int : Option Json → Option ℕ
shape_int (some (int n)) = some n
shape_int _ = none

unfoldable pub shape_texts : Items → Option (List Text)
shape_texts nil = some []
shape_texts (cons j items) =
    also (shape_text (some j)) λ t. also (shape_texts items) λ ts. some (t ∷ ts)

abbrev pub shape_resources : Option Json → Option (List Text)
shape_resources (some (array items)) = shape_texts items
shape_resources _ = none

abbrev pub shape_entity : Json → Option Entity
shape_entity (object fs) = only (has_exactly fs entity_names) (
    also (shape_text (get_field (codes "resource") fs))
      (λ r. also (shape_text (get_field (codes "key") fs)) (λ k. some (r, k))))
shape_entity _ = none

unfoldable pub shape_items : Items → Option (List Entity)
shape_items nil = some []
shape_items (cons j items) = also (shape_entity j) λ e. also (shape_items items) λ es. some (e ∷ es)

abbrev pub shape_list : Option Json → Option (List Entity)
shape_list (some (array items)) = shape_items items
shape_list _ = none

-- `_entities`
abbrev pub shape_entities : Option Json → Option (Option Entities)
shape_entities (some null) = some none
shape_entities (some (object fs)) = only (has_exactly fs entities_names) (
    also (shape_text (get_field (codes "epoch") fs)) (λ epoch.
      also (shape_list (get_field (codes "items") fs)) (λ items. some (some (epoch, items)))))
shape_entities _ = none

abbrev pub shape_mutation : Option Json → Option (Option Text)
shape_mutation (some null) = some none
shape_mutation (some (str m)) = some (some m)
shape_mutation _ = none

abbrev pub shape_plain : Event → Fields → Option Event
shape_plain event fs =
    only (has_exactly fs plain_names)
      (also (shape_int (get_field (codes "version") fs)) (λ v. only (v == 1) (some event)))

abbrev pub shape_version : ℕ → Fields → Option Event
shape_version v fs =
    if v == 1
    then only (has_exactly fs invalidate_names)
        (also (shape_resources (get_field (codes "resources") fs)) (λ rs. some (invalidate rs)))
    else only (v == 2) (
        only (has_exactly fs mutation_names) (
          also (shape_resources (get_field (codes "resources") fs)) (λ rs.
            also (shape_mutation (get_field (codes "mutation_id") fs)) (λ m.
              also (shape_entities (get_field (codes "entities") fs))
                (λ es. some (mutation rs m es))))))

abbrev pub shape_kind : Text → Fields → Option Event
shape_kind kind fs =
    if text_eq kind (codes "invalidate")
    then also (shape_int (get_field (codes "version") fs)) (λ v. shape_version v fs)
    else if text_eq kind (codes "resync")
    then shape_plain resync_event fs
    else if text_eq kind (codes "auth-required")
    then shape_plain auth_required fs
    else none

abbrev pub shape_data : Text → Option Json → Option Event
shape_data kind (some (object fs)) = shape_kind kind fs
shape_data kind _ = none

unfoldable pub shape_event : Json → Option Event
shape_event (object fs) = only (has_exactly fs event_names) (
    also (shape_text (get_field (codes "event") fs))
      (λ kind. shape_data kind (get_field (codes "data") fs)))
shape_event _ = none

-- The tests on values. `_RESOURCE` and `_hex` first.
unfoldable pub is_lower : ℕ → Bool
is_lower c = leb b'a' c && leb c b'z'

unfoldable pub is_resource_char : ℕ → Bool
is_resource_char c = is_lower c || ((leb b'0' c && leb c b'9') || (c == b'_' || c == b'-'))

unfoldable pub all_resource_chars : Text → Bool
all_resource_chars [] = true
all_resource_chars (c ∷ t) = is_resource_char c && all_resource_chars t

unfoldable pub is_resource : Text → Bool
is_resource [] = false
is_resource (c ∷ t) = is_lower c && (leb (length t) 63 && all_resource_chars t)

unfoldable pub is_hex_text : Text → ℕ → Bool
is_hex_text t size = length t == size && all_hex t

unfoldable pub all_resources : List Text → Bool
all_resources [] = true
all_resources (t ∷ ts) = is_resource t && (not (member t ts) && all_resources ts)

unfoldable pub valid_resources : List Text → Bool
valid_resources ts = (leb 1 (length ts) && leb (length ts) 32) && all_resources ts

unfoldable pub has_entity : Entity → List Entity → Bool
has_entity e [] = false
has_entity (r, k) ((r', k') ∷ es) = (text_eq r' r && text_eq k' k) || has_entity (r, k) es

unfoldable pub valid_items : List Text → List Entity → Bool
valid_items resources [] = true
valid_items resources ((r, k) ∷ es) =
    member r resources
    && (is_hex_text k 64 && (not (has_entity (r, k) es) && valid_items resources es))

unfoldable pub valid_entities : List Text → Option Entities → Bool
valid_entities resources none = true
valid_entities resources (some (epoch, items)) =
    is_hex_text epoch 16
    && ((leb 1 (length items) && leb (length items) 32) && valid_items resources items)

unfoldable pub valid_mutation : Option Text → Bool
valid_mutation none = true
valid_mutation (some m) = is_hex_text m 40

unfoldable pub valid_event : Event → Bool
valid_event resync_event = true
valid_event auth_required = true
valid_event (invalidate resources) = valid_resources resources
valid_event (mutation resources mutation_id entities) =
    valid_resources resources && (valid_mutation mutation_id && valid_entities resources entities)

abbrev pub captured : Option Event → Option Json
captured none = none
captured (some event) = if valid_event event then some (json_event event) else none

-- `_capture_event`
unfoldable pub capture_event : Json → Option Json
capture_event j = captured (shape_event j)

-- `dumps` is `json.dumps`, which gives ASCII here, and `loads` is `json.loads` with `_pairs`.
module _ (dumps : Json → Text) (loads : Text → Option Json) where
  abbrev pub bounded : Text → Option Text
  bounded t = if leb (length t) 4096 then some t else none

  -- `_encode_payload`
  unfoldable pub encode_payload : Json → Option Text
  encode_payload j = also (capture_event j) λ c. bounded (dumps c)

  -- `_payload`
  unfoldable pub payload : Text → Option Text
  payload raw = if leb (length raw) 4096 then also (loads raw) encode_payload else none

  -- `encode_event`: a frame of the stream, or the heartbeat.
  abbrev pub frame : Text → Text → Text
  frame kind data_ = codes "event: " ++ kind ++ codes "\ndata: " ++ data_ ++ codes "\n\n"

  abbrev pub framed : Option Json → Option Json → Option Text
  framed (some (str kind)) (some c) = also (bounded (dumps c)) (λ t. some (frame kind t))
  framed _ _ = none

  abbrev pub encode_captured : Json → Option Text
  encode_captured (object fs) = framed (get_field (codes "event") fs) (get_field (codes "data") fs)
  encode_captured _ = none

  unfoldable pub encode_event : Option Json → Option Text
  encode_event none = some (codes ": heartbeat\n\n")
  encode_event (some event) = also (capture_event event) encode_captured
