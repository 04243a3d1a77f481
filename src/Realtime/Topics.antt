-- ===== src/Realtime/Topics.antt =====
-- _realtime_config.py and realtime/_config.py: the configuration of the transport, and the channels of
-- topics. `split_url` stands for `urlsplit` of the standard library; it gives nothing where it raises.
pub mod Isolation
use dj_hyperview.Prelude.{
  ℕ, ◌+◌, Bool, true, false, ◌&&◌, ◌||◌, not, Option, none, some, List, [], ◌∷◌, ◌++◌, length, ltb,
  leb, ◌==◌, if◌then◌else◌, Text, codes, text_eq, starts_with,
}
use dj_hyperview.Sources.{Object, text, other, slash, any_in}
use dj_hyperview.Cache.Json.{member}

unfoldable pub is_lower : ℕ → Bool
is_lower c = leb b'a' c && leb c b'z'

unfoldable pub is_digit : ℕ → Bool
is_digit c = leb b'0' c && leb c b'9'

unfoldable pub is_upper : ℕ → Bool
is_upper c = leb b'A' c && leb c b'Z'

unfoldable pub all_of {ℓ} : {A : Type ℓ} → (A → Bool) → List A → Bool
all_of p [] = true
all_of p (a ∷ as_) = p a && all_of p as_

-- A match of a class, and then of at most `limit` characters of another one.
unfoldable pub matches : (ℕ → Bool) → (ℕ → Bool) → ℕ → Text → Bool
matches head tail limit [] = false
matches head tail limit (c ∷ t) = head c && (leb (length t) limit && all_of tail t)

-- `_NAMESPACE`
unfoldable pub namespace_head : ℕ → Bool
namespace_head c = is_lower c || is_digit c

unfoldable pub namespace_tail : ℕ → Bool
namespace_tail c = namespace_head c || (c == b'_' || c == b'-')

unfoldable pub is_namespace : Text → Bool
is_namespace t = matches namespace_head namespace_tail 63 t

-- `_TOPIC`
unfoldable pub topic_head : ℕ → Bool
topic_head c = is_upper c || (is_lower c || is_digit c)

unfoldable pub topic_tail : ℕ → Bool
topic_tail c = topic_head c || ((c == b'.' || c == b'_') || (c == b':' || c == b'-'))

unfoldable pub is_topic : Text → Bool
is_topic t = matches topic_head topic_tail 127 t

-- `_DB`
unfoldable pub is_db : Text → Bool
is_db t = text_eq t (codes "0") || matches (λ c. leb b'1' c && leb c b'9') is_digit 8 t

pub data Port : Type 0 where
  no_port : Port
  port : ℕ → Port
  bad_port : Port

-- The result of `urlsplit`, with `parse_qsl` of its query, which is `none` where that raises.
pub record SplitUrl : Type 0 where
  pub scheme : Text
  pub netloc : Text
  pub path : Text
  pub query : Text
  pub fragment : Text
  pub hostname : Option Text
  pub url_port : Port
  pub pairs : Option (List (Text × Text))

unfoldable pub is_empty : Text → Bool
is_empty t = text_eq t []

-- `not parsed.hostname or parsed.port == 0`, negated; reading a bad port raises.
unfoldable pub has_host : SplitUrl → Bool
has_host url = elim url.hostname [
  | none ↦ false
  | some h ↦
      not (is_empty h)
      && elim url.url_port [ no_port ↦ true | port n ↦ not (n == 0) | bad_port ↦ false ]
]

unfoldable pub without_slash : Text → Text
without_slash [] = []
without_slash (c ∷ t) = if c == slash then t else c ∷ t

unfoldable pub is_bare : Text → Bool
is_bare path = is_empty path || text_eq path (codes "/")

unfoldable pub valid_location : SplitUrl → Bool
valid_location url =
    if text_eq url.scheme (codes "redis") || text_eq url.scheme (codes "rediss")
    then has_host url && (is_bare url.path || is_db (without_slash url.path))
    else text_eq url.scheme (codes "unix")
      && (is_empty url.netloc && starts_with (slash ∷ []) url.path)

unfoldable pub valid_pairs : Option (List (Text × Text)) → Bool
valid_pairs (some ((k, v) ∷ [])) = text_eq k (codes "db") && is_db v
valid_pairs _ = false

unfoldable pub valid_query : SplitUrl → Bool
valid_query url =
    is_empty url.query
    || (valid_pairs url.pairs && (text_eq url.scheme (codes "unix") || is_bare url.path))

unfoldable pub valid_split : Text → Option SplitUrl → Bool
valid_split namespace none = false
valid_split namespace (some url) =
    (is_empty url.fragment && is_namespace namespace) && (valid_location url && valid_query url)

-- `_validate_redis_config`: whether it returns.
unfoldable pub validate_redis_config : (Text → Option SplitUrl) → Object → Object → Bool
validate_redis_config split_url (text url) (text namespace) =
    (leb 1 (length url) && leb (length url) 4096)
    && (not (any_in (λ c. leb c 32) url) && valid_split namespace (split_url url))
validate_redis_config split_url _ _ = false

-- `_Config`
pub record Config : Type 0 where
  pub url : Text
  pub namespace : Text

-- `_config`
unfoldable pub config : (Text → Option SplitUrl) → Text → Text → Option Config
config split_url url namespace =
    if validate_redis_config split_url (text url) (text namespace)
    then some (record { url = url; namespace = namespace })
    else none

-- `captured[key] = None`
unfoldable pub add_key : Text → List Text → List Text
add_key key captured = if member key captured then captured else captured ++ key ∷ []

abbrev pub channel_of : Text → Text → Text
channel_of namespace topic = namespace ++ b':' ∷ topic

-- The loop of `_channels`; `count` is the number of the next topic.
unfoldable pub channels_from : Text → ℕ → List Text → List Object → Option (List Text)
channels_from namespace count captured [] = some captured
channels_from namespace count captured (other ∷ topics) = none
channels_from namespace count captured (text topic ∷ topics) =
    if ltb 32 count || not (is_topic topic)
    then none
    else channels_from namespace (count + 1) (add_key (channel_of namespace topic) captured) topics

abbrev pub not_empty : Option (List Text) → Option (List Text)
not_empty (some []) = none
not_empty o = o

-- `_channels` of an iterable that is no `str` and no `bytes`.
unfoldable pub channels : Config → List Object → Option (List Text)
channels c topics = not_empty (channels_from c.namespace 1 [] topics)
