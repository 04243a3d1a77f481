-- ===== src/Tests/TransportTests.antt =====
-- The theorems on events and channels at concrete inputs.
use dj_hyperview.Prelude.{
  ℕ, false, true, false, ◌≡◌, refl, Option, none, some, List, [], ◌∷◌, ap, length, Text, codes,
  text_eq, arith,
}
use dj_hyperview.Sources.{Object, text, any_in}
use dj_hyperview.Cache.Json.{Json, has_exactly, get_field, has_key, all_in, all_present, member}
use dj_hyperview.Realtime.Events.{
  invalidate, json_event, json_texts, capture_event, encode_payload, payload, shape_event,
  shape_texts, valid_event, valid_resources, all_resources, is_resource, is_lower,
  all_resource_chars, is_resource_char,
}
use dj_hyperview.Realtime.Events.Closed.{capture_event-captured, payload-encode_payload}
use dj_hyperview.Realtime.Topics.{
  SplitUrl, no_port, Config, config, validate_redis_config, valid_split, is_namespace, matches,
  namespace_head, namespace_tail, all_of, is_lower as is_lower_letter, is_digit, is_empty,
  valid_location, has_host, is_bare, valid_query, channels, channels_from, is_topic, topic_head,
  topic_tail, is_upper, add_key,
}
use dj_hyperview.Realtime.Publisher.Worker.{
  Event, put_job, check, test, serve, stop, empty, sent, fatal, Worker, leaving, run,
}
use dj_hyperview.Realtime.Publisher.Worker.Ends.{rounds, EndsWith, run-EndsWith}
use dj_hyperview.Realtime.Topics.Isolation.{channels-isolated}

abbrev changed : Json
changed = json_event (invalidate (codes "ab" ∷ []))

changed_captured : capture_event changed ≡ some changed
unfolding capture_event json_event json_texts shape_event shape_texts valid_event valid_resources
    all_resources is_resource is_lower all_resource_chars is_resource_char has_exactly get_field
    has_key all_in all_present member text_eq
changed_captured = refl

capture_event-captured_example : capture_event changed ≡ some changed
capture_event-captured_example = capture_event-captured changed changed changed_captured

-- A codec that knows one value.
abbrev written : Json → Text
written j = codes "{}"

abbrev reader : Text → Option Json
reader t = some changed

encoded : encode_payload written reader changed ≡ some (codes "{}")
unfolding encode_payload
encoded = rw changed_captured refl

read_back : (c : Json) → capture_event changed ≡ some c → reader (written c) ≡ some c
read_back c h = cc (h, changed_captured)

payload-encode_payload_example : payload written reader (codes "{}") ≡ some (codes "{}")
payload-encode_payload_example =
    payload-encode_payload written reader changed (codes "{}") (λ c h u. read_back c h) encoded

abbrev split_url : Text → Option SplitUrl
split_url t = some (record {
  scheme = codes "redis";
  netloc = codes "h";
  path = [];
  query = [];
  fragment = [];
  hostname = some (codes "h");
  url_port = no_port;
  pairs = none;
})

abbrev config_of : Text → Config
config_of namespace = record { url = codes "redis://h"; namespace = namespace }

accepted_a : config split_url (codes "redis://h") (codes "a") ≡ some (config_of (codes "a"))
unfolding config validate_redis_config valid_split is_namespace matches namespace_head
    namespace_tail all_of is_lower_letter is_digit is_empty valid_location has_host is_bare
    valid_query any_in text_eq
accepted_a = refl

accepted_b : config split_url (codes "redis://h") (codes "bb") ≡ some (config_of (codes "bb"))
unfolding config validate_redis_config valid_split is_namespace matches namespace_head
    namespace_tail all_of is_lower_letter is_digit is_empty valid_location has_host is_bare
    valid_query any_in text_eq
accepted_b = refl

abbrev topics : List Object
topics = text (codes "t") ∷ text (codes "t") ∷ []

channels_a : channels (config_of (codes "a")) topics ≡ some (codes "a:t" ∷ [])
unfolding channels channels_from is_topic matches topic_head topic_tail is_upper is_lower_letter
    is_digit all_of add_key member text_eq
channels_a = refl

channels_b : channels (config_of (codes "bb")) topics ≡ some (codes "bb:t" ∷ [])
unfolding channels channels_from is_topic matches topic_head topic_tail is_upper is_lower_letter
    is_digit all_of add_key member text_eq
channels_b = refl

inside : member (codes "a:t") (codes "a:t" ∷ []) ≡ true
unfolding member text_eq
inside = refl

channels-isolated_example : member (codes "a:t") (codes "bb:t" ∷ []) ≡ false
channels-isolated_example =
    channels-isolated split_url (codes "redis://h") (codes "redis://h") (codes "a") (codes "bb")
      (config_of (codes "a")) (config_of (codes "bb")) accepted_a accepted_b
      (λ e. omega (arith, ap length e)) topics topics (codes "a:t" ∷ []) (codes "bb:t" ∷ [])
      channels_a channels_b (codes "a:t") inside

-- A worker that sends the first job, and whose second send ends it. The third job is put while it ends,
-- and the fourth too late.
abbrev events : List (Event ℕ)
events =
    put_job 1
    ∷ check 0
    ∷ test
    ∷ serve sent
    ∷ put_job 2
    ∷ check 1
    ∷ test
    ∷ serve fatal
    ∷ put_job 3
    ∷ check 2
    ∷ stop
    ∷ empty
    ∷ empty
    ∷ put_job 4
    ∷ check 3
    ∷ []

-- A worker that left its loop with two jobs in the queue, the None of `close` between them.
abbrev left_worker : Worker ℕ
left_worker = record {
  phase = leaving;
  stopped = false;
  queue = some 1 ∷ none ∷ some 2 ∷ [];
  submitted = 1 ∷ 2 ∷ [];
  waiting = 2 ∷ [];
  done = [];
}

run-EndsWith_example : EndsWith (1 ∷ 2 ∷ []) (run (stop ∷ rounds 4) left_worker)
run-EndsWith_example = run-EndsWith left_worker refl
