-- ===== src/Tests/GenerationTests.antt =====
-- The theorems on tokens and on what a write of the cache may change, on a backend in memory.
use dj_hyperview.Prelude.{
  inl, inr, ◌⊎◌, ◌≡◌, ◌≢◌, refl, none, some, [], ◌∷◌, ap, Text, codes, text_eq,
}
use dj_hyperview.Errors.{ok}
use dj_hyperview.Cache.Json.{Value, plain}
use dj_hyperview.Cache.Generation.{
  candidate_token, valid_generation, invalidate, generation, read_generation, store, generation_key,
  peek_generation, peeked, or_initialize, initialize_generation, candidate, add_generation, added,
  all_hex, confirm_rotation, is_hex, present, valid_text, delete,
}
use dj_hyperview.Cache.Generation.Rotation.{invalidate-ok}
use dj_hyperview.Cache.Entries.{
  set_resolved, set_resolved_value, confirm_if_given, confirm_publication, confirmed,
  after_failed_read, after_rotation, discard, resolved_revision,
}
use dj_hyperview.Cache.Key.{
  template_cache_key, dumps_component, dumps_components, dumps_rest, escape, escape_char, hex_digit,
}
use dj_hyperview.Cache.Key.{Identity, key_of}
use dj_hyperview.Cache.Entries.Isolation.{
  Slot, slot_key, set_resolved-isolated, invalidate-isolated,
}
use dj_hyperview.Tests.World.{
  Log, last, added_to, memory, memory-IsStore, digest, digest-IsInjective, hex_digest, sample_cache,
  page,
}

abbrev slot : Slot
slot = (codes "other", page.name, some (codes "g"))

abbrev token : Text
token = codes "r0123456789abcdef0123456789abcdef"

rotated : (invalidate memory hex_digest sample_cache page.name []).0 ≡ ok tt
unfolding invalidate generation peek_generation peeked last or_initialize initialize_generation
    candidate add_generation added added_to store read_generation text_eq generation_key
    template_cache_key valid_generation all_hex candidate_token confirm_rotation is_hex present
    valid_text dumps_component dumps_components dumps_rest escape escape_char hex_digit
rotated = refl

invalidate-ok_example :
    (current : Text) × (confirmed : Text) × (token : Text) × (s' : Log) × ((generation memory
        hex_digest sample_cache page.name []).0
      ≡ ok current)
    × (read_generation memory hex_digest sample_cache page.name
          (store memory hex_digest sample_cache
            (generation_key memory hex_digest sample_cache page.name)
            (plain token)
            none
            s').1
        ≡ (ok confirmed, (invalidate memory hex_digest sample_cache page.name []).1))
    × (confirmed ≢ current)
invalidate-ok_example = invalidate-ok memory hex_digest sample_cache page.name [] rotated

abbrev written : Value
written = plain (codes "old")

abbrev entry_log : Log
entry_log = (slot_key memory digest sample_cache slot, some written) ∷ []

abbrev token_log : Log
token_log = (generation_key memory digest sample_cache (codes "other.xml"), some written) ∷ []

entry_kept :
    last
      (slot_key memory digest sample_cache slot)
      (set_resolved memory digest sample_cache
        (codes "database")
        page.name
        page
        (some (codes "g"))
        entry_log).1
    ≡ some written
unfolding invalidate generation peek_generation peeked last or_initialize initialize_generation
    candidate add_generation added added_to store read_generation text_eq generation_key
    template_cache_key valid_generation all_hex candidate_token confirm_rotation is_hex present
    valid_text dumps_component dumps_components dumps_rest escape escape_char hex_digit set_resolved
    set_resolved_value confirm_if_given confirm_publication confirmed after_failed_read
    after_rotation discard delete resolved_revision
entry_kept = refl

abbrev source_at : Slot ⊎ Text → Text
source_at (inl a) = a.0
source_at (inr name) = name

set_resolved-isolated_example :
    last (slot_key memory digest sample_cache slot) entry_log ≡ some written
set_resolved-isolated_example =
    set_resolved-isolated memory memory-IsStore digest sample_cache digest-IsInjective
      (codes "database") page.name page (some (codes "g")) entry_log written (inl slot)
      (λ h. cc (ap source_at h)) entry_kept

abbrev other_token : Identity
other_token = (sample_cache.namespace, codes "@generation", codes "other.xml", codes "@token")

token_kept_by_invalidate :
    last (key_of digest other_token) (invalidate memory digest sample_cache page.name token_log).1
    ≡ some written
unfolding invalidate generation peek_generation peeked last or_initialize initialize_generation
    candidate add_generation added added_to store read_generation text_eq generation_key
    template_cache_key valid_generation all_hex candidate_token confirm_rotation is_hex present
    valid_text dumps_component dumps_components dumps_rest escape escape_char hex_digit
token_kept_by_invalidate = refl

invalidate-isolated_example : last (key_of digest other_token) token_log ≡ some written
invalidate-isolated_example =
    invalidate-isolated memory memory-IsStore digest sample_cache digest-IsInjective page.name
      token_log written other_token (λ h. cc (ap (λ (i : Identity). i.2) h))
      token_kept_by_invalidate
