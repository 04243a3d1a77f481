-- ===== src/Tests/World.antt =====
-- A backend in memory, digests and sources on which the tests run.
use dj_hyperview.Prelude.{
  true, ◌≡◌, refl, ◌⊎◌, inl, inr, Option, none, some, List, [], ◌∷◌, Text, codes, text_eq,
  eq_of_text_eq, if◌then◌else◌, Bool-cases,
}
use dj_hyperview.Sources.{ResolvedTemplate, text}
use dj_hyperview.Cache.Json.{Value}
use dj_hyperview.Cache.Key.{IsInjective}
use dj_hyperview.Cache.Backend.{
  Reply, replied, Answer, is_true, is_false, Backend, IsStore, TemplateCache,
}
use dj_hyperview.Cache.Generation.Rotation.{IsHexDigest}
use dj_hyperview.Cache.Generation.{all_hex, is_hex}
use dj_hyperview.Resolver.{Source, template, nothing, boolean, absent}

abbrev pub Log : Type 0
Log = List (Text × Option Value)

-- The last thing written under a key; `none` once it is deleted.
unfoldable pub last : Text → Log → Option Value
last k [] = none
last k ((j, v) ∷ log) = if text_eq j k then v else last k log

unfoldable pub added_to : Text → Value → Log → Option Value → Reply Answer × Log
added_to k v log (some w) = (replied is_false, log)
added_to k v log none = (replied is_true, (k, some v) ∷ log)

abbrev pub memory : Backend
memory = record {
  State = Log;
  get = λ k log. (replied (last k log), log);
  set = λ k v timeout log. (replied is_true, (k, some v) ∷ log);
  add = λ k v log. added_to k v log (last k log);
  delete = λ k log. (replied is_true, (k, none) ∷ log);
  token_hex = λ log. (replied (text (codes "00112233445566778899aabbccddeeff")), log);
}

pub last-written :
    (k j : Text) (w v : Value) (log : Log)
    → last j ((k, some w) ∷ log) ≡ some v
    → (last j log ≡ some v) ⊎ ((j ≡ k) × (v ≡ w))
unfolding last
last-written k j w v log h = elim (Bool-cases (text_eq k j)) [
  | inl e ↦ inr (cc (eq_of_text_eq k j e), cc (rw e at h))
  | inr e ↦ inl (rw e at h)
]

pub last-deleted :
    (k j : Text) (v : Value) (log : Log) → last j ((k, none) ∷ log) ≡ some v → last j log ≡ some v
unfolding last
last-deleted k j v log h = elim (Bool-cases (text_eq k j)) [
  | inl e ↦ absurd (cc (rw e at h))
  | inr e ↦ rw e at h
]

pub last-added :
    (k j : Text) (w v : Value) (log : Log) (found : Option Value)
    → last j (added_to k w log found).1 ≡ some v
    → (last j log ≡ some v) ⊎ ((j ≡ k) × (v ≡ w))
unfolding added_to
last-added k j w v log (some u) h = inl h
last-added k j w v log none h = last-written k j w v log h

abbrev pub memory-IsStore : IsStore memory
memory-IsStore = record {
  Holds = λ log k v. last k log ≡ some v;
  get_held = λ k log v h. cc;
  get_keeps = λ k j log v h. h;
  set_keeps = λ k j w v t log h. last-written k j w v log h;
  add_keeps = λ k j w v log h. last-added k j w v log (last k log) h;
  delete_keeps = λ k j log v h. last-deleted k j v log h;
  token_keeps = λ j log v h. h;
}

abbrev pub digest : Text → Text
digest t = t

pub digest-IsInjective : IsInjective digest
digest-IsInjective = record { same = λ a b h. h }

abbrev pub hex_digest : Text → Text
hex_digest t = codes "00112233445566778899aabbccddeeff00112233445566778899aabbccddeeff"

abbrev pub sample_cache : TemplateCache
sample_cache = record {
  namespace = codes "app";
  alias = codes "default";
  ttl = 300;
  negative_ttl = 30;
}

abbrev pub page : ResolvedTemplate
page = record {
  name = codes "home.xml";
  content = codes "<view/>";
  source = codes "database";
  revision = codes "r1";
  origin = codes "db:home.xml";
}

abbrev pub answering_page : Source
answering_page = record {
  kind = codes "Database";
  answer = λ name. if text_eq name (codes "home.xml") then template page else nothing;
  cacheable = boolean true;
  cache_safe = absent;
}

abbrev pub answering_nothing : Source
answering_nothing = record {
  kind = codes "Empty";
  answer = λ name. nothing;
  cacheable = boolean true;
  cache_safe = absent;
}

pub hex_digest-IsHexDigest : IsHexDigest hex_digest
unfolding all_hex is_hex
hex_digest-IsHexDigest = record { digits = λ t. refl; size = λ t. refl }
