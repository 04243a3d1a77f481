-- ===== src/Tests/CacheTests.antt =====
-- The theorems on the cache, on a backend in memory.
use dj_hyperview.Prelude.{◌≡◌, refl, some, codes, text_eq}
use dj_hyperview.Cache.Json.{object, Fields, loads, get_text}
use dj_hyperview.Cache.Key.{Identity, template_cache_key-injective}
use dj_hyperview.Cache.Payload.{
  hit, miss, resolved_payload, resolved_miss_payload, template_payload, miss_payload, decode,
  decode_resolved,
}
use dj_hyperview.Cache.Payload.Roundtrip.{
  decode_resolved-payloads, decode-payloads, decode_resolved-hit,
}
use dj_hyperview.Tests.World.{digest, digest-IsInjective, page}

abbrev identity : Identity
identity = (codes "app", codes "database", codes "home.xml", codes "r1")

template_cache_key-injective_example : identity ≡ identity
template_cache_key-injective_example =
    template_cache_key-injective digest digest-IsInjective identity identity refl

decode_resolved-payloads_example :
    (decode_resolved (codes "s") page.name (resolved_payload (codes "s") page.name page)
      ≡ some (hit page))
    × (decode_resolved (codes "s") page.name (resolved_miss_payload (codes "s") page.name)
        ≡ some miss)
unfolding text_eq
decode_resolved-payloads_example =
    decode_resolved-payloads (codes "s") page.name (codes "s") page.name page

decode-payloads_example :
    (decode page.source page.name page.revision (template_payload page) ≡ some (hit page))
    × (decode page.source page.name page.revision (miss_payload page.source page.name page.revision)
        ≡ some miss)
unfolding text_eq
decode-payloads_example =
    decode-payloads page.source page.name page.revision page.source page.name page.revision page

decode_resolved-hit_example :
    (page.name ≡ page.name)
    × ((fs : Fields) × (loads (resolved_payload (codes "s") page.name page) ≡ some (object fs))
        × (get_text (codes "source") fs ≡ some (codes "s"))
        × (get_text (codes "name") fs ≡ some page.name))
unfolding text_eq
decode_resolved-hit_example =
    decode_resolved-hit (codes "s") page.name (resolved_payload (codes "s") page.name page) page
      (decode_resolved-payloads (codes "s") page.name (codes "s") page.name page).0
