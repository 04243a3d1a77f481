-- ===== src/Realtime/Topics/Isolation.antt =====
-- realtime/_config.py: the channels of two namespaces are apart, and there are at most 32 of one.
use mathlib.Core.Path.{subst}
use dj_hyperview.Prelude.{
  ℕ, ◌+◌, ◌≤◌, Bool, true, false, ◌&&◌, ◌||◌, not, ◌≡◌, ◌≢◌, refl, sym, ◌∙◌, Option, none, some,
  List, [], ◌∷◌, ◌++◌, length, ltb, leb, if◌then◌else◌, All, All-append, Text, text_eq,
  eq_of_text_eq, arith, ltb→le, length-append,
}
use dj_hyperview.Sources.{Object, text, other}
use dj_hyperview.Cache.Json.{member}
use dj_hyperview.Realtime.Topics.{
  is_lower, is_digit, all_of, matches, namespace_head, namespace_tail, is_namespace, is_topic,
  SplitUrl, valid_split, validate_redis_config, Config, config, add_key, channel_of, channels_from,
  not_empty, channels,
}

-- A text without a colon.
abbrev NoColon : Text → Type 0
NoColon t = All (λ c. c ≢ b':') t

tail-ne-colon : (c : ℕ) → namespace_tail c ≡ true → c ≢ b':'
unfolding namespace_tail namespace_head is_lower is_digit
tail-ne-colon c h = λ e. absurd (cc (rw e at h))

head-ne-colon : (c : ℕ) → namespace_head c ≡ true → c ≢ b':'
unfolding namespace_head is_lower is_digit
head-ne-colon c h = λ e. absurd (cc (rw e at h))

both : (a b : Bool) → a && b ≡ true → (a ≡ true) × (b ≡ true)
both true b h = (refl, h)
both false b h = absurd (cc)

head-eq : {c d : ℕ} {t u : Text} → c ∷ t ≡ d ∷ u → c ≡ d
head-eq h = cc

tail-eq : {c d : ℕ} {t u : Text} → c ∷ t ≡ d ∷ u → t ≡ u
tail-eq h = cc

tail-NoColon : (t : Text) → all_of namespace_tail t ≡ true → NoColon t
unfolding all_of
tail-NoColon [] h = tt
tail-NoColon (c ∷ t) h =
    let (head, rest) = both (namespace_tail c) (all_of namespace_tail t) h in
    (tail-ne-colon c head, tail-NoColon t rest)

namespace-NoColon : (t : Text) → is_namespace t ≡ true → NoColon t
unfolding is_namespace matches
namespace-NoColon [] h = absurd (cc)
namespace-NoColon (c ∷ t) h =
    let (head, rest) = both (namespace_head c) (leb (length t) 63 && all_of namespace_tail t) h in
    let (short, tail) = both (leb (length t) 63) (all_of namespace_tail t) rest in
    (head-ne-colon c head, tail-NoColon t tail)

-- The text in front of the first colon is determined.
before_colon : (n m t u : Text) → NoColon n → NoColon m → n ++ b':' ∷ t ≡ m ++ b':' ∷ u → n ≡ m
before_colon [] [] t u hn hm e = refl
before_colon [] (d ∷ m) t u hn hm e = absurd (hm.0 (sym (head-eq e)))
before_colon (c ∷ n) [] t u hn hm e = absurd (hn.0 (head-eq e))
before_colon (c ∷ n) (d ∷ m) t u hn hm e =
    let rest = before_colon n m t u hn.1 hm.1 (tail-eq e) in cc (head-eq e, rest)

-- A channel of a namespace.
abbrev pub IsChannel : Text → Text → Type 0
IsChannel namespace channel = (topic : Text) × (channel ≡ channel_of namespace topic)

member-All : (P : Text → Type 0) (c : Text) (cs : List Text) → All P cs → member c cs ≡ true → P c
unfolding member
member-All P c [] h m = absurd (cc)
member-All P c (d ∷ cs) h m = by_same (text_eq d c) refl m (member-All P c cs h.1)
  where
    by_same :
        (b : Bool) → text_eq d c ≡ b → b || member c cs ≡ true → (member c cs ≡ true → P c) → P c
    by_same true e m more = subst P (eq_of_text_eq d c e) h.0
    by_same false e m more = more m

add_key-All :
    (P : Text → Type 0) (key : Text) (cs : List Text) → P key → All P cs → All P (add_key key cs)
unfolding add_key
add_key-All P key cs p h = by_member (member key cs)
  where
    by_member : (b : Bool) → All P (if b then cs else cs ++ key ∷ [])
    by_member true = h
    by_member false = All-append P cs (key ∷ []) h (p, tt)

add_key-length : (key : Text) (cs : List Text) → length (add_key key cs) ≤ length cs + 1
unfolding add_key
add_key-length key cs = by_member (member key cs)
  where
    by_member : (b : Bool) → length (if b then cs else cs ++ key ∷ []) ≤ length cs + 1
    by_member true = omega arith
    by_member false = omega (arith, length-append cs (key ∷ []))

channels_from-bounds :
    (topics : List Object) (namespace : Text) (count : ℕ) (captured cs : List Text)
    → length captured + 1 ≤ count
    → count ≤ 33
    → All (IsChannel namespace) captured
    → channels_from namespace count captured topics ≡ some cs
    → (length cs ≤ 32) × All (IsChannel namespace) cs
unfolding channels_from
channels_from-bounds [] namespace count captured cs fewer bound all h =
    let same : captured ≡ cs = cc in
    subst (λ l. (length l ≤ 32) × All (IsChannel namespace) l) same (omega arith, all)
channels_from-bounds (other ∷ topics) namespace count captured cs fewer bound all h = absurd (cc)
channels_from-bounds (text topic ∷ topics) namespace count captured cs fewer bound all h =
    by_test (ltb 32 count) (is_topic topic) refl h (
      channels_from-bounds topics namespace (count + 1)
        (add_key (channel_of namespace topic) captured) cs)
  where
    more_keys : length (add_key (channel_of namespace topic) captured) + 1 ≤ count + 1
    more_keys = omega (arith, add_key-length (channel_of namespace topic) captured, fewer)

    by_test :
        (many good : Bool)
        → ltb 32 count ≡ many
        → (if many || not good
            then none
            else channels_from namespace
                (count + 1)
                (add_key (channel_of namespace topic) captured)
                topics)
          ≡ some cs
        → (length (add_key (channel_of namespace topic) captured) + 1 ≤ count + 1
            → count + 1 ≤ 33
            → All (IsChannel namespace) (add_key (channel_of namespace topic) captured)
            → channels_from namespace
                (count + 1)
                (add_key (channel_of namespace topic) captured)
                topics
              ≡ some cs
            → (length cs ≤ 32) × All (IsChannel namespace) cs)
        → (length cs ≤ 32) × All (IsChannel namespace) cs
    by_test true good e h more = absurd (cc)
    by_test false false e h more = absurd (cc)
    by_test false true e h more =
        more more_keys (omega (arith, ltb→le 32 count e))
          (add_key-All (IsChannel namespace) (channel_of namespace topic) captured (topic, refl)
            all)
          h

not_empty-some :
    (o : Option (List Text)) (cs : List Text)
    → not_empty o ≡ some cs
    → (o ≡ some cs) × (1 ≤ length cs)
not_empty-some none cs h = absurd (cc)
not_empty-some (some []) cs h = absurd (cc)
not_empty-some (some (c ∷ l)) cs h = let same : c ∷ l ≡ cs = cc in (h, rw (← same) (omega arith))

-- The channels that are accepted are at least one and at most 32, and each is the namespace, a colon and
-- a topic.
pub channels-bounds :
    (c : Config) (topics : List Object) (cs : List Text)
    → channels c topics ≡ some cs
    → (1 ≤ length cs) × (length cs ≤ 32) × All (IsChannel c.namespace) cs
unfolding channels
channels-bounds c topics cs h =
    let (from, some_) = not_empty-some (channels_from c.namespace 1 [] topics) cs h in
    let bounds =
      channels_from-bounds topics c.namespace 1 [] cs (omega arith) (omega arith) tt from in
    (some_, bounds.0, bounds.1)

config-namespace :
    (split_url : Text → Option SplitUrl) (url namespace : Text) (c : Config)
    → config split_url url namespace ≡ some c
    → NoColon c.namespace
unfolding config validate_redis_config valid_split
config-namespace split_url url namespace c h =
    by_valid (validate_redis_config split_url (text url) (text namespace)) refl h
  where
    by_split : (o : Option SplitUrl) → valid_split namespace o ≡ true → NoColon namespace
    by_split none v = absurd (cc)
    by_split (some u) v =
        namespace-NoColon namespace (both _ (is_namespace namespace) (both _ _ v).0).1

    by_valid :
        (b : Bool)
        → validate_redis_config split_url (text url) (text namespace) ≡ b
        → (if b then some (record { url = url; namespace = namespace }) else none) ≡ some c
        → NoColon c.namespace
    by_valid true e h =
        let same : record { url = url; namespace = namespace } ≡ c = cc in
        subst (λ (d : Config). NoColon d.namespace) same
          (by_split (split_url url) (both _ _ (both _ _ e).1).1)
    by_valid false e h = absurd (cc)

-- Two configurations that were accepted and have different namespaces share no channel, whatever their
-- topics.
pub channels-isolated :
    (split_url : Text → Option SplitUrl) (url url' namespace namespace' : Text) (c c' : Config)
    → config split_url url namespace ≡ some c
    → config split_url url' namespace' ≡ some c'
    → c.namespace ≢ c'.namespace
    → (topics topics' : List Object) (cs cs' : List Text) → channels c topics ≡ some cs
    → channels c' topics' ≡ some cs'
    → (channel : Text) → member channel cs ≡ true
    → member channel cs' ≡ false
channels-isolated split_url url url' namespace namespace' c c' ok_ ok' ne topics topics' cs cs' got
      got' channel inside =
    by_member (member channel cs') refl
  where
    by_member : (b : Bool) → member channel cs' ≡ b → b ≡ false
    by_member false e = refl
    by_member true e =
        let (t, here) =
          member-All (IsChannel c.namespace) channel cs (channels-bounds c topics cs got).2
            inside in
        let (u, there) =
          member-All (IsChannel c'.namespace) channel cs' (channels-bounds c' topics' cs' got').2
            e in
        absurd (
          ne (
            before_colon c.namespace c'.namespace t u
              (config-namespace split_url url namespace c ok_)
              (config-namespace split_url url' namespace' c' ok') (sym here ∙ there)))
