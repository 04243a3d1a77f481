-- ===== src/Cache/Key.antt =====
-- `template_cache_key`: the JSON text of the four components, and that it tells them apart.
use Prim.Native.Nat.{◌/◌, ◌%◌}
use mathlib.Core.List.{append_assoc, append_cancel_left}
use dj_hyperview.Prelude.{
  ℕ, ◌+◌, ◌-◌, ◌*◌, ◌<◌, ◌≡◌, ◌≢◌, refl, sym, ap, ◌∙◌, Option, none, some, List, [], ◌∷◌, ◌++◌, ltb,
  ◌==◌, if◌then◌else◌, arith, Text, codes,
}

abbrev pub quote : ℕ
quote = 0x22

abbrev pub backslash : ℕ
backslash = 0x5c

-- A digit of the lower-case hexadecimal numeral.
unfoldable pub hex_digit : ℕ → ℕ
hex_digit n = if ltb n 10 then n + b'0' else n - 10 + b'a'

-- `json.dumps` of one character, with `ensure_ascii=False`.
unfoldable pub escape_char : ℕ → Text
escape_char c =
    if c == quote
    then backslash ∷ quote ∷ []
    else if c == backslash
    then backslash ∷ backslash ∷ []
    else if c == 0x0a
    then backslash ∷ b'n' ∷ []
    else if c == 0x0d
    then backslash ∷ b'r' ∷ []
    else if c == 0x09
    then backslash ∷ b't' ∷ []
    else if c == 0x0c
    then backslash ∷ b'f' ∷ []
    else if c == 0x08
    then backslash ∷ b'b' ∷ []
    else if ltb c 0x20
    then backslash ∷ b'u' ∷ b'0' ∷ b'0' ∷ hex_digit (c / 16) ∷ hex_digit (c % 16) ∷ []
    else c ∷ []

unfoldable pub escape : Text → Text
escape [] = []
escape (c ∷ t) = escape_char c ++ escape t

-- `json.dumps` of a list of texts and `None`s, with the separators `","` and `":"`.
unfoldable pub dumps_component : Option Text → Text
dumps_component none = codes "null"
dumps_component (some t) = quote ∷ (escape t ++ quote ∷ [])

unfoldable pub dumps_rest : List (Option Text) → Text
dumps_rest [] = b']' ∷ []
dumps_rest (c ∷ cs) = b',' ∷ (dumps_component c ++ dumps_rest cs)

unfoldable pub dumps_components : List (Option Text) → Text
dumps_components [] = codes "[]"
dumps_components (c ∷ cs) = b'[' ∷ (dumps_component c ++ dumps_rest cs)

-- `sha256` stands for the digest of the UTF-8 bytes of a text, in hexadecimal.
module _ (sha256 : Text → Text) where
  unfoldable pub template_cache_key : Text → Text → Text → Text → Text
  template_cache_key namespace source name revision =
      codes "djhv:v1:"
      ++ sha256 (dumps_components (some namespace ∷ some source ∷ some name ∷ some revision ∷ []))

-- Reading one escaped character back.
hex_value : ℕ → ℕ
hex_value d = if ltb d b'a' then d - b'0' else d - b'a' + 10

read_hex : Text → Option (ℕ × Text)
read_hex (z ∷ z' ∷ h ∷ l ∷ r) = some (hex_value h * 16 + hex_value l, r)
read_hex _ = none

read_escape : Text → Option (ℕ × Text)
read_escape [] = none
read_escape (e ∷ r) =
    if e == b'n'
    then some (0x0a, r)
    else if e == b'r'
    then some (0x0d, r)
    else if e == b't'
    then some (0x09, r)
    else if e == b'f'
    then some (0x0c, r)
    else if e == b'b'
    then some (0x08, r)
    else if e == b'u'
    then read_hex r
    else some (e, r)

read_char : Text → Option (ℕ × Text)
read_char [] = none
read_char (c ∷ r) =
    if c == quote then none else if c == backslash then read_escape r else some (c, r)

read_hex-escape :
    (c : ℕ) (t : Text)
    → c < 32
    → read_hex (b'0' ∷ b'0' ∷ hex_digit (c / 16) ∷ hex_digit (c % 16) ∷ t) ≡ some (c, t)
unfolding read_hex hex_value hex_digit
read_hex-escape c t h = ground arith

read_char-escape : (c : ℕ) (t : Text) → read_char (escape_char c ++ t) ≡ some (c, t)
unfolding read_char read_escape escape_char
read_char-escape c t = ground (arith, read_hex-escape c t)

read_escaped :
    (c : ℕ) (s r : Text) → read_char (escape (c ∷ s) ++ quote ∷ r) ≡ some (c, escape s ++ quote ∷ r)
unfolding escape
read_escaped c s r =
    rw (append_assoc (escape_char c) (escape s) (quote ∷ r))
      (read_char-escape c (escape s ++ quote ∷ r))

read_quote : (r : Text) → read_char (quote ∷ r) ≡ none
unfolding read_char
read_quote r = refl

-- The escaped characters of two texts, each up to its closing quote.
escape-injective :
    (s s' r r' : Text) → escape s ++ quote ∷ r ≡ escape s' ++ quote ∷ r' → (s ≡ s') × (r ≡ r')
unfolding escape
escape-injective [] [] r r' h = (refl, cc)
escape-injective [] (c ∷ s') r r' h = absurd (cc (read_quote r, h, read_escaped c s' r'))
escape-injective (c ∷ s) [] r r' h = absurd (cc (read_quote r', ap read_char h, read_escaped c s r))
escape-injective (c ∷ s) (c' ∷ s') r r' h =
    let same : some (c, escape s ++ quote ∷ r) ≡ some (c', escape s' ++ quote ∷ r') =
      sym (read_escaped c s r) ∙ ap read_char h ∙ read_escaped c' s' r' in
    let (tails, rests) = escape-injective s s' r r' (cc same) in (cc (same, tails), rests)

abbrev head_or_zero : Text → ℕ
head_or_zero [] = 0
head_or_zero (c ∷ t) = c

abbrev tail_of : Text → Text
tail_of [] = []
tail_of (c ∷ t) = t

dumps_component-first : (c : Option Text) (r : Text) → b']' ∷ [] ≢ dumps_component c ++ r
unfolding dumps_component
dumps_component-first none r = λ h. omega (arith, ap head_or_zero h)
dumps_component-first (some t) r = λ h. omega (arith, ap head_or_zero h)

dumps_component-injective :
    (c c' : Option Text) (r r' : Text)
    → dumps_component c ++ r ≡ dumps_component c' ++ r'
    → (c ≡ c') × (r ≡ r')
unfolding dumps_component
dumps_component-injective none none r r' h = (refl, append_cancel_left (codes "null") r r' h)
dumps_component-injective none (some t) r r' h = absurd (omega (arith, ap head_or_zero h))
dumps_component-injective (some t) none r r' h = absurd (omega (arith, ap head_or_zero h))
dumps_component-injective (some t) (some t') r r' h =
    let (texts, rests) = escape-injective t t' r r' (
      sym (append_assoc (escape t) (quote ∷ []) r)
      ∙ ap tail_of h
      ∙ append_assoc (escape t') (quote ∷ []) r') in
    (ap some texts, rests)

dumps_rest-injective : (cs cs' : List (Option Text)) → dumps_rest cs ≡ dumps_rest cs' → cs ≡ cs'
unfolding dumps_rest
dumps_rest-injective [] [] h = refl
dumps_rest-injective [] (c ∷ cs') h = absurd (omega (arith, ap head_or_zero h))
dumps_rest-injective (c ∷ cs) [] h = absurd (omega (arith, ap head_or_zero h))
dumps_rest-injective (c ∷ cs) (c' ∷ cs') h =
    let (heads, tails) =
      dumps_component-injective c c' (dumps_rest cs) (dumps_rest cs') (ap tail_of h) in
    cc (heads, dumps_rest-injective cs cs' tails)

-- The JSON text tells two lists of components apart, also where the components hold quotes, commas
-- or control characters.
pub dumps_components-injective :
    (cs cs' : List (Option Text)) → dumps_components cs ≡ dumps_components cs' → cs ≡ cs'
unfolding dumps_components
dumps_components-injective [] [] h = refl
dumps_components-injective [] (c ∷ cs') h =
    absurd (dumps_component-first c (dumps_rest cs') (ap tail_of h))
dumps_components-injective (c ∷ cs) [] h =
    absurd (dumps_component-first c (dumps_rest cs) (sym (ap tail_of h)))
dumps_components-injective (c ∷ cs) (c' ∷ cs') h =
    let (heads, tails) =
      dumps_component-injective c c' (dumps_rest cs) (dumps_rest cs') (ap tail_of h) in
    cc (heads, dumps_rest-injective cs cs' tails)

-- The digest of the JSON text has no collisions.
pub record IsInjective (sha256 : Text → Text) : Type 0 where
  pub same : (a b : Text) → sha256 a ≡ sha256 b → a ≡ b

abbrev pub Identity : Type 0
Identity = Text × Text × Text × Text

abbrev pub key_of : (Text → Text) → Identity → Text
key_of sha256 (namespace, source, name, revision) =
    template_cache_key sha256 namespace source name revision

-- Two entries have one key only if namespace, source, name and revision are the same, if the digest
-- has no collisions.
pub template_cache_key-injective :
    (sha256 : Text → Text)
    → IsInjective sha256
    → (a b : Identity) → key_of sha256 a ≡ key_of sha256 b
    → a ≡ b
unfolding template_cache_key
template_cache_key-injective sha256 inj (n, s, m, r) (n', s', m', r') h = cc (
    dumps_components-injective (some n ∷ some s ∷ some m ∷ some r ∷ [])
      (some n' ∷ some s' ∷ some m' ∷ some r' ∷ [])
      (inj.same _ _ (append_cancel_left (codes "djhv:v1:") _ _ h)))
