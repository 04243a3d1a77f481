-- ===== src/Realtime/Subscription/Admission.antt =====
-- realtime/_subscription.py: the loop of `_subscribe`, which waits for one SUBSCRIBE per channel.
use mathlib.Core.Path.{subst}
use dj_hyperview.Prelude.{
  ℕ, ◌+◌, Bool, true, false, ◌&&◌, ◌||◌, not, ◌≡◌, refl, Option, none, some, List, [], ◌∷◌, ◌++◌,
  ◌==◌, length, if◌then◌else◌, Text, arith, ap, eq_of_eqb,
}
use dj_hyperview.Cache.Json.{member}

pub data Kind : Type 0 where
  subscribe : Kind
  message : Kind
  other_kind : Kind

-- A message of the connection. `count` is its `data`, if that is an `int` that is not negative.
pub record Message : Type 0 where
  pub kind : Kind
  pub channel : Text
  pub count : Option ℕ

unfoldable pub is_count : ℕ → Option ℕ → Bool
is_count n none = false
is_count n (some m) = m == n

-- `a <= b` of sets.
unfoldable pub subset : List Text → List Text → Bool
subset [] b = true
subset (c ∷ a) b = member c b && subset a b

-- A round of the loop on a message: the new `acknowledged`, or `none` if the message raises.
unfoldable pub accept : List Text → List Text → Message → Option (List Text)
accept expected acknowledged m =
    if member m.channel expected
    then elim m.kind [
      | subscribe ↦
          if member m.channel acknowledged || not (is_count (length acknowledged + 1) m.count)
          then none
          else some (m.channel ∷ acknowledged)
      | message ↦ some acknowledged
      | other_kind ↦ none
    ]
    else none

-- How the loop ends: with every acknowledgement and the messages that are left, with an exception, or
-- with no message in the time that there is.
pub data Setup : Type 0 where
  ready : List Text → List (Option Message) → Setup
  refused : Setup
  timed_out : Setup

-- `acknowledged != expected`
unfoldable pub complete : List Text → List Text → Bool
complete expected acknowledged = subset acknowledged expected && subset expected acknowledged

unfoldable pub admit : List (Option Message) → List Text → List Text → Setup
admit [] expected acknowledged =
    if complete expected acknowledged then ready acknowledged [] else timed_out
admit (none ∷ ms) expected acknowledged =
    if complete expected acknowledged
    then ready acknowledged (none ∷ ms)
    else admit ms expected acknowledged
admit (some m ∷ ms) expected acknowledged =
    if complete expected acknowledged
    then ready acknowledged (some m ∷ ms)
    else elim (accept expected acknowledged m) [
      | none ↦ refused
      | some acknowledged' ↦ admit ms expected acknowledged'
    ]

-- The channels that messages acknowledge, the last one first, in front of those before.
unfoldable pub acknowledged_by : List (Option Message) → List Text → List Text
acknowledged_by [] before = before
acknowledged_by (none ∷ ms) before = acknowledged_by ms before
acknowledged_by (some m ∷ ms) before = elim m.kind [
  | subscribe ↦ acknowledged_by ms (m.channel ∷ before)
  | _ ↦ acknowledged_by ms before
]

-- No channel twice.
abbrev pub IsDistinct : List Text → Type 0
IsDistinct [] = Unit {0}
IsDistinct (c ∷ cs) = (member c cs ≡ false) × IsDistinct cs

-- Every acknowledgement carries its number.
abbrev pub IsNumbered : ℕ → List (Option Message) → Type 0
IsNumbered n [] = Unit {0}
IsNumbered n (none ∷ ms) = IsNumbered n ms
IsNumbered n (some m ∷ ms) = elim m.kind [
  | subscribe ↦ (m.count ≡ some n) × IsNumbered (n + 1) ms
  | _ ↦ IsNumbered n ms
]

-- What `accept` gives for a message that does not raise.
data Accepted (expected before : List Text) (m : Message) : List Text → Type 0 where
  counted :
      m.kind ≡ subscribe
      → member m.channel before ≡ false
      → m.count ≡ some (length before + 1)
      → Accepted expected before m (m.channel ∷ before)
  passed : m.kind ≡ message → Accepted expected before m before

is_count-eq : (n : ℕ) (c : Option ℕ) → is_count n c ≡ true → c ≡ some n
unfolding is_count
is_count-eq n none h = cc
is_count-eq n (some m) h = ap some (eq_of_eqb m n h)

accept-Accepted :
    (expected before after : List Text) (m : Message)
    → accept expected before m ≡ some after
    → Accepted expected before m after
unfolding accept
accept-Accepted expected before after m h = by_member (member m.channel expected) m.kind refl h
  where
    by_test :
        (a b : Bool)
        → member m.channel before ≡ a
        → is_count (length before + 1) m.count ≡ b
        → m.kind ≡ subscribe
        → (if a || not b then none else some (m.channel ∷ before)) ≡ some after
        → Accepted expected before m after
    by_test true b ea eb k e = absurd (cc)
    by_test false false ea eb k e = absurd (cc)
    by_test false true ea eb k e =
        let same : m.channel ∷ before ≡ after = cc in
        subst (Accepted expected before m) same
          (counted k ea (is_count-eq (length before + 1) m.count eb))

    by_member :
        (inside : Bool) (k : Kind)
        → m.kind ≡ k
        → (if inside
            then elim k [
              | subscribe ↦
                  if member m.channel before || not (is_count (length before + 1) m.count)
                  then none
                  else some (m.channel ∷ before)
              | message ↦ some before
              | other_kind ↦ none
            ]
            else none)
          ≡ some after
        → Accepted expected before m after
    by_member false k ek e = absurd (cc)
    by_member true subscribe ek e =
        by_test (member m.channel before) (is_count (length before + 1) m.count) refl refl ek e
    by_member true message ek e = subst (Accepted expected before m) (cc) (passed ek)
    by_member true other_kind ek e = absurd (cc)

-- The messages that were taken, and what they acknowledge.
abbrev Taken :
    List (Option Message) → List Text → List Text → List Text → List (Option Message) → Type 0
Taken ms expected before b rest =
    (taken : List (Option Message)) × (ms ≡ taken ++ rest)
    × (b ≡ acknowledged_by taken before)
    × IsNumbered (length before + 1) taken
    × IsDistinct b
    × (complete expected b ≡ true)

Taken-now :
    (ms : List (Option Message)) (expected before b : List Text) (rest : List (Option Message))
    → IsDistinct before
    → complete expected before ≡ true
    → ready before ms ≡ ready b rest
    → Taken ms expected before b rest
unfolding acknowledged_by
Taken-now ms expected before b rest d c e =
    let same : before ≡ b = cc in ([], cc, cc, tt, subst IsDistinct same d, rw (← same) c)

Taken-later :
    (m : Message) (ms : List (Option Message)) (expected before after b : List Text)
    (rest : List (Option Message))
    → Accepted expected before m after
    → Taken ms expected after b rest
    → Taken (some m ∷ ms) expected before b rest
unfolding acknowledged_by
Taken-later m ms expected before after b rest (counted k new n)
      (taken, split, acked, numbered, d, c) =
    (
      some m ∷ taken,
      ap (λ l. some m ∷ l) split,
      rw k acked,
      rw k (n, subst (λ i. IsNumbered i taken) (omega arith) numbered),
      d,
      c,
    )
Taken-later m ms expected before after b rest (passed k) (taken, split, acked, numbered, d, c) =
    (some m ∷ taken, ap (λ l. some m ∷ l) split, rw k acked, rw k numbered, d, c)

Accepted-IsDistinct :
    (expected before after : List Text) (m : Message)
    → Accepted expected before m after
    → IsDistinct before
    → IsDistinct after
Accepted-IsDistinct expected before after m (counted k new n) d = (new, d)
Accepted-IsDistinct expected before after m (passed k) d = d

admit-Taken :
    (ms : List (Option Message)) (expected before b : List Text) (rest : List (Option Message))
    → IsDistinct before
    → admit ms expected before ≡ ready b rest
    → Taken ms expected before b rest
unfolding admit
admit-Taken [] expected before b rest d h = by_complete (complete expected before) refl h
  where
    by_complete :
        (all : Bool)
        → complete expected before ≡ all
        → (if all then ready before [] else timed_out) ≡ ready b rest
        → Taken [] expected before b rest
    by_complete true c e = Taken-now [] expected before b rest d c e
    by_complete false c e = absurd (cc)
admit-Taken (none ∷ ms) expected before b rest d h =
    by_complete (complete expected before) refl h (admit-Taken ms expected before b rest d)
  where
    by_complete :
        (all : Bool)
        → complete expected before ≡ all
        → (if all then ready before (none ∷ ms) else admit ms expected before) ≡ ready b rest
        → (admit ms expected before ≡ ready b rest → Taken ms expected before b rest)
        → Taken (none ∷ ms) expected before b rest
    by_complete true c e more = Taken-now (none ∷ ms) expected before b rest d c e
    by_complete false c e more =
        let (taken, split, acked, numbered, d', c') = more e in
        (none ∷ taken, ap (λ l. none ∷ l) split, unfold acknowledged_by in acked, numbered, d', c')
admit-Taken (some m ∷ ms) expected before b rest d h =
    by_complete (complete expected before) refl h (λ after. admit-Taken ms expected after b rest)
  where
    by_accept :
        (o : Option (List Text))
        → accept expected before m ≡ o
        → elim o [ none ↦ refused | some after ↦ admit ms expected after ] ≡ ready b rest
        → ((after : List Text)
            → IsDistinct after
            → admit ms expected after ≡ ready b rest
            → Taken ms expected after b rest)
        → Taken (some m ∷ ms) expected before b rest
    by_accept none a e more = absurd (cc)
    by_accept (some after) a e more =
        let step = accept-Accepted expected before after m a in
        Taken-later m ms expected before after b rest step
          (more after (Accepted-IsDistinct expected before after m step d) e)

    by_complete :
        (all : Bool)
        → complete expected before ≡ all
        → (if all then ready before (some m ∷ ms) else elim (accept expected before m) [
          | none ↦ refused
          | some after ↦ admit ms expected after
        ])
          ≡ ready b rest
        → ((after : List Text)
            → IsDistinct after
            → admit ms expected after ≡ ready b rest
            → Taken ms expected after b rest)
        → Taken (some m ∷ ms) expected before b rest
    by_complete true c e more = Taken-now (some m ∷ ms) expected before b rest d c e
    by_complete false c e more = by_accept (accept expected before m) refl e more

-- A subscription is admitted only on messages that acknowledge every channel exactly once and no other
-- channel, the acknowledgements numbered from one in their order; later messages are left to it.
pub admit-ready :
    (ms : List (Option Message)) (expected b : List Text) (rest : List (Option Message))
    → admit ms expected [] ≡ ready b rest
    → (taken : List (Option Message)) × (ms ≡ taken ++ rest)
      × (b ≡ acknowledged_by taken [])
      × IsNumbered 1 taken
      × IsDistinct b
      × (complete expected b ≡ true)
admit-ready ms expected b rest h = admit-Taken ms expected [] b rest tt h
