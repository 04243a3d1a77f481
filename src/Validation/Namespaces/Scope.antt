-- ===== src/Validation/Namespaces/Scope.antt =====
-- The counts agree with the bindings that are in scope, read from the list of them at every event.
use dj_hyperview.Prelude.{
  ℕ, zero, suc, ◌≡◌, ◌≤◌, refl, true, false, List, [], ◌∷◌, ltb, ◌==◌, if◌then◌else◌, length, Text,
  text_eq, text_eq_refl, eq_of_text_eq, arith, Bool-cases, inl, inr,
}
use dj_hyperview.Errors.{index_error, Result, ok, err}
use dj_hyperview.Cache.Json.{member}
use dj_hyperview.Validation.Namespaces.{
  Event, start_ns, end_ns, max_namespaces, max_declarations, Counter, tally, increment, decrement,
  too_many, count_events, check_namespace_scope,
}

-- The number of different prefixes.
unfoldable pub distinct : List Text → ℕ
unfolding member
distinct [] = 0
distinct (prefix ∷ declared) =
    if member prefix declared then distinct declared else suc (distinct declared)

-- The caps, read from the bindings in scope alone.
unfoldable pub scoped : List Text → List Event → Result (Unit {0})
unfolding distinct
scoped declared [] = ok tt
scoped declared (start_ns prefix ∷ events) =
    let rest = scoped (prefix ∷ declared) events in
    if ltb max_declarations (length (prefix ∷ declared))
    then too_many
    else if ltb max_namespaces (distinct (prefix ∷ declared))
    then too_many
    else rest
scoped [] (end_ns ∷ events) = err index_error
scoped (prefix ∷ declared) (end_ns ∷ events) = scoped declared events

-- How often a prefix is bound.
times : Text → List Text → ℕ
times prefix [] = 0
times prefix (other ∷ declared) =
    if text_eq other prefix then suc (times prefix declared) else times prefix declared

abbrev one_more : Text → Text → ℕ → ℕ
one_more p q n = if text_eq p q then suc n else n

-- The items of a `Counter`: no key twice, and no count of 0.
IsCounter : Counter → Type 0
IsCounter [] = Unit
IsCounter ((key, n) ∷ items) = (1 ≤ n) × (tally key items ≡ 0) × IsCounter items

joined : (k p q : Text) → text_eq k q ≡ true → text_eq p q ≡ true → text_eq k p ≡ true
joined k p q h h' = rw (eq_of_text_eq k q h, eq_of_text_eq p q h') (text_eq_refl q)

carried : (k p q : Text) → text_eq k p ≡ true → text_eq k q ≡ text_eq p q
carried k p q h = rw (eq_of_text_eq k p h) refl

key_of : (k p : Text) (items : Counter) → text_eq k p ≡ true → tally k items ≡ tally p items
key_of k p items h = rw (eq_of_text_eq k p h) refl

flipped : (k p : Text) → text_eq k p ≡ false → text_eq p k ≡ false
flipped k p h = elim (Bool-cases (text_eq p k)) [
  | inl e ↦ let h' : text_eq k p ≡ true = rw (eq_of_text_eq p k e) (text_eq_refl k) in cc (h, h')
  | inr e ↦ e
]

member-times :
    (p : Text) (declared : List Text)
    → member p declared ≡ (if times p declared == 0 then false else true)
unfolding member times
member-times p [] = refl
member-times p (other ∷ declared) = ground (arith, member-times p declared)

tally-increment : (p q : Text) (c : Counter) → tally q (increment p c) ≡ one_more p q (tally q c)
unfolding tally increment
tally-increment p q [] = refl
tally-increment p q ((k, n) ∷ items) =
    ground (arith, joined k p q, carried k p q, tally-increment p q items)

IsCounter-increment : (p : Text) (c : Counter) → IsCounter c → IsCounter (increment p c)
unfolding tally increment IsCounter
IsCounter-increment p [] h = (omega arith, refl, tt)
IsCounter-increment p ((k, n) ∷ items) (some_, fresh, rest) = elim (Bool-cases (text_eq k p)) [
  | inl e ↦ rw e (omega arith, fresh, rest)
  | inr e ↦ rw e (
    some_,
    ground (arith, tally-increment p k items, flipped k p e),
    IsCounter-increment p items rest,
  )
]

length-increment :
    (p : Text) (c : Counter)
    → IsCounter c
    → length (increment p c) ≡ (if tally p c == 0 then suc (length c) else length c)
unfolding tally increment IsCounter
length-increment p [] h = refl
length-increment p ((k, n) ∷ items) (some_, fresh, rest) =
    ground (arith, length-increment p items rest)

tally-decrement :
    (p q : Text) (c : Counter)
    → IsCounter c
    → 1 ≤ tally p c
    → tally q c ≡ one_more p q (tally q (decrement p c))
unfolding tally decrement IsCounter
tally-decrement p q [] h le = absurd (omega arith)
tally-decrement p q ((k, zero) ∷ items) (some_, fresh, rest) le = absurd (omega arith)
tally-decrement p q ((k, suc zero) ∷ items) (some_, fresh, rest) le =
    ground (arith, joined k p q, carried k p q, key_of k q items, tally-decrement p q items rest)
tally-decrement p q ((k, suc (suc n)) ∷ items) (some_, fresh, rest) le =
    ground (arith, joined k p q, carried k p q, tally-decrement p q items rest)

length-decrement :
    (p : Text) (c : Counter)
    → IsCounter c
    → 1 ≤ tally p c
    → length c ≡ (
        if tally p (decrement p c) == 0
        then suc (length (decrement p c))
        else length (decrement p c))
unfolding tally decrement IsCounter
length-decrement p [] h le = absurd (omega arith)
length-decrement p ((k, zero) ∷ items) (some_, fresh, rest) le = absurd (omega arith)
length-decrement p ((k, suc zero) ∷ items) (some_, fresh, rest) le =
    ground (arith, key_of k p items, length-decrement p items rest)
length-decrement p ((k, suc (suc n)) ∷ items) (some_, fresh, rest) le =
    ground (arith, length-decrement p items rest)

IsCounter-decrement :
    (p : Text) (c : Counter) → IsCounter c → 1 ≤ tally p c → IsCounter (decrement p c)
unfolding tally decrement IsCounter
IsCounter-decrement p [] h le = tt
IsCounter-decrement p ((k, zero) ∷ items) (some_, fresh, rest) le = absurd (omega arith)
IsCounter-decrement p ((k, suc zero) ∷ items) (some_, fresh, rest) le =
    elim (Bool-cases (text_eq k p)) [
      | inl e ↦ rw e rest
      | inr e ↦
          let le' : 1 ≤ tally p items = rw e at le in
          rw e (
            omega arith,
            ground (arith, tally-decrement p k items rest le', flipped k p e),
            IsCounter-decrement p items rest le',
          )
    ]
IsCounter-decrement p ((k, suc (suc n)) ∷ items) (some_, fresh, rest) le =
    elim (Bool-cases (text_eq k p)) [
      | inl e ↦ rw e (omega arith, fresh, rest)
      | inr e ↦
          let le' : 1 ≤ tally p items = rw e at le in
          rw e (
            omega arith,
            ground (arith, tally-decrement p k items rest le', flipped k p e),
            IsCounter-decrement p items rest le',
          )
    ]

record Agrees (in_scope : Counter) (declared : List Text) : Type 0 where
  counter : IsCounter in_scope
  counts : (p : Text) → tally p in_scope ≡ times p declared
  size : length in_scope ≡ distinct declared

Agrees-empty : Agrees [] []
unfolding IsCounter tally times distinct
Agrees-empty = record { counter = tt; counts = λ p. refl; size = refl }

Agrees-push :
    (p : Text) (in_scope : Counter) (declared : List Text)
    → Agrees in_scope declared
    → Agrees (increment p in_scope) (p ∷ declared)
unfolding times distinct
Agrees-push p in_scope declared a = record {
  counter = IsCounter-increment p in_scope a.counter;
  counts = λ q. ground (arith, tally-increment p q in_scope, a.counts q);
  size =
      ground
        (arith, length-increment p in_scope a.counter, a.counts p, a.size, member-times p declared);
}

Agrees-pop :
    (p : Text) (in_scope : Counter) (declared : List Text)
    → Agrees in_scope (p ∷ declared)
    → Agrees (decrement p in_scope) declared
unfolding times distinct
Agrees-pop p in_scope declared a =
    let le : 1 ≤ tally p in_scope = ground (arith, a.counts p, text_eq_refl p) in
    let again : (q : Text) → tally q (decrement p in_scope) ≡ times q declared =
      λ q. ground (arith, tally-decrement p q in_scope a.counter le, a.counts q) in
    record {
      counter = IsCounter-decrement p in_scope a.counter le;
      counts = again;
      size = ground (
        arith,
        length-decrement p in_scope a.counter le,
        again p,
        a.size,
        member-times p declared,
      );
    }

count_events-scoped :
    (declared : List Text) (in_scope : Counter) (events : List Event)
    → Agrees in_scope declared
    → count_events declared in_scope events ≡ scoped declared events
unfolding count_events scoped
count_events-scoped declared in_scope [] a = refl
count_events-scoped declared in_scope (start_ns p ∷ events) a =
    let a' = Agrees-push p in_scope declared a in
    rw (a'.size, count_events-scoped (p ∷ declared) (increment p in_scope) events a') refl
count_events-scoped [] in_scope (end_ns ∷ events) a = refl
count_events-scoped (p ∷ declared) in_scope (end_ns ∷ events) a =
    count_events-scoped declared (decrement p in_scope) events (Agrees-pop p in_scope declared a)

-- Whatever the events, the counts give the outcome of the caps on the bindings that are in scope: at
-- most 32 of them at any time, with at most 8 different prefixes.
pub check_namespace_scope-scoped :
    (events : List Event) → check_namespace_scope events ≡ scoped [] events
unfolding check_namespace_scope
check_namespace_scope-scoped events = count_events-scoped [] [] events Agrees-empty
