-- ===== src/Tests/RealtimeTests.antt =====
-- The theorems on subscriptions and the publisher at concrete inputs.
use dj_hyperview.Prelude.{
  ℕ, ◌+◌, true, false, ◌≡◌, refl, ◌⊎◌, Option, none, some, List, [], ◌∷◌, ◌++◌, Text, codes,
  text_eq, arith,
}
use dj_hyperview.Cache.Json.{member}
use dj_hyperview.Realtime.Subscription.{
  Subscription, payload, hint, pumped, asked, resumed, aclosed, init, run, step, pump, put,
  put_nowait,
}
use dj_hyperview.Realtime.Subscription.Queue.{IsBounded, run-total}
use dj_hyperview.Realtime.Subscription.Coverage.{Got, Waits, run-covers}
use dj_hyperview.Realtime.Subscription.Admission.{
  Message, subscribe, message, is_count, subset, accept, complete, ready, admit, acknowledged_by,
  IsDistinct, IsNumbered, admit-ready,
}
use dj_hyperview.Realtime.Publisher.{
  Target, new_target, is_expired, expire, Attempt, connect, after_failure, delivers, send,
  put as put_target, Readings,
}

run-total_example :
    (new : Subscription) × (ts : List Text) × (s : Subscription) × (init ≡ some new)
    × (run
          (pumped (hint (codes "a")) ∷ asked ∷ pumped (hint (codes "b")) ∷ aclosed ∷ resumed ∷ [])
          new
        ≡ some (ts, s))
    × IsBounded s
run-total_example =
    run-total
      (pumped (hint (codes "a")) ∷ asked ∷ pumped (hint (codes "b")) ∷ aclosed ∷ resumed ∷ [])

abbrev current : Subscription
current = record { queue = []; resync_pending = false; closing = false; closed = false }

current-IsBounded : IsBounded current
current-IsBounded = record { bound = omega arith; pending = λ p c. absurd (cc); same = refl }

abbrev behind : Subscription
behind = record {
  queue = payload (codes "a") ∷ [];
  resync_pending = false;
  closing = false;
  closed = false;
}

ran : run (pumped (hint (codes "a")) ∷ []) current ≡ some ([], behind)
unfolding run step pump put put_nowait
ran = refl

run-covers_example : Got (codes "a") [] ⊎ ((behind.closed ≡ true) ⊎ Waits (codes "a") behind)
run-covers_example = run-covers (codes "a") [] current behind [] current-IsBounded ran

abbrev first : Message
first = record { kind = subscribe; channel = codes "x"; count = some 1 }

abbrev early : Message
early = record { kind = message; channel = codes "y"; count = none }

abbrev second : Message
second = record { kind = subscribe; channel = codes "y"; count = some 2 }

abbrev messages : List (Option Message)
messages = some first ∷ none ∷ some early ∷ some second ∷ some early ∷ []

abbrev channels : List Text
channels = codes "x" ∷ codes "y" ∷ []

admitted : admit messages channels [] ≡ ready (codes "y" ∷ codes "x" ∷ []) (some early ∷ [])
unfolding admit accept complete subset is_count member text_eq
admitted = refl

admit-ready_example :
    (taken : List (Option Message)) × (messages ≡ taken ++ some early ∷ [])
    × ((codes "y" ∷ codes "x" ∷ []) ≡ acknowledged_by taken [])
    × IsNumbered 1 taken
    × IsDistinct (codes "y" ∷ codes "x" ∷ [])
    × (complete channels (codes "y" ∷ codes "x" ∷ []) ≡ true)
admit-ready_example =
    admit-ready messages channels (codes "y" ∷ codes "x" ∷ []) (some early ∷ []) admitted

abbrev down : ℕ → Attempt
down t = record {
  now = t;
  checked = t;
  finished = t + 1;
  opened = t + 2;
  connects = true;
  executes = false;
}

abbrev one : Target
one = (send new_target 39000 (down 31000)).1

abbrev two : Target
two = (send one 39000 (down 32000)).1

one_fails : (send new_target 39000 (down 31000)).0 ≡ false
unfolding send expire is_expired connect delivers
one_fails = refl

two_fails : (send one 39000 (down 32000)).0 ≡ false
unfolding send expire is_expired connect delivers after_failure
two_fails = refl

-- The readings for a job in front of which the worker sweeps.
abbrev readings : Readings
readings = record { tested = 37000; swept = 37000; now = 37000; opened = 37001 }
