-- ===== src/Realtime/Subscription.antt =====
-- realtime/_subscription.py: `_Subscription` and the loop of `_subscribe`. A step is what runs between
-- two suspensions of the event loop.

pub mod Queue
pub mod Coverage
pub mod Admission
use dj_hyperview.Prelude.{
  ℕ, ◌+◌, Bool, true, false, Option, none, some, List, [], ◌∷◌, ◌++◌, ◌==◌, length, ltb,
  if◌then◌else◌, Text, codes, text_eq,
}

-- `_RESYNC`
abbrev pub resync : Text
resync = codes "{\"event\":\"resync\",\"data\":{\"version\":1}}"

abbrev pub maxsize : ℕ
maxsize = 32

-- What the queue holds: a payload, or `_END`.
pub data Item : Type 0 where
  payload : Text → Item
  end_mark : Item

-- `closing` is whether `_closing` is a task.
pub record Subscription : Type 0 where
  pub queue : List Item
  pub resync_pending : Bool
  pub closing : Bool
  pub closed : Bool

-- `put_nowait`: `none` is `QueueFull`.
unfoldable pub put_nowait : Item → List Item → Option (List Item)
put_nowait item queue = if ltb (length queue) maxsize then some (queue ++ item ∷ []) else none

abbrev pub with_queue : Subscription → Option (List Item) → Option Subscription
with_queue s none = none
with_queue s (some queue) = some (record {
  queue = queue;
  resync_pending = s.resync_pending;
  closing = s.closing;
  closed = s.closed;
})

abbrev pub set_pending : Option Subscription → Option Subscription
set_pending none = none
set_pending (some s) =
    some (record { queue = s.queue; resync_pending = true; closing = s.closing; closed = s.closed })

-- `_Subscription.__init__`
unfoldable pub init : Option Subscription
init = set_pending (
    with_queue (record { queue = []; resync_pending = true; closing = false; closed = false })
      (put_nowait (payload resync) []))

-- `_put`
unfoldable pub put : Text → Subscription → Option Subscription
put t s =
    if s.resync_pending
    then some s
    else if length s.queue == maxsize
    then set_pending (with_queue s (put_nowait (payload resync) []))
    else with_queue s (put_nowait (payload t) s.queue)

-- `_begin_close`
unfoldable pub begin_close : Subscription → Option Subscription
begin_close s =
    if s.closing
    then some s
    else with_queue
        (record { queue = []; resync_pending = s.resync_pending; closing = true; closed = true })
        (put_nowait end_mark [])

-- What the pump gets: nothing, a message with a checked payload on one of the channels, or anything
-- that raises in the loop, a failure of the connection included.
pub data Received : Type 0 where
  no_message : Received
  hint : Text → Received
  broken : Received

-- A round of `_pump`, its handler included.
unfoldable pub pump : Received → Subscription → Option Subscription
pump no_message s = some s
pump (hint t) s = put t s
pump broken s = begin_close s

-- How `__anext__` goes on: it waits, returns a payload, or raises `StopAsyncIteration`.
pub data Next : Type 0 where
  waiting : Next
  returned : Text → Next
  stopped : Next

abbrev pub rest_of : List Item → Subscription → Subscription
rest_of q s = record {
  queue = q;
  resync_pending = s.resync_pending;
  closing = s.closing;
  closed = s.closed;
}

-- `__anext__` from its `get` on.
unfoldable pub take_item : List Item → Subscription → Next × Subscription
take_item [] s = (waiting, s)
take_item (end_mark ∷ q) s = (stopped, rest_of q s)
take_item (payload t ∷ q) s = (
  returned t,
  record {
    queue = q;
    resync_pending = if text_eq t resync then false else s.resync_pending;
    closing = s.closing;
    closed = s.closed;
  },
)

unfoldable pub resume : Subscription → Next × Subscription
resume s = take_item s.queue s

-- `__anext__`
unfoldable pub anext : Subscription → Next × Subscription
anext s = if s.closed then (stopped, s) else resume s

-- A step of the pump, of a call of the consumer, of a consumer that waited, or of `aclose`.
pub data Step : Type 0 where
  pumped : Received → Step
  asked : Step
  resumed : Step
  aclosed : Step

-- What the consumer is given in a step, and the next state.
abbrev pub quiet : Option Subscription → Option (Next × Subscription)
quiet none = none
quiet (some s) = some (waiting, s)

unfoldable pub step : Step → Subscription → Option (Next × Subscription)
step (pumped r) s = quiet (pump r s)
step asked s = some (anext s)
step resumed s = some (resume s)
step aclosed s = quiet (begin_close s)

-- The payloads that the consumer is given.
abbrev pub given : Next → List Text
given (returned t) = t ∷ []
given _ = []

abbrev pub then_given : Next → Option (List Text × Subscription) → Option (List Text × Subscription)
then_given n none = none
then_given n (some (ts, s)) = some (given n ++ ts, s)

-- A sequence of steps, with the payloads that the consumer is given in it; `none` once a
-- `put_nowait` raises.
unfoldable pub run : List Step → Subscription → Option (List Text × Subscription)
run [] s = some ([], s)
run (e ∷ es) s = elim (step e s) [ none ↦ none | some (n, s') ↦ then_given n (run es s') ]
