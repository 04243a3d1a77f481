-- ===== src/Realtime/Subscription/Queue.antt =====
-- The queue of a subscription never overflows, whatever the order of the steps.
use dj_hyperview.Prelude.{
  ◌≤◌, Bool, true, false, ◌≡◌, refl, Option, none, some, List, [], ◌∷◌, ◌++◌, ◌==◌, length, ltb,
  if◌then◌else◌, Text, text_eq, text_eq_refl, arith, length-append, ap, ltb→lt,
}
use dj_hyperview.Realtime.Subscription.{
  Item, payload, end_mark, resync, maxsize, Subscription, put_nowait, with_queue, set_pending, init,
  put, begin_close, Received, no_message, hint, broken, pump, Next, stopped, take_item, resume,
  anext, Step, pumped, asked, resumed, aclosed, quiet, step, given, then_given, run,
}

-- At most 32 items wait. While a resync is pending on an open subscription it is all that waits.
pub record IsBounded (s : Subscription) : Type 0 where
  pub bound : length s.queue ≤ maxsize
  pub pending : (s.resync_pending ≡ true) → (s.closed ≡ false) → s.queue ≡ payload resync ∷ []
  pub same : s.closed ≡ s.closing

abbrev pub Keeps : Option Subscription → Type 0
Keeps none = ⊥
Keeps (some s) = IsBounded s

pub init-Keeps : Keeps init
unfolding init put_nowait
init-Keeps = record { bound = omega arith; pending = λ p c. refl; same = refl }

put-Keeps : (t : Text) (s : Subscription) → IsBounded s → Keeps (put t s)
unfolding put put_nowait
put-Keeps t s h = by_pending s.resync_pending refl
  where
    by_room :
        (room : Bool)
        → ltb (length s.queue) maxsize ≡ room
        → (length s.queue == maxsize) ≡ false
        → s.resync_pending ≡ false
        → Keeps (with_queue s (if room then some (s.queue ++ payload t ∷ []) else none))
    by_room true e free p = record {
      bound =
          omega (arith, length-append s.queue (payload t ∷ []), ltb→lt (length s.queue) maxsize e);
      pending = λ q c. absurd (cc (q, p));
      same = h.same;
    }
    by_room false e free p = absurd (grind (arith, h.bound))

    by_full :
        (full : Bool)
        → (length s.queue == maxsize) ≡ full
        → s.resync_pending ≡ false
        → Keeps (
            if full
            then set_pending (with_queue s (put_nowait (payload resync) []))
            else with_queue s (put_nowait (payload t) s.queue))
    by_full true e p = record { bound = omega arith; pending = λ q c. refl; same = h.same }
    by_full false e p = by_room (ltb (length s.queue) maxsize) refl e p

    by_pending :
        (pending : Bool)
        → s.resync_pending ≡ pending
        → Keeps (
            if pending
            then some s
            else if length s.queue == maxsize
            then set_pending (with_queue s (put_nowait (payload resync) []))
            else with_queue s (put_nowait (payload t) s.queue))
    by_pending true p = h
    by_pending false p = by_full (length s.queue == maxsize) refl p

begin_close-Keeps : (s : Subscription) → IsBounded s → Keeps (begin_close s)
unfolding begin_close put_nowait
begin_close-Keeps s h = by_closing s.closing
  where
    by_closing :
        (closing : Bool)
        → Keeps (
            if closing
            then some s
            else with_queue
                (record {
                  queue = [];
                  resync_pending = s.resync_pending;
                  closing = true;
                  closed = true;
                })
                (put_nowait end_mark []))
    by_closing true = h
    by_closing false = record { bound = omega arith; pending = λ q c. absurd (cc); same = refl }

pump-Keeps : (r : Received) (s : Subscription) → IsBounded s → Keeps (pump r s)
unfolding pump
pump-Keeps no_message s h = h
pump-Keeps (hint t) s h = put-Keeps t s h
pump-Keeps broken s h = begin_close-Keeps s h

take_item-IsBounded :
    (q : List Item) (s : Subscription) → s.queue ≡ q → IsBounded s → IsBounded (take_item q s).1
unfolding take_item
take_item-IsBounded [] s e h = h
take_item-IsBounded (end_mark ∷ q) s e h = record {
  bound = omega (arith, ap length e, h.bound);
  pending = λ p c. absurd (cc (h.pending p c, e));
  same = h.same;
}
take_item-IsBounded (payload t ∷ q) s e h = record {
  bound = omega (arith, ap length e, h.bound);
  pending = λ p c. by_payload p c (text_eq t resync) refl p;
  same = h.same;
}
  where
    by_payload :
        ((if text_eq t resync then false else s.resync_pending) ≡ true)
        → (s.closed ≡ false)
        → (b : Bool) → text_eq t resync ≡ b
        → ((if b then false else s.resync_pending) ≡ true)
        → q ≡ payload resync ∷ []
    by_payload p c true e' p' = absurd (cc)
    by_payload p c false e' p' = absurd (cc (h.pending p' c, e, text_eq_refl resync, e'))

resume-IsBounded : (s : Subscription) → IsBounded s → IsBounded (resume s).1
unfolding resume
resume-IsBounded s h = take_item-IsBounded s.queue s refl h

anext-IsBounded : (s : Subscription) → IsBounded s → IsBounded (anext s).1
unfolding anext
anext-IsBounded s h = by_closed s.closed
  where
    by_closed : (closed : Bool) → IsBounded (if closed then (stopped, s) else resume s).1
    by_closed true = h
    by_closed false = resume-IsBounded s h

-- A step that raises nothing.
abbrev Goes : Option (Next × Subscription) → Type 0
Goes none = ⊥
Goes (some (n, s)) = IsBounded s

quiet-Goes : (o : Option Subscription) → Keeps o → Goes (quiet o)
quiet-Goes none h = h
quiet-Goes (some s) h = h

step-Goes : (e : Step) (s : Subscription) → IsBounded s → Goes (step e s)
unfolding step
step-Goes (pumped r) s h = quiet-Goes (pump r s) (pump-Keeps r s h)
step-Goes asked s h = anext-IsBounded s h
step-Goes resumed s h = resume-IsBounded s h
step-Goes aclosed s h = quiet-Goes (begin_close s) (begin_close-Keeps s h)

abbrev Ends : Option (List Text × Subscription) → Type 0
Ends o = (ts : List Text) × (s : Subscription) × (o ≡ some (ts, s)) × IsBounded s

then_given-Ends :
    (n : Next) (o : Option (List Text × Subscription)) → Ends o → Ends (then_given n o)
then_given-Ends n o (ts, s, e, h) = (given n ++ ts, s, rw e refl, h)

run-Ends : (es : List Step) (s : Subscription) → IsBounded s → Ends (run es s)
unfolding run
run-Ends [] s h = ([], s, refl, h)
run-Ends (e ∷ es) s h = by_step (step e s) (step-Goes e s h) (run-Ends es)
  where
    by_step :
        (o : Option (Next × Subscription))
        → Goes o
        → ((s' : Subscription) → IsBounded s' → Ends (run es s'))
        → Ends (elim o [ none ↦ none | some (n, s') ↦ then_given n (run es s') ])
    by_step none g more = absurd g
    by_step (some (n, s')) g more = then_given-Ends n (run es s') (more s' g)

-- Whatever steps follow on a new subscription, and in whatever order, no `put_nowait` raises
-- `QueueFull`: the run goes through, at most 32 items wait, and a pending resync of an open
-- subscription is all that waits.
pub run-total :
    (es : List Step)
    → (new : Subscription) × (ts : List Text) × (s : Subscription) × (init ≡ some new)
      × (run es new ≡ some (ts, s))
      × IsBounded s
run-total es = by_init init refl init-Keeps
  where
    by_init :
        (o : Option Subscription)
        → init ≡ o
        → Keeps o
        → (new : Subscription) × (ts : List Text) × (s : Subscription) × (init ≡ some new)
          × (run es new ≡ some (ts, s))
          × IsBounded s
    by_init none e h = absurd h
    by_init (some new) e h =
        let (ts, s, ran, bounded) = run-Ends es new h in (new, ts, s, e, ran, bounded)
