-- ===== src/Realtime/Subscription/Coverage.antt =====
-- A hint is not lost: the consumer is given it, or a resync, or one of both still waits.
use mathlib.Core.Path.{subst}
use dj_hyperview.Prelude.{
  Bool, true, false, ◌≡◌, refl, ◌⊎◌, inl, inr, Option, none, some, List, [], ◌∷◌, ◌++◌, ◌==◌,
  length, ltb, if◌then◌else◌, Text,
}
use dj_hyperview.Realtime.Subscription.{
  Item, payload, end_mark, resync, maxsize, Subscription, put_nowait, with_queue, set_pending, put,
  begin_close, Received, no_message, hint, broken, pump, Next, waiting, stopped, take_item, resume,
  anext, Step, pumped, asked, resumed, aclosed, quiet, step, given, then_given, run, rest_of,
}
use dj_hyperview.Realtime.Subscription.Queue.{IsBounded}

-- `a` is among the elements.
abbrev pub Among : {A : Type 0} → A → List A → Type 0
Among a [] = ⊥
Among a (b ∷ bs) = (b ≡ a) ⊎ Among a bs

pub Among-append_left : {A : Type 0} (a : A) (xs ys : List A) → Among a xs → Among a (xs ++ ys)
Among-append_left a [] ys h = absurd h
Among-append_left a (x ∷ xs) ys (inl e) = inl e
Among-append_left a (x ∷ xs) ys (inr h) = inr (Among-append_left a xs ys h)

Among-append_right : {A : Type 0} (a : A) (xs ys : List A) → Among a ys → Among a (xs ++ ys)
Among-append_right a [] ys h = h
Among-append_right a (x ∷ xs) ys h = inr (Among-append_right a xs ys h)

-- The consumer was given the hint, or a resync.
abbrev pub Got : Text → List Text → Type 0
Got t ts = Among t ts ⊎ Among resync ts

-- The hint waits, or a resync does.
abbrev pub Waits : Text → Subscription → Type 0
Waits t s = Among (payload t) s.queue ⊎ Among (payload resync) s.queue

-- On an open subscription, the hint or a resync waits.
abbrev Covered : Text → Subscription → Type 0
Covered t s = (s.closed ≡ true) ⊎ Waits t s

abbrev After : Text → Option Subscription → Type 0
After t none = Unit {0}
After t (some s) = Covered t s

Got-append_left : (t : Text) (xs ys : List Text) → Got t xs → Got t (xs ++ ys)
Got-append_left t xs ys (inl h) = inl (Among-append_left t xs ys h)
Got-append_left t xs ys (inr h) = inr (Among-append_left resync xs ys h)

Got-append_right : (t : Text) (xs ys : List Text) → Got t ys → Got t (xs ++ ys)
Got-append_right t xs ys (inl h) = inl (Among-append_right t xs ys h)
Got-append_right t xs ys (inr h) = inr (Among-append_right resync xs ys h)

-- The hint that is put.
put-After : (t : Text) (s : Subscription) → IsBounded s → After t (put t s)
unfolding put put_nowait
put-After t s h = by_pending s.resync_pending refl
  where
    by_closed : (closed : Bool) → s.closed ≡ closed → s.resync_pending ≡ true → Covered t s
    by_closed true e p = inl e
    by_closed false e p = inr (inr (rw (h.pending p e) (inl refl)))

    by_room :
        (room : Bool)
        → After t (with_queue s (if room then some (s.queue ++ payload t ∷ []) else none))
    by_room true = inr (inl (Among-append_right (payload t) s.queue (payload t ∷ []) (inl refl)))
    by_room false = tt

    by_full :
        (full : Bool)
        → After t (
            if full
            then set_pending (with_queue s (put_nowait (payload resync) []))
            else with_queue s (put_nowait (payload t) s.queue))
    by_full true = inr (inr (inl refl))
    by_full false = by_room (ltb (length s.queue) maxsize)

    by_pending :
        (pending : Bool)
        → s.resync_pending ≡ pending
        → After t (
            if pending
            then some s
            else if length s.queue == maxsize
            then set_pending (with_queue s (put_nowait (payload resync) []))
            else with_queue s (put_nowait (payload t) s.queue))
    by_pending true p = by_closed s.closed refl p
    by_pending false p = by_full (length s.queue == maxsize)

-- Another hint that is put.
put-other-After : (u t : Text) (s : Subscription) → Covered t s → After t (put u s)
unfolding put put_nowait
put-other-After u t s h = by_pending s.resync_pending
  where
    appended :
        (c : (s.closed ≡ true) ⊎ Waits t s) → Covered t (rest_of (s.queue ++ payload u ∷ []) s)
    appended (inl c) = inl c
    appended (inr (inl w)) = inr (inl (Among-append_left (payload t) s.queue _ w))
    appended (inr (inr w)) = inr (inr (Among-append_left (payload resync) s.queue _ w))

    by_room :
        (room : Bool)
        → After t (with_queue s (if room then some (s.queue ++ payload u ∷ []) else none))
    by_room true = appended h
    by_room false = tt

    by_full :
        (full : Bool)
        → After t (
            if full
            then set_pending (with_queue s (put_nowait (payload resync) []))
            else with_queue s (put_nowait (payload u) s.queue))
    by_full true = inr (inr (inl refl))
    by_full false = by_room (ltb (length s.queue) maxsize)

    by_pending :
        (pending : Bool)
        → After t (
            if pending
            then some s
            else if length s.queue == maxsize
            then set_pending (with_queue s (put_nowait (payload resync) []))
            else with_queue s (put_nowait (payload u) s.queue))
    by_pending true = h
    by_pending false = by_full (length s.queue == maxsize)

begin_close-After : (t : Text) (s : Subscription) → Covered t s → After t (begin_close s)
unfolding begin_close put_nowait
begin_close-After t s h = by_closing s.closing
  where
    by_closing :
        (closing : Bool)
        → After t (
            if closing
            then some s
            else with_queue
                (record {
                  queue = [];
                  resync_pending = s.resync_pending;
                  closing = true;
                  closed = true;
                })
                (put_nowait end_mark []))
    by_closing true = h
    by_closing false = inl refl

pump-After : (r : Received) (t : Text) (s : Subscription) → Covered t s → After t (pump r s)
unfolding pump
pump-After no_message t s h = h
pump-After (hint u) t s h = put-other-After u t s h
pump-After broken t s h = begin_close-After t s h

-- What a step leaves: the hint or a resync was given, or the hint is covered still.
abbrev Left : Text → Option (Next × Subscription) → Type 0
Left t none = Unit {0}
Left t (some (n, s)) = Got t (given n) ⊎ Covered t s

payload-injective : (t u : Text) → payload t ≡ payload u → t ≡ u
payload-injective t u h = cc

take_item-Left :
    (q : List Item) (t : Text) (s : Subscription)
    → s.queue ≡ q
    → Covered t s
    → Left t (some (take_item q s))
unfolding take_item
take_item-Left q t s e (inl c) = closed_stays q
  where
    closed_stays : (q : List Item) → Left t (some (take_item q s))
    closed_stays [] = inr (inl c)
    closed_stays (end_mark ∷ q) = inr (inl c)
    closed_stays (payload u ∷ q) = inr (inl c)
take_item-Left q t s e (inr w) = by_queue q (rw e at w)
  where
    by_queue :
        (q : List Item)
        → Among (payload t) q ⊎ Among (payload resync) q
        → Left t (some (take_item q s))
    by_queue [] (inl h) = absurd h
    by_queue [] (inr h) = absurd h
    by_queue (end_mark ∷ q) (inl (inl h)) = absurd (cc)
    by_queue (end_mark ∷ q) (inl (inr h)) = inr (inr (inl h))
    by_queue (end_mark ∷ q) (inr (inl h)) = absurd (cc)
    by_queue (end_mark ∷ q) (inr (inr h)) = inr (inr (inr h))
    by_queue (payload u ∷ q) (inl (inl h)) = inl (inl (inl (payload-injective u t h)))
    by_queue (payload u ∷ q) (inl (inr h)) = inr (inr (inl h))
    by_queue (payload u ∷ q) (inr (inl h)) = inl (inr (inl (payload-injective u resync h)))
    by_queue (payload u ∷ q) (inr (inr h)) = inr (inr (inr h))

resume-Left : (t : Text) (s : Subscription) → Covered t s → Left t (some (resume s))
unfolding resume
resume-Left t s h = take_item-Left s.queue t s refl h

anext-Left : (t : Text) (s : Subscription) → Covered t s → Left t (some (anext s))
unfolding anext
anext-Left t s h = by_closed s.closed
  where
    by_closed : (closed : Bool) → Left t (some (if closed then (stopped, s) else resume s))
    by_closed true = inr h
    by_closed false = resume-Left t s h

quiet-Left : (t : Text) (o : Option Subscription) → After t o → Left t (quiet o)
quiet-Left t none h = tt
quiet-Left t (some s) h = inr h

step-Left : (e : Step) (t : Text) (s : Subscription) → Covered t s → Left t (step e s)
unfolding step
step-Left (pumped r) t s h = quiet-Left t (pump r s) (pump-After r t s h)
step-Left asked t s h = anext-Left t s h
step-Left resumed t s h = resume-Left t s h
step-Left aclosed t s h = quiet-Left t (begin_close s) (begin_close-After t s h)

abbrev Ended : Text → Option (List Text × Subscription) → Type 0
Ended t none = Unit {0}
Ended t (some (ts, s)) = Got t ts ⊎ Covered t s

then_given-later :
    (t : Text) (n : Next) (o : Option (List Text × Subscription))
    → Ended t o
    → Ended t (then_given n o)
then_given-later t n none h = tt
then_given-later t n (some (ts, s)) (inl g) = inl (Got-append_right t (given n) ts g)
then_given-later t n (some (ts, s)) (inr c) = inr c

then_given-now :
    (t : Text) (n : Next) (o : Option (List Text × Subscription))
    → Got t (given n)
    → Ended t (then_given n o)
then_given-now t n none g = tt
then_given-now t n (some (ts, s)) g = inl (Got-append_left t (given n) ts g)

run-Ended : (es : List Step) (t : Text) (s : Subscription) → Covered t s → Ended t (run es s)
unfolding run
run-Ended [] t s h = inr h
run-Ended (e ∷ es) t s h = by_step (step e s) (step-Left e t s h) (run-Ended es t)
  where
    by_step :
        (o : Option (Next × Subscription))
        → Left t o
        → ((s' : Subscription) → Covered t s' → Ended t (run es s'))
        → Ended t (elim o [ none ↦ none | some (n, s') ↦ then_given n (run es s') ])
    by_step none l more = tt
    by_step (some (n, s')) (inl g) more = then_given-now t n (run es s') g
    by_step (some (n, s')) (inr c) more = then_given-later t n (run es s') (more s' c)

-- A hint that arrives at a bounded queue is not lost, whatever steps follow: the consumer has been
-- given it or a resync since, or the subscription was closed, or the hint or a resync still waits.
pub run-covers :
    (t : Text) (es : List Step) (s s' : Subscription) (ts : List Text)
    → IsBounded s
    → run (pumped (hint t) ∷ es) s ≡ some (ts, s')
    → Got t ts ⊎ ((s'.closed ≡ true) ⊎ Waits t s')
unfolding run step pump
run-covers t es s s' ts h ran = by_put (put t s) (put-After t s h) ran
  where
    by_put :
        (o : Option Subscription)
        → After t o
        → elim (quiet o) [ none ↦ none | some (n, s') ↦ then_given n (run es s') ] ≡ some (ts, s')
        → Got t ts ⊎ ((s'.closed ≡ true) ⊎ Waits t s')
    by_put none a r = absurd (cc)
    by_put (some s₁) a r =
        subst (Ended t) r (then_given-later t waiting (run es s₁) (run-Ended es t s₁ a))
