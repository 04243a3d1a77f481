-- ===== src/Realtime/Publisher/Breaker.antt =====
-- realtime/_publisher.py: when the breaker opens, and what it turns away.
use dj_hyperview.Prelude.{
  ℕ, ◌+◌, ◌≤◌, ◌<◌, Bool, true, false, ◌&&◌, ◌≡◌, ◌≢◌, refl, some, [], ◌∷◌, ltb, leb, if◌then◌else◌,
  Text, text_eq, text_eq_refl, ◌∙◌, ◌⊎◌, inl, inr, arith, ltb→lt,
}
use dj_hyperview.Realtime.Publisher.{
  cooldown, max_failures, Target, Attempt, connect, expire, is_expired, discard, after_failure,
  after_success, delivers, send, Targets, get, put, is_open,
}

expire-failures : (t : Target) (now : ℕ) → (expire t now).failures ≡ t.failures
unfolding expire
expire-failures t now = by_expired (is_expired t now)
  where
    by_expired : (b : Bool) → (if b then discard t else t).failures ≡ t.failures
    by_expired true = refl
    by_expired false = refl

pub expire-open_until : (t : Target) (now : ℕ) → (expire t now).open_until ≡ t.open_until
unfolding expire
expire-open_until t now = by_expired (is_expired t now)
  where
    by_expired : (b : Bool) → (if b then discard t else t).open_until ≡ t.open_until
    by_expired true = refl
    by_expired false = refl

connect-kept :
    (t : Target) (a : Attempt)
    → ((connect t a).failures ≡ t.failures) × ((connect t a).open_until ≡ t.open_until)
unfolding connect
connect-kept t a = by_connected t.connected
  where
    by_connected :
        (b : Bool)
        → ((if b then t else record {
          connected = a.connects;
          born = if a.connects then a.now else t.born;
          used = t.used;
          failures = t.failures;
          open_until = t.open_until;
        }).failures
            ≡ t.failures)
          × ((if b then t else record {
            connected = a.connects;
            born = if a.connects then a.now else t.born;
            used = t.used;
            failures = t.failures;
            open_until = t.open_until;
          }).open_until
              ≡ t.open_until)
    by_connected true = (refl, refl)
    by_connected false = (refl, refl)

-- How a `_send` ends.
data Sent (t : Target) (deadline : ℕ) (a : Attempt) : Bool × Target → Type 0 where
  delivered :
      (u : Target)
      → u.connected ≡ true
      → u.open_until ≡ t.open_until
      → delivers u deadline a ≡ true
      → Sent t deadline a (true, after_success u a)
  failed :
      (u : Target)
      → u.failures ≡ t.failures
      → u.open_until ≡ t.open_until
      → Sent t deadline a (false, after_failure u a)

send-Sent : (t : Target) (deadline : ℕ) (a : Attempt) → Sent t deadline a (send t deadline a)
unfolding send
send-Sent t deadline a = by_delivery (delivers (connect (expire t a.now) a) deadline a) refl
  where
    ready : Target
    ready = connect (expire t a.now) a

    same_failures : ready.failures ≡ t.failures
    same_failures = (connect-kept (expire t a.now) a).0 ∙ expire-failures t a.now

    same_open : ready.open_until ≡ t.open_until
    same_open = (connect-kept (expire t a.now) a).1 ∙ expire-open_until t a.now

    held : (c : Bool) → c && (ltb a.checked deadline && a.executes) ≡ true → c ≡ true
    held true h = refl
    held false h = h

    by_delivery :
        (b : Bool)
        → delivers ready deadline a ≡ b
        → Sent t deadline a
            (if b then (true, after_success ready a) else (false, after_failure ready a))
    by_delivery true e = delivered ready (held ready.connected (unfold delivers in e)) same_open e
    by_delivery false e = failed ready same_failures same_open

Sent-failure :
    (t : Target) (deadline : ℕ) (a : Attempt) (p : Bool × Target)
    → Sent t deadline a p
    → p.0 ≡ false
    → (p.1.failures ≡ t.failures + 1)
      × (p.1.open_until
          ≡ (if leb max_failures (t.failures + 1) then a.opened + cooldown else t.open_until))
unfolding after_failure
Sent-failure t deadline a p (delivered u c o e) h = absurd (cc)
Sent-failure t deadline a p (failed u f o) h = rw (f, o) (refl, refl)

pub send-failure :
    (t : Target) (deadline : ℕ) (a : Attempt)
    → (send t deadline a).0 ≡ false
    → ((send t deadline a).1.failures ≡ t.failures + 1)
      × ((send t deadline a).1.open_until
          ≡ (if leb max_failures (t.failures + 1) then a.opened + cooldown else t.open_until))
send-failure t deadline a h =
    Sent-failure t deadline a (send t deadline a) (send-Sent t deadline a) h

-- A client outlives a `_send` exactly if the send succeeds, and then the pipeline was executed before
-- the deadline.
pub send-connected :
    (t : Target) (deadline : ℕ) (a : Attempt)
    → ((send t deadline a).1.connected ≡ (send t deadline a).0)
      × (((send t deadline a).0 ≡ false) ⊎ ((a.checked < deadline) × (a.executes ≡ true)))
unfolding delivers after_success after_failure
send-connected t deadline a = by_end (send t deadline a) (send-Sent t deadline a)
  where
    executed : (u : Target) (x y : Bool) → u.connected && (x && y) ≡ true → (x ≡ true) × (y ≡ true)
    executed u x y h = ground arith

    by_end :
        (p : Bool × Target)
        → Sent t deadline a p
        → (p.1.connected ≡ p.0) × ((p.0 ≡ false) ⊎ ((a.checked < deadline) × (a.executes ≡ true)))
    by_end p (delivered u c o e) =
        let (early, ran) = executed u (ltb a.checked deadline) a.executes e in
        (c, inr (ltb→lt a.checked deadline early, ran))
    by_end p (failed u f o) = (refl, inl refl)

get-put :
    (config : Text) (t : Target) (targets : Targets) → get config (put config t targets) ≡ some t
unfolding get put
get-put config t [] = rw (text_eq_refl config) refl
get-put config t ((c, u) ∷ targets) = by_key (text_eq c config) refl (get-put config t targets)
  where
    by_key :
        (b : Bool)
        → text_eq c config ≡ b
        → get config (put config t targets) ≡ some t
        → get config (if b then (c, t) ∷ targets else (c, u) ∷ put config t targets) ≡ some t
    by_key true e more = rw e refl
    by_key false e more = rw e more

pub is_open-put :
    (config : Text) (now : ℕ) (t : Target) (targets : Targets)
    → is_open config now (put config t targets) ≡ ltb now t.open_until
unfolding is_open
is_open-put config now t targets = rw (get-put config t targets, is_open)

later-failure :
    (t u : Target) (a : Attempt) (late : Bool)
    → u.failures ≡ t.failures
    → u.open_until ≡ t.open_until
    → leb max_failures (u.failures + 1) ≡ late
    → (if late then a.opened + cooldown else u.open_until) ≢ t.open_until
    → (2 ≤ t.failures)
      × ((if late then a.opened + cooldown else u.open_until) ≡ a.opened + cooldown)
later-failure t u a true f o e ne = (ground (arith, f), refl)
later-failure t u a false f o e ne = absurd (ne o)

-- Nothing but the third failure in a row, or a later one, moves the end of the cooldown.
pub send-open_until :
    (t : Target) (deadline : ℕ) (a : Attempt)
    → (send t deadline a).1.open_until ≢ t.open_until
    → ((send t deadline a).0 ≡ false)
      × (2 ≤ t.failures)
      × ((send t deadline a).1.open_until ≡ a.opened + cooldown)
unfolding after_failure after_success
send-open_until t deadline a moved = by_end (send t deadline a) (send-Sent t deadline a) moved
  where
    by_end :
        (p : Bool × Target)
        → Sent t deadline a p
        → p.1.open_until ≢ t.open_until
        → (p.0 ≡ false) × (2 ≤ t.failures) × (p.1.open_until ≡ a.opened + cooldown)
    by_end p (delivered u c o e) ne = absurd (ne o)
    by_end p (failed u f o) ne =
        let later = later-failure t u a (leb max_failures (u.failures + 1)) f o refl ne in
        (refl, later.0, later.1)
