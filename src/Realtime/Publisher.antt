-- ===== src/Realtime/Publisher.antt =====
-- realtime/_publisher.py: the client and the circuit breaker of each configuration, as the worker of
-- `_Dispatcher` uses them. Times are readings of the monotonic clock, in milliseconds; the numbers of
-- the source are in seconds.
pub mod Breaker
pub mod Sweep
pub mod FailsFast
pub mod Worker
use dj_hyperview.Prelude.{
  ℕ, ◌+◌, ◌-◌, Bool, true, false, ◌&&◌, ◌||◌, not, Option, none, some, List, [], ◌∷◌, ltb, leb,
  if◌then◌else◌, Text, text_eq,
}

-- `_IDLE`, `_MAX_AGE`, `_FAILURES` and `_COOLDOWN`
abbrev pub idle : ℕ
idle = 30000

abbrev pub max_age : ℕ
max_age = 300000

abbrev pub max_failures : ℕ
max_failures = 3

abbrev pub cooldown : ℕ
cooldown = 5000

-- `_Target`. `connected` is whether it holds a client.
pub record Target : Type 0 where
  pub connected : Bool
  pub born : ℕ
  pub used : ℕ
  pub failures : ℕ
  pub open_until : ℕ

abbrev pub new_target : Target
new_target = record { connected = false; born = 0; used = 0; failures = 0; open_until = 0 }

-- `_discard`: an exception of `close` is suppressed.
abbrev pub discard : Target → Target
discard t = record {
  connected = false;
  born = t.born;
  used = t.used;
  failures = t.failures;
  open_until = t.open_until;
}

-- The test of `_expire`.
unfoldable pub is_expired : Target → ℕ → Bool
is_expired t now = t.connected && (ltb idle (now - t.used) || ltb max_age (now - t.born))

-- `_expire`
unfoldable pub expire : Target → ℕ → Target
expire t now = if is_expired t now then discard t else t

-- What happens in one `_send`: the readings of the clock, in order, and whether the client can be made
-- and the pipeline is executed without an exception.
pub record Attempt : Type 0 where
  pub now : ℕ
  pub checked : ℕ
  pub finished : ℕ
  pub opened : ℕ
  pub connects : Bool
  pub executes : Bool

-- The target that the pipeline runs on, if there is a client.
unfoldable pub connect : Target → Attempt → Target
connect t a = if t.connected then t else record {
  connected = a.connects;
  born = if a.connects then a.now else t.born;
  used = t.used;
  failures = t.failures;
  open_until = t.open_until;
}

-- The handler of `_send`.
unfoldable pub after_failure : Target → Attempt → Target
after_failure t a = record {
  connected = false;
  born = t.born;
  used = a.finished;
  failures = t.failures + 1;
  open_until = if leb max_failures (t.failures + 1) then a.opened + cooldown else t.open_until;
}

unfoldable pub after_success : Target → Attempt → Target
after_success t a = record {
  connected = t.connected;
  born = t.born;
  used = a.finished;
  failures = 0;
  open_until = t.open_until;
}

-- Whether the `try` block of `_send` ends without an exception.
unfoldable pub delivers : Target → ℕ → Attempt → Bool
delivers t deadline a = t.connected && (ltb a.checked deadline && a.executes)

-- `_send`: whether it returns, and the target afterwards.
unfoldable pub send : Target → ℕ → Attempt → Bool × Target
send t deadline a =
    let ready = connect (expire t a.now) a in
    if delivers ready deadline a
    then (true, after_success ready a)
    else (false, after_failure ready a)

-- `_Dispatcher.targets`: the entry of a key is its first.
abbrev pub Targets : Type 0
Targets = List (Text × Target)

unfoldable pub get : Text → Targets → Option Target
get config [] = none
get config ((c, t) ∷ targets) = if text_eq c config then some t else get config targets

-- A write under a key, in place.
unfoldable pub put : Text → Target → Targets → Targets
put config t [] = (config, t) ∷ []
put config t ((c, u) ∷ targets) =
    if text_eq c config then (c, t) ∷ targets else (c, u) ∷ put config t targets

abbrev pub opened_until : ℕ → Option Target → Bool
opened_until now none = false
opened_until now (some t) = ltb now t.open_until

-- `_Dispatcher._open`
unfoldable pub is_open : Text → ℕ → Targets → Bool
is_open config now targets = opened_until now (get config targets)

-- The test of `_sweep`.
unfoldable pub is_forgotten : Target → ℕ → Bool
is_forgotten t now = not t.connected && (leb t.open_until now && ltb idle (now - t.used))

-- `_Dispatcher._sweep`, on `self.targets`.
unfoldable pub sweep : ℕ → Targets → Targets
sweep now [] = []
sweep now ((c, t) ∷ targets) =
    let rest = sweep now targets in
    let u = expire t now in if is_forgotten u now then rest else (c, u) ∷ rest

unfoldable pub or_new : Option Target → Target
or_new none = new_target
or_new (some t) = t

unfoldable pub stored : Text → Bool × Target → Targets → Bool × Targets
stored config (sent, t) targets = (sent, put config t targets)

-- The readings of the clock for one job: at the test of the sweep, in the sweep, at the test of the
-- deadline and at that of the breaker.
pub record Readings : Type 0 where
  pub tested : ℕ
  pub swept : ℕ
  pub now : ℕ
  pub opened : ℕ

-- The sweep before a job, with `self.swept`.
unfoldable pub sweep_if_due : Readings → ℕ → Targets → ℕ × Targets
sweep_if_due r last targets =
    if leb idle (r.tested - last) then (r.swept, sweep r.swept targets) else (last, targets)

-- What is left of `_run` on a job. The result is `job.success`.
unfoldable pub try_job : Text → ℕ → Readings → Attempt → Targets → Bool × Targets
try_job config deadline r a targets =
    if ltb r.now deadline && not (is_open config r.opened targets)
    then stored config (send (or_new (get config targets)) deadline a) targets
    else (false, targets)

-- `_run` on a job: its success, `self.swept` and the targets.
unfoldable pub serve : Text → ℕ → Readings → Attempt → ℕ → Targets → Bool × ℕ × Targets
unfolding sweep_if_due try_job
serve config deadline r a last targets =
    let (last', targets') = sweep_if_due r last targets in
    let (success, targets'') = try_job config deadline r a targets' in (success, last', targets'')
