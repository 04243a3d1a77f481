-- ===== src/Realtime/Publisher/Worker.antt =====
-- realtime/_publisher.py: the worker of `_Dispatcher` and its callers, as steps of several threads.
pub mod Released
pub mod Ends
use dj_hyperview.Prelude.{
  ℕ, zero, suc, ◌&&◌, ◌||◌, not, leb, ltb, Bool, true, false, Option, none, some, List, [], ◌∷◌,
  ◌++◌, if◌then◌else◌, length,
}

-- How the `try` block of a job ends: with a send that returns, with a job that is not sent, with an
-- `Exception`, or with any other exception.
pub data Ending : Type 0 where
  sent : Ending
  skipped : Ending
  failed : Ending
  fatal : Ending

-- What `submit` reads, in order: whether the worker is stopped, the clock, whether the breaker is open,
-- whether the queue is full, again whether the worker is stopped, and whether the job was done before
-- its deadline, with its success.
pub record Submission : Type 0 where
  pub stopped_before : Bool
  pub now : ℕ
  pub breaker_open : Bool
  pub queue_full : Bool
  pub stopped_after : Bool
  pub done_in_time : Bool
  pub success : Bool

-- `_Dispatcher.submit`: its result, and whether the job is in the queue.
unfoldable pub submit : ℕ → Submission → Bool × Bool
submit deadline r =
    if (r.stopped_before || leb deadline r.now) || (r.breaker_open || r.queue_full)
    then (false, false)
    else (not r.stopped_after && (r.done_in_time && r.success), true)

-- `queue.Queue(maxsize=32)`
abbrev pub maxsize : ℕ
maxsize = 32

-- Where the worker is in `_run`: at the test of its loop, in `get`, behind the loop, in the last loop,
-- or behind that.
pub data Phase : Type 0 where
  testing getting leaving draining ended : Phase

-- The worker, with its event `stopped`, and its callers. A job is done with its success; `submitted`
-- holds the jobs that were put into the queue, and `waiting` those whose callers wait.
pub record Worker (J : Type 0) : Type 0 where
  pub phase : Phase
  pub stopped : Bool
  pub queue : List (Option J)
  pub submitted : List J
  pub waiting : List J
  pub done : List (J × Bool)

-- A step of one of the threads. In `submit` a job is put, and later its caller, that of the `n`-th job,
-- tests `stopped` again. The worker tests `stopped`, waits in vain for a job, where the sweep may
-- raise, serves the next entry of the queue, sets `stopped` behind its loop, and empties the queue. A
-- call of `close` sets `stopped`, and puts None.
pub data Event (J : Type 0) : Type 0 where
  put_job : J → Event J
  check : ℕ → Event J
  test : Event J
  timeout : Bool → Event J
  serve : Ending → Event J
  stop : Event J
  empty : Event J
  close_stop : Event J
  close_put : Event J

abbrev pub success : Ending → Bool
success sent = true
success skipped = false
success failed = false
success fatal = false

-- An exception that is no `Exception` ends the loop.
abbrev pub next_phase : Ending → Phase
next_phase fatal = leaving
next_phase sent = testing
next_phase skipped = testing
next_phase failed = testing

module _ {J : Type 0} where
  abbrev pub new_worker : Worker J
  new_worker = record {
    phase = testing;
    stopped = false;
    queue = [];
    submitted = [];
    waiting = [];
    done = [];
  }

  abbrev pub nth : ℕ → List J → Option J
  nth n [] = none
  nth zero (job ∷ jobs) = some job
  nth (suc n) (job ∷ jobs) = nth n jobs

  -- `put_nowait`, of a job and of None; a full queue raises.
  unfoldable pub put : J → Worker J → Worker J
  put job w =
      if ltb (length w.queue) maxsize
      then record w { queue = w.queue ++ some job ∷ []; submitted = w.submitted ++ job ∷ [] }
      else w

  unfoldable pub put_none : Worker J → Worker J
  put_none w = if ltb (length w.queue) maxsize then record w { queue = w.queue ++ none ∷ [] } else w

  -- The second test of `submit`: a caller that finds `stopped` set returns, and others wait.
  abbrev pub waits : Option J → Worker J → Worker J
  waits none w = w
  waits (some job) w = if w.stopped then w else record w { waiting = job ∷ w.waiting }

  abbrev pub tested : Phase → Worker J → Worker J
  tested testing w = record w { phase = if w.stopped then leaving else getting }
  tested _ w = w

  abbrev pub timed_out : Bool → Phase → Worker J → Worker J
  timed_out raised getting w = record w { phase = if raised then leaving else testing }
  timed_out raised _ w = w

  -- A job with its `finally`, or the None of `close`.
  abbrev pub served : Ending → Phase → List (Option J) → Worker J → Worker J
  served ending getting (some job ∷ queue) w = record w {
    phase = next_phase ending;
    queue = queue;
    done = w.done ++ (job, success ending) ∷ [];
  }
  served ending getting (none ∷ queue) w = record w { phase = leaving; queue = queue }
  served ending _ _ w = w

  abbrev pub halted : Phase → Worker J → Worker J
  halted leaving w = record w { phase = draining; stopped = true }
  halted _ w = w

  -- A round of the last loop: nothing is sent any more.
  abbrev pub emptied : Phase → List (Option J) → Worker J → Worker J
  emptied draining [] w = record w { phase = ended }
  emptied draining (none ∷ queue) w = record w { queue = queue }
  emptied draining (some job ∷ queue) w = record w {
    queue = queue;
    done = w.done ++ (job, false) ∷ [];
  }
  emptied _ _ w = w

  unfoldable pub step : Event J → Worker J → Worker J
  unfolding put put_none
  step (put_job job) w = put job w
  step (check n) w = waits (nth n w.submitted) w
  step test w = tested w.phase w
  step (timeout raised) w = timed_out raised w.phase w
  step (serve ending) w = served ending w.phase w.queue w
  step stop w = halted w.phase w
  step empty w = emptied w.phase w.queue w
  step close_stop w = record w { stopped = true }
  step close_put w = put_none w

  -- Any run of the threads: a step that does not stand at its place changes nothing.
  unfoldable pub run : List (Event J) → Worker J → Worker J
  unfolding step
  run [] w = w
  run (e ∷ events) w = run events (step e w)

  -- The jobs that are done, and those that are queued, in order.
  abbrev pub released : List (J × Bool) → List J
  released [] = []
  released ((job, success) ∷ done_) = job ∷ released done_

  abbrev pub jobs : List (Option J) → List J
  jobs [] = []
  jobs (none ∷ queue) = jobs queue
  jobs (some job ∷ queue) = job ∷ jobs queue
