-- ===== src/Realtime/Publisher/Worker/Ends.antt =====
-- realtime/_publisher.py: the last loop of the worker ends, and leaves no job in the queue.
use mathlib.Core.List.{append-nil}
use mathlib.Core.Path.{subst}
use dj_hyperview.Prelude.{
  ℕ, zero, suc, ◌≡◌, refl, sym, true, false, Option, none, some, List, [], ◌∷◌, ◌++◌, length,
}
use dj_hyperview.Realtime.Publisher.Worker.{
  leaving, draining, ended, Worker, Event, stop, empty, step, run, released, jobs,
}
use dj_hyperview.Realtime.Publisher.Worker.Released.{released-append}

module _ {J : Type 0} where
  abbrev pub rounds : ℕ → List (Event J)
  rounds zero = []
  rounds (suc n) = empty ∷ rounds n

  -- The worker has ended, with an empty queue, and these jobs done.
  abbrev pub EndsWith : List J → Worker J → Type 0
  EndsWith done_ w = (w.phase ≡ ended) × (w.queue ≡ []) × (released w.done ≡ done_)

  rounds-EndsWith :
      (queue : List (Option J)) (w : Worker J)
      → w.phase ≡ draining
      → w.queue ≡ queue
      → EndsWith (released w.done ++ jobs queue) (run (rounds (suc (length queue))) w)
  unfolding run step
  rounds-EndsWith [] w at_ e = rw (at_, e) (refl, refl, sym (append-nil (released w.done)))
  rounds-EndsWith (none ∷ queue) w at_ e =
      rw (at_, e) (rounds-EndsWith queue (record w { phase = draining; queue = queue }) refl refl)
  rounds-EndsWith (some job ∷ queue) w at_ e =
      let w' = record w { phase = draining; queue = queue; done = w.done ++ (job, false) ∷ [] } in
      rw (at_, e)
        (subst (λ done_. EndsWith done_ (run (rounds (suc (length queue))) w'))
          (released-append w.done job false (jobs queue)) (rounds-EndsWith queue w' refl refl))

  -- A worker that has left its loop ends, where nothing else is put: one round of the last loop for each
  -- entry of its queue and one more leave the queue empty, and the jobs that were queued are done, in
  -- their order, after those that were done before.
  pub run-EndsWith :
      (w : Worker J)
      → w.phase ≡ leaving
      → EndsWith (released w.done ++ jobs w.queue) (run (stop ∷ rounds (suc (length w.queue))) w)
  unfolding run step
  run-EndsWith w at_ =
      rw at_ (rounds-EndsWith w.queue (record w { phase = draining; stopped = true }) refl refl)
