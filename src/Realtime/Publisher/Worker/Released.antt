-- ===== src/Realtime/Publisher/Worker/Released.antt =====
-- realtime/_publisher.py: the worker leaves no caller to wait.
use dj_hyperview.Prelude.{Bool, true, ◌≡◌, refl, ap, List, [], ◌∷◌, ◌++◌}
use dj_hyperview.Realtime.Subscription.Coverage.{Among}
use dj_hyperview.Realtime.Publisher.Worker.{
  Phase, testing, getting, leaving, draining, ended, Worker, released, jobs,
}

-- The worker is not behind its last loop.
abbrev IsLive : Phase → Type 0
IsLive testing = Unit
IsLive getting = Unit
IsLive leaving = Unit
IsLive draining = Unit
IsLive ended = ⊥

abbrev Stops : Phase → Bool → Type 0
Stops testing b = Unit
Stops getting b = Unit
Stops leaving b = Unit
Stops draining b = b ≡ true
Stops ended b = b ≡ true

module _ {J : Type 0} where
  abbrev held : Worker J → List J
  held w = released w.done ++ jobs w.queue

  -- A job that is done or queued, and behind the last loop is done.
  abbrev Found : Phase → Worker J → J → Type 0
  Found ended w job = Among job (released w.done)
  Found testing w job = Among job (held w)
  Found getting w job = Among job (held w)
  Found leaving w job = Among job (held w)
  Found draining w job = Among job (held w)

  record Keeps (w : Worker J) : Type 0 where
    in_order : held w ≡ w.submitted
    stops : Stops w.phase w.stopped
    found : (job : J) → Among job w.waiting → Found w.phase w job

  pub released-append :
      (done_ : List (J × Bool)) (job : J) (b : Bool) (rest : List J)
      → released (done_ ++ (job, b) ∷ []) ++ rest ≡ released done_ ++ job ∷ rest
  released-append [] job b rest = refl
  released-append ((j, c) ∷ done_) job b rest = ap (λ js. j ∷ js) (released-append done_ job b rest)
