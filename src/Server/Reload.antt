-- ===== src/Server/Reload.antt =====
-- `ProjectReload` of crates/djls-server/src/reload.rs: the pending work in an atomic number, the channel of
-- capacity one that wakes the worker, and the loop of the worker, as steps that interleave. A requester
-- merges its work and then sends the wake-up, in two steps. What a job does is left out: it completes or
-- is cancelled.
pub mod Invariant
pub mod Service
pub mod Rest
mod Tests
use django_language_server.Base.{
  ℕ, zero, suc, max, Bool, true, false, if◌then◌else◌, Option, none, some, List, [], ◌∷◌,
}

pub data ProjectWork : Type 0 where
  reprime full_reload : ProjectWork

abbrev pub pending_none : ℕ
pending_none = 0

-- `PENDING_REPRIME` and `PENDING_FULL_RELOAD`.
abbrev pub pending_of : ProjectWork → ℕ
pending_of reprime = 1
pending_of full_reload = 2

-- `merge_project_work`: `fetch_max`.
abbrev pub merge_project_work : ℕ → ProjectWork → ℕ
merge_project_work pending requested = max pending (pending_of requested)

-- The work that `take_project_work` gives; it swaps in `PENDING_NONE`.
abbrev pub take_project_work : ℕ → Option ProjectWork
take_project_work zero = none
take_project_work (suc zero) = some reprime
take_project_work (suc (suc zero)) = some full_reload
take_project_work (suc (suc (suc n))) = none

-- Where the worker is: at `rx.recv()`, at the head of the inner loop, in a job, or gone.
pub data Worker : Type 0 where
  waiting draining : Worker
  running : (job : ProjectWork) → Worker
  stopped : Worker

pub record ReloadState : Type 0 where
  pub pending : ℕ
  -- the channel holds a wake-up
  pub wake : Bool
  -- the requesters that have merged and not yet sent
  pub notifying : ℕ
  -- all senders are gone
  pub closed : Bool
  pub worker : Worker

-- `ProjectReload::spawn`.
abbrev pub spawned : ReloadState
spawned = record {
  pending = pending_none;
  wake = false;
  notifying = 0;
  closed = false;
  worker = Worker.waiting;
}

pub data Event : Type 0 where
  request : (work : ProjectWork) → Event
  notify receive take complete cancel close : Event

-- The state after a step, and the job that the step completes.
abbrev pub Outcome : Type 0
Outcome = Option (ReloadState × Option ProjectWork)

-- `try_send`, by one of the requesters that have merged: a full channel is as good.
abbrev pub notify_step : ℕ → ReloadState → Outcome
notify_step zero s = none
notify_step (suc n) s = some (record s { wake = true; notifying = n }, none)

-- `rx.recv().await`: the wake-up that is there, or the end once all senders are gone.
abbrev pub receive_step : Worker → ReloadState → Outcome
receive_step waiting s =
    if s.wake
    then some (record s { wake = false; worker = draining }, none)
    else if s.closed
    then some (record s { worker = stopped }, none)
    else none
receive_step draining s = none
receive_step (running job) s = none
receive_step stopped s = none

-- `take_project_work(&worker_pending)`, and the test whether the channel is closed.
abbrev pub taken : Option ProjectWork → ReloadState → Outcome
taken none s = some (record s { pending = pending_none; worker = waiting }, none)
taken (some job) s =
    if s.closed
    then some (record s { pending = pending_none; worker = stopped }, none)
    else some (record s { pending = pending_none; worker = running job }, none)

abbrev pub take_step : Worker → ReloadState → Outcome
take_step draining s = taken (take_project_work s.pending) s
take_step waiting s = none
take_step (running job) s = none
take_step stopped s = none

-- The job ends: complete, or cancelled and merged again.
abbrev pub complete_step : Worker → ReloadState → Outcome
complete_step (running job) s = some (record s { worker = draining }, some job)
complete_step waiting s = none
complete_step draining s = none
complete_step stopped s = none

abbrev pub cancel_step : Worker → ReloadState → Outcome
cancel_step (running job) s =
    some (record s { pending = merge_project_work s.pending job; worker = draining }, none)
cancel_step waiting s = none
cancel_step draining s = none
cancel_step stopped s = none

-- One step; `none` if it cannot be taken.
unfoldable pub step : Event → ReloadState → Outcome
step (request work) s =
    if s.closed
    then none
    else some (
      record s { pending = merge_project_work s.pending work; notifying = suc s.notifying },
      none,
    )
step notify s = notify_step s.notifying s
step receive s = receive_step s.worker s
step take s = take_step s.worker s
step complete s = complete_step s.worker s
step cancel s = cancel_step s.worker s
step close s = some (record s { closed = true }, none)

-- The jobs that a step completes, before those of later steps.
abbrev pub add_completed : Option ProjectWork → List ProjectWork → List ProjectWork
add_completed none jobs = jobs
add_completed (some job) jobs = job ∷ jobs

-- A run over events: the state at its end and the jobs that complete.
abbrev pub run : List Event → ReloadState → Option (ReloadState × List ProjectWork)
run [] s = some (s, [])
run (event ∷ events) s = elim (step event s) [
  | none ↦ none
  | some (next, completed) ↦ elim (run events next) [
    | none ↦ none
    | some (last, jobs) ↦ some (last, add_completed completed jobs)
  ]
]
