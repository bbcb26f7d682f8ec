-- ===== src/Server/Reload/Service.antt =====
-- What runs of the reload worker of crates/djls-server/src/reload.rs guarantee to those who request work.
use django_language_server.Base.{
  ℕ, ◌≤◌, ◌<◌, Bool, true, false, ◌≡◌, ◌⊎◌, Option, none, some, List, [], ◌∷◌, arith, ltb,
  if◌then◌else◌, Option-cases, Bool-cases, inl, inr,
}
use django_language_server.Server.Reload.{
  ProjectWork, pending_of, waiting, ReloadState, spawned, Event, request, step, run, add_completed,
}
use django_language_server.Server.Reload.Invariant.{
  WellFormed, Awake, Owes, Serves, Kept, step-Kept, pending_of_bounds,
}

-- A job as strong as rank `r` is among those that completed.
abbrev pub Served : ℕ → List ProjectWork → Type 0
Served r [] = ⊥
Served r (job ∷ jobs) = (r ≤ pending_of job) ⊎ Served r jobs

-- Nothing is left to do: the worker waits, and no wake-up is there or on its way.
pub record Rests (s : ReloadState) : Type 0 where
  pub waits : s.worker ≡ waiting
  pub no_wake : s.wake ≡ false
  pub no_requester : s.notifying ≡ 0

Served-later :
    (r : ℕ) (completed : Option ProjectWork) (jobs : List ProjectWork)
    → Served r jobs
    → Served r (add_completed completed jobs)
Served-later r none jobs h = h
Served-later r (some job) jobs h = inr h

Served-now :
    (r : ℕ) (completed : Option ProjectWork) (jobs : List ProjectWork)
    → Serves r completed
    → Served r (add_completed completed jobs)
Served-now r none jobs h = absurd h
Served-now r (some job) jobs h = inl h

-- What holds at the end of a run.
pub record Ran (s last : ReloadState) (jobs : List ProjectWork) : Type 0 where
  pub formed : WellFormed last
  pub kept : (r : ℕ) → 0 < r → Owes r s → last.closed ≡ false → Owes r last ⊎ Served r jobs
  pub stays : last.closed ≡ false → s.closed ≡ false

abbrev RunKeeps : ReloadState → Option (ReloadState × List ProjectWork) → Type 0
RunKeeps s none = Unit
RunKeeps s (some (last, jobs)) = Ran s last jobs

run-RunKeeps : (events : List Event) (s : ReloadState) → WellFormed s → RunKeeps s (run events s)
run-RunKeeps [] s formed = record {
  formed = formed;
  kept = λ r h owes closed. inl owes;
  stays = λ closed. closed;
}
run-RunKeeps (event ∷ events) s formed = elim (Option-cases (step event s)) [
  | inl stuck ↦ rw (stuck, run) tt
  | inr ((next, completed), moved) ↦
      let one : Kept s (some (next, completed)) = rw moved at (step-Kept s formed event) in
      let rest = run-RunKeeps events next one.0 in
      elim (Option-cases (run events next)) [
        | inl stuck ↦ rw (moved, run, stuck, run) tt
        | inr ((last, jobs), ran) ↦
            let after : Ran next last jobs = rw ran at rest in
            rw (moved, run, ran, run)
              (record {
                formed = after.formed;
                kept = λ r h owes closed. elim (one.1 r h owes (after.stays closed)) [
                  | inl still ↦ elim (after.kept r h still closed) [
                    | inl last_owes ↦ inl last_owes
                    | inr served ↦ inr (Served-later r completed jobs served)
                  ]
                  | inr now ↦ inr (Served-now r completed jobs now)
                ];
                stays = λ closed. one.2 (after.stays closed);
              })
      ]
]

pub run-Ran :
    (events : List Event) (s last : ReloadState) (jobs : List ProjectWork)
    → WellFormed s
    → run events s ≡ some (last, jobs)
    → Ran s last jobs
run-Ran events s last jobs formed e = rw e at (run-RunKeeps events s formed)

pub spawned-WellFormed : WellFormed spawned
spawned-WellFormed = record {
  known = omega arith;
  awake = λ h. absurd (omega (arith, h));
  gone = λ f. cc;
}

not-Awake : (s : ReloadState) → Rests s → Awake s → ⊥
not-Awake s rests (inl woken) = let e = rests.no_wake in cc
not-Awake s rests (inr (inl notifying)) = omega (arith, notifying, rests.no_requester)
not-Awake s rests (inr (inr busy)) = rw rests.waits at busy

-- A request is owed at once.
abbrev RequestOwes : ProjectWork → Option (ReloadState × Option ProjectWork) → Type 0
RequestOwes work none = Unit
RequestOwes work (some (next, completed)) = Owes (pending_of work) next

request-RequestOwes :
    (work : ProjectWork) (s : ReloadState) → RequestOwes work (step (request work) s)
unfolding step
request-RequestOwes work s = guarded s.closed _ (inl (omega arith))
  where
    guarded :
        (b : Bool) (o : Option (ReloadState × Option ProjectWork))
        → RequestOwes work o
        → RequestOwes work (if b then none else o)
    guarded true o h = tt
    guarded false o h = h

abbrev RunServes : ℕ → Option (ReloadState × List ProjectWork) → Type 0
RunServes r none = Unit
RunServes r (some (last, jobs)) =
    WellFormed last × (last.closed ≡ false → Owes r last ⊎ Served r jobs)

request-RunServes :
    (work : ProjectWork) (after : List Event) (s : ReloadState)
    → WellFormed s
    → RunServes (pending_of work) (run (request work ∷ after) s)
request-RunServes work after s formed = elim (Option-cases (step (request work) s)) [
  | inl stuck ↦ rw (stuck, run) tt
  | inr ((next, completed), moved) ↦
      let one : Kept s (some (next, completed)) = rw moved at (step-Kept s formed (request work)) in
      let owes : Owes (pending_of work) next = rw moved at (request-RequestOwes work s) in
      let rest = run-RunKeeps after next one.0 in
      elim (Option-cases (run after next)) [
        | inl stuck ↦ rw (moved, run, stuck, run) tt
        | inr ((last, jobs), ran) ↦
            let later : Ran next last jobs = rw ran at rest in
            rw (moved, run, ran, run)
              (
                later.formed,
                λ closed.
                    elim (later.kept (pending_of work) (pending_of_bounds work).0 owes closed) [
                      | inl still ↦ inl still
                      | inr served ↦ inr (Served-later (pending_of work) completed jobs served)
                    ],
              )
      ]
]

-- However requesters, the worker, completions and cancellations interleave: if a requester merges work in
-- a state that a run from the start reaches, and a later run of the worker comes to rest with the channel
-- still open, then a job at least as strong has completed in that later run, and nothing is pending.
pub request_served :
    (before after : List Event) (work : ProjectWork) (s last : ReloadState)
    (earlier jobs : List ProjectWork)
    → run before spawned ≡ some (s, earlier)
    → run (request work ∷ after) s ≡ some (last, jobs)
    → Rests last
    → last.closed ≡ false
    → Served (pending_of work) jobs × (last.pending ≡ 0)
request_served before after work s last earlier jobs reached ran rests closed =
    let first = run-Ran before spawned s earlier spawned-WellFormed reached in
    let (formed, serves) : RunServes (pending_of work) (some (last, jobs)) =
      rw ran at (request-RunServes work after s first.formed) in
    let empty : last.pending ≡ 0 = elim (Bool-cases (ltb 0 last.pending)) [
      | inl more ↦ absurd (not-Awake last rests (formed.awake (ground (arith, more))))
      | inr nothing ↦ ground (arith, nothing)
    ] in
    (
      elim (serves closed) [
        | inl (inl pending) ↦
            let some_rank = (pending_of_bounds work).0 in
            absurd (omega (arith, pending, empty, some_rank))
        | inl (inr runs) ↦ absurd (rw rests.waits at runs)
        | inr served ↦ served
      ],
      empty,
    )
