-- ===== src/Server/Reload/Invariant.antt =====
-- What every step of the reload worker of crates/djls-server/src/reload.rs keeps: pending work has a
-- wake-up, and work that is owed stays owed until a job as strong completes.
use django_language_server.Base.{
  ℕ, zero, suc, ◌≤◌, ◌<◌, Bool, true, false, ◌≡◌, ◌⊎◌, refl, sym, if◌then◌else◌, Option, none, some,
  arith, Bool-cases, Option-cases, inl, inr,
}
use django_language_server.Server.Reload.{
  ProjectWork, reprime, full_reload, pending_of, merge_project_work, take_project_work, Worker,
  waiting, draining, running, stopped, ReloadState, Event, request, notify, receive, take, complete,
  cancel, close, Outcome, notify_step, receive_step, taken, take_step, complete_step, cancel_step,
  step,
}

abbrev pub Busy : Worker → Type 0
Busy waiting = ⊥
Busy draining = Unit
Busy (running job) = Unit
Busy stopped = Unit

-- The worker will look for work: it is woken, it is to be woken, or it is not waiting.
abbrev pub Awake : ReloadState → Type 0
Awake s = (s.wake ≡ true) ⊎ ((0 < s.notifying) ⊎ Busy s.worker)

pub record WellFormed (s : ReloadState) : Type 0 where
  pub known : s.pending ≤ 2
  pub awake : 0 < s.pending → Awake s
  pub gone : s.worker ≡ stopped → s.closed ≡ true

abbrev pub Runs : ℕ → Worker → Type 0
Runs r waiting = ⊥
Runs r draining = ⊥
Runs r (running job) = r ≤ pending_of job
Runs r stopped = ⊥

-- Work of rank `r` is pending or running.
abbrev pub Owes : ℕ → ReloadState → Type 0
Owes r s = (r ≤ s.pending) ⊎ Runs r s.worker

abbrev pub Serves : ℕ → Option ProjectWork → Type 0
Serves r none = ⊥
Serves r (some job) = r ≤ pending_of job

abbrev pub Kept : ReloadState → Outcome → Type 0
Kept s none = Unit
Kept s (some (next, completed)) =
    WellFormed next
    × ((r : ℕ) → 0 < r → Owes r s → next.closed ≡ false → Owes r next ⊎ Serves r completed)
    × (next.closed ≡ false → s.closed ≡ false)

pub pending_of_bounds : (work : ProjectWork) → (0 < pending_of work) × (pending_of work ≤ 2)
pending_of_bounds reprime = (omega arith, omega arith)
pending_of_bounds full_reload = (omega arith, omega arith)

take_project_work-some :
    (pending : ℕ) (job : ProjectWork)
    → take_project_work pending ≡ some job
    → pending_of job ≡ pending
take_project_work-some zero job e = cc
take_project_work-some (suc zero) job e = let same : reprime ≡ job = cc in rw (sym same) refl
take_project_work-some (suc (suc zero)) job e =
    let same : full_reload ≡ job = cc in rw (sym same) refl
take_project_work-some (suc (suc (suc n))) job e = cc

take_project_work-none :
    (pending : ℕ) → pending ≤ 2 → take_project_work pending ≡ none → pending ≡ 0
take_project_work-none zero h e = refl
take_project_work-none (suc zero) h e = cc
take_project_work-none (suc (suc zero)) h e = cc
take_project_work-none (suc (suc (suc n))) h e = absurd (omega (arith, h))

module _ (s : ReloadState) (formed : WellFormed s) where
  request-Kept :
      (work : ProjectWork)
      → Kept s (
          some (
            record s { pending = merge_project_work s.pending work; notifying = suc s.notifying },
            none,
          ))
  request-Kept work = (
    record {
      known = omega (arith, formed.known, pending_of_bounds work);
      awake = λ h. inr (inl (omega arith));
      gone = formed.gone;
    },
    λ r h owes closed.
        inl (elim owes [ inl pending ↦ inl (omega (arith, pending)) | inr runs ↦ inr runs ]),
    λ c. c,
  )

  notify-Kept : (n : ℕ) → Kept s (notify_step n s)
  notify-Kept zero = tt
  notify-Kept (suc n) = (
    record { known = formed.known; awake = λ h. inl refl; gone = formed.gone },
    λ r h owes closed. inl owes,
    λ c. c,
  )

  receive-Kept : (w : Worker) → s.worker ≡ w → Kept s (receive_step w s)
  receive-Kept draining e = tt
  receive-Kept (running job) e = tt
  receive-Kept stopped e = tt
  receive-Kept waiting e = elim (Bool-cases s.wake) [
    | inl woken ↦
        rw (woken, receive_step)
          (
            record { known = formed.known; awake = λ h. inr (inr tt); gone = λ f. cc },
            λ r h owes closed.
                inl (elim owes [ inl pending ↦ inl pending | inr runs ↦ absurd (rw e at runs) ]),
            λ c. c,
          )
    | inr asleep ↦ elim (Bool-cases s.closed) [
      | inl gone ↦
          rw (asleep, receive_step, gone, receive_step)
            (
              record { known = formed.known; awake = λ h. inr (inr tt); gone = λ f. cc },
              λ r h owes closed. cc,
              λ c. cc,
            )
      | inr open_still ↦ rw (asleep, receive_step, open_still, receive_step) tt
    ]
  ]

  take-Kept : (w : Worker) → s.worker ≡ w → Kept s (take_step w s)
  take-Kept waiting e = tt
  take-Kept (running job) e = tt
  take-Kept stopped e = tt
  take-Kept draining e = elim (Option-cases (take_project_work s.pending)) [
    | inl nothing ↦
        let empty = take_project_work-none s.pending formed.known nothing in
        rw (nothing, take_step)
          (
            record { known = omega arith; awake = λ h. absurd (omega (arith, h)); gone = λ f. cc },
            λ r h owes closed. elim owes [
              | inl pending ↦ absurd (omega (arith, h, pending, empty))
              | inr runs ↦ absurd (rw e at runs)
            ],
            λ c. c,
          )
    | inr (job, found) ↦
        let same = take_project_work-some s.pending job found in
        elim (Bool-cases s.closed) [
          | inl gone ↦
              rw (found, take_step, gone, taken)
                (
                  record { known = omega arith; awake = λ h. inr (inr tt); gone = λ f. cc },
                  λ r h owes closed. cc,
                  λ c. cc,
                )
          | inr open_still ↦
              rw (found, take_step, open_still, taken)
                (
                  record { known = omega arith; awake = λ h. inr (inr tt); gone = λ f. cc },
                  λ r h owes closed. elim owes [
                    | inl pending ↦ inl (inr (omega (arith, pending, same)))
                    | inr runs ↦ absurd (rw e at runs)
                  ],
                  λ c. c,
                )
        ]
  ]

  complete-Kept : (w : Worker) → s.worker ≡ w → Kept s (complete_step w s)
  complete-Kept waiting e = tt
  complete-Kept draining e = tt
  complete-Kept stopped e = tt
  complete-Kept (running job) e = (
    record { known = formed.known; awake = λ h. inr (inr tt); gone = λ f. cc },
    λ r h owes closed. elim owes [
      | inl pending ↦ inl (inl pending)
      | inr runs ↦ inr (rw e at runs)
    ],
    λ c. c,
  )

  cancel-Kept : (w : Worker) → s.worker ≡ w → Kept s (cancel_step w s)
  cancel-Kept waiting e = tt
  cancel-Kept draining e = tt
  cancel-Kept stopped e = tt
  cancel-Kept (running job) e = (
    record {
      known = omega (arith, formed.known, pending_of_bounds job);
      awake = λ h. inr (inr tt);
      gone = λ f. cc;
    },
    λ r h owes closed. elim owes [
      | inl pending ↦ inl (inl (omega (arith, pending)))
      | inr runs ↦ let own : r ≤ pending_of job = rw e at runs in inl (inl (omega (arith, own)))
    ],
    λ c. c,
  )

  guarded : (b : Bool) (o : Outcome) → Kept s o → Kept s (if b then none else o)
  guarded true o h = tt
  guarded false o h = h

  pub step-Kept : (event : Event) → Kept s (step event s)
  unfolding step
  step-Kept (request work) = guarded s.closed _ (request-Kept work)
  step-Kept notify = notify-Kept s.notifying
  step-Kept receive = receive-Kept s.worker refl
  step-Kept take = take-Kept s.worker refl
  step-Kept complete = complete-Kept s.worker refl
  step-Kept cancel = cancel-Kept s.worker refl
  step-Kept close = (
    record { known = formed.known; awake = formed.awake; gone = λ f. refl },
    λ r h owes closed. cc,
    λ c. cc,
  )
