-- ===== src/Server/Reload/Rest.antt =====
-- The reload worker of crates/djls-server/src/reload.rs can always come to rest.
use django_language_server.Base.{
  ℕ, zero, suc, ◌≤◌, ◌<◌, Bool, true, false, ◌≡◌, refl, Option, none, some, List, [], ◌∷◌, All,
  arith, inl, inr,
}
use django_language_server.Server.Reload.{
  ProjectWork, reprime, full_reload, Worker, waiting, draining, running, stopped, ReloadState,
  spawned, Event, request, notify, receive, take, complete, cancel, close, step, run, add_completed,
}
use django_language_server.Server.Reload.Invariant.{Awake}
use django_language_server.Server.Reload.Service.{Rests, run-Ran, spawned-WellFormed}

-- What the worker and those who have merged do by themselves: no new request, no cancellation and no
-- end of the senders.
abbrev pub IsProgress : Event → Type 0
IsProgress (request work) = ⊥
IsProgress notify = Unit
IsProgress receive = Unit
IsProgress take = Unit
IsProgress complete = Unit
IsProgress cancel = ⊥
IsProgress close = ⊥

-- A run of such steps leads from the state to rest, with nothing pending and the channel still open.
abbrev pub CanRest : ReloadState → Type 0
CanRest s =
    (events : List Event) × (last : ReloadState) × (jobs : List ProjectWork) × (run events s
      ≡ some (last, jobs))
    × All IsProgress events
    × Rests last
    × (last.pending ≡ 0)
    × (last.closed ≡ false)

abbrev state : ℕ → Bool → ℕ → Worker → ReloadState
state pending wake notifying worker = record {
  pending = pending;
  wake = wake;
  notifying = notifying;
  closed = false;
  worker = worker;
}

CanRest-step :
    (event : Event) (s next : ReloadState) (completed : Option ProjectWork)
    → IsProgress event
    → step event s ≡ some (next, completed)
    → CanRest next
    → CanRest s
CanRest-step event s next completed own moved (events, last, jobs, ran, all, rests, empty, closed) =
    (
      event ∷ events,
      last,
      add_completed completed jobs,
      rw (moved, run, ran, run) refl,
      (own, all),
      rests,
      empty,
      closed,
    )

resting : CanRest (state 0 false 0 waiting)
resting =
    ([], _, [], refl, tt, record { waits = refl; no_wake = refl; no_requester = refl }, refl, refl)

empty_waiting : (wake : Bool) → CanRest (state 0 wake 0 waiting)
unfolding step
empty_waiting false = resting
empty_waiting true =
    CanRest-step receive _ _ none tt refl (CanRest-step take _ _ none tt refl resting)

drains : (pending : ℕ) (wake : Bool) → pending ≤ 2 → CanRest (state pending wake 0 draining)
unfolding step
drains zero wake h = CanRest-step take _ _ none tt refl (empty_waiting wake)
drains (suc zero) wake h = CanRest-step take _ _ none tt refl (
    CanRest-step complete _ _ (some reprime) tt refl
      (CanRest-step take _ _ none tt refl (empty_waiting wake)))
drains (suc (suc zero)) wake h = CanRest-step take _ _ none tt refl (
    CanRest-step complete _ _ (some full_reload) tt refl
      (CanRest-step take _ _ none tt refl (empty_waiting wake)))
drains (suc (suc (suc n))) wake h = absurd (omega (arith, h))

wakes :
    (pending notifying : ℕ) (wake : Bool) (worker : Worker)
    → pending ≤ 2
    → (0 < pending → Awake (state pending wake notifying worker))
    → ¬ (worker ≡ stopped)
    → CanRest (state pending wake notifying worker)
unfolding step
wakes pending (suc n) wake worker small awake alive =
    CanRest-step notify _ _ none tt refl (wakes pending n true worker small (λ h. inl refl) alive)
wakes pending zero wake draining small awake alive = drains pending wake small
wakes pending zero wake (running job) small awake alive =
    CanRest-step complete _ _ (some job) tt refl (drains pending wake small)
wakes pending zero wake stopped small awake alive = absurd (alive refl)
wakes pending zero true waiting small awake alive =
    CanRest-step receive _ _ none tt refl (drains pending false small)
wakes zero zero false waiting small awake alive = resting
wakes (suc n) zero false waiting small awake alive = elim (awake (omega arith)) [
  | inl woken ↦ cc
  | inr (inl notifying) ↦ absurd (omega (arith, notifying))
  | inr (inr busy) ↦ absurd busy
]

-- From every state that a run from the start reaches, with the channel still open, a run in which those
-- who have merged send their wake-up and the worker goes on and completes its jobs, without any new
-- request, comes to rest with nothing pending: no wake-up is lost and the worker is never stuck.
pub reload_rests :
    (events : List Event) (s : ReloadState) (jobs : List ProjectWork)
    → run events spawned ≡ some (s, jobs)
    → s.closed ≡ false
    → CanRest s
reload_rests events s jobs reached closed =
    let formed = (run-Ran events spawned s jobs spawned-WellFormed reached).formed in
    rw closed (
      wakes s.pending s.notifying s.wake s.worker formed.known formed.awake
        (λ gone. let e = formed.gone gone in cc))
