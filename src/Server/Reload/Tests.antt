-- ===== src/Server/Reload/Tests.antt =====
-- The reload worker of crates/djls-server/src/reload.rs at a concrete interleaving.
use django_language_server.Base.{◌≡◌, refl, false, some, List, [], ◌∷◌}
use django_language_server.Server.Reload.{
  reprime, full_reload, waiting, ReloadState, spawned, Event, request, notify, receive, take,
  complete, cancel, step, run,
}
use django_language_server.Server.Reload.Service.{Served, request_served}
use django_language_server.Server.Reload.Rest.{CanRest, reload_rests}

-- While the worker is woken for a re-prime a full reload is requested; the full reload is cancelled once.
abbrev after : List Event
after =
    notify
    ∷ receive
    ∷ request full_reload
    ∷ take
    ∷ cancel
    ∷ notify
    ∷ take
    ∷ complete
    ∷ take
    ∷ receive
    ∷ take
    ∷ []

abbrev at_rest : ReloadState
at_rest = record { pending = 0; wake = false; notifying = 0; closed = false; worker = waiting }

runs : run (request reprime ∷ after) spawned ≡ some (at_rest, full_reload ∷ [])
unfolding step
runs = refl

request_served_example : Served 1 (full_reload ∷ []) × (at_rest.pending ≡ 0)
request_served_example =
    request_served [] after reprime spawned at_rest [] (full_reload ∷ []) refl runs
      (record { waits = refl; no_wake = refl; no_requester = refl }) refl

abbrev requested : ReloadState
requested = record { pending = 2; wake = false; notifying = 1; closed = false; worker = waiting }

requested_reached : run (request full_reload ∷ []) spawned ≡ some (requested, [])
unfolding step
requested_reached = refl

reload_rests_example : CanRest requested
reload_rests_example = reload_rests (request full_reload ∷ []) requested [] requested_reached refl
