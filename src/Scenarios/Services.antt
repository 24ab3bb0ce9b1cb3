-- ===== src/Scenarios/Services.antt =====
-- The API over that application: a wait, a removal and two requests (src/application.rs, src/api.rs).
use buzz_server.Base.{ℕ, ◌+◌, none, some, List, [], ◌∷◌, err, ◌≡◌, refl, true, inr, arith}
use buzz_server.Base.Int.{pos}
use buzz_server.Auth.{AuthorizationError, authorize}
use buzz_server.Storage.Schema.{Db, empty_db}
use buzz_server.Storage.Communities.{Draws, get_community}
use buzz_server.Api.{LifecycleRouteRequest, api_authorization, internal}
use buzz_server.Api.Service.{LifecycleApplication}
use buzz_server.Api.Router.{handle}
use buzz_server.Api.Permission.{handle-denied, handle_draft_submitter, required}
use buzz_server.Application.{World, SqliteLifecycleApplication}
use buzz_server.Application.Communities.{remove_community}
use buzz_server.Application.Waiting.{
  Threads, Fair, Ends, wait_for_operation_terminal, wait_for_operation_terminal-Ends,
}
use buzz_server.Application.Service.{service}
use buzz_server.Application.Identities.{elsewhere, releasing, remove_community_keeps_identity}
use buzz_server.Scenarios.Commands.{team, accepted}
use buzz_server.Scenarios.Applications.{app, world, guest}

-- Nobody notifies, and a wait sleeps for all of its time.
abbrev quiet_threads : Threads ℕ
quiet_threads = record {
  time = λ w. w.outside;
  pause = λ w. w;
  wait_timeout_while = λ s t w. record w { outside = w.outside + t };
}

quiet_fair : Fair quiet_threads (λ _. 0)
quiet_fair = record {
  pause_time = λ w. omega arith;
  pause_left = λ w. (omega arith, λ changed. absurd (changed refl));
  wait_time = λ s t w. omega arith;
  wait_left = λ s t w same. inr (omega arith, omega arith);
}

wait_for_operation_terminal-Ends_example :
    Ends quiet_threads
      (λ _. 0)
      quiet_fair
      5
      103
      (wait_for_operation_terminal quiet_threads 2 5 3 (world accepted))
wait_for_operation_terminal-Ends_example =
    wait_for_operation_terminal-Ends quiet_threads (λ _. 0) quiet_fair 5 3 2 (world accepted)
      (omega arith)

-- Two communities with one identity.
abbrev key : List ℕ
key = 97 ∷ []

abbrev shared : Db
shared = record empty_db {
  communities =
      record { id = 1; document = record team { identity_pubkey = some key }; updated_at = pos 90 }
      ∷ record {
        id = 2;
        document = record team { id = 2; identity_pubkey = some key };
        updated_at = pos 90;
      }
      ∷ [];
}

abbrev draws : Draws
draws = record { display = λ _. "community"; operation = λ a. a; publication = λ _ _. 0 }

shared_found : get_community 1 shared ≡ some (record team { identity_pubkey = some key })
unfolding get_community
shared_found = refl

shared_elsewhere : elsewhere 1 key shared ≡ true
unfolding elsewhere
shared_elsewhere = refl

abbrev forget : List ℕ → World ℕ → World ℕ
forget k w = record w { outside = 0 }

remove_community_keeps_identity_example :
    remove_community (releasing app forget) draws 1 (world shared)
    ≡ remove_community app draws 1 (world shared)
unfolding buzz_server.Application.default_effects
remove_community_keeps_identity_example =
    remove_community_keeps_identity app forget draws 1 (record team { identity_pubkey = some key })
      key (world shared) (λ ids v. refl) (λ v. refl) shared_found refl shared_elsewhere

abbrev api : LifecycleApplication (World ℕ)
api = service app draws (λ id timeout w. (err internal, w))

-- The same, without a list of communities.
abbrev other_api : LifecycleApplication (World ℕ)
other_api = record api { list_communities = λ w. (err internal, w) }

guest_denied :
    authorize guest (required LifecycleRouteRequest.list_communities) none
    ≡ err AuthorizationError.forbidden
unfolding authorize required
guest_denied = refl

handle-denied_example :
    handle api guest 9 (some LifecycleRouteRequest.list_communities) (world shared)
    ≡ ((403, err (api_authorization AuthorizationError.forbidden)), world shared)
handle-denied_example =
    handle-denied api guest 9 AuthorizationError.forbidden LifecycleRouteRequest.list_communities
      (world shared) (λ r. absurd (ground (arith, r.1))) guest_denied

handle_draft_submitter_example :
    handle api guest 9 (some LifecycleRouteRequest.list_communities) (world shared)
    ≡ handle other_api guest 9 (some LifecycleRouteRequest.list_communities) (world shared)
handle_draft_submitter_example =
    handle_draft_submitter api other_api guest 9 (some LifecycleRouteRequest.list_communities)
      (world shared) refl refl refl
