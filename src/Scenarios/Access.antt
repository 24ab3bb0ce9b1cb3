-- ===== src/Scenarios/Access.antt =====
-- One NIP-98 event at the door (src/auth.rs): accepted, sent again in time, and sent again late.
use buzz_server.Base.{
  ◌↔◌, any, arith, ℕ, true, none, some, List, [], ◌∷◌, String, ok, err, ◌≡◌, refl, ◌⊎◌, ◌↔◌,
}
use buzz_server.Storage.Schema.{Db, empty_db, unix_uid}
use buzz_server.Storage.Calls.{Call, run_calls}
use buzz_server.Storage.Boundary
use buzz_server.Auth
use buzz_server.Auth.{
  administrator, draft_submitter, AuthenticatedPrincipal, AuthenticationError, Principal, nip98,
  unix_peer, Capability, read_draft, submit_draft, Events, Nip98AuthorityPolicy, Request,
  authenticate, sqlite_replay_guard, authorize, ownership_key,
}
use buzz_server.Auth.Rights.{authorize_iff}
use buzz_server.Auth.Passed.{Passed, authenticate_iff}
use buzz_server.Auth.Replay.{authenticate-once, authenticate-late}

-- Events that carry their fields and are always signed; the text is the id.
record Sample : Type 0 where
  text : String
  at : ℕ

abbrev samples : Events
samples = record {
  Event = Sample;
  from_str = λ s. some (record { text = s; at = 1000 });
  verify_event = λ _. true;
  kind = λ _. 27235;
  created_at = λ e. e.at;
  tags = λ _. ("u" ∷ "https://host/api" ∷ []) ∷ ("method" ∷ "POST" ∷ []) ∷ [];
  pubkey = λ _. "key";
  id = λ e. e.text;
}

abbrev doors : Nip98AuthorityPolicy
doors = record {
  administrator_pubkeys = "key" ∷ [];
  draft_submitter_pubkeys = [];
  freshness_seconds = 60;
}

abbrev asked : ℕ → Request
asked now = record {
  event_json = "event";
  method = "POST";
  url = "https://host/api";
  payload_hash = none;
  now = now;
}

abbrev event : Sample
event = record { text = "event"; at = 1000 }

abbrev owner : AuthenticatedPrincipal
owner = record { principal = nip98 "key"; authority = administrator }

abbrev noted : Db
noted = record empty_db { replay = record { event_id = "event"; expires_at = 1060 } ∷ [] }

opens :
    authenticate samples doors (sqlite_replay_guard 1010) (asked 1010) empty_db ≡ (ok owner, noted)
unfolding authenticate sqlite_replay_guard Auth.check_event Auth.same_value Auth.tag_value any
    Boundary.claim_nip98_replay
opens = refl

abbrev others : List Call
others = Call.claim_nip98_replay "other" 1080 1020 ∷ []

authenticate_iff_example :
    ((authenticate samples doors (sqlite_replay_guard 1010) (asked 1010) empty_db).0 ≡ ok owner) ↔ (
      (e : Sample) × Passed samples doors (asked 1010) e administrator
      × (nip98 "key" ≡ nip98 "key")
      × (((sqlite_replay_guard 1010).claim e.text
            (Auth.saturating_add e.at (Auth.freshness doors))
            empty_db).0
          ≡ true))
authenticate_iff_example =
    authenticate_iff samples doors (sqlite_replay_guard 1010) (asked 1010) owner empty_db

authenticate-once_example :
    (e : AuthenticationError) × ((authenticate samples doors
        (sqlite_replay_guard 1050)
        (asked 1050)
        (run_calls noted others)).0
      ≡ err e)
authenticate-once_example =
    authenticate-once samples doors 1010 1050 (asked 1010) (asked 1050) owner empty_db noted event
      others opens refl refl (refl, tt) (omega arith, omega arith)

still_fresh : Auth.check_event samples doors (asked 1060) ≡ ok (event, administrator)
unfolding Auth.check_event Auth.same_value Auth.tag_value any
still_fresh = refl

authenticate-late_example :
    (authenticate samples doors (sqlite_replay_guard 1061) (asked 1060) noted).0 ≡ ok owner
authenticate-late_example =
    authenticate-late samples doors 1010 1061 (asked 1010) (asked 1060) owner empty_db noted event
      administrator opens refl still_fresh (omega arith) (omega arith)

authorize_iff_example :
    (authorize
        (record { principal = unix_peer 5 5 none; authority = draft_submitter })
        read_draft
        (some (unix_uid 5))
      ≡ ok tt)
    ↔ ((draft_submitter ≡ administrator)
        ⊎ (read_draft ≡ submit_draft)
        ⊎ ((read_draft ≡ read_draft)
            × (some (unix_uid 5) ≡ some (ownership_key (unix_peer 5 5 none)))))
authorize_iff_example =
    authorize_iff (record { principal = unix_peer 5 5 none; authority = draft_submitter })
      read_draft (some (unix_uid 5))
