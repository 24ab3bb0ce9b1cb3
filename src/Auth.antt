-- ===== src/Auth.antt =====
-- src/auth.rs: principals, the two authority policies and the authorization of a capability.
pub mod Replay
pub mod Rights
pub mod Passed
use buzz_server.Base.{
  ℕ, ◌+◌, ◌-◌, Bool, true, false, not, ◌&&◌, ◌||◌, Option, none, some, List, [], ◌∷◌, String,
  Result, ok, err, ◌>>=◌, ◌>>◌, fail_if, ok_or, ◌==◌, nat_eq, string_eq, option_eq, if◌then◌else◌,
  ltb, is_some, any, Eq, ◌↔◌, ◌≡◌, arith,
}
use buzz_server.Storage.Schema.{PrincipalOwnership, unix_uid, nostr_pubkey, Db}
use buzz_server.Storage.Boundary.{claim_nip98_replay}

pub data Authority : Type 0 where
  administrator draft_submitter : Authority

pub data Principal : Type 0 where
  unix_peer : (uid gid : ℕ) → Option ℕ → Principal
  nip98 : String → Principal

unfoldable pub ownership_key : Principal → PrincipalOwnership
ownership_key (unix_peer uid gid pid) = unix_uid uid
ownership_key (nip98 pubkey) = nostr_pubkey pubkey

pub record AuthenticatedPrincipal : Type 0 where
  pub principal : Principal
  pub authority : Authority

pub data Capability : Type 0 where
  read_community manage_community read_agent create_agent update_agent : Capability
  change_agent_state delete_agent purge_agent : Capability
  submit_draft read_draft promote_draft : Capability

pub data AuthorizationError : Type 0 where
  forbidden not_owner : AuthorizationError

pub data AuthenticationError : Type 0 where
  unknown_principal malformed_proof invalid_signature request_mismatch stale : AuthenticationError
  replay : AuthenticationError

pub record UnixPeerCredentials : Type 0 where
  pub uid : ℕ
  pub gid : ℕ
  pub pid : Option ℕ

pub record UnixAuthorityPolicy : Type 0 where
  pub administrator_uids : List ℕ
  pub draft_submitter_uids : List ℕ

-- The derived `==` on ownerships.
abbrev ownership_beq : PrincipalOwnership → PrincipalOwnership → Bool
ownership_beq (unix_uid a) (unix_uid b) = a == b
ownership_beq (nostr_pubkey a) (nostr_pubkey b) = a == b
ownership_beq _ _ = false

pub ownership_beq_iff : (a b : PrincipalOwnership) → (ownership_beq a b ≡ true) ↔ (a ≡ b)
ownership_beq_iff (unix_uid a) (unix_uid b) = ground arith
ownership_beq_iff (unix_uid a) (nostr_pubkey b) = ground arith
ownership_beq_iff (nostr_pubkey a) (unix_uid b) = ground arith
ownership_beq_iff (nostr_pubkey a) (nostr_pubkey b) = ground (arith, string_eq.eqb_iff a b)

instance abbrev pub ownership_eq : Eq PrincipalOwnership
ownership_eq = record { eqb = ownership_beq; eqb_iff = ownership_beq_iff }

-- The authority of a principal that two lists configure.
abbrev pub configured {ℓ} :
    {A : Type ℓ} ⦃eq : Eq A⦄ → List A → List A → A → Result AuthenticationError Authority
configured administrators submitters key =
    if any (λ a. a == key) administrators
    then ok administrator
    else if any (λ a. a == key) submitters
    then ok draft_submitter
    else err unknown_principal

-- `UnixAuthorityPolicy::authenticate`
unfoldable pub authenticate_peer :
    UnixAuthorityPolicy → UnixPeerCredentials → Result AuthenticationError AuthenticatedPrincipal
unfolding any
authenticate_peer policy c = do
  authority ← configured policy.administrator_uids policy.draft_submitter_uids c.uid
  ok (record { principal = unix_peer c.uid c.gid c.pid; authority = authority })

-- What buzz_core gives of an event: its JSON reader, the check of its signature, its fields.
pub record Events : Type 1 where
  pub Event : Type 0
  pub from_str : String → Option Event
  pub verify_event : Event → Bool
  pub kind : Event → ℕ
  pub created_at : Event → ℕ
  pub tags : Event → List (List String)
  pub pubkey : Event → String
  pub id : Event → String

-- A replay guard over a state: true only the first time it sees an id.
pub record ReplayGuard (S : Type 0) : Type 0 where
  pub claim : String → ℕ → S → Bool × S

pub record Nip98AuthorityPolicy : Type 0 where
  pub administrator_pubkeys : List String
  pub draft_submitter_pubkeys : List String
  pub freshness_seconds : ℕ

pub record Request : Type 0 where
  pub event_json : String
  pub method : String
  pub url : String
  pub payload_hash : Option String
  pub now : ℕ

abbrev pub u64_max : ℕ
u64_max = 18446744073709551615

abbrev pub saturating_add : ℕ → ℕ → ℕ
saturating_add a b = if ltb u64_max (a + b) then u64_max else a + b

abbrev pub abs_diff : ℕ → ℕ → ℕ
abs_diff a b = (a - b) + (b - a)

-- The value of the first tag of a name that has one.
unfoldable pub tag_value : String → List (List String) → Option String
tag_value name [] = none
tag_value name ([] ∷ rest) = tag_value name rest
tag_value name ((n ∷ []) ∷ rest) = tag_value name rest
tag_value name ((n ∷ v ∷ vs) ∷ rest) =
    let later = tag_value name rest in if n == name then some v else later

-- The comparison of `tag_value(…).as_deref()` with a value.
unfoldable pub same_value : Option String → Option String → Bool
same_value a b = a == b

pub same_value_iff : (a b : Option String) → (same_value a b ≡ true) ↔ (a ≡ b)
unfolding same_value
same_value_iff a b = option_eq.eqb_iff a b

abbrev pub freshness : Nip98AuthorityPolicy → ℕ
freshness policy = if ltb policy.freshness_seconds 1 then 1 else policy.freshness_seconds

module _ (events : Events) (policy : Nip98AuthorityPolicy) where
  -- Every check of `Nip98AuthorityPolicy::authenticate` before the replay guard is asked.
  unfoldable pub check_event : Request → Result AuthenticationError (events.Event × Authority)
  check_event request = do
    event ← ok_or (events.from_str request.event_json) malformed_proof
    fail_if (not (events.verify_event event)) invalid_signature
    fail_if (not (events.kind event == 27235)) request_mismatch
    fail_if (ltb (freshness policy) (abs_diff (events.created_at event) request.now)) stale
    fail_if
        (not (same_value (tag_value "u" (events.tags event)) (some request.url))
          || not (same_value (tag_value "method" (events.tags event)) (some request.method))
          || (is_some request.payload_hash
              && not (same_value (tag_value "payload" (events.tags event)) request.payload_hash)))
        request_mismatch
    authority ←
        configured policy.administrator_pubkeys policy.draft_submitter_pubkeys (events.pubkey event)
    ok (event, authority)

  -- `Nip98AuthorityPolicy::authenticate`
  unfoldable pub authenticate :
      {S : Type 0}
      → ReplayGuard S
      → Request
      → S
      → Result AuthenticationError AuthenticatedPrincipal × S
  authenticate guard request s = elim (check_event request) [
    | err e ↦ (err e, s)
    | ok (event, authority) ↦
        let (first, after) =
          guard.claim (events.id event)
            (saturating_add (events.created_at event) (freshness policy)) s in
        if first
        then (ok (record { principal = nip98 (events.pubkey event); authority = authority }), after)
        else (err replay, after)
  ]

-- `SqliteReplayGuard` of src/transport.rs, at one reading of its clock.
unfoldable pub sqlite_replay_guard : ℕ → ReplayGuard Db
sqlite_replay_guard now = record {
  claim = λ event_id expires_at db. elim (claim_nip98_replay event_id expires_at now db) [
    | ok (first, after) ↦ (first, after)
    | err _ ↦ (false, db)
  ];
}

unfoldable pub authorize :
    AuthenticatedPrincipal
    → Capability
    → Option PrincipalOwnership
    → Result AuthorizationError (Unit {0})
authorize actor capability owner = elim actor.authority [
  | administrator ↦ ok tt
  | draft_submitter ↦ elim capability [
    | submit_draft ↦ ok tt
    | read_draft ↦ if owner == some (ownership_key actor.principal) then ok tt else err not_owner
    | _ ↦ err forbidden
  ]
]
