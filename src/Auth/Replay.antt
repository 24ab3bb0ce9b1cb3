-- ===== src/Auth/Replay.antt =====
-- A NIP-98 event is accepted once (src/auth.rs with the replay table of src/storage.rs).
use buzz_server.Base.{
  subst, none, option_eq, string_eq, nat_eq, ℕ, ◌≤◌, ◌<◌, Bool, true, Option, some, List, Result,
  ok, err, ◌≡◌, refl, arith, All,
}
use buzz_server.Storage.Schema.{Db, StorageError}
use buzz_server.Storage.Calls.{Call, run_calls}
use buzz_server.Auth.{
  replay, nip98, Authority, AuthenticatedPrincipal, AuthenticationError, Events,
  Nip98AuthorityPolicy, Request, freshness, saturating_add, u64_max, abs_diff, check_event,
  authenticate, sqlite_replay_guard,
}
use buzz_server.Storage.Boundary.{claim_nip98_replay, integer_max}
use buzz_server.Storage.History.Seen.{
  claim-late, Remembered, punctual, claim-Remembered, claim_again, run_calls-Remembered,
}

module _ (events : Events) (policy : Nip98AuthorityPolicy) where
  -- The time until which the guard must remember an event.
  abbrev pub expiry : events.Event → ℕ
  expiry event = saturating_add (events.created_at event) (freshness policy)

  check_event-parsed :
      (request : Request) (event : events.Event) (granted : Authority)
      → check_event events policy request ≡ ok (event, granted)
      → events.from_str request.event_json ≡ some event
  unfolding check_event
  check_event-parsed request event granted h = go (events.from_str request.event_json) refl
    where
      go :
          (parsed : Option events.Event)
          → events.from_str request.event_json ≡ parsed
          → events.from_str request.event_json ≡ some event
      go none q = absurd (ground arith)
      go (some e) q = ground arith

  check_event-fresh :
      (request : Request) (event : events.Event) (granted : Authority)
      → check_event events policy request ≡ ok (event, granted)
      → abs_diff (events.created_at event) request.now ≤ freshness policy
  unfolding check_event
  check_event-fresh request event granted h = go (events.from_str request.event_json) refl
    where
      go :
          (parsed : Option events.Event)
          → events.from_str request.event_json ≡ parsed
          → abs_diff (events.created_at event) request.now ≤ freshness policy
      go none q = absurd (ground arith)
      go (some e) q = ground arith

  -- Acceptance at the repository's guard: the event has passed, and the guard has taken its id.
  authenticate-ok :
      (clock : ℕ) (request : Request) (actor : AuthenticatedPrincipal) (a b : Db)
      → authenticate events policy (sqlite_replay_guard clock) request a ≡ (ok actor, b)
      → (event : events.Event) × (granted : Authority) × (check_event events policy request
          ≡ ok (event, granted))
        × (actor ≡ record { principal = nip98 (events.pubkey event); authority = granted })
        × (claim_nip98_replay (events.id event) (expiry event) clock a ≡ ok (true, b))
  unfolding authenticate sqlite_replay_guard
  authenticate-ok clock request actor a b h = go (check_event events policy request) refl
    where
      go :
          (c : Result AuthenticationError (events.Event × Authority))
          → check_event events policy request ≡ c
          → (event : events.Event) × (granted : Authority) × (check_event events policy request
              ≡ ok (event, granted))
            × (actor ≡ record { principal = nip98 (events.pubkey event); authority = granted })
            × (claim_nip98_replay (events.id event) (expiry event) clock a ≡ ok (true, b))
      go (err x) e = absurd (ground arith)
      go (ok (event, granted)) e = (event, granted, e, ground arith, ground arith)

  -- The guard's clock reads no later than the request's, in u64.
  abbrev pub Prompt : ℕ → Request → Type 0
  Prompt clock request = (clock ≤ request.now) × (request.now ≤ u64_max)

  in_time :
      (clock : ℕ) (request : Request) (event : events.Event) (granted : Authority)
      → Prompt clock request
      → check_event events policy request ≡ ok (event, granted)
      → clock ≤ expiry event
  in_time clock request event granted (h, k) c =
      ground (arith, check_event-fresh request event granted c)

  -- An event is accepted. Whatever calls of the repository follow, as long as none of their replay
  -- clocks is past the event's expiry, a request that carries the event again, with the guard's
  -- clock not later than the request's, which is a u64, is refused.
  pub authenticate-once :
      (clock later : ℕ) (request again : Request) (actor : AuthenticatedPrincipal) (a b : Db)
      (event : events.Event) (cs : List Call)
      → authenticate events policy (sqlite_replay_guard clock) request a ≡ (ok actor, b)
      → events.from_str request.event_json ≡ some event
      → events.from_str again.event_json ≡ some event
      → All (λ c. punctual (expiry event) c ≡ true) cs
      → Prompt later again
      → (e : AuthenticationError) × ((authenticate events policy
            (sqlite_replay_guard later)
            again
            (run_calls b cs)).0
          ≡ err e)
  authenticate-once clock later request again actor a b event cs h p q s t =
      go (check_event events policy again) refl
    where
      seen : Remembered (events.id event) (expiry event) (run_calls b cs)
      seen =
          let (first, granted, c, e, m) = authenticate-ok clock request actor a b h in
          let same : first ≡ event = ground (arith, check_event-parsed request first granted c) in
          run_calls-Remembered (events.id event) (expiry event) b cs s (
            claim-Remembered (events.id event) (expiry event) clock a b (
              subst (λ x. claim_nip98_replay (events.id x) (expiry x) clock a ≡ ok (true, b)) same
                m))

      refused :
          (other : events.Event) (granted : Authority)
          → check_event events policy again ≡ ok (other, granted)
          → (r : Result StorageError (Bool × Db))
          → claim_nip98_replay (events.id other) (expiry other) later (run_calls b cs) ≡ r
          → (authenticate events policy (sqlite_replay_guard later) again (run_calls b cs)).0
            ≡ err replay
      refused other granted c (err x) m = unfold authenticate sqlite_replay_guard in ground arith
      refused other granted c (ok (first, after)) m =
          let same : event ≡ other = ground (arith, check_event-parsed again other granted c) in
          let memory =
            subst (λ x. Remembered (events.id x) (expiry x) (run_calls b cs)) same seen in
          let no =
            claim_again (events.id other) (expiry other) (expiry other) later (run_calls b cs)
              (in_time later again other granted t c) memory (first, after) m in
          unfold authenticate sqlite_replay_guard in ground arith

      go :
          (c : Result AuthenticationError (events.Event × Authority))
          → check_event events policy again ≡ c
          → (e : AuthenticationError) × ((authenticate events policy
                (sqlite_replay_guard later)
                again
                (run_calls b cs)).0
              ≡ err e)
      go (err x) e = (x, unfold authenticate in ground arith)
      go (ok (other, granted)) e = (replay, refused other granted e _ refl)

  -- An event is accepted. A request that carries it again and still passes every check is accepted
  -- a second time, if the guard's clock has meanwhile gone past the event's expiry.
  pub authenticate-late :
      (clock later : ℕ) (request again : Request) (actor : AuthenticatedPrincipal) (a b : Db)
      (event : events.Event) (granted : Authority)
      → authenticate events policy (sqlite_replay_guard clock) request a ≡ (ok actor, b)
      → events.from_str request.event_json ≡ some event
      → check_event events policy again ≡ ok (event, granted)
      → expiry event < later
      → later ≤ integer_max
      → (authenticate events policy (sqlite_replay_guard later) again b).0
        ≡ ok (record { principal = nip98 (events.pubkey event); authority = granted })
  unfolding authenticate sqlite_replay_guard
  authenticate-late clock later request again actor a b event granted h p c l m =
      let (first, g, c1, e, taken) = authenticate-ok clock request actor a b h in
      let same : first ≡ event = ground (arith, check_event-parsed request first g c1) in
      let free =
        claim-late (events.id event) (expiry event) clock later a b
          (subst (λ x. claim_nip98_replay (events.id x) (expiry x) clock a ≡ ok (true, b)) same
            taken)
          l m in
      let (after, again_ok) = free in ground arith
