-- ===== src/Auth/Passed.antt =====
-- Which requests `Nip98AuthorityPolicy::authenticate` of src/auth.rs accepts, at any replay guard.
use buzz_server.Base.{
  subst, ap, sym, none, option_eq, string_eq, nat_eq, ℕ, ◌+◌, ◌≤◌, Bool, true, false, Option, some,
  List, [], ◌∷◌, ◌==◌, any, ltb, not, ◌&&◌, is_some, some-injective, ◌⊎◌, ◌↔◌, String, Result, ok,
  err, ◌≡◌, ◌≢◌, refl, arith,
}
use buzz_server.Auth.{
  nip98, Authority, administrator, draft_submitter, AuthenticatedPrincipal, AuthenticationError,
  Events, ReplayGuard, Nip98AuthorityPolicy, Request, freshness, saturating_add, abs_diff,
  check_event, tag_value, same_value, same_value_iff, configured, authenticate,
}

-- A key that a list holds.
abbrev pub Listed : List String → String → Type 0
Listed [] key = ⊥
Listed (k ∷ ks) key = (k ≡ key) ⊎ Listed ks key

any-Listed : (ks : List String) (key : String) → (any (λ k. k == key) ks ≡ true) ↔ Listed ks key
unfolding any
any-Listed [] key = ground arith
any-Listed (k ∷ ks) key = ground (arith, any-Listed ks key, string_eq.eqb_iff k key)

-- The authority that a key has: an administrator's is in the first list, a draft submitter's in the
-- second and not in the first.
abbrev pub Granted : Nip98AuthorityPolicy → String → Authority → Type 0
Granted policy key administrator = Listed policy.administrator_pubkeys key
Granted policy key draft_submitter =
    ¬ Listed policy.administrator_pubkeys key × Listed policy.draft_submitter_pubkeys key

configured_iff :
    (policy : Nip98AuthorityPolicy) (key : String) (granted : Authority)
    → (configured policy.administrator_pubkeys policy.draft_submitter_pubkeys key ≡ ok granted)
      ↔ Granted policy key granted
configured_iff policy key administrator =
    ground (arith, any-Listed policy.administrator_pubkeys key)
configured_iff policy key draft_submitter = ground (
  arith,
  any-Listed policy.administrator_pubkeys key,
  any-Listed policy.draft_submitter_pubkeys key,
)

-- The first tag of a name that carries a value carries this one.
abbrev pub Tagged : String → String → List (List String) → Type 0
Tagged name value [] = ⊥
Tagged name value ([] ∷ rest) = Tagged name value rest
Tagged name value ((n ∷ []) ∷ rest) = Tagged name value rest
Tagged name value ((n ∷ v ∷ vs) ∷ rest) =
    ((n ≡ name) × (v ≡ value)) ⊎ ((n ≢ name) × Tagged name value rest)

tag_value-Tagged :
    (name value : String) (tags : List (List String))
    → (tag_value name tags ≡ some value) ↔ Tagged name value tags
unfolding tag_value
tag_value-Tagged name value [] = ground arith
tag_value-Tagged name value ([] ∷ rest) = tag_value-Tagged name value rest
tag_value-Tagged name value ((n ∷ []) ∷ rest) = tag_value-Tagged name value rest
tag_value-Tagged name value ((n ∷ v ∷ vs) ∷ rest) =
    ground (arith, tag_value-Tagged name value rest, string_eq.eqb_iff n name)

module _ (events : Events) (policy : Nip98AuthorityPolicy) where
  -- A signed event of the right kind, for this method, URL and body, with a granted key, and no more
  -- seconds from the request than the policy allows, which are one at least.
  pub record Passed (request : Request) (event : events.Event) (granted : Authority) : Type 0 where
    pub parsed : events.from_str request.event_json ≡ some event
    pub signed : events.verify_event event ≡ true
    pub kind : events.kind event ≡ 27235
    pub not_late :
        (request.now ≤ events.created_at event + policy.freshness_seconds)
        ⊎ (request.now ≤ events.created_at event + 1)
    pub not_early :
        (events.created_at event ≤ request.now + policy.freshness_seconds)
        ⊎ (events.created_at event ≤ request.now + 1)
    pub url : Tagged "u" request.url (events.tags event)
    pub method : Tagged "method" request.method (events.tags event)
    pub payload :
        (hash : String)
        → request.payload_hash ≡ some hash
        → Tagged "payload" hash (events.tags event)
    pub authority : Granted policy (events.pubkey event) granted

  fresh_iff :
      (at now : ℕ)
      → (ltb (freshness policy) (abs_diff at now) ≡ false) ↔ (
          ((now ≤ at + policy.freshness_seconds) ⊎ (now ≤ at + 1))
          × ((at ≤ now + policy.freshness_seconds) ⊎ (at ≤ now + 1)))
  fresh_iff at now = ground arith

  -- The body's hash is asked for only when the request has one.
  payload_iff :
      (hash : Option String) (tags : List (List String))
      → ((is_some hash && not (same_value (tag_value "payload" tags) hash)) ≡ false)
        ↔ ((h : String) → hash ≡ some h → Tagged "payload" h tags)
  payload_iff none tags = (λ e h q. absurd (ground arith), λ f. refl)
  payload_iff (some h) tags =
      let test = same_value_iff (tag_value "payload" tags) (some h) in
      let tagged = tag_value-Tagged "payload" h tags in
      (
        λ e g q.
            let same : h ≡ g = some-injective h g q in
            subst (λ x. Tagged "payload" x tags) same (tagged.0 (ground arith)),
        λ f. let t = tagged.1 (f h refl) in ground arith,
      )

  check_event_iff :
      (request : Request) (event : events.Event) (granted : Authority)
      → (check_event events policy request ≡ ok (event, granted)) ↔ Passed request event granted
  unfolding check_event
  check_event_iff request event granted =
      (λ h. passed (events.from_str request.event_json) refl h, complete)
    where
      tags : List (List String)
      tags = events.tags event

      passed :
          (parsed : Option events.Event)
          → events.from_str request.event_json ≡ parsed
          → check_event events policy request ≡ ok (event, granted)
          → Passed request event granted
      passed none q h = absurd (ground arith)
      passed (some e) q h =
          let same : e ≡ event = ground arith in
          let url_test = same_value_iff (tag_value "u" tags) (some request.url) in
          let method_test = same_value_iff (tag_value "method" tags) (some request.method) in
          let late = fresh_iff (events.created_at event) request.now in
          record {
            parsed = ground arith;
            signed = ground arith;
            kind = ground arith;
            not_late = (late.0 (ground arith)).0;
            not_early = (late.0 (ground arith)).1;
            url = (tag_value-Tagged "u" request.url tags).0 (ground arith);
            method = (tag_value-Tagged "method" request.method tags).0 (ground arith);
            payload = (payload_iff request.payload_hash tags).0 (ground arith);
            authority = (configured_iff policy (events.pubkey event) granted).0 (ground arith);
          }

      complete :
          Passed request event granted → check_event events policy request ≡ ok (event, granted)
      complete p =
          let url_test = same_value_iff (tag_value "u" tags) (some request.url) in
          let method_test = same_value_iff (tag_value "method" tags) (some request.method) in
          let url = (tag_value-Tagged "u" request.url tags).1 p.url in
          let method = (tag_value-Tagged "method" request.method tags).1 p.method in
          let fresh =
            (fresh_iff (events.created_at event) request.now).1 (p.not_late, p.not_early) in
          let body = (payload_iff request.payload_hash tags).1 p.payload in
          let key = (configured_iff policy (events.pubkey event) granted).1 p.authority in
          ground (arith, p.parsed, p.signed, p.kind)

  -- A request is accepted, for an actor, exactly when its event is signed, of the kind of NIP-98,
  -- fresh and made for this method, URL and body, the guard has not seen it, and the actor is the
  -- event's key with the authority that the two lists of keys give it.
  pub authenticate_iff :
      {S : Type 0} (guard : ReplayGuard S) (request : Request) (actor : AuthenticatedPrincipal)
      (s : S)
      → ((authenticate events policy guard request s).0 ≡ ok actor) ↔ (
          (event : events.Event) × Passed request event actor.authority
          × (actor.principal ≡ nip98 (events.pubkey event))
          × ((guard.claim
                (events.id event)
                (saturating_add (events.created_at event) (freshness policy))
                s).0
              ≡ true))
  authenticate_iff guard request actor s =
      (λ h. go (check_event events policy request) refl h, accepted)
    where
      claimed : events.Event → Bool
      claimed event =
          (guard.claim (events.id event)
            (saturating_add (events.created_at event) (freshness policy)) s).0

      go :
          (c : Result AuthenticationError (events.Event × Authority))
          → check_event events policy request ≡ c
          → (authenticate events policy guard request s).0 ≡ ok actor
          → (event : events.Event) × Passed request event actor.authority
            × (actor.principal ≡ nip98 (events.pubkey event))
            × (claimed event ≡ true)
      go (err x) e h = absurd (unfold authenticate in ground arith)
      go (ok (event, granted)) e h =
          let first : claimed event ≡ true = unfold authenticate in ground arith in
          let admitted : AuthenticatedPrincipal = record {
            principal = nip98 (events.pubkey event);
            authority = granted;
          } in
          let same : admitted ≡ actor = unfold authenticate in ground arith in
          (
            event,
            subst (λ x. Passed request event x.authority) same
                ((check_event_iff request event granted).0 e),
            sym (ap (λ x. x.principal) same),
            first,
          )

      accepted :
          (event : events.Event) × Passed request event actor.authority
            × (actor.principal ≡ nip98 (events.pubkey event))
            × (claimed event ≡ true)
          → (authenticate events policy guard request s).0 ≡ ok actor
      accepted (event, p, principal, first) =
          let c = (check_event_iff request event actor.authority).1 p in
          unfold authenticate in ground (arith, c, first, principal)
