-- ===== src/Auth/Rights.antt =====
-- Who may do what (`authorize` of src/auth.rs).
use buzz_server.Base.{
  Option, some, ok, ◌≡◌, ◌⊎◌, ◌↔◌, inl, inr, true, ◌==◌, nat_eq, string_eq, option_eq, refl, arith,
}
use buzz_server.Storage.Schema.{PrincipalOwnership}
use buzz_server.Auth.{
  Authority, administrator, draft_submitter, AuthenticatedPrincipal, Capability, submit_draft,
  read_draft, ownership_key, ownership_eq, authorize,
}

-- For one who is no administrator.
authorize-draft_submitter :
    (actor : AuthenticatedPrincipal) (capability : Capability) (owner : Option PrincipalOwnership)
    → actor.authority ≡ draft_submitter
    → (authorize actor capability owner ≡ ok tt) ↔ (
        (capability ≡ submit_draft)
        ⊎ ((capability ≡ read_draft) × ((owner == some (ownership_key actor.principal)) ≡ true)))
unfolding authorize
authorize-draft_submitter actor submit_draft owner h = ground arith
authorize-draft_submitter actor read_draft owner h = ground arith
authorize-draft_submitter actor capability owner h = ground arith

-- A capability is granted exactly to an administrator, to anyone for submitting a draft, and to the
-- draft's owner for reading it.
pub authorize_iff :
    (actor : AuthenticatedPrincipal) (capability : Capability) (owner : Option PrincipalOwnership)
    → (authorize actor capability owner ≡ ok tt) ↔ (
        (actor.authority ≡ administrator)
        ⊎ (capability ≡ submit_draft)
        ⊎ ((capability ≡ read_draft) × (owner ≡ some (ownership_key actor.principal))))
authorize_iff actor capability owner = go actor.authority refl
  where
    owned :
        ((owner == some (ownership_key actor.principal)) ≡ true)
        ↔ (owner ≡ some (ownership_key actor.principal))
    owned = option_eq.eqb_iff owner (some (ownership_key actor.principal))

    go :
        (a : Authority)
        → actor.authority ≡ a
        → (authorize actor capability owner ≡ ok tt) ↔ (
            (actor.authority ≡ administrator)
            ⊎ (capability ≡ submit_draft)
            ⊎ ((capability ≡ read_draft) × (owner ≡ some (ownership_key actor.principal))))
    go administrator h = (λ e. inl h, λ e. unfold authorize in ground arith)
    go draft_submitter h =
        let (there, back) = authorize-draft_submitter actor capability owner h in
        (
          λ e. elim (there e) [ inl s ↦ inr (inl s) | inr (r, o) ↦ inr (inr (r, owned.0 o)) ],
          λ e. elim e [
            | inl a ↦ absurd (ground arith)
            | inr (inl s) ↦ back (inl s)
            | inr (inr (r, o)) ↦ back (inr (r, owned.1 o))
          ],
        )
