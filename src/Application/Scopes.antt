-- ===== src/Application/Scopes.antt =====
-- The scope under which a command's key is claimed (`execute` of src/application.rs).
use buzz_server.Base.{
  ℕ, ◌+◌, ◌^◌, ◌<◌, ◌≡◌, ◌∙◌, ◌↔◌, refl, sym, ap, false, List, [], ◌∷◌, ◌++◌, String, arith, any,
  nat_eq,
}
use Prim.Native.String.{◌++◌ as str_append}
use buzz_server.Text.{codes, contains_char}
use buzz_server.Text.Display.{decimal}
use buzz_server.Text.Injective.{
  codes-append, codes_injective, append_cancel, split_last, decimal_injective,
}
use buzz_server.Operation.{
  OperationKind, create_agent, update_agent, enable_agent, disable_agent, delete_agent, purge_agent,
}
use buzz_server.Auth.{AuthenticatedPrincipal, Principal, unix_peer, nip98, ownership_key}
use buzz_server.Storage.Schema.{PrincipalOwnership, unix_uid, nostr_pubkey}
use buzz_server.Application.{ExecutionPlan, operation_action, principal_scope}
use buzz_server.Application.Execute.{command_scope}

-- The uid of a peer is a u32.
abbrev pub IsPrincipal : Principal → Type 0
IsPrincipal (unix_peer uid gid pid) = uid < 2 ^ 32
IsPrincipal (nip98 pubkey) = Unit

-- The letters of the six actions have different sums.
abbrev sum : List ℕ → ℕ
sum [] = 0
sum (c ∷ cs) = c + sum cs

abbrev weight : OperationKind → ℕ
weight create_agent = 1201
weight update_agent = 1216
weight enable_agent = 1188
weight disable_agent = 1297
weight delete_agent = 1200
weight purge_agent = 1120

sum-operation_action : (k : OperationKind) → sum (codes (operation_action k)) ≡ weight k
unfolding operation_action
sum-operation_action create_agent = refl
sum-operation_action update_agent = refl
sum-operation_action enable_agent = refl
sum-operation_action disable_agent = refl
sum-operation_action delete_agent = refl
sum-operation_action purge_agent = refl

operation_action_injective :
    (k l : OperationKind) → codes (operation_action k) ≡ codes (operation_action l) → k ≡ l
operation_action_injective k l h =
    let same : weight k ≡ weight l =
      sym (sum-operation_action k) ∙ ap sum h ∙ sum-operation_action l in
    ground arith

no_colon : (k : OperationKind) → contains_char b':' (codes (operation_action k)) ≡ false
unfolding operation_action contains_char any
no_colon create_agent = refl
no_colon update_agent = refl
no_colon enable_agent = refl
no_colon disable_agent = refl
no_colon delete_agent = refl
no_colon purge_agent = refl

principal_scope_injective :
    (p q : Principal)
    → IsPrincipal p
    → IsPrincipal q
    → codes (principal_scope p) ≡ codes (principal_scope q)
    → ownership_key p ≡ ownership_key q
unfolding principal_scope ownership_key
principal_scope_injective (unix_peer a _ _) (unix_peer b _ _) hp hq e =
    let same =
      sym (codes-append "unix_uid:" (decimal a)) ∙ e ∙ codes-append "unix_uid:" (decimal b) in
    let tails = append_cancel (codes "unix_uid:") (codes (decimal a)) (codes (decimal b)) same in
    ap unix_uid (decimal_injective a b hp hq tails)
principal_scope_injective (nip98 a) (nip98 b) hp hq e =
    let same = sym (codes-append "nostr:" a) ∙ e ∙ codes-append "nostr:" b in
    ap nostr_pubkey (codes_injective a b (append_cancel (codes "nostr:") (codes a) (codes b) same))
principal_scope_injective (unix_peer a _ _) (nip98 b) hp hq e =
    let same = sym (codes-append "unix_uid:" (decimal a)) ∙ e ∙ codes-append "nostr:" b in
    absurd (ground arith)
principal_scope_injective (nip98 a) (unix_peer b _ _) hp hq e =
    let same = sym (codes-append "nostr:" a) ∙ e ∙ codes-append "unix_uid:" (decimal b) in
    absurd (ground arith)

codes-command_scope :
    (actor : AuthenticatedPrincipal) (plan : ExecutionPlan)
    → codes (command_scope actor plan)
      ≡ codes (principal_scope actor.principal) ++ (b':' ∷ codes (operation_action plan.kind))
unfolding command_scope
codes-command_scope actor plan =
    codes-append (principal_scope actor.principal) (str_append ":" (operation_action plan.kind))
    ∙ ap (λ cs. codes (principal_scope actor.principal) ++ cs)
        (codes-append ":" (operation_action plan.kind))

abbrev scope_of : PrincipalOwnership → String
scope_of (unix_uid uid) = str_append "unix_uid:" (decimal uid)
scope_of (nostr_pubkey pubkey) = str_append "nostr:" pubkey

principal_scope-scope_of : (p : Principal) → principal_scope p ≡ scope_of (ownership_key p)
unfolding principal_scope ownership_key
principal_scope-scope_of (unix_peer uid gid pid) = refl
principal_scope-scope_of (nip98 pubkey) = refl

same_scope :
    (p q : Principal) → ownership_key p ≡ ownership_key q → principal_scope p ≡ principal_scope q
same_scope p q h = principal_scope-scope_of p ∙ ap scope_of h ∙ sym (principal_scope-scope_of q)

-- Two commands share the scope of their idempotency keys exactly when they are of one kind and come
-- from one owner: no name that a principal could have lets it reach the keys of another.
pub command_scope_iff :
    (a b : AuthenticatedPrincipal) (p q : ExecutionPlan)
    → IsPrincipal a.principal
    → IsPrincipal b.principal
    → (command_scope a p ≡ command_scope b q)
      ↔ ((ownership_key a.principal ≡ ownership_key b.principal) × (p.kind ≡ q.kind))
command_scope_iff a b p q ha hb = (
  λ e.
      let same = sym (codes-command_scope a p) ∙ ap codes e ∙ codes-command_scope b q in
      let (owner, action) =
        split_last b':' (codes (principal_scope a.principal)) (codes (principal_scope b.principal))
          (codes (operation_action p.kind)) (codes (operation_action q.kind)) (no_colon p.kind)
          (no_colon q.kind) same in
      (
        principal_scope_injective a.principal b.principal ha hb owner,
        operation_action_injective p.kind q.kind action,
      ),
  λ (owner, kind). unfold command_scope in rw (same_scope a.principal b.principal owner, kind) refl,
)
