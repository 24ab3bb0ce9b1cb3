-- ===== src/Application/Identities.antt =====
-- The identity of a community that is removed (`remove_community` of src/application.rs).
use buzz_server.Base.{
  ℕ, Bool, true, ◌&&◌, not, List, [], ◌∷◌, map, Option, none, some, some-injective, Result, ok, err,
  ◌≡◌, ◌∙◌, sym, ap, refl, arith, ◌||◌, ltb, any, delete_where, order_by, insert_by, ◌==◌, nat_eq,
  option_eq, >>=-eq-ok,
}
use buzz_server.Base.Compare.{list_eq}
use buzz_server.Base.Int.{ℤ}
use buzz_server.Base.Action.{Action, continue, pure}
use buzz_server.Agent.{AgentId, CommunityConfigId}
use buzz_server.Community.{CommunityConfig}
use buzz_server.Storage.Schema.{CommunityRow, ProjectionRow, Db}
use buzz_server.Storage.Statements.{insert_operation, delete_agent_row}
use buzz_server.Storage.Retention.{insert_tombstone}
use buzz_server.Storage.Relay.{insert_publication}
use buzz_server.Storage.Communities
use buzz_server.Storage.Communities.{
  Draws, get_community, list_communities, delete_community_with_deleted_agents,
  delete_community_row, purge_deleted, purge_all, tombstone_personas,
}
use buzz_server.Storage.History.Purges.{CommunityRemoved, delete_community-CommunityRemoved}
use buzz_server.Api.{not_found}
use buzz_server.Application.{World, SqliteLifecycleApplication, clock, store}
use buzz_server.Application.Communities.{
  is_referenced, release_identity, read_community, remove_community,
}
use buzz_server.Application.Once.{db-clock, store-ok}
use buzz_server.Application.Ends.{found-ok}

any-insert_by {ℓ} :
    {R : Type ℓ} (p : R → Bool) (before : R → R → Bool) (r : R) (rs : List R)
    → any p (insert_by before r rs) ≡ (p r || any p rs)
unfolding any insert_by
any-insert_by p before r [] = refl
any-insert_by p before r (x ∷ xs) = ground (arith, any-insert_by p before r xs)

any-order_by {ℓ} :
    {R : Type ℓ} (p : R → Bool) (before : R → R → Bool) (rs : List R)
    → any p (order_by before rs) ≡ any p rs
unfolding any order_by
any-order_by p before [] = refl
any-order_by p before (r ∷ rs) =
    any-insert_by p before r (order_by before rs) ∙ ap (λ b. p r || b) (any-order_by p before rs)

any-map {ℓ κ} :
    {A : Type ℓ} {B : Type κ} (p : B → Bool) (f : A → B) (xs : List A)
    → any p (map f xs) ≡ any (λ x. p (f x)) xs
unfolding any
any-map p f [] = refl
any-map p f (x ∷ xs) = ap (λ b. p (f x) || b) (any-map p f xs)

any-delete_where {ℓ} :
    {R : Type ℓ} (p q : R → Bool) (rs : List R)
    → any (λ r. not (q r) && p r) rs ≡ true
    → any p (delete_where q rs) ≡ true
unfolding any delete_where
any-delete_where p q [] h = absurd (ground arith)
any-delete_where p q (r ∷ rs) h = ground (arith, any-delete_where p q rs)

-- The rows of other communities that have this identity.
unfoldable pub elsewhere : CommunityConfigId → List ℕ → Db → Bool
unfolding any
elsewhere id pubkey db =
    any (λ r. not (r.id == id) && r.document.identity_pubkey == some pubkey) db.communities

communities-purge_deleted :
    (draws : Draws) (community : CommunityConfigId) (now : ℤ) (agent : AgentId) (a b : Db)
    → purge_deleted draws community now agent a ≡ ok b
    → b.communities ≡ a.communities
unfolding purge_deleted Communities.tombstone_projection insert_publication insert_operation
    insert_tombstone delete_agent_row
communities-purge_deleted draws community now agent a b h = ground arith

communities-purge_all :
    (draws : Draws) (community : CommunityConfigId) (now : ℤ) (agents : List AgentId) (a b : Db)
    → purge_all draws community now agents a ≡ ok b
    → b.communities ≡ a.communities
unfolding purge_all
communities-purge_all draws community now [] a b h = ground arith
communities-purge_all draws community now (agent ∷ rest) a b h =
    let (c, e, h') = >>=-eq-ok (purge_deleted draws community now agent a) _ h in
    communities-purge_all draws community now rest c b h'
    ∙ communities-purge_deleted draws community now agent a c e

communities-tombstone_personas :
    (draws : Draws) (now : ℤ) (rows : List ProjectionRow) (a b : Db)
    → tombstone_personas draws now rows a ≡ ok b
    → b.communities ≡ a.communities
unfolding tombstone_personas
communities-tombstone_personas draws now [] a b h = ground arith
communities-tombstone_personas draws now (r ∷ rs) a b h =
    let (c, e, h') = >>=-eq-ok (insert_publication _ _ r.scope r.subject_id now a) _ h in
    let one : c.communities ≡ a.communities = unfold insert_publication in ground arith in
    communities-tombstone_personas draws now rs c b h' ∙ one

communities-CommunityRemoved :
    {draws : Draws} {community : CommunityConfigId} {now : ℤ} {a b : Db} {ids : List AgentId}
    → CommunityRemoved draws community now a b ids
    → b.communities ≡ delete_where (λ r. r.id == community) a.communities
unfolding delete_community_row
communities-CommunityRemoved {draws} {community} {now} {a} {b} {ids} r =
    let last : b.communities ≡ delete_where (λ r. r.id == community) r.announced.communities =
      ground (arith, r.remove_ok) in
    last
    ∙ ap (delete_where (λ r. r.id == community)) (
        communities-tombstone_personas draws now _ r.purged r.announced r.announce_ok
        ∙ communities-purge_all draws community now ids a r.purged r.purge_ok)

-- An identity that another community has is still referenced once the community is gone.
is_referenced-delete :
    (draws : Draws) (id : CommunityConfigId) (now : ℤ) (pubkey : List ℕ) (a b : Db)
    (ids : List AgentId)
    → delete_community_with_deleted_agents draws id now a ≡ ok (ids, b)
    → elsewhere id pubkey a ≡ true
    → is_referenced pubkey b ≡ true
unfolding is_referenced list_communities elsewhere
is_referenced-delete draws id now pubkey a b ids h e =
    let rows =
      communities-CommunityRemoved (delete_community-CommunityRemoved draws id now a b ids h) in
    any-map (λ (c : CommunityConfig). c.identity_pubkey == some pubkey)
      (λ (r : CommunityRow). r.document) (order_by (λ a b. ltb a.id b.id) b.communities)
    ∙ any-order_by (λ (r : CommunityRow). r.document.identity_pubkey == some pubkey)
        (λ a b. ltb a.id b.id) b.communities
    ∙ ap (any (λ (r : CommunityRow). r.document.identity_pubkey == some pubkey)) rows
    ∙ any-delete_where (λ (r : CommunityRow). r.document.identity_pubkey == some pubkey)
        (λ r. r.id == id) a.communities e

continue_agree {ℓ κ μ ν} :
    {S : Type κ} {E : Type μ} {A : Type ℓ} {B : Type ν} (f g : A → Action S E B)
    (r : Result E A × S)
    → ((a : A) (s : S) → r ≡ (ok a, s) → f a s ≡ g a s)
    → continue f r ≡ continue g r
continue_agree f g (ok a, s) h = h a s refl
continue_agree f g (err e, s) h = refl

-- The same application with another way to give an identity up.
abbrev pub releasing :
    {X : Type 0}
    → SqliteLifecycleApplication X
    → (List ℕ → World X → World X)
    → SqliteLifecycleApplication X
releasing self f =
    let effects = self.effects in
    record self { effects = record effects { community_identity_unreferenced = f } }

release_identity-referenced :
    {X : Type 0} (self : SqliteLifecycleApplication X) (pubkey : List ℕ) (w : World X)
    → is_referenced pubkey w.db ≡ true
    → release_identity self (some pubkey) w ≡ (ok tt, w)
unfolding release_identity
release_identity-referenced self pubkey w h = rw h refl

module _ {X : Type 0} (self : SqliteLifecycleApplication X) (f : List ℕ → World X → World X) where
  release_same :
      (identity : Option (List ℕ)) (pubkey : List ℕ) (w : World X)
      → identity ≡ some pubkey
      → is_referenced pubkey w.db ≡ true
      → release_identity (releasing self f) identity w ≡ release_identity self identity w
  release_same none pubkey w e h = absurd (ground arith)
  release_same (some key) pubkey w e h =
      let referenced : is_referenced key w.db ≡ true =
        ap (λ k. is_referenced k w.db) (some-injective key pubkey e) ∙ h in
      release_identity-referenced (releasing self f) key w referenced
      ∙ sym (release_identity-referenced self key w referenced)

  read_community-ok :
      (id : CommunityConfigId) (w w' : World X) (c : CommunityConfig)
      → read_community self id w ≡ (ok c, w')
      → (get_community id w.db ≡ some c) × (w'.db ≡ w.db)
  unfolding read_community
  read_community-ok id w w' c h =
      let (e, same) = found-ok not_found (get_community id w.db) w w' c h in
      (e, ap (λ v. v.db) same)

-- The identity of a community is not given up while another community has it: the removal is the same
-- whatever giving it up would do. It is assumed that the two effects before it leave the database
-- alone.
pub remove_community_keeps_identity :
    {X : Type 0} (self : SqliteLifecycleApplication X) (f : List ℕ → World X → World X)
    (draws : Draws) (id : CommunityConfigId) (c : CommunityConfig) (pubkey : List ℕ) (w : World X)
    → ((ids : List AgentId) (v : World X)
        → (self.effects.community_agents_purged ids v).1.db ≡ v.db)
    → ((v : World X) → (self.effects.community_changed id v).db ≡ v.db)
    → get_community id w.db ≡ some c
    → c.identity_pubkey ≡ some pubkey
    → elsewhere id pubkey w.db ≡ true
    → remove_community (releasing self f) draws id w ≡ remove_community self draws id w
unfolding remove_community clock read_community
remove_community_keeps_identity {X} self f draws id c pubkey w quiet still found named other =
    continue_agree _ _ (read_community self id w) (λ c0 w1 e1.
      let (read, same1) = read_community-ok self f id w w1 c0 e1 in
      continue_agree _ _ (clock self w1) (λ now w2 e2.
        let same2 : w2.db ≡ w.db = db-clock self w1 w2 now e2 ∙ same1 in
        continue_agree _ _ (store (delete_community_with_deleted_agents draws id now) w2)
          (λ ids w3 e3.
            let gone = store-ok (delete_community_with_deleted_agents draws id now) w2 w3 ids e3 in
            let kept =
              is_referenced-delete draws id now pubkey w2.db w3.db ids gone
                (ap (elsewhere id pubkey) same2 ∙ other) in
            continue_agree _ _ (self.effects.community_agents_purged ids w3) (λ u w4 e4.
              let same4 : w4.db ≡ w3.db = ap (λ r. r.1.db) (sym e4) ∙ quiet ids w3 in
              let w5 = self.effects.community_changed id w4 in
              ap (continue (λ _. pure c0)) (
                release_same self f c0.identity_pubkey pubkey w5
                  (ap (λ x. x.identity_pubkey) (some-injective c0 c (sym read ∙ found)) ∙ named)
                  (ap (is_referenced pubkey) (still w4 ∙ same4) ∙ kept))))))
