-- ===== src/Storage/History/Closing.antt =====
-- What is left of a community once it is deleted with its deleted agents (src/storage.rs).
use buzz_server.Base.{
  map_err, ℕ, Bool, true, false, not, none, some, List, [], ◌∷◌, map, ok, ◌≡◌, refl, arith, ap, ◌∙◌,
  All, any, ◌==◌, nat_eq, find, select, is_some, order_by, find-insert_row_old,
  find-delete_where-none, >>=-eq-ok, fail_if-eq-ok, option_eq, Option-cases, inl, inr,
}
use buzz_server.Base.Int.{ℤ}
use buzz_server.Operation.{succeeded, status_eq}
use buzz_server.Agent.{AgentId, CommunityConfigId, deleted, desired_eq}
use buzz_server.Storage.Schema.{database, CommunityRow, AgentRow, TombstoneRow, ProjectionRow, Db}
use buzz_server.Storage.Statements.{community_row, insert_operation, delete_agent_row}
use buzz_server.Storage.Retention.{is_agent_purged, insert_tombstone, list_agents}
use buzz_server.Storage.Relay.{insert_publication}
use buzz_server.Storage.Communities
use buzz_server.Storage.Communities.{
  Draws, get_community, check_deleted, purge_deleted, purge_all, tombstone_personas,
  delete_community_row, delete_community_with_deleted_agents,
}
use buzz_server.Storage.History.Purges.{delete_community-CommunityRemoved, members}
use buzz_server.Storage.History.Ends.{is_agent_purged-insert_tombstone}

select_none : {R : Type 0} (p : R → Bool) (rs : List R) → any p rs ≡ false → select p rs ≡ []
unfolding any select
select_none p [] h = refl
select_none p (r ∷ rs) h = ground (arith, select_none p rs)

check_deleted-deleted :
    (community : CommunityConfigId) (a : Db) (rows : List AgentRow) (ids : List AgentId)
    → check_deleted community a rows ≡ ok ids
    → All (λ (r : AgentRow). r.document.desired_state ≡ deleted) rows
      × (ids ≡ map (λ (r : AgentRow). r.id) rows)
unfolding check_deleted
check_deleted-deleted community a [] ids h = (tt, ground arith)
check_deleted-deleted community a (r ∷ rs) ids h =
    let (e1, h1) = fail_if-eq-ok (not (r.document.desired_state == deleted)) _ _ h in
    let (e2, h2) =
      fail_if-eq-ok (not (Communities.latest_delete r.id a == some succeeded)) _ _ h1 in
    let (rest, e3, h3) = >>=-eq-ok (check_deleted community a rs) _ h2 in
    let (all, same) = check_deleted-deleted community a rs rest e3 in
    let gone : r.document.desired_state ≡ deleted = ground arith in
    let list : ids ≡ r.id ∷ rest = ground arith in ((gone, all), list ∙ ap (λ xs. r.id ∷ xs) same)

-- The tombstone table only grows.
is_agent_purged-kept :
    (x agent : AgentId) (now : ℤ) (target : ℕ) (a : Db)
    → is_agent_purged x a ≡ true
    → is_agent_purged x (insert_tombstone agent now target a) ≡ true
unfolding is_agent_purged insert_tombstone
is_agent_purged-kept x agent now target a h =
    let row : TombstoneRow = record {
      agent_id = agent;
      purged_at = now;
      purge_operation_id = target;
    } in
    elim (Option-cases (find (λ r. r.agent_id == x) a.tombstones)) [
      | inl e ↦ ground arith
      | inr (r, e) ↦ ground (arith, find-insert_row_old (λ r. r.agent_id == x) row a.tombstones e)
    ]

is_agent_purged-same :
    (x : AgentId) (a b : Db)
    → b.tombstones ≡ a.tombstones
    → is_agent_purged x b ≡ is_agent_purged x a
unfolding is_agent_purged
is_agent_purged-same x a b e = ap (λ rows. is_some (find (λ r. r.agent_id == x) rows)) e

-- The database in which a purge puts the tombstone.
module _ (draws : Draws) (community : CommunityConfigId) (now : ℤ) where
  purge_deleted-tombstones :
      (agent : AgentId) (a b : Db)
      → purge_deleted draws community now agent a ≡ ok b
      → (m : Db) × (m.tombstones ≡ a.tombstones)
        × (b.tombstones ≡ (insert_tombstone agent now (draws.operation agent) m).tombstones)
  unfolding purge_deleted
  purge_deleted-tombstones agent a b h =
      let (d1, e1, h1) =
        >>=-eq-ok (Communities.tombstone_projection draws community agent now a) _ h in
      let (d2, e2, h2) =
        >>=-eq-ok
          (map_err (λ _. database)
            (insert_operation (Communities.purge_record draws community agent now) d1))
          _ h1 in
      (
        d2,
        (unfold Communities.tombstone_projection insert_publication insert_operation in
            ground arith),
        (unfold delete_agent_row in ground arith),
      )

  purge_deleted_marks :
      (agent : AgentId) (a b : Db)
      → purge_deleted draws community now agent a ≡ ok b
      → is_agent_purged agent b ≡ true
  purge_deleted_marks agent a b h =
      let (m, e, f) = purge_deleted-tombstones agent a b h in
      is_agent_purged-same agent (insert_tombstone agent now (draws.operation agent) m) b f
      ∙ is_agent_purged-insert_tombstone agent now (draws.operation agent) m

  purge_deleted_keeps :
      (x agent : AgentId) (a b : Db)
      → purge_deleted draws community now agent a ≡ ok b
      → is_agent_purged x a ≡ true
      → is_agent_purged x b ≡ true
  purge_deleted_keeps x agent a b h k =
      let (m, e, f) = purge_deleted-tombstones agent a b h in
      is_agent_purged-same x (insert_tombstone agent now (draws.operation agent) m) b f
      ∙ is_agent_purged-kept x agent now (draws.operation agent) m
          (is_agent_purged-same x a m e ∙ k)

  purge_all_keeps :
      (x : AgentId) (agents : List AgentId) (a b : Db)
      → purge_all draws community now agents a ≡ ok b
      → is_agent_purged x a ≡ true
      → is_agent_purged x b ≡ true
  unfolding purge_all
  purge_all_keeps x [] a b h k = ground arith
  purge_all_keeps x (agent ∷ rest) a b h k =
      let (c, e, h') = >>=-eq-ok (purge_deleted draws community now agent a) _ h in
      purge_all_keeps x rest c b h' (purge_deleted_keeps x agent a c e k)

  purge_all_marks :
      (agents : List AgentId) (a b : Db)
      → purge_all draws community now agents a ≡ ok b
      → All (λ x. is_agent_purged x b ≡ true) agents
  unfolding purge_all
  purge_all_marks [] a b h = tt
  purge_all_marks (agent ∷ rest) a b h =
      let (c, e, h') = >>=-eq-ok (purge_deleted draws community now agent a) _ h in
      (
        purge_all_keeps agent rest c b h' (purge_deleted_marks agent a c e),
        purge_all_marks rest c b h',
      )

tombstones-tombstone_personas :
    (draws : Draws) (now : ℤ) (rows : List ProjectionRow) (a b : Db)
    → tombstone_personas draws now rows a ≡ ok b
    → b.tombstones ≡ a.tombstones
unfolding tombstone_personas
tombstones-tombstone_personas draws now [] a b h = ground arith
tombstones-tombstone_personas draws now (r ∷ rs) a b h =
    let (c, e, h') = >>=-eq-ok (insert_publication _ _ r.scope r.subject_id now a) _ h in
    let one : c.tombstones ≡ a.tombstones = unfold insert_publication in ground arith in
    tombstones-tombstone_personas draws now rs c b h' ∙ one

All-same :
    (a b : Db) (ids : List AgentId)
    → b.tombstones ≡ a.tombstones
    → All (λ x. is_agent_purged x a ≡ true) ids
    → All (λ x. is_agent_purged x b ≡ true) ids
All-same a b [] e h = tt
All-same a b (x ∷ xs) e h = (is_agent_purged-same x a b e ∙ h.0, All-same a b xs e h.1)

delete_community_row_gone :
    (community : CommunityConfigId) (a b : Db)
    → delete_community_row community a ≡ ok b
    → (get_community community b ≡ none)
      × (list_agents (some community) b ≡ [])
      × (b.tombstones ≡ a.tombstones)
unfolding delete_community_row
delete_community_row_gone community a b h =
    let (e, h') = fail_if-eq-ok (any (λ r. r.community_config_id == community) a.agents) _ _ h in
    let nobody : select (λ r. r.community_config_id == community) b.agents ≡ [] =
      select_none (λ (r : AgentRow). r.community_config_id == community) b.agents (ground arith) in
    let row =
      find-delete_where-none (λ (r : CommunityRow). r.id == community) (λ r. r.id == community)
        a.communities (λ r t. t) in
    (
      (unfold get_community community_row in ground (arith, row)),
      (unfold list_agents order_by in ground (arith, nobody)),
      ground arith,
    )

-- A community that is deleted with its deleted agents is gone and lists no agent. Its agents were
-- all deleted by intent, they are the ones returned, and each of them is remembered as purged.
pub delete_community_with_deleted_agents_gone :
    (draws : Draws) (community : CommunityConfigId) (now : ℤ) (a b : Db) (ids : List AgentId)
    → delete_community_with_deleted_agents draws community now a ≡ ok (ids, b)
    → (get_community community b ≡ none)
      × (list_agents (some community) b ≡ [])
      × All (λ (r : AgentRow). r.document.desired_state ≡ deleted) (members community a)
      × (ids ≡ map (λ (r : AgentRow). r.id) (members community a))
      × All (λ x. is_agent_purged x b ≡ true) ids
delete_community_with_deleted_agents_gone draws community now a b ids h =
    let r = delete_community-CommunityRemoved draws community now a b ids h in
    let (gone, nobody, same) = delete_community_row_gone community r.announced b r.remove_ok in
    let (intended, returned) =
      check_deleted-deleted community a (members community a) ids r.checked in
    let marked = purge_all_marks draws community now ids a r.purged r.purge_ok in
    let announced = tombstones-tombstone_personas draws now _ r.purged r.announced r.announce_ok in
    (gone, nobody, intended, returned, All-same r.purged b ids (same ∙ announced) marked)
