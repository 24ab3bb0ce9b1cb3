-- ===== src/Storage/Relay.antt =====
-- src/storage.rs: what has been published to relays, and the outbox of publications to make.
use buzz_server.Base.{
  ℕ, ◌+◌, Bool, true, false, ◌&&◌, Option, none, some, List, map, String, Result, ok, err, ◌>>=◌,
  ◌==◌, nat_eq, string_eq, option_eq, ltb, any, is_some, if◌then◌else◌, find, select, update_where,
  delete_where, insert_row, order_by, Eq, ◌↔◌, ◌≡◌, arith,
}
use buzz_server.Base.Int.{ℤ, leb_ℤ}
use buzz_server.Agent.{CommunityConfigId}
use buzz_server.Storage.Schema.{
  StorageError, database, RelayProjectionKind, managed_agent, persona, RelayPublicationAction,
  sync_managed_agent, sync_persona, tombstone_managed_agent, archive_identity, tombstone_persona,
  Subject, RelayProjectionScope, ProjectionRow, OutboxRow, Db, Query,
}

abbrev projection_kind_beq : RelayProjectionKind → RelayProjectionKind → Bool
projection_kind_beq managed_agent managed_agent = true
projection_kind_beq persona persona = true
projection_kind_beq _ _ = false

pub projection_kind_beq_iff :
    (a b : RelayProjectionKind) → (projection_kind_beq a b ≡ true) ↔ (a ≡ b)
projection_kind_beq_iff a b = ground arith

instance abbrev pub projection_kind_eq : Eq RelayProjectionKind
projection_kind_eq = record { eqb = projection_kind_beq; eqb_iff = projection_kind_beq_iff }

abbrev action_beq : RelayPublicationAction → RelayPublicationAction → Bool
action_beq sync_managed_agent sync_managed_agent = true
action_beq sync_persona sync_persona = true
action_beq tombstone_managed_agent tombstone_managed_agent = true
action_beq archive_identity archive_identity = true
action_beq tombstone_persona tombstone_persona = true
action_beq _ _ = false

pub action_beq_iff : (a b : RelayPublicationAction) → (action_beq a b ≡ true) ↔ (a ≡ b)
action_beq_iff a b = ground arith

instance abbrev pub action_eq : Eq RelayPublicationAction
action_eq = record { eqb = action_beq; eqb_iff = action_beq_iff }

abbrev subject_beq : Subject → Subject → Bool
subject_beq (Subject.agent a) (Subject.agent b) = a == b
subject_beq (Subject.named a) (Subject.named b) = a == b
subject_beq _ _ = false

pub subject_beq_iff : (a b : Subject) → (subject_beq a b ≡ true) ↔ (a ≡ b)
subject_beq_iff (Subject.agent a) (Subject.agent b) = ground arith
subject_beq_iff (Subject.agent a) (Subject.named b) = ground arith
subject_beq_iff (Subject.named a) (Subject.agent b) = ground arith
subject_beq_iff (Subject.named a) (Subject.named b) = ground (arith, string_eq.eqb_iff a b)

instance abbrev pub subject_eq : Eq Subject
subject_eq = record { eqb = subject_beq; eqb_iff = subject_beq_iff }

unfoldable pub projection_row :
    CommunityConfigId → RelayProjectionKind → Subject → Db → Option ProjectionRow
unfolding find
projection_row community kind subject db =
    find
      (λ r.
        r.community_config_id == community && r.projection_kind == kind && r.subject_id == subject)
      db.projections

-- INSERT … ON CONFLICT(community_config_id, projection_kind, subject_id) DO UPDATE
unfoldable pub record_relay_projection :
    RelayProjectionKind → Subject → RelayProjectionScope → ℤ → Query (Unit {0})
unfolding projection_row update_where insert_row
record_relay_projection kind subject scope now db = ok (
  tt,
  record db {
    projections =
        if is_some (projection_row scope.community_config_id kind subject db)
        then update_where
            (λ r.
              r.community_config_id == scope.community_config_id
              && r.projection_kind == kind
              && r.subject_id == subject)
            (λ r. record r { scope = scope; updated_at = now }) db.projections
        else insert_row
            (record {
              projection_kind = kind;
              subject_id = subject;
              scope = scope;
              updated_at = now;
            })
            db.projections;
  },
)

unfoldable pub relay_projection_scopes :
    RelayProjectionKind → Subject → Db → List RelayProjectionScope
unfolding select order_by
relay_projection_scopes kind subject db =
    map (λ r. r.scope)
      (order_by (λ a b. ltb a.community_config_id b.community_config_id)
        (select (λ r. r.projection_kind == kind && r.subject_id == subject) db.projections))

-- The columns of the outbox's UNIQUE constraint.
unfoldable pub same_publication :
    RelayPublicationAction → RelayProjectionScope → Subject → OutboxRow → Bool
same_publication action scope subject r =
    r.action == action
    && r.relay_url == scope.relay_url
    && r.owner_pubkey == scope.owner_pubkey
    && r.subject_id == subject
    && r.d_tag == scope.d_tag

-- INSERT … ON CONFLICT(action, relay_url, owner_pubkey, subject_id, d_tag) DO NOTHING, under the
-- id that was drawn for the row.
unfoldable pub insert_publication :
    ℕ → RelayPublicationAction → RelayProjectionScope → Subject → ℤ → Db → Result StorageError Db
unfolding same_publication any insert_row
insert_publication id action scope subject now db =
    if any (same_publication action scope subject) db.outbox
    then ok db
    else if any (λ r. r.id == id) db.outbox
    then err database
    else ok (record db {
      outbox =
          insert_row
            (record {
              id = id;
              action = action;
              subject_id = subject;
              community_config_id = some scope.community_config_id;
              relay_url = scope.relay_url;
              owner_pubkey = scope.owner_pubkey;
              d_tag = scope.d_tag;
              created_at = now;
              updated_at = now;
              attempts = 0;
              last_error = none;
            })
            db.outbox;
    })

unfoldable pub enqueue_relay_publication :
    ℕ → RelayPublicationAction → RelayProjectionScope → Subject → ℤ → Query (Unit {0})
unfolding insert_publication
enqueue_relay_publication id action scope subject now db = do
  db' ← insert_publication id action scope subject now db
  ok (tt, db')

-- ORDER BY created_at, id
unfoldable pub pending_relay_publications : Db → List OutboxRow
unfolding order_by
pending_relay_publications db =
    order_by
      (λ a b.
        if leb_ℤ b.created_at a.created_at
        then leb_ℤ a.created_at b.created_at && ltb a.id b.id
        else true)
      db.outbox

unfoldable pub complete_relay_publication : ℕ → Query (Unit {0})
unfolding delete_where
complete_relay_publication id db =
    ok (tt, record db { outbox = delete_where (λ r. r.id == id) db.outbox })

unfoldable pub fail_relay_publication : ℕ → String → ℤ → Query (Unit {0})
unfolding update_where
fail_relay_publication id error now db = ok (
  tt,
  record db {
    outbox =
        update_where (λ r. r.id == id)
          (λ r. record r { attempts = r.attempts + 1; last_error = some error; updated_at = now })
          db.outbox;
  },
)

unfoldable pub has_pending_relay_publications_for_owner : String → Db → Bool
unfolding any
has_pending_relay_publications_for_owner owner db = any (λ r. r.owner_pubkey == owner) db.outbox

unfoldable pub remove_relay_projection :
    CommunityConfigId → RelayProjectionKind → Subject → Query (Unit {0})
unfolding delete_where
remove_relay_projection community kind subject db = ok (
  tt,
  record db {
    projections =
        delete_where
          (λ r.
            r.community_config_id == community
            && r.projection_kind == kind
            && r.subject_id == subject)
          db.projections;
  },
)
