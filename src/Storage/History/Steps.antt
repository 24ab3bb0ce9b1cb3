-- ===== src/Storage/History/Steps.antt =====
-- What one statement does to the row of an operation.
use mathlib.Core.Option
use buzz_server.Base.{
  ℕ, Bool, true, false, Option, none, some, some-injective, List, [], ◌∷◌, ◌++◌, ◌≡◌, ◌∙◌, refl,
  sym, ap, subst, arith, ◌⊎◌, inl, inr, ◌==◌, nat_eq, option_eq, if◌then◌else◌, find, update_where,
  insert_row, find-insert_row_old, find-update_where, find_sound, find-delete_where_ne, Bool-cases,
}
use buzz_server.Base.Int.{ℤ}
use buzz_server.Operation.{OperationStatus, can_transition_to}
use buzz_server.Operation.Machine.{Run, stop, step}
use buzz_server.Agent.{AgentId}
use buzz_server.Storage.Schema.{OperationId, ErrorCode, DurableOperation, Db}
use buzz_server.Storage.Statements.{operation_row, delete_agent_row, delete_operation_row}
use buzz_server.Storage.Operations.{set_status}

-- A later state of the same operation: what identifies it is unchanged, its status has moved along
-- accepted transitions, and its agent is the same or is gone.
pub record Later (o o' : DurableOperation) : Type 0 where
  pub id : o'.id ≡ o.id
  pub kind : o'.kind ≡ o.kind
  pub created_at : o'.created_at ≡ o.created_at
  pub correlation_id : o'.correlation_id ≡ o.correlation_id
  pub passed : List OperationStatus
  pub path : Run o.status passed o'.status
  pub agent : (o'.agent_id ≡ o.agent_id) ⊎ (o'.agent_id ≡ none)

pub Later-refl : (o : DurableOperation) → Later o o
Later-refl o = record {
  id = refl;
  kind = refl;
  created_at = refl;
  correlation_id = refl;
  passed = [];
  path = stop;
  agent = inl refl;
}

Run-append :
    {s t u : OperationStatus} {ps qs : List OperationStatus}
    → Run s ps t
    → Run t qs u
    → Run s (ps ++ qs) u
Run-append stop r = r
Run-append (step h p) r = step h (Run-append p r)

pub Later-trans : {o p q : DurableOperation} → Later o p → Later p q → Later o q
Later-trans a b = record {
  id = b.id ∙ a.id;
  kind = b.kind ∙ a.kind;
  created_at = b.created_at ∙ a.created_at;
  correlation_id = b.correlation_id ∙ a.correlation_id;
  passed = a.passed ++ b.passed;
  path = Run-append a.path b.path;
  agent = ground (arith, a.agent, b.agent);
}

-- From one database to the next the row of `id` stays, in a later state.
abbrev pub Keeps : OperationId → Db → Db → Type 0
Keeps id a b =
    (o : DurableOperation)
    → operation_row id a ≡ some o
    → (o' : DurableOperation) × (operation_row id b ≡ some o') × Later o o'

moved :
    (o : DurableOperation) (next : OperationStatus) (code : Option ErrorCode) (now : ℤ)
    → can_transition_to o.status next ≡ true
    → Later o (record o { status = next; error_code = code; updated_at = now })
moved o next code now h = record {
  id = refl;
  kind = refl;
  created_at = refl;
  correlation_id = refl;
  passed = next ∷ [];
  path = step h stop;
  agent = inl refl;
}

orphaned : (o : DurableOperation) → Later o (record o { agent_id = none })
orphaned o = record {
  id = refl;
  kind = refl;
  created_at = refl;
  correlation_id = refl;
  passed = [];
  path = stop;
  agent = inr refl;
}

module _ (id : OperationId) where
  pub Keeps-same : (a b : Db) → b.operations ≡ a.operations → Keeps id a b
  unfolding operation_row
  Keeps-same a b e o h = (o, ap (λ rows. find (λ r. r.id == id) rows) e ∙ h, Later-refl o)

  pub Keeps-trans : (a b c : Db) → Keeps id a b → Keeps id b c → Keeps id a c
  Keeps-trans a b c f g o h =
      let (p, hp, l) = f o h in let (q, hq, m) = g p hp in (q, hq, Later-trans l m)

  pub Keeps-insert :
      (op : DurableOperation) (a b : Db) → b.operations ≡ insert_row op a.operations → Keeps id a b
  unfolding operation_row
  Keeps-insert op a b e o h = (
    o,
    ap (λ rows. find (λ r. r.id == id) rows) e
        ∙ find-insert_row_old (λ r. r.id == id) op a.operations h,
    Later-refl o,
  )

  -- The row of an update that goes by a test of its own and leaves the ids alone.
  updated :
      (q : DurableOperation → Bool) (f : DurableOperation → DurableOperation) (a b : Db)
      → b.operations ≡ update_where q f a.operations
      → ((r : DurableOperation) → (f r).id ≡ r.id)
      → (o : DurableOperation) → operation_row id a ≡ some o
      → operation_row id b ≡ some (if q o then f o else o)
  unfolding operation_row
  updated q f a b e keep o h =
      ap (λ rows. find (λ r. r.id == id) rows) e
      ∙ find-update_where (λ r. r.id == id) q f a.operations (λ r. ap (λ (n : ℕ). n == id) (keep r))
      ∙ ap (Option.map (λ r. if q r then f r else r)) h

  same_row :
      (target : OperationId) (a : Db) (current o : DurableOperation)
      → operation_row target a ≡ some current
      → operation_row id a ≡ some o
      → (o.id == target) ≡ true
      → current ≡ o
  unfolding operation_row
  same_row target a current o found h e =
      let here : (o.id == id) ≡ true = find_sound (λ r. r.id == id) a.operations h in
      let same : target ≡ id = ground arith in
      some-injective current o (sym found ∙ ap (λ (n : ℕ). operation_row n a) same ∙ h)

  pub Keeps-set_status :
      (target : OperationId) (next : OperationStatus) (code : Option ErrorCode) (now : ℤ) (a : Db)
      (current : DurableOperation)
      → operation_row target a ≡ some current
      → can_transition_to current.status next ≡ true
      → Keeps id a (set_status target next code now a)
  unfolding set_status
  Keeps-set_status target next code now a current found allowed o h =
      let row =
        updated (λ r. r.id == target)
          (λ r. record r { status = next; error_code = code; updated_at = now }) a
          (set_status target next code now a) refl (λ r. refl) o h in
      elim (Bool-cases (o.id == target)) [
        | inl e ↦
            let allowed' =
              subst (λ (x : DurableOperation). can_transition_to x.status next ≡ true)
                (same_row target a current o found h e) allowed in
            (_, rw e at row, moved o next code now allowed')
        | inr e ↦ (_, rw e at row, Later-refl o)
      ]

  pub Keeps-delete_agent_row : (agent : AgentId) (a : Db) → Keeps id a (delete_agent_row agent a)
  unfolding delete_agent_row
  Keeps-delete_agent_row agent a o h =
      let row =
        updated (λ r. r.agent_id == some agent) (λ r. record r { agent_id = none }) a
          (delete_agent_row agent a) refl (λ r. refl) o h in
      elim (Bool-cases (o.agent_id == some agent)) [
        | inl e ↦ (_, rw e at row, orphaned o)
        | inr e ↦ (_, rw e at row, Later-refl o)
      ]

  pub Keeps-delete_operation_row :
      (target : OperationId) (a : Db)
      → (id == target) ≡ false
      → Keeps id a (delete_operation_row target a)
  unfolding delete_operation_row operation_row
  Keeps-delete_operation_row target a ne o h = (
    o,
    find-delete_where_ne (λ r. r.id == id) (λ r. r.id == target) a.operations (λ r e. ground arith)
        ∙ h,
    Later-refl o,
  )
