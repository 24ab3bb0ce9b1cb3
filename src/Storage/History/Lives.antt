-- ===== src/Storage/History/Lives.antt =====
-- The history of an operation, and of an idempotency key, over any sequence of repository calls.
use buzz_server.Base.{true, some, List, [], ◌∷◌, Result, ok, err, ◌≡◌, refl, arith, All}
use buzz_server.Operation.{OperationStatus, is_terminal, can_transition_to}
use buzz_server.Operation.Machine.{Run, stop, step}
use buzz_server.Storage.Schema.{OperationId, StorageError, DurableOperation, Db}
use buzz_server.Storage.Statements.{operation_row}
use buzz_server.Storage.Calls.{Call, settle, perform, run_calls}
use buzz_server.Storage.History.Steps.{Later, Later-refl, Later-trans, Keeps}
use buzz_server.Storage.History.Methods.{spares, perform-Keeps}

settle-Keeps :
    (id : OperationId) (c : Call) (a : Db)
    → spares c id ≡ true
    → Keeps id a (settle a (perform c a))
settle-Keeps id c a s = go (perform c a) refl
  where
    go : (r : Result StorageError Db) → perform c a ≡ r → Keeps id a (settle a r)
    go (ok b) e = perform-Keeps id c a b s e
    go (err x) e = λ o h. (o, h, Later-refl o)

-- Through any calls that do not delete it, an operation keeps its row: its id, kind, creation time
-- and correlation id stay, its status moves along accepted transitions only, and its agent is the
-- same or none.
pub run_calls-Later :
    (id : OperationId) (a : Db) (cs : List Call)
    → All (λ c. spares c id ≡ true) cs
    → (o : DurableOperation) → operation_row id a ≡ some o
    → (o' : DurableOperation) × (operation_row id (run_calls a cs) ≡ some o') × Later o o'
unfolding run_calls
run_calls-Later id a [] s o h = (o, h, Later-refl o)
run_calls-Later id a (c ∷ cs) s o h =
    let (p, hp, l) = settle-Keeps id c a s.0 o h in
    let (q, hq, m) = run_calls-Later id (settle a (perform c a)) cs s.1 p hp in
    (q, hq, Later-trans l m)

no_way_out : (s t : OperationStatus) → is_terminal s ≡ true → can_transition_to s t ≡ true → ⊥
unfolding is_terminal can_transition_to
no_way_out s t h e = ground arith

Run-terminal :
    {s t : OperationStatus} {ts : List OperationStatus} → is_terminal s ≡ true → Run s ts t → t ≡ s
Run-terminal h stop = refl
Run-terminal h (step {s} {t} e r) = absurd (no_way_out s t h e)

-- Once an operation is terminal, no sequence of calls that does not delete it changes its status.
pub run_calls-terminal :
    (id : OperationId) (a : Db) (cs : List Call)
    → All (λ c. spares c id ≡ true) cs
    → (o : DurableOperation) → operation_row id a ≡ some o
    → is_terminal o.status ≡ true
    → (o' : DurableOperation) × (operation_row id (run_calls a cs) ≡ some o')
      × (o'.status ≡ o.status)
run_calls-terminal id a cs s o h t =
    let (p, hp, l) = run_calls-Later id a cs s o h in (p, hp, Run-terminal t l.path)
