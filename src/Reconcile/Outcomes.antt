-- ===== src/Reconcile/Outcomes.antt =====
-- What an outcome of the reconciler says of the processes and of the receipts (src/reconcile.rs).
use buzz_server.Base.{
  subst, sym, Bool-cases, true, false, Option, none, some, Result, ok, err, ◌≡◌, inl, inr, ◌≢◌,
  refl, arith, nat_eq, option_eq,
}
use buzz_server.Base.Action.{Action}
use buzz_server.Operation.{running, status_eq}
use buzz_server.Agent.{AgentId, AgentSpec, DesiredAgentState, enabled, disabled, deleted}
use buzz_server.Storage.Schema.{StorageError, DurableOperation}
use buzz_server.Launch.{LaunchSpec}
use buzz_server.Launch.Process.{is_terminal, ProcessReceipt, can_adopt}
use buzz_server.Reconcile.{
  SupervisorError, preflight, secret_resolution, invalid_spec, receipt_mismatch, io, lock_poisoned,
  clock, failed_preflight, no_presence, ReconcileOutcome, adopted, started, Parts, after_start,
  start_process, replace_process, ensure_started, ensure_stopped, ensure_enabled, reconcile_desired,
  reconcile,
}

module _ {W : Type 0} (parts : Parts W) where
  -- The last step before a world was to commit the receipt of a process that has just been started
  -- for a launch.
  abbrev pub StartCommitted : LaunchSpec → W → Type 0
  StartCommitted desired w' =
      (receipt : ProcessReceipt) × (before : W) × (between : W) × (parts.start desired before
        ≡ (ok receipt, between))
      × (parts.put_receipt receipt between ≡ (ok tt, w'))

  -- The last step before a world was to commit the observation of a live process of a launch.
  abbrev pub AdoptionCommitted : LaunchSpec → W → Type 0
  AdoptionCommitted desired w' =
      (durable : ProcessReceipt) × (observed : ProcessReceipt) × (before : W) × (between : W)
      × (parts.inspect durable before ≡ (ok observed, between))
      × (parts.put_receipt observed between ≡ (ok tt, w'))
      × (can_adopt desired observed ≡ true)

  -- What each outcome of an enabled agent's reconciliation says of the world that it leaves.
  abbrev pub Commits : LaunchSpec → ReconcileOutcome → W → Type 0
  Commits desired started w' = StartCommitted desired w'
  Commits desired adopted w' = AdoptionCommitted desired w'
  Commits desired failed_preflight w' = Unit
  Commits desired no_presence w' = Unit
  Commits desired _ w' = ⊥

  start_process-Commits :
      (desired : LaunchSpec) (w w' : W) (o : ReconcileOutcome)
      → start_process parts desired w ≡ (ok o, w')
      → Commits desired o w'
  unfolding start_process after_start
  start_process-Commits desired w w' o h = go (parts.start desired w) refl
    where
      to : {p : ReconcileOutcome} → o ≡ p → Commits desired p w' → Commits desired o w'
      to e c = subst (λ x. Commits desired x w') (sym e) c

      go :
          (r : Result SupervisorError ProcessReceipt × W)
          → parts.start desired w ≡ r
          → Commits desired o w'
      go (ok receipt, between) e =
          to {p = started} (ground arith) (receipt, w, between, e, ground arith)
      go (err (preflight reason), between) e = to {p = failed_preflight} (ground arith) tt
      go (err secret_resolution, between) e = to {p = no_presence} (ground arith) tt
      go (err (invalid_spec x), between) e = to {p = no_presence} (ground arith) tt
      go (err receipt_mismatch, between) e = absurd (ground arith)
      go (err (io x), between) e = absurd (ground arith)
      go (err lock_poisoned, between) e = absurd (ground arith)
      go (err clock, between) e = absurd (ground arith)

  replace_process-Commits :
      (desired : LaunchSpec) (observed : ProcessReceipt) (w w' : W) (o : ReconcileOutcome)
      → replace_process parts desired observed w ≡ (ok o, w')
      → Commits desired o w'
  unfolding replace_process
  replace_process-Commits desired observed w w' o h =
      elim (Bool-cases (is_terminal observed.observed_state)) [
        | inl e ↦ start_process-Commits desired w w' o (ground arith)
        | inr e ↦ stops e (parts.stop observed w) refl
      ]
    where
      puts :
          (receipt : ProcessReceipt) (w1 : W)
          → is_terminal observed.observed_state ≡ false
          → parts.stop observed w ≡ (ok receipt, w1)
          → (r : Result StorageError (Unit {0}) × W) → parts.put_receipt receipt w1 ≡ r
          → Commits desired o w'
      puts receipt w1 e s (ok u, w2) p = start_process-Commits desired w2 w' o (ground arith)
      puts receipt w1 e s (err x, w2) p = absurd (ground arith)

      stops :
          is_terminal observed.observed_state ≡ false
          → (r : Result SupervisorError ProcessReceipt × W) → parts.stop observed w ≡ r
          → Commits desired o w'
      stops e (ok receipt, w1) s = puts receipt w1 e s (parts.put_receipt receipt w1) refl
      stops e (err x, w1) s = absurd (ground arith)

  ensure_started-Commits :
      (desired : LaunchSpec) (receipt : Option ProcessReceipt) (w w' : W) (o : ReconcileOutcome)
      → ensure_started parts desired receipt w ≡ (ok o, w')
      → Commits desired o w'
  unfolding ensure_started
  ensure_started-Commits desired none w w' o h = start_process-Commits desired w w' o h
  ensure_started-Commits desired (some durable) w w' o h = inspects (parts.inspect durable w) refl
    where
      puts :
          (observed : ProcessReceipt) (w1 : W)
          → parts.inspect durable w ≡ (ok observed, w1)
          → (r : Result StorageError (Unit {0}) × W) → parts.put_receipt observed w1 ≡ r
          → Commits desired o w'
      puts observed w1 e (ok u, w2) p = elim (Bool-cases (can_adopt desired observed)) [
        | inl a ↦
            let same : o ≡ adopted = ground arith in
            subst (λ x. Commits desired x w') (sym same)
              (durable, observed, w, w1, e, ground arith, a)
        | inr a ↦ replace_process-Commits desired observed w2 w' o (ground arith)
      ]
      puts observed w1 e (err x, w2) p = absurd (ground arith)

      inspects :
          (r : Result SupervisorError ProcessReceipt × W)
          → parts.inspect durable w ≡ r
          → Commits desired o w'
      inspects (ok observed, w1) e = puts observed w1 e (parts.put_receipt observed w1) refl
      inspects (err x, w1) e = absurd (ground arith)

  ensure_stopped_quiet :
      (agent : AgentId) (receipt : Option ProcessReceipt) (w w' : W)
      → ensure_stopped parts agent receipt w ≡ (ok started, w')
      → ⊥
  unfolding ensure_stopped
  ensure_stopped_quiet agent none w w' h = ground arith
  ensure_stopped_quiet agent (some durable) w w' h = ground arith

  reconcile_desired-started :
      (agent : AgentSpec) (launch : Option LaunchSpec) (w w' : W)
      → reconcile_desired parts agent launch w ≡ (ok started, w')
      → (desired : LaunchSpec) × (launch ≡ some desired)
        × (agent.desired_state ≡ enabled)
        × StartCommitted desired w'
  unfolding reconcile_desired ensure_enabled
  reconcile_desired-started agent launch w w' h = reads (parts.get_receipt agent.id w) refl
    where
      enables :
          (receipt : Option ProcessReceipt) (w1 : W) (l : Option LaunchSpec)
          → launch ≡ l
          → agent.desired_state ≡ enabled
          → ensure_enabled parts agent l receipt w1 ≡ (ok started, w')
          → (desired : LaunchSpec) × (launch ≡ some desired)
            × (agent.desired_state ≡ enabled)
            × StartCommitted desired w'
      enables receipt w1 none e d k = absurd (ground arith)
      enables receipt w1 (some desired) e d k =
          (desired, e, d, ensure_started-Commits desired receipt w1 w' started (ground arith))

      decides :
          (receipt : Option ProcessReceipt) (w1 : W)
          → parts.get_receipt agent.id w ≡ (ok receipt, w1)
          → (s : DesiredAgentState) → agent.desired_state ≡ s
          → (desired : LaunchSpec) × (launch ≡ some desired)
            × (agent.desired_state ≡ enabled)
            × StartCommitted desired w'
      decides receipt w1 e disabled d =
          absurd (ensure_stopped_quiet agent.id receipt w1 w' (ground arith))
      decides receipt w1 e deleted d =
          absurd (ensure_stopped_quiet agent.id receipt w1 w' (ground arith))
      decides receipt w1 e enabled d = enables receipt w1 launch refl d (ground arith)

      reads :
          (r : Result StorageError (Option ProcessReceipt) × W)
          → parts.get_receipt agent.id w ≡ r
          → (desired : LaunchSpec) × (launch ≡ some desired)
            × (agent.desired_state ≡ enabled)
            × StartCommitted desired w'
      reads (ok receipt, w1) e = decides receipt w1 e agent.desired_state refl
      reads (err x, w1) e = absurd (ground arith)

  -- A process is reported started only for a running operation of this very agent with a resolved
  -- launch, and only when the last thing done was to commit the receipt that the supervisor's start
  -- of that launch has returned.
  pub reconcile-started :
      (agent_id : AgentId) (operation : DurableOperation) (launch : Option LaunchSpec) (w w' : W)
      → reconcile parts agent_id operation launch w ≡ (ok started, w')
      → (desired : LaunchSpec) × (launch ≡ some desired)
        × (operation.agent_id ≡ some agent_id)
        × (operation.status ≡ running)
        × StartCommitted desired w'
  unfolding reconcile
  reconcile-started agent_id operation launch w w' h = reads (parts.get_agent agent_id w) refl
    where
      reads :
          (r : Result StorageError (Option AgentSpec) × W)
          → parts.get_agent agent_id w ≡ r
          → (desired : LaunchSpec) × (launch ≡ some desired)
            × (operation.agent_id ≡ some agent_id)
            × (operation.status ≡ running)
            × StartCommitted desired w'
      reads (ok (some agent), w1) e =
          let (desired, l, s, c) = reconcile_desired-started agent launch w1 w' (ground arith) in
          (desired, l, ground arith, ground arith, c)
      reads (ok none, w1) e = absurd (ground arith)
      reads (err x, w1) e = absurd (ground arith)

  -- An agent that is disabled or deleted never has a process started: the run is the same whatever
  -- starting a process would do.
  pub reconcile_desired_inert :
      (other : LaunchSpec → Action W SupervisorError ProcessReceipt) (agent : AgentSpec)
      (launch : Option LaunchSpec) (w : W)
      → agent.desired_state ≢ enabled
      → reconcile_desired parts agent launch w
        ≡ reconcile_desired (record parts { start = other }) agent launch w
  unfolding reconcile_desired ensure_stopped
  reconcile_desired_inert other agent launch w d = ground arith
