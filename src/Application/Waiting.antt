-- ===== src/Application/Waiting.antt =====
-- src/application.rs, `wait_for_operation_terminal` and the condition variable that it sleeps on.
use buzz_server.Base.{
  ℕ, zero, suc, ◌+◌, ◌-◌, ◌≤◌, ◌<◌, true, Option, none, some, Result, ok, err, ◌≡◌, ◌≢◌, ◌⊎◌, inl,
  inr, leb, refl, Bool-cases, ◌||◌, ◌==◌, nat_eq, if◌then◌else◌, arith,
}
use buzz_server.Base.Action.{◌>>=◌, ◌>>◌, pure}
use buzz_server.Operation.{is_terminal}
use buzz_server.Storage.Schema.{OperationId, DurableOperation}
use buzz_server.Storage.Operations.{get_operation}
use buzz_server.Api.{OperationResource, ApplicationError, not_found}
use buzz_server.Api.Service.{Call}
use buzz_server.Application.{World, operation_resource, perform}
use buzz_server.Application.Completion.{get_operation_resource}

-- What std gives: the monotonic clock, and the condition variable's `wait_timeout_while` on the
-- generation. Other threads run during that wait, and during the pauses between two steps.
pub record Threads (X : Type 0) : Type 0 where
  pub time : World X → ℕ
  pub pause : World X → World X
  pub wait_timeout_while : ℕ → ℕ → World X → World X

abbrev pub look : {X A : Type 0} → (World X → A) → Call (World X) A
look f w = (ok (f w), w)

module _ {X : Type 0} (threads : Threads X) where
  unfoldable pub wait_for_change : ℕ → ℕ → World X → World X
  wait_for_change snapshot timeout w =
      if w.generation == snapshot then threads.wait_timeout_while snapshot timeout w else w

  -- The sleep at the end of a turn.
  unfoldable pub sleep : ℕ → ℕ → World X → World X
  unfolding wait_for_change
  sleep snapshot deadline w =
      let w' = threads.pause w in wait_for_change snapshot (deadline - threads.time w') w'

  -- What the loop does with the operation that it has read.
  unfoldable pub after_read : ℕ → ℕ → OperationResource → Call (World X) (Option OperationResource)
  after_read snapshot deadline operation w =
      if is_terminal operation.status || leb deadline (threads.time w)
      then (ok (some operation), w)
      else (ok none, sleep snapshot deadline w)

  -- One turn of the loop; `none` goes on.
  unfoldable pub turn : OperationId → ℕ → Call (World X) (Option OperationResource)
  turn id deadline = do
    snapshot ← look (λ w. w.generation)
    perform threads.pause
    operation ← get_operation_resource id
    after_read snapshot deadline operation

  abbrev pub go_on :
      Call (World X) (Option OperationResource)
      → Option OperationResource
      → Call (World X) (Option OperationResource)
  go_on rest none = rest
  go_on rest (some operation) = pure (some operation)

  -- `none` when the turns are used up.
  unfoldable pub turns : ℕ → OperationId → ℕ → Call (World X) (Option OperationResource)
  turns zero id deadline = pure none
  turns (suc fuel) id deadline = turn id deadline >>= go_on (turns fuel id deadline)

  unfoldable pub wait_for_operation_terminal :
      ℕ → OperationId → ℕ → Call (World X) (Option OperationResource)
  wait_for_operation_terminal fuel id timeout = do
    start ← look threads.time
    turns fuel id (start + timeout)

-- What the other threads and std are relied on for: time does not run backwards, a wait ends because
-- the generation has changed or because its time is over, and at most `left` more notifications come.
pub record Fair {X : Type 0} (threads : Threads X) (left : World X → ℕ) : Type 0 where
  pub pause_time : (w : World X) → threads.time w ≤ threads.time (threads.pause w)
  pub pause_left :
      (w : World X)
      → (left (threads.pause w) ≤ left w)
        × ((threads.pause w).generation ≢ w.generation → left (threads.pause w) < left w)
  pub wait_time :
      (s t : ℕ) (w : World X) → threads.time w ≤ threads.time (threads.wait_timeout_while s t w)
  pub wait_left :
      (s t : ℕ) (w : World X)
      → w.generation ≡ s
      → (left (threads.wait_timeout_while s t w) < left w)
        ⊎ ((left (threads.wait_timeout_while s t w) ≤ left w)
            × (threads.time w + t ≤ threads.time (threads.wait_timeout_while s t w)))

module _ {X : Type 0} (threads : Threads X) (left : World X → ℕ) (fair : Fair threads left)
    (id : OperationId) (deadline : ℕ) where
  -- An answer is the stored operation, terminal unless the deadline has passed.
  abbrev pub Answered : OperationResource → World X → Type 0
  Answered operation w =
      (get_operation_resource id w ≡ (ok operation, w))
      × ((is_terminal operation.status ≡ true) ⊎ (deadline ≤ threads.time w))

  -- What a turn leads to: an answer, an error, or a turn with fewer notifications or no time left.
  abbrev pub Turned :
      World X → Result ApplicationError (Option OperationResource) × World X → Type 0
  Turned w (ok (some operation), w') = Answered operation w'
  Turned w (ok none, w') =
      ¬ (deadline ≤ threads.time w)
      × ((left w' < left w) ⊎ ((left w' ≤ left w) × (deadline ≤ threads.time w')))
  Turned w (err e, w') = (e ≡ not_found) × (get_operation_resource id w' ≡ (err not_found, w'))

  -- How the loop may end: it never runs out of turns.
  abbrev pub Ends : Result ApplicationError (Option OperationResource) × World X → Type 0
  Ends (ok (some operation), w) = Answered operation w
  Ends (ok none, w) = ⊥
  Ends (err e, w) = (e ≡ not_found) × (get_operation_resource id w ≡ (err not_found, w))

  sleep-left :
      (w0 w : World X)
      → (left w ≤ left w0) × (w.generation ≢ w0.generation → left w < left w0)
      → let w' = sleep threads w0.generation deadline w in
        (left w' < left w0) ⊎ ((left w' ≤ left w0) × (deadline ≤ threads.time w'))
  unfolding sleep wait_for_change
  sleep-left w0 w h =
      let w2 = threads.pause w in
      let t = deadline - threads.time w2 in
      let p = fair.pause_left w in
      elim (Bool-cases (w2.generation == w0.generation)) [
        | inl e ↦ ground (arith, fair.wait_left w0.generation t w2)
        | inr e ↦ ground arith
      ]

  after_read-Turned :
      (w0 w : World X) (operation : OperationResource)
      → threads.time w0 ≤ threads.time w
      → (left w ≤ left w0) × (w.generation ≢ w0.generation → left w < left w0)
      → get_operation_resource id w ≡ (ok operation, w)
      → Turned w0 (after_read threads w0.generation deadline operation w)
  unfolding after_read
  after_read-Turned w0 w operation t h r = elim (Bool-cases (is_terminal operation.status)) [
    | inl e ↦ rw e (r, inl e)
    | inr e ↦ elim (Bool-cases (leb deadline (threads.time w))) [
      | inl d ↦ rw (e, d) (r, inr (ground arith))
      | inr d ↦ rw (e, d) (λ early. ground arith, sleep-left w0 w h)
    ]
  ]

  turn-Turned : (w : World X) → Turned w (turn threads id deadline w)
  unfolding turn
  turn-Turned w = go (get_operation id w1.db) refl
    where
      w1 : World X
      w1 = threads.pause w

      go :
          (row : Option DurableOperation)
          → get_operation id w1.db ≡ row
          → Turned w (turn threads id deadline w)
      go none e =
          let r : get_operation_resource id w1 ≡ (err not_found, w1) =
            unfold get_operation_resource in rw e refl in
          rw r (refl, r)
      go (some o) e =
          let r : get_operation_resource id w1 ≡ (ok (operation_resource o), w1) =
            unfold get_operation_resource in rw e refl in
          rw r (
            after_read-Turned w w1 (operation_resource o) (fair.pause_time w) (fair.pause_left w) r)

  -- Enough turns for what is left.
  abbrev Enough : ℕ → World X → Type 0
  Enough fuel w = (left w + 2 ≤ fuel) ⊎ ((1 ≤ fuel) × (deadline ≤ threads.time w))

  turns_step :
      (fuel : ℕ) (w : World X)
      → Enough (suc fuel) w
      → ((w' : World X) → Enough fuel w' → Ends (turns threads fuel id deadline w'))
      → (r : Result ApplicationError (Option OperationResource) × World X) → Turned w r
      → turn threads id deadline w ≡ r
      → Ends (turns threads (suc fuel) id deadline w)
  unfolding turns
  turns_step fuel w h rest (ok (some operation), w') t e = rw e t
  turns_step fuel w h rest (ok none, w') (late, progress) e = rw e (rest w' (ground arith))
  turns_step fuel w h rest (err x, w') t e = rw e t

  turns-Answered :
      (fuel : ℕ) (w : World X) → Enough fuel w → Ends (turns threads fuel id deadline w)
  unfolding turns
  turns-Answered zero w h = absurd (ground arith)
  turns-Answered (suc fuel) w h =
      turns_step fuel w h (turns-Answered fuel) (turn threads id deadline w) (turn-Turned w) refl

-- A wait ends: given more than one turn beyond the notifications that other threads still make, it
-- answers with the stored operation, terminal unless the deadline has passed, or finds none.
pub wait_for_operation_terminal-Ends :
    {X : Type 0} (threads : Threads X) (left : World X → ℕ) (fair : Fair threads left)
    (id : OperationId) (timeout fuel : ℕ) (w : World X)
    → left w + 2 ≤ fuel
    → Ends threads left fair id
        (threads.time w + timeout)
        (wait_for_operation_terminal threads fuel id timeout w)
unfolding wait_for_operation_terminal
wait_for_operation_terminal-Ends threads left fair id timeout fuel w h =
    turns-Answered threads left fair id (threads.time w + timeout) fuel w (inl h)
