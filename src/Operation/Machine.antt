-- ===== src/Operation/Machine.antt =====
-- The status machine as a relation: what a run of accepted transitions can look like.
use buzz_server.Base.{ℕ, suc, ◌≤◌, ◌≡◌, refl, ◌↔◌, true, false, arith, List, [], ◌∷◌, length}
use buzz_server.Operation.{
  OperationStatus, pending, running, succeeded, failed, cancelled, is_terminal, can_transition_to,
}

-- A run of accepted transitions, with the statuses it passes.
pub data Run : OperationStatus → List OperationStatus → OperationStatus → Type 0 where
  stop : {s : OperationStatus} → Run s [] s
  step :
      {s t u : OperationStatus} {ts : List OperationStatus}
      → can_transition_to s t ≡ true
      → Run t ts u
      → Run s (t ∷ ts) u

-- A status has no way out exactly when it is terminal.
pub is_terminal_iff :
    (s : OperationStatus)
    → (is_terminal s ≡ true) ↔ ((t : OperationStatus) → can_transition_to s t ≡ false)
unfolding is_terminal can_transition_to
is_terminal_iff pending = (λ h. cc, λ h. cc (h running))
is_terminal_iff running = (λ h. cc, λ h. cc (h failed))
is_terminal_iff succeeded = (λ h t. refl, λ h. refl)
is_terminal_iff failed = (λ h t. refl, λ h. refl)
is_terminal_iff cancelled = (λ h t. refl, λ h. refl)

-- How many transitions a status has left at most.
abbrev pub steps_left : OperationStatus → ℕ
steps_left pending = 2
steps_left running = 1
steps_left _ = 0

steps_left-step :
    (s t : OperationStatus) → can_transition_to s t ≡ true → suc (steps_left t) ≤ steps_left s
unfolding can_transition_to
steps_left-step s t h = ground arith

-- Every run of accepted transitions is short: two from `pending`, one from `running`, none from a
-- terminal status.
pub length-Run :
    {s u : OperationStatus} {ts : List OperationStatus} → Run s ts u → length ts ≤ steps_left s
length-Run stop = omega arith
length-Run (step {s} {t} h r) = omega (arith, steps_left-step s t h, length-Run r)
