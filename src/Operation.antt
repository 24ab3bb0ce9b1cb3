-- ===== src/Operation.antt =====
-- src/operation.rs: the kinds of durable operations and the status machine.
pub mod Machine
use buzz_server.Base.{◌≡◌, Bool, true, false, Eq, ◌↔◌, arith}

pub data OperationKind : Type 0 where
  create_agent update_agent enable_agent disable_agent delete_agent purge_agent : OperationKind

pub data OperationStatus : Type 0 where
  pending running succeeded failed cancelled : OperationStatus

unfoldable pub is_terminal : OperationStatus → Bool
is_terminal succeeded = true
is_terminal failed = true
is_terminal cancelled = true
is_terminal _ = false

unfoldable pub can_transition_to : OperationStatus → OperationStatus → Bool
can_transition_to pending running = true
can_transition_to pending cancelled = true
can_transition_to running succeeded = true
can_transition_to running failed = true
can_transition_to running cancelled = true
can_transition_to _ _ = false

-- The derived `==` on kinds and on statuses.
abbrev kind_beq : OperationKind → OperationKind → Bool
kind_beq create_agent create_agent = true
kind_beq update_agent update_agent = true
kind_beq enable_agent enable_agent = true
kind_beq disable_agent disable_agent = true
kind_beq delete_agent delete_agent = true
kind_beq purge_agent purge_agent = true
kind_beq _ _ = false

pub kind_beq_iff : (a b : OperationKind) → (kind_beq a b ≡ true) ↔ (a ≡ b)
kind_beq_iff a b = ground arith

instance abbrev pub kind_eq : Eq OperationKind
kind_eq = record { eqb = kind_beq; eqb_iff = kind_beq_iff }

abbrev status_beq : OperationStatus → OperationStatus → Bool
status_beq pending pending = true
status_beq running running = true
status_beq succeeded succeeded = true
status_beq failed failed = true
status_beq cancelled cancelled = true
status_beq _ _ = false

pub status_beq_iff : (a b : OperationStatus) → (status_beq a b ≡ true) ↔ (a ≡ b)
status_beq_iff a b = ground arith

instance abbrev pub status_eq : Eq OperationStatus
status_eq = record { eqb = status_beq; eqb_iff = status_beq_iff }
