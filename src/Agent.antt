-- ===== src/Agent.antt =====
-- src/agent.rs: the lifecycle record of an agent that the database keeps, and its validation.
pub mod Files
use buzz_server.Base.{
  ℕ, Bool, true, false, not, List, String, Result, ok, ◌>>◌, fail_if, any, if◌then◌else◌, Eq, ◌↔◌,
  ◌≡◌, arith,
}
use buzz_server.Text.{codes, is_empty}
use buzz_server.Text.Validate.{ValidationError, invalid, validate_nonempty, valid_environment_key}

-- A typed id is the 128 bits of its UUID.
abbrev pub AgentId : Type 0
AgentId = ℕ

abbrev pub CommunityConfigId : Type 0
CommunityConfigId = ℕ

pub data DesiredAgentState : Type 0 where
  enabled disabled deleted : DesiredAgentState

abbrev desired_beq : DesiredAgentState → DesiredAgentState → Bool
desired_beq enabled enabled = true
desired_beq disabled disabled = true
desired_beq deleted deleted = true
desired_beq _ _ = false

pub desired_beq_iff : (a b : DesiredAgentState) → (desired_beq a b ≡ true) ↔ (a ≡ b)
desired_beq_iff a b = ground arith

instance abbrev pub desired_eq : Eq DesiredAgentState
desired_eq = record { eqb = desired_beq; eqb_iff = desired_beq_iff }

pub record RuntimeSpec : Type 0 where
  pub runtime_id : String
  pub environment : List (String × String)

pub record AgentSpec : Type 0 where
  pub id : AgentId
  pub community_config_id : CommunityConfigId
  pub display_name : String
  pub system_prompt : String
  pub runtime : RuntimeSpec
  pub desired_state : DesiredAgentState

abbrev pub key_of : String × String → String
key_of (k, v) = k

-- `RuntimeSpec::validate`
unfoldable pub validate_runtime : RuntimeSpec → Result ValidationError (Unit {0})
unfolding any valid_environment_key invalid
validate_runtime r =
    fail_if (any (λ e. not (valid_environment_key (key_of e))) r.environment)
      (invalid "runtime.environment" "contains an invalid environment variable name")

unfoldable pub validate : AgentSpec → Result ValidationError (Unit {0})
unfolding validate_nonempty is_empty validate_runtime
validate a = do
  validate_nonempty "display_name" a.display_name 120
  (if is_empty (codes a.system_prompt)
      then ok tt
      else validate_nonempty "system_prompt" a.system_prompt 65536)
  validate_runtime a.runtime
