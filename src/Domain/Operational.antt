-- ===== src/Domain/Operational.antt =====
-- src/factory/domain/operational.py: the operator's policy on operational capabilities. A frozen set
-- is a list of its members.
pub mod Denials
use ai_factory_lab.Common.{
  ℕ, zero, suc, nat_beq, String, ◌≡◌, refl, ◌↔◌, Bool, true, false, not, ◌&&◌, ◌||◌, List, [], ◌∷◌,
  Eq, ◌==◌, string_eq, if◌then◌else◌, contains, code_beq_iff,
}

pub data OperationalCapability : Type 0 where
  scratch database_readonly docker_inspect service_health backup : OperationalCapability

abbrev pub capability_rank : OperationalCapability → ℕ
capability_rank OperationalCapability.scratch = 0
capability_rank OperationalCapability.database_readonly = 1
capability_rank OperationalCapability.docker_inspect = 2
capability_rank OperationalCapability.service_health = 3
capability_rank OperationalCapability.backup = 4

abbrev pub capability_of_rank : ℕ → OperationalCapability
capability_of_rank zero = OperationalCapability.scratch
capability_of_rank (suc zero) = OperationalCapability.database_readonly
capability_of_rank (suc (suc zero)) = OperationalCapability.docker_inspect
capability_of_rank (suc (suc (suc zero))) = OperationalCapability.service_health
capability_of_rank _ = OperationalCapability.backup

pub capability_of_rank-rank :
    (c : OperationalCapability) → capability_of_rank (capability_rank c) ≡ c
capability_of_rank-rank OperationalCapability.scratch = refl
capability_of_rank-rank OperationalCapability.database_readonly = refl
capability_of_rank-rank OperationalCapability.docker_inspect = refl
capability_of_rank-rank OperationalCapability.service_health = refl
capability_of_rank-rank OperationalCapability.backup = refl

instance abbrev pub capability_eq : Eq OperationalCapability
capability_eq = record {
  beq = λ a b. nat_beq (capability_rank a) (capability_rank b);
  beq_iff = code_beq_iff capability_rank capability_of_rank capability_of_rank-rank;
}

pub record OperationalPolicy : Type 0 where
  pub enabled : List OperationalCapability
  pub hosts : List String
  pub paths : List String
  pub commands : List String
  pub targets : List String
  pub docker_targets : List String

-- The arguments of one host operation; an empty one was left out.
pub record HostOperation : Type 0 where
  pub host : String
  pub path : String
  pub command : String
  pub target : String

unfoldable pub is_empty_operation : HostOperation → Bool
is_empty_operation op = op.host == "" && op.path == "" && op.command == "" && op.target == ""

unfoldable pub is_complete_operation : HostOperation → Bool
is_complete_operation op =
    not (op.host == "") && not (op.path == "") && not (op.command == "") && not (op.target == "")

-- The operator's allowlists of hosts, paths and commands.
unfoldable pub is_listed : OperationalPolicy → HostOperation → Bool
is_listed policy op =
    contains policy.hosts op.host
    && contains policy.paths op.path
    && contains policy.commands op.command

-- The rules of one capability for a complete operation.
unfoldable pub permits_host : OperationalPolicy → OperationalCapability → HostOperation → Bool
permits_host policy OperationalCapability.database_readonly op =
    op.host == "local"
    && contains ("inspect" ∷ "read" ∷ []) op.command
    && is_listed policy op
    && contains policy.targets op.target
permits_host policy OperationalCapability.docker_inspect op =
    op.host == "local"
    && op.path == "docker-engine-api"
    && op.command == "inspect"
    && is_listed policy op
    && contains policy.docker_targets op.target
permits_host policy OperationalCapability.service_health op =
    op.host == "https"
    && op.command == "get"
    && is_listed policy op
    && contains policy.targets op.target
permits_host policy _ op = false

-- `OperationalPolicy.permits`
unfoldable pub permits : OperationalPolicy → OperationalCapability → HostOperation → Bool
permits policy capability op =
    if capability == OperationalCapability.scratch
    then contains policy.enabled capability && is_empty_operation op
    else if capability == OperationalCapability.backup || not (contains policy.enabled capability)
    then false
    else if not (is_complete_operation op)
    then false
    else permits_host policy capability op
