-- ===== src/Domain/Operational/Denials.antt =====
-- What `OperationalPolicy.permits` of src/factory/domain/operational.py never allows.
use ai_factory_lab.Common.{◌≡◌, ◌≢◌, refl, true, ◌||◌, ◌⊎◌, inl, inr, string_eq, contains, arith}
use ai_factory_lab.Domain.Operational.{
  OperationalCapability, capability_eq, OperationalPolicy, HostOperation, is_empty_operation,
  is_complete_operation, is_listed, permits_host, permits,
}

-- A scratch operation names nothing of the host.
abbrev pub IsScratch : OperationalCapability → HostOperation → Type 0
IsScratch capability op =
    (capability ≡ OperationalCapability.scratch) × (is_empty_operation op ≡ true)

-- A host operation names a host, a path, a command and a target, all of them listed by the operator.
abbrev pub IsListed : OperationalPolicy → HostOperation → Type 0
IsListed policy op =
    (is_complete_operation op ≡ true)
    × (is_listed policy op ≡ true)
    × ((contains policy.targets op.target || contains policy.docker_targets op.target) ≡ true)

-- A permitted operation is of a capability that the operator enabled, never of `backup`; a scratch
-- operation names nothing of the host, and any other names a host, a path, a command and a target
-- that all stand on the operator's allowlists.
pub permits_sound :
    (policy : OperationalPolicy) (capability : OperationalCapability) (op : HostOperation)
    → permits policy capability op ≡ true
    → (contains policy.enabled capability ≡ true)
      × (capability ≢ OperationalCapability.backup)
      × (IsScratch capability op ⊎ IsListed policy op)
unfolding permits permits_host
permits_sound policy OperationalCapability.scratch op h =
    (ground (arith, h), λ e. cc, inl (refl, ground (arith, h)))
permits_sound policy OperationalCapability.database_readonly op h =
    (ground (arith, h), λ e. cc, inr (ground (arith, h), ground (arith, h), ground (arith, h)))
permits_sound policy OperationalCapability.docker_inspect op h =
    (ground (arith, h), λ e. cc, inr (ground (arith, h), ground (arith, h), ground (arith, h)))
permits_sound policy OperationalCapability.service_health op h =
    (ground (arith, h), λ e. cc, inr (ground (arith, h), ground (arith, h), ground (arith, h)))
permits_sound policy OperationalCapability.backup op h = cc
