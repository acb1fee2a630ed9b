-- ===== src/Authz/Types.antt =====
-- The data of packages/authz/src/index.ts. `policyVersion`, a constant, is left out of decisions.
use fuel_cap.Base.{ℕ, String, Bool, Option, List, nat_beq}

pub data RoleCode : Type 0 where
  pa op rt fr cf cs di au dp : RoleCode

pub data Verb : Type 0 where
  view recommend initiate approve execute export : Verb

pub data Environment : Type 0 where
  demo staging production : Environment

pub data Workspace : Type 0 where
  control_room customers fleets_vehicles pricing_data spread_fx risk_hedging : Workspace
  transactions_ledger billing_reconciliation fraud_cases rules_automation : Workspace
  communications platform_integrations_audit ai_control_centre : Workspace

pub data OrganisationType : Type 0 where
  fuelcap personal fleet : OrganisationType

pub data Market : Type 0 where
  global us uk ca : Market

pub data Assurance : Type 0 where
  standard step_up : Assurance

pub record Organisation : Type 0 where
  pub organisation_id : String
  pub name : String
  pub organisation_type : OrganisationType
  pub market : Market

pub record Principal : Type 0 where
  pub principal_id : String
  pub name : String
  pub email : String
  pub roles : List RoleCode
  pub organisation_ids : List String

pub record AuthorizationRequest : Type 0 where
  pub principal : Principal
  pub environment : Environment
  pub active_organisation_id : String
  pub workspace : Workspace
  pub verb : Verb
  pub action_owner_principal_id : Option String
  pub assurance : Option Assurance

pub data ReasonCode : Type 0 where
  allow deny_no_membership deny_dp_production deny_policy deny_self_approval : ReasonCode
  deny_assignment_conflict : ReasonCode

pub record AuthorizationDecision : Type 0 where
  pub allowed : Bool
  pub reason_code : ReasonCode

-- `GovernedActionDecision`
pub data GovernedReason : Type 0 where
  allow require_step_up deny_self_approval deny_invalid_state deny_policy : GovernedReason

pub record GovernedActionDecision : Type 0 where
  pub allowed : Bool
  pub reason_code : GovernedReason

pub data BreakGlassReason : Type 0 where
  allow_incident_opened deny_protected_invariant deny_not_platform_admin : BreakGlassReason
  require_step_up : BreakGlassReason

pub record BreakGlassDecision : Type 0 where
  pub allowed : Bool
  pub reason_code : BreakGlassReason
  pub incident_required : Bool

pub data Capability : Type 0 where
  temporary_support_access validate_price clear_reconciliation_break self_approve : Capability

-- The decision of `authorizeTenantResource`.
pub data TenantReason : Type 0 where
  allow deny_tenant_context : TenantReason

pub record TenantDecision : Type 0 where
  pub allowed : Bool
  pub reason_code : TenantReason

abbrev role_index : RoleCode → ℕ
role_index pa = 0
role_index op = 1
role_index rt = 2
role_index fr = 3
role_index cf = 4
role_index cs = 5
role_index di = 6
role_index au = 7
role_index dp = 8

abbrev pub same_role : RoleCode → RoleCode → Bool
same_role a b = nat_beq (role_index a) (role_index b)

abbrev verb_index : Verb → ℕ
verb_index view = 0
verb_index recommend = 1
verb_index initiate = 2
verb_index approve = 3
verb_index execute = 4
verb_index export = 5

abbrev pub same_verb : Verb → Verb → Bool
same_verb a b = nat_beq (verb_index a) (verb_index b)
