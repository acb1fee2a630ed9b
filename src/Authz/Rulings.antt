-- ===== src/Authz/Rulings.antt =====
-- The decisions of packages/authz/src/index.ts.
use fuel_cap.Base.{
  String, Bool, true, false, not, ◌&&◌, ◌||◌, Option, none, some, List, ◌==◌, string_eq, includes,
  any, filter, map_or, if◌then◌else◌,
}
use fuel_cap.Authz.Types.{
  pa, au, dp, view, approve, Environment, production, Workspace, Assurance, standard, step_up,
  Principal, AuthorizationRequest, ReasonCode, deny_no_membership, deny_dp_production,
  deny_self_approval, deny_assignment_conflict, AuthorizationDecision, GovernedReason,
  deny_self_approval, GovernedActionDecision, BreakGlassReason, allow_incident_opened,
  deny_protected_invariant, deny_not_platform_admin, BreakGlassDecision, Capability,
  temporary_support_access, TenantReason, deny_tenant_context, TenantDecision, same_role, same_verb,
}
use fuel_cap.Authz.Roles.{includes_role, grants}

abbrev pub is_production : Environment → Bool
is_production production = true
is_production _ = false

abbrev pub is_step_up : Assurance → Bool
is_step_up step_up = true
is_step_up standard = false

-- `assignmentConflict`
unfoldable pub assignment_conflict : Principal → Environment → Option ReasonCode
assignment_conflict p environment =
    if is_production environment && includes_role p.roles dp
    then some deny_dp_production
    else if includes_role p.roles au && any (λ r. not (same_role r au)) p.roles
    then some deny_assignment_conflict
    else if includes_role p.roles dp && any (λ r. not (same_role r dp)) p.roles
    then some deny_assignment_conflict
    else none

abbrev pub deny : ReasonCode → AuthorizationDecision
deny reason = record { allowed = false; reason_code = reason }

-- `request.actionOwnerPrincipalId === request.principal.principalId`
abbrev pub owns_action : AuthorizationRequest → Bool
owns_action r =
    map_or false (λ owner. owner == r.principal.principal_id) r.action_owner_principal_id

unfoldable pub authorize : AuthorizationRequest → AuthorizationDecision
unfolding assignment_conflict
authorize r = elim (assignment_conflict r.principal r.environment) [
  | some conflict ↦ deny conflict
  | none ↦
      if not (includes r.principal.organisation_ids r.active_organisation_id)
      then deny deny_no_membership
      else if same_verb r.verb approve && owns_action r
      then deny deny_self_approval
      else let allowed = any (grants r.workspace r.verb) r.principal.roles in
        record {
          allowed = allowed;
          reason_code = if allowed then ReasonCode.allow else ReasonCode.deny_policy;
        }
]

-- The request of a plain view.
abbrev pub view_request : Principal → Environment → String → Workspace → AuthorizationRequest
view_request principal environment organisation workspace = record {
  principal = principal;
  environment = environment;
  active_organisation_id = organisation;
  workspace = workspace;
  verb = view;
  action_owner_principal_id = none;
  assurance = none;
}

-- `visibleWorkspaces`
unfoldable pub visible_workspaces :
    Principal → Environment → String → List Workspace → List Workspace
visible_workspaces principal environment organisation workspaces =
    filter (λ w. (authorize (view_request principal environment organisation w)).allowed) workspaces

-- The three facts that a governed action adds to its request.
pub record GovernedRequest : Type 0 where
  pub request : AuthorizationRequest
  pub reconciled : Bool
  pub price_valid : Bool
  pub requires_step_up : Bool

abbrev pub is_self_approval : ReasonCode → Bool
is_self_approval deny_self_approval = true
is_self_approval _ = false

abbrev pub govern : Bool → GovernedReason → GovernedActionDecision
govern allowed reason = record { allowed = allowed; reason_code = reason }

-- `evaluateGovernedAction`
unfoldable pub evaluate_governed_action : GovernedRequest → GovernedActionDecision
evaluate_governed_action g =
    let policy = authorize g.request in
    if not g.reconciled || not g.price_valid
    then govern false GovernedReason.deny_invalid_state
    else if not policy.allowed
    then govern false (
        if is_self_approval policy.reason_code
        then GovernedReason.deny_self_approval
        else GovernedReason.deny_policy)
    else if g.requires_step_up && not (map_or false is_step_up g.request.assurance)
    then govern false GovernedReason.require_step_up
    else govern true GovernedReason.allow

abbrev pub is_protected : Capability → Bool
is_protected temporary_support_access = false
is_protected _ = true

abbrev pub break_glass : Bool → BreakGlassReason → BreakGlassDecision
break_glass allowed reason = record {
  allowed = allowed;
  reason_code = reason;
  incident_required = true;
}

-- `evaluateBreakGlass`
unfoldable pub evaluate_break_glass :
    Principal → Environment → Assurance → Capability → BreakGlassDecision
evaluate_break_glass principal environment assurance capability =
    if is_protected capability
    then break_glass false deny_protected_invariant
    else if not (includes_role principal.roles pa)
    then break_glass false deny_not_platform_admin
    else if not (is_step_up assurance)
    then break_glass false BreakGlassReason.require_step_up
    else break_glass true allow_incident_opened

-- `authorizeTenantResource`
unfoldable pub authorize_tenant_resource :
    Principal → Environment → String → String → Workspace → TenantDecision
authorize_tenant_resource principal environment active resource workspace =
    let decision = authorize (view_request principal environment active workspace) in
    if not (active == resource)
    then record { allowed = false; reason_code = deny_tenant_context }
    else record {
      allowed = decision.allowed;
      reason_code = if decision.allowed then TenantReason.allow else deny_tenant_context;
    }
