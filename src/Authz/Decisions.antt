-- ===== src/Authz/Decisions.antt =====
-- The decisions of packages/authz/src/index.ts that build on `authorize`.
use fuel_cap.Base.{
  String, ◌≡◌, ◌≢◌, ◌↔◌, inl, inr, true, false≢true, some, ◌==◌, includes, string_eq, ==-eq,
  ==_refl, Bool-cases, subst, arith,
}
use fuel_cap.Authz.{
  pa, approve, Environment, Workspace, Principal, Assurance, step_up, Capability,
  temporary_support_access, AuthorizationRequest, GovernedRequest, includes_role, authorize,
  view_request, evaluate_governed_action, evaluate_break_glass, authorize_tenant_resource,
}
use fuel_cap.Authz.Policy.{IsGranted, authorize-IsGranted}

not_self :
    (r : AuthorizationRequest)
    → IsGranted r
    → r.verb ≡ approve
    → r.action_owner_principal_id ≢ some r.principal.principal_id
not_self r g approval owner = ground (arith, g.not_own, ==_refl r.principal.principal_id)

-- A governed action goes ahead only on a reconciled, validly priced state, with the policy's consent,
-- with step-up assurance where it is required, and never as the approval of one's own action.
pub evaluate_governed_action-allowed :
    (g : GovernedRequest)
    → (evaluate_governed_action g).allowed ≡ true
    → (g.reconciled ≡ true)
      × (g.price_valid ≡ true)
      × ((authorize g.request).allowed ≡ true)
      × (g.requires_step_up ≡ true → g.request.assurance ≡ some step_up)
      × (g.request.verb ≡ approve
          → g.request.action_owner_principal_id ≢ some g.request.principal.principal_id)
unfolding evaluate_governed_action
evaluate_governed_action-allowed g h =
    let policy : (authorize g.request).allowed ≡ true = ground arith in
    (
      ground arith,
      ground arith,
      policy,
      λ needed. ground arith,
      λ approval owner. not_self g.request (authorize-IsGranted g.request policy) approval owner,
    )

-- Break glass is allowed exactly for temporary support access, to a platform administrator, with
-- step-up assurance; and every decision requires an incident.
pub evaluate_break_glass-allowed_iff :
    (p : Principal) (environment : Environment) (assurance : Assurance) (capability : Capability)
    → (((evaluate_break_glass p environment assurance capability).allowed ≡ true) ↔ (
        (capability ≡ temporary_support_access)
        × (includes_role p.roles pa ≡ true)
        × (assurance ≡ step_up)))
      × ((evaluate_break_glass p environment assurance capability).incident_required ≡ true)
unfolding evaluate_break_glass
evaluate_break_glass-allowed_iff p environment assurance capability = ground arith

-- Tenants are apart: a resource is visible only from its own organisation, and only to a principal
-- who is a member of that organisation.
pub authorize_tenant_resource-isolated :
    (p : Principal) (environment : Environment) (active resource : String) (w : Workspace)
    → (authorize_tenant_resource p environment active resource w).allowed ≡ true
    → (active ≡ resource) × (includes p.organisation_ids resource ≡ true)
unfolding authorize_tenant_resource
authorize_tenant_resource-isolated p environment active resource w h =
    elim (Bool-cases (active == resource)) [
      | inl e ↦
          let same = ==-eq active resource e in
          let g = authorize-IsGranted (view_request p environment active w) (rw e at h) in
          (same, subst (λ o. includes p.organisation_ids o ≡ true) same g.member)
      | inr e ↦ absurd (false≢true (rw e at h))
    ]
