-- ===== src/Authz/Tests.antt =====
-- Runs of the authorization policy, and its theorems at inputs where their hypotheses hold.
use fuel_cap.Base.{
  String, ◌≡◌, ◌≢◌, ◌↔◌, ◌⊎◌, refl, true, Option, some, List, [], ◌∷◌, string_eq, includes, length,
}
use fuel_cap.Authz.{
  RoleCode, ReasonCode, pa, rt, fr, au, dp, Verb, view, approve, execute, export, demo, staging,
  production, Workspace, risk_hedging, platform_integrations_audit, control_room, ai_control_centre,
  spread_fx, Principal, AuthorizationRequest, GovernedRequest, step_up, temporary_support_access,
  baseline, grants, includes_role, assignment_conflict, authorize, visible_workspaces,
  evaluate_governed_action, evaluate_break_glass, authorize_tenant_resource, demo_principals,
}
use fuel_cap.Authz.Policy.{IsGranted, authorize-allowed_iff, authorize-auditor}
use fuel_cap.Authz.Decisions.{
  evaluate_governed_action-allowed, evaluate_break_glass-allowed_iff,
  authorize_tenant_resource-isolated,
}

abbrev person : List RoleCode → Principal
person roles = record {
  principal_id = "p-1";
  name = "Ravi";
  email = "ravi@fuelcap.example";
  roles = roles;
  organisation_ids = "org-a" ∷ [];
}

abbrev request : List RoleCode → Workspace → Verb → AuthorizationRequest
request roles w v = record {
  principal = person roles;
  environment = staging;
  active_organisation_id = "org-a";
  workspace = w;
  verb = v;
  action_owner_principal_id = some "p-2";
  assurance = some step_up;
}

abbrev governed : GovernedRequest
governed = record {
  request = request (rt ∷ []) risk_hedging approve;
  reconciled = true;
  price_valid = true;
  requires_step_up = true;
}

presenter_sees :
    length (
      visible_workspaces
        (person (dp ∷ []))
        demo
        "org-a"
        (control_room ∷ spread_fx ∷ ai_control_centre ∷ []))
    ≡ 3
unfolding visible_workspaces authorize assignment_conflict grants baseline
presenter_sees = refl

nine_principals : length demo_principals ≡ 9
nine_principals = refl

authorize-allowed_iff_example :
    (((authorize (request (rt ∷ []) risk_hedging execute)).allowed ≡ true)
      ↔ IsGranted (request (rt ∷ []) risk_hedging execute))
    × (((authorize (request (rt ∷ []) risk_hedging execute)).allowed ≡ true)
        ↔ ((authorize (request (rt ∷ []) risk_hedging execute)).reason_code ≡ ReasonCode.allow))
authorize-allowed_iff_example = authorize-allowed_iff (request (rt ∷ []) risk_hedging execute)

authorize-auditor_example :
    (export ≡ view)
    ⊎ ((export ≡ export) × (platform_integrations_audit ≡ platform_integrations_audit))
unfolding authorize assignment_conflict grants baseline
authorize-auditor_example =
    authorize-auditor (request (au ∷ []) platform_integrations_audit export) refl refl

evaluate_governed_action-allowed_example :
    (true ≡ true)
    × (true ≡ true)
    × ((authorize governed.request).allowed ≡ true)
    × (true ≡ true → some step_up ≡ some step_up)
    × (approve ≡ approve → ◌≢◌ {A = Option String} (some "p-2") (some "p-1"))
unfolding evaluate_governed_action authorize assignment_conflict grants baseline
evaluate_governed_action-allowed_example = evaluate_governed_action-allowed governed refl

evaluate_break_glass-allowed_iff_example :
    (((evaluate_break_glass (person (pa ∷ [])) production step_up temporary_support_access).allowed
        ≡ true)
      ↔ ((temporary_support_access ≡ temporary_support_access)
          × (includes_role (pa ∷ []) pa ≡ true)
          × (step_up ≡ step_up)))
    × ((evaluate_break_glass
          (person (pa ∷ []))
          production
          step_up
          temporary_support_access).incident_required
        ≡ true)
evaluate_break_glass-allowed_iff_example =
    evaluate_break_glass-allowed_iff (person (pa ∷ [])) production step_up temporary_support_access

authorize_tenant_resource-isolated_example :
    (◌≡◌ {A = String} "org-a" "org-a") × (includes {A = String} ("org-a" ∷ []) "org-a" ≡ true)
unfolding authorize_tenant_resource authorize assignment_conflict grants baseline
authorize_tenant_resource-isolated_example =
    authorize_tenant_resource-isolated (person (fr ∷ [])) production "org-a" "org-a" spread_fx refl
