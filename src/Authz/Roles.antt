-- ===== src/Authz/Roles.antt =====
-- The role table of packages/authz/src/index.ts.
use fuel_cap.Base.{Bool, false, Option, none, some, List, [], ◌∷◌, string_eq, any, map_or}
use fuel_cap.Authz.Types.{
  RoleCode, pa, op, rt, fr, cf, cs, di, au, dp, Verb, view, recommend, initiate, approve, execute,
  export, Workspace, control_room, customers, fleets_vehicles, pricing_data, spread_fx,
  risk_hedging, transactions_ledger, billing_reconciliation, fraud_cases, rules_automation,
  communications, platform_integrations_audit, ai_control_centre, same_role, same_verb,
}

abbrev pub v_only : List Verb
v_only = view ∷ []

abbrev pub vr : List Verb
vr = view ∷ recommend ∷ []

abbrev pub vi : List Verb
vi = view ∷ initiate ∷ []

abbrev pub vri : List Verb
vri = view ∷ recommend ∷ initiate ∷ []

abbrev pub vria : List Verb
vria = view ∷ recommend ∷ initiate ∷ approve ∷ []

abbrev pub all_verbs : List Verb
all_verbs = view ∷ recommend ∷ initiate ∷ approve ∷ execute ∷ export ∷ []

-- `baseline[role][workspace]`; an entry that is missing is `undefined`.
unfoldable pub baseline : RoleCode → Workspace → Option (List Verb)
baseline pa control_room = some vr
baseline pa customers = some vi
baseline pa fleets_vehicles = some vi
baseline pa rules_automation = some vi
baseline pa platform_integrations_audit = some vria
baseline pa ai_control_centre = some vria
baseline pa _ = some v_only
baseline op control_room = some vri
baseline op customers = some vri
baseline op fleets_vehicles = some vri
baseline op risk_hedging = some vr
baseline op transactions_ledger = some vri
baseline op billing_reconciliation = some vi
baseline op fraud_cases = some vi
baseline op rules_automation = some vr
baseline op communications = some vri
baseline op ai_control_centre = none
baseline op _ = some v_only
baseline rt control_room = some vri
baseline rt pricing_data = some vria
baseline rt spread_fx = some vria
baseline rt risk_hedging = some all_verbs
baseline rt fraud_cases = some vr
baseline rt rules_automation = some vria
baseline rt ai_control_centre = none
baseline rt _ = some v_only
baseline fr control_room = some vri
baseline fr spread_fx = some vr
baseline fr risk_hedging = some vr
baseline fr transactions_ledger = some vria
baseline fr billing_reconciliation = some all_verbs
baseline fr rules_automation = some vri
baseline fr ai_control_centre = none
baseline fr _ = some v_only
baseline cf control_room = some vri
baseline cf customers = some vria
baseline cf fleets_vehicles = some vria
baseline cf risk_hedging = some vr
baseline cf fraud_cases = some all_verbs
baseline cf rules_automation = some vria
baseline cf communications = some vria
baseline cf ai_control_centre = none
baseline cf _ = some v_only
baseline cs customers = some vri
baseline cs fleets_vehicles = some vri
baseline cs fraud_cases = some vi
baseline cs communications = some vri
baseline cs spread_fx = none
baseline cs risk_hedging = none
baseline cs platform_integrations_audit = none
baseline cs ai_control_centre = none
baseline cs _ = some v_only
baseline di control_room = some vri
baseline di pricing_data = some (view ∷ recommend ∷ initiate ∷ execute ∷ [])
baseline di rules_automation = some vri
baseline di platform_integrations_audit =
    some (view ∷ recommend ∷ initiate ∷ approve ∷ execute ∷ [])
baseline di ai_control_centre = some vri
baseline di _ = some v_only
baseline au platform_integrations_audit = some (view ∷ export ∷ [])
baseline au _ = some v_only
baseline dp _ = some v_only

abbrev pub includes_verb : List Verb → Verb → Bool
includes_verb verbs verb = any (λ v. same_verb v verb) verbs

abbrev pub includes_role : List RoleCode → RoleCode → Bool
includes_role roles role = any (λ r. same_role r role) roles

-- `baseline[role][workspace]?.includes(verb)`
unfoldable pub grants : Workspace → Verb → RoleCode → Bool
unfolding baseline
grants workspace verb role =
    map_or false (λ verbs. includes_verb verbs verb) (baseline role workspace)
