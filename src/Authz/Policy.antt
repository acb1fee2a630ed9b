-- ===== src/Authz/Policy.antt =====
-- Which requests `authorize` of packages/authz/src/index.ts allows.
use fuel_cap.Base.{
  ◌≡◌, ◌≢◌, ◌↔◌, ◌⊎◌, sym, ap, ◌∙◌, inl, inr, Bool, true, false, false≢true, not, ◌&&◌, none, List,
  [], ◌∷◌, includes, string_eq, any, Bool-cases, ||-eq_false, arith,
}
use fuel_cap.Authz.{
  RoleCode, au, dp, Verb, view, approve, export, Environment, production, Workspace,
  platform_integrations_audit, Principal, AuthorizationRequest, ReasonCode, same_role, same_verb,
  includes_role, grants, is_production, owns_action, assignment_conflict, authorize,
}

-- A principal who holds a role and no other is granted what that role is.
only_role :
    (f : RoleCode → Bool) (role : RoleCode) (roles : List RoleCode)
    → any (λ r. not (same_role r role)) roles ≡ false
    → any f roles ≡ true
    → f role ≡ true
only_role f role [] h k = absurd (false≢true k)
only_role f role (r ∷ roles) h k =
    let (same, rest) = ||-eq_false (not (same_role r role)) _ h in
    elim (Bool-cases (f r)) [
      | inl e ↦ ap f (sym (role_of r role same)) ∙ e
      | inr e ↦ only_role f role roles rest (rw e at k)
    ]
  where
    role_of : (a b : RoleCode) → not (same_role a b) ≡ false → a ≡ b
    role_of a b p = ground arith

-- What an allowed request has passed.
pub record IsGranted (r : AuthorizationRequest) : Type 0 where
  pub no_conflict : assignment_conflict r.principal r.environment ≡ none
  pub member : includes r.principal.organisation_ids r.active_organisation_id ≡ true
  pub not_own : (same_verb r.verb approve && owns_action r) ≡ false
  pub granted : any (grants r.workspace r.verb) r.principal.roles ≡ true

pub authorize-IsGranted : (r : AuthorizationRequest) → (authorize r).allowed ≡ true → IsGranted r
unfolding authorize
authorize-IsGranted r h = ground arith

-- A request is allowed exactly when the principal's roles do not conflict, the principal is a member
-- of the active organisation, it is not an approval of the principal's own action, and some role is
-- granted the verb in the workspace; and the reason is "ALLOW" exactly then.
pub authorize-allowed_iff :
    (r : AuthorizationRequest)
    → (((authorize r).allowed ≡ true) ↔ IsGranted r)
      × (((authorize r).allowed ≡ true) ↔ ((authorize r).reason_code ≡ ReasonCode.allow))
unfolding authorize
authorize-allowed_iff r =
    ((authorize-IsGranted r, λ g. ground arith), (λ h. ground arith, λ h. ground arith))

conflict-auditor :
    (p : Principal) (environment : Environment)
    → assignment_conflict p environment ≡ none
    → includes_role p.roles au ≡ true
    → any (λ r. not (same_role r au)) p.roles ≡ false
unfolding assignment_conflict
conflict-auditor p environment h k = ground arith

conflict-presenter :
    (p : Principal) (environment : Environment)
    → assignment_conflict p environment ≡ none
    → includes_role p.roles dp ≡ true
    → (any (λ r. not (same_role r dp)) p.roles ≡ false) × (is_production environment ≡ false)
unfolding assignment_conflict
conflict-presenter p environment h k = ground arith

grants-au :
    (w : Workspace) (v : Verb)
    → grants w v au ≡ true
    → (v ≡ view) ⊎ ((v ≡ export) × (w ≡ platform_integrations_audit))
unfolding grants
grants-au w v h = ground arith

grants-dp : (w : Workspace) (v : Verb) → grants w v dp ≡ true → v ≡ view
unfolding grants
grants-dp w v h = ground arith

-- An auditor reads only: a principal with the role AU, whatever other roles are listed, is allowed
-- nothing but to view, and to export in the platform audit workspace.
pub authorize-auditor :
    (r : AuthorizationRequest)
    → includes_role r.principal.roles au ≡ true
    → (authorize r).allowed ≡ true
    → (r.verb ≡ view) ⊎ ((r.verb ≡ export) × (r.workspace ≡ platform_integrations_audit))
authorize-auditor r role h =
    let g = authorize-IsGranted r h in
    let only = conflict-auditor r.principal r.environment g.no_conflict role in
    grants-au r.workspace r.verb
      (only_role (grants r.workspace r.verb) au r.principal.roles only g.granted)

-- A demo presenter only views, and nothing at all in production: for a principal with the role DP,
-- whatever other roles are listed, an allowed request is a view outside production.
pub authorize-presenter :
    (r : AuthorizationRequest)
    → includes_role r.principal.roles dp ≡ true
    → (authorize r).allowed ≡ true
    → (r.verb ≡ view) × (r.environment ≢ production)
authorize-presenter r role h =
    let g = authorize-IsGranted r h in
    let (only, elsewhere) = conflict-presenter r.principal r.environment g.no_conflict role in
    (
      grants-dp r.workspace r.verb
          (only_role (grants r.workspace r.verb) dp r.principal.roles only g.granted),
      λ e. false≢true (sym elsewhere ∙ ap is_production e),
    )
