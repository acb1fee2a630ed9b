-- ===== src/DemoControl/Invariant.antt =====
-- What holds of every snapshot that the commands of packages/demo-control/src/index.ts reach.
use fuel_cap.Base.{
  ℕ, zero, suc, ◌+◌, ◌-◌, ◌≤◌, ◌≡◌, refl, sym, ap, subst, ◌∙◌, inl, inr, ◌⊎◌, Bool, true, false,
  not, ◌&&◌, ◌||◌, List, [], ◌∷◌, ◌++◌, ◌==◌, string_eq, nat_eq, ==_refl, ==_sym, ||-eq_false,
  false≢true, any, length, drop, length-append, length-drop, slice_last, Bool-cases, ok, >>-eq_ok,
  ok_eq, arith,
}
use fuel_cap.Base.Text.{is_blank}
use fuel_cap.DemoControl.{
  CommandType, reset_baseline, publish_price_rise, withdraw_new_quotes, DemoControlSnapshot,
  DemoControlCommand, DemoControlAudit, DemoControlError, initial_snapshot, project, audit_event,
  advance, is_duplicate, apply_demo_control_command, validate_demo_control_snapshot, is_paused,
  is_withdrawn, demo_control_schema, channel,
}

-- The contract that the check tests, and the bound on the audit trail.
pub record IsContract (s : DemoControlSnapshot) : Type 0 where
  pub checked : validate_demo_control_snapshot s ≡ ok s
  pub bounded : length s.audit ≤ 10

-- A returned command is one of two: a duplicate, which changes nothing, or an advance.
pub apply-cases :
    (s : DemoControlSnapshot) (c : DemoControlCommand) {t : DemoControlSnapshot}
    → apply_demo_control_command s c ≡ ok t
    → ((is_duplicate s.audit c.idempotency_key ≡ true) × (t ≡ s))
      ⊎ ((is_duplicate s.audit c.idempotency_key ≡ false) × (t ≡ advance s c))
unfolding apply_demo_control_command
apply-cases s c {t} h =
    let (_, h₁) =
      >>-eq_ok (not (c.role == "DP") && not (c.role == "RT"))
        DemoControlError.requires_presenter_or_risk_role _ h in
    let (_, h₂) = >>-eq_ok (is_blank c.actor_id) DemoControlError.requires_named_actor _ h₁ in
    let (_, h₃) =
      >>-eq_ok (is_blank c.idempotency_key) DemoControlError.requires_idempotency_key _ h₂ in
    elim (Bool-cases (is_duplicate s.audit c.idempotency_key)) [
      | inl e ↦ inl (e, sym (rw e at (ok_eq h₃)))
      | inr e ↦ inr (e, sym (rw e at (ok_eq h₃)))
    ]

validated :
    (s : DemoControlSnapshot)
    → validate_demo_control_snapshot s ≡ ok s
    → (not (s.schema_version == demo_control_schema) || not (s.channel_id == channel)) ≡ false
unfolding validate_demo_control_snapshot
validated s h =
    (>>-eq_ok (not (s.schema_version == demo_control_schema) || not (s.channel_id == channel))
      DemoControlError.contract_invalid _ h).0

-- A projection keeps the contract, and pauses quotes only when it withdraws them.
project-schema :
    (k : CommandType) (s : DemoControlSnapshot) → (project k s).schema_version ≡ s.schema_version
unfolding project
project-schema reset_baseline s = refl
project-schema publish_price_rise s = refl
project-schema withdraw_new_quotes s = refl

project-channel :
    (k : CommandType) (s : DemoControlSnapshot) → (project k s).channel_id ≡ s.channel_id
unfolding project
project-channel reset_baseline s = refl
project-channel publish_price_rise s = refl
project-channel withdraw_new_quotes s = refl

project-consistent :
    (k : CommandType) (s : DemoControlSnapshot)
    → (is_paused (project k s).quote_availability && not (is_withdrawn (project k s).state)) ≡ false
unfolding project
project-consistent reset_baseline s = refl
project-consistent publish_price_rise s = refl
project-consistent withdraw_new_quotes s = refl

advance-checked :
    (s : DemoControlSnapshot) (c : DemoControlCommand)
    → validate_demo_control_snapshot s ≡ ok s
    → validate_demo_control_snapshot (advance s c) ≡ ok (advance s c)
unfolding advance validate_demo_control_snapshot
advance-checked s c h = rw (
  project-schema c.command s,
  project-channel c.command s,
  validated s h,
  project-consistent c.command s,
)

advance-bounded :
    (s : DemoControlSnapshot) (c : DemoControlCommand) → length (advance s c).audit ≤ 10
unfolding advance
advance-bounded s c =
    let events = s.audit ++ audit_event c (s.sequence + 1) ∷ [] in
    omega (arith, length-drop (length events - 10) events)

-- The snapshots that commands lead to; a command that throws changes nothing and is left out.
pub data Reachable : DemoControlSnapshot → Type 0 where
  start : {s : DemoControlSnapshot} → s ≡ initial_snapshot → Reachable s
  next :
      {s t : DemoControlSnapshot} (c : DemoControlCommand)
      → Reachable s
      → apply_demo_control_command s c ≡ ok t
      → Reachable t

-- Every snapshot that any commands lead to passes its own check, so the accepted quote is preserved,
-- the demo is a simulation and quotes are paused only when withdrawn, and keeps at most ten events.
pub Reachable-IsContract : (s : DemoControlSnapshot) → Reachable s → IsContract s
unfolding initial_snapshot validate_demo_control_snapshot
Reachable-IsContract s (start e) =
    subst IsContract {x = initial_snapshot} (sym e)
      (record { checked = refl; bounded = omega arith })
Reachable-IsContract t (next {s} c r h) = elim (apply-cases s c h) [
  | inl (_, same) ↦ subst IsContract (sym same) (Reachable-IsContract s r)
  | inr (_, new) ↦ subst IsContract (sym new) (record {
    checked = advance-checked s c (Reachable-IsContract s r).checked;
    bounded = advance-bounded s c;
  })
]

any-drop_last :
    (p : DemoControlAudit → Bool) (n : ℕ) (xs : List DemoControlAudit) (x : DemoControlAudit)
    → n ≤ length xs
    → p x ≡ true
    → any p (drop n (xs ++ x ∷ [])) ≡ true
any-drop_last p zero [] x h k = rw k
any-drop_last p (suc n) [] x h k = absurd (omega arith)
any-drop_last p zero (y ∷ xs) x h k = ground (arith, any-drop_last p zero xs x)
any-drop_last p (suc n) (y ∷ xs) x h k = any-drop_last p n xs x (omega arith) k

advance-is_duplicate :
    (s : DemoControlSnapshot) (c : DemoControlCommand)
    → is_duplicate (advance s c).audit c.idempotency_key ≡ true
unfolding advance audit_event
advance-is_duplicate s c =
    let event = audit_event c (s.sequence + 1) in
    any-drop_last (λ e. e.event_id == c.idempotency_key) _ s.audit event
      (omega (arith, length-append s.audit (event ∷ []))) (==_refl c.idempotency_key)

-- A command that was applied can be sent again at once: it returns the same snapshot.
pub apply-apply :
    (s : DemoControlSnapshot) (c : DemoControlCommand) {t : DemoControlSnapshot}
    → apply_demo_control_command s c ≡ ok t
    → apply_demo_control_command t c ≡ ok t
unfolding apply_demo_control_command
apply-apply s c {t} h =
    let (named, h₁) =
      >>-eq_ok (not (c.role == "DP") && not (c.role == "RT"))
        DemoControlError.requires_presenter_or_risk_role _ h in
    let (actor, h₂) = >>-eq_ok (is_blank c.actor_id) DemoControlError.requires_named_actor _ h₁ in
    let (key, _) =
      >>-eq_ok (is_blank c.idempotency_key) DemoControlError.requires_idempotency_key _ h₂ in
    rw (named, actor, key, again (apply-cases s c h))
  where
    again :
        ((is_duplicate s.audit c.idempotency_key ≡ true) × (t ≡ s))
          ⊎ ((is_duplicate s.audit c.idempotency_key ≡ false) × (t ≡ advance s c))
        → is_duplicate t.audit c.idempotency_key ≡ true
    again (inl (e, same)) = ap (λ u. is_duplicate u.audit c.idempotency_key) same ∙ e
    again (inr (e, new)) =
        ap (λ u. is_duplicate u.audit c.idempotency_key) new ∙ advance-is_duplicate s c

any_last :
    (p : DemoControlAudit → Bool) (xs : List DemoControlAudit) (x : DemoControlAudit)
    → any p xs ≡ false
    → p x ≡ false
    → any p (xs ++ x ∷ []) ≡ false
any_last p [] x h k = rw k
any_last p (y ∷ xs) x h k = ground (arith, any_last p xs x)

full_window :
    (e : DemoControlAudit) (rest : List DemoControlAudit) (x : DemoControlAudit)
    → length rest ≡ 9
    → slice_last 10 ((e ∷ rest) ++ x ∷ []) ≡ rest ++ x ∷ []
full_window e rest x h =
    let one : length ((e ∷ rest) ++ x ∷ []) - 10 ≡ 1 =
      omega (arith, length-append (e ∷ rest) (x ∷ [])) in
    ap (λ n. drop n ((e ∷ rest) ++ x ∷ [])) one

project-sequence : (k : CommandType) (s : DemoControlSnapshot) → (project k s).sequence ≡ s.sequence
unfolding project
project-sequence reset_baseline s = refl
project-sequence publish_price_rise s = refl
project-sequence withdraw_new_quotes s = refl

advanced :
    (s : DemoControlSnapshot) (c : DemoControlCommand) {t : DemoControlSnapshot}
    → is_duplicate s.audit c.idempotency_key ≡ false
    → apply_demo_control_command s c ≡ ok t
    → t ≡ advance s c
advanced s c new h = elim (apply-cases s c h) [
  | inl (old, _) ↦ absurd (false≢true (sym new ∙ old))
  | inr (_, e) ↦ e
]

-- The oldest key of a full trail is not found after one more new command.
forgotten :
    (s : DemoControlSnapshot) (c d : DemoControlCommand) (e : DemoControlAudit)
    (rest : List DemoControlAudit)
    → s.audit ≡ e ∷ rest
    → length rest ≡ 9
    → is_duplicate rest e.event_id ≡ false
    → is_duplicate s.audit c.idempotency_key ≡ false
    → d.idempotency_key ≡ e.event_id
    → is_duplicate (advance s c).audit d.idempotency_key ≡ false
unfolding advance audit_event
forgotten s c d e rest full nine once new old =
    let event = audit_event c (s.sequence + 1) in
    let trail =
      ap (λ audit. slice_last 10 (audit ++ event ∷ [])) full ∙ full_window e rest event nine in
    let (apart, _) =
      ||-eq_false (e.event_id == c.idempotency_key) _
        (sym (ap (λ audit. is_duplicate audit c.idempotency_key) full) ∙ new) in
    ap (λ audit. is_duplicate audit d.idempotency_key) trail
    ∙ ap (λ key. is_duplicate (rest ++ event ∷ []) key) old
    ∙ any_last (λ a. a.event_id == e.event_id) rest event once
        (==_sym c.idempotency_key e.event_id ∙ apart)

-- An idempotency key is forgotten once ten newer commands fill the trail: in a full trail of ten
-- events, the oldest key is applied again after one more new command, and the sequence moves by two.
pub apply-forgotten :
    (s : DemoControlSnapshot) (c d : DemoControlCommand) (e : DemoControlAudit)
    (rest : List DemoControlAudit) {t u : DemoControlSnapshot}
    → s.audit ≡ e ∷ rest
    → length rest ≡ 9
    → is_duplicate rest e.event_id ≡ false
    → is_duplicate s.audit c.idempotency_key ≡ false
    → d.idempotency_key ≡ e.event_id
    → apply_demo_control_command s c ≡ ok t
    → apply_demo_control_command t d ≡ ok u
    → u.sequence ≡ s.sequence + 2
unfolding advance audit_event
apply-forgotten s c d e rest {t} {u} full nine once new old h k =
    let first = advanced s c new h in
    let second =
      advanced t d
        (ap (λ v. is_duplicate v.audit d.idempotency_key) first
          ∙ forgotten s c d e rest full nine once new old)
        k in
    omega (arith, ap (λ v. v.sequence) first, ap (λ v. v.sequence) second)
