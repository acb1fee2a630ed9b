-- ===== src/DemoControl/Tests.antt =====
-- Runs of the demo control, and its theorems at inputs where their hypotheses hold.
use fuel_cap.Base.{◌+◌, String, ◌≡◌, refl, List, [], ◌∷◌, string_eq, ok}
use fuel_cap.Base.Text.{is_blank}
use fuel_cap.DemoControl.{
  DemoControlSnapshot, DemoControlCommand, DemoControlAudit, CommandType, publish_price_rise,
  withdraw_new_quotes, initial_snapshot, project, audit_event, advance, apply_demo_control_command,
}
use fuel_cap.DemoControl.Invariant.{IsContract, start, next, Reachable-IsContract, apply-forgotten}

abbrev command : CommandType → String → DemoControlCommand
command k key = record {
  command = k;
  actor_id = "presenter";
  role = "DP";
  idempotency_key = key;
  occurred_at = "2026-09-01T12:01:00.000Z";
}

abbrev risen : DemoControlSnapshot
risen = advance initial_snapshot (command publish_price_rise "k-1")

risen_applied :
    apply_demo_control_command initial_snapshot (command publish_price_rise "k-1") ≡ ok risen
unfolding apply_demo_control_command initial_snapshot is_blank
risen_applied = refl

Reachable-IsContract_example : IsContract risen
Reachable-IsContract_example =
    Reachable-IsContract risen (next (command publish_price_rise "k-1") (start refl) risen_applied)

abbrev event : String → DemoControlAudit
event key = audit_event (command publish_price_rise key) 1

abbrev nine : List DemoControlAudit
nine =
    event "k-2"
    ∷ event "k-3"
    ∷ event "k-4"
    ∷ event "k-5"
    ∷ event "k-6"
    ∷ event "k-7"
    ∷ event "k-8"
    ∷ event "k-9"
    ∷ event "k-10"
    ∷ []

-- A snapshot with a full trail of ten events.
abbrev full : DemoControlSnapshot
full = record initial_snapshot { sequence = 10; audit = event "k-1" ∷ nine }

abbrev withdrawn : DemoControlSnapshot
withdrawn = advance full (command withdraw_new_quotes "k-11")

abbrev risen_again : DemoControlSnapshot
risen_again = advance withdrawn (command publish_price_rise "k-1")

-- The oldest key of a full trail is applied a second time.
apply-forgotten_example : risen_again.sequence ≡ full.sequence + 2
unfolding apply_demo_control_command initial_snapshot is_blank advance project audit_event
apply-forgotten_example =
    apply-forgotten full (command withdraw_new_quotes "k-11") (command publish_price_rise "k-1")
      (event "k-1") nine {t = withdrawn} {u = risen_again} refl refl refl refl refl refl refl
