-- ===== src/Ledger/Corrections.antt =====
-- `createReversalCommand` of packages/ledger/src/index.ts.
use fuel_cap.Base.{ℕ, ◌+◌, String, some, List, [], ◌∷◌, ◌==◌, string_eq, Result, ok, ◌>>◌, throw_if}
use fuel_cap.Base.Text.{is_blank, show_ℕ}
use Prim.Native.String.{◌++◌ as append}
use fuel_cap.Ledger.Types.{
  Side, debit, credit, reverse, JournalLine, PositionMovement, PostJournalCommand, PostedJournal,
  LedgerError, same_maker_checker, reason_required,
}

pub record ReversalInput : Type 0 where
  pub command_id : String
  pub idempotency_key : String
  pub journal_id : String
  pub transaction_id : String
  pub posted_at : String
  pub actor_id : String
  pub approver_id : String
  pub reason : String

abbrev pub opposite : Side → Side
opposite debit = credit
opposite credit = debit

-- `original.lines.map(...)`, from the line with this number on
unfoldable pub reverse_lines : String → ℕ → List JournalLine → List JournalLine
reverse_lines journal_id n [] = []
reverse_lines journal_id n (l ∷ ls) =
    record l { line_id = append journal_id (append ":LINE:" (show_ℕ n)); side = opposite l.side }
    ∷ reverse_lines journal_id (n + 1) ls

unfoldable pub reverse_movements : String → ℕ → List PositionMovement → List PositionMovement
reverse_movements journal_id n [] = []
reverse_movements journal_id n (m ∷ ms) =
    record m {
      movement_id = append journal_id (append ":MOV:" (show_ℕ n));
      movement_type = reverse;
    }
    ∷ reverse_movements journal_id (n + 1) ms

-- `createReversalCommand`
unfoldable pub create_reversal_command :
    PostedJournal → ReversalInput → Result LedgerError PostJournalCommand
create_reversal_command original input = do
  throw_if (input.actor_id == input.approver_id) same_maker_checker
  throw_if (is_blank input.reason) reason_required
  let c = original.content.command
  ok (record {
    command_id = input.command_id;
    idempotency_key = input.idempotency_key;
    journal_id = input.journal_id;
    transaction_id = input.transaction_id;
    event_type = append "REVERSAL:" c.event_type;
    posted_at = input.posted_at;
    lines = reverse_lines input.journal_id 1 c.lines;
    position_movements = reverse_movements input.journal_id 1 c.position_movements;
    lineage = record c.lineage {
      actor_id = input.actor_id;
      source_contract_id = append c.lineage.source_contract_id ":REVERSAL";
      correlation_id = append c.lineage.correlation_id ":REVERSAL";
    };
    correction_of = some c.journal_id;
  })
