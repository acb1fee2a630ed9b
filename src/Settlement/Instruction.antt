-- ===== src/Settlement/Instruction.antt =====
-- The posting lines of `settlePurchase` in packages/settlement-engine/src/index.ts.
use Prim.Native.String.{◌++◌ as append}
use fuel_cap.Base.{String, Bool, true, false, List, [], ◌∷◌, ◌++◌, string_eq, filter, if◌then◌else◌}
use fuel_cap.Base.Int.{ℤ, pos, ltb_ℤ, reduce_sum}
use fuel_cap.Settlement.Types.{SettlementAccounts, Side, debit, credit, PostingLine, Amounts}

-- `if (amount > 0) lines.push(...)`
abbrev pub line_if_positive : PostingLine → List PostingLine
line_if_positive l = if ltb_ℤ (pos 0) l.amount_minor then l ∷ [] else []

abbrev pub line : String → String → String → Side → ℤ → PostingLine
line settlement_id suffix account_id side amount = record {
  line_id = append settlement_id suffix;
  account_id = account_id;
  side = side;
  amount_minor = amount;
}

-- `lines`
unfoldable pub posting_lines : String → SettlementAccounts → Amounts → List PostingLine
posting_lines id a n =
    line_if_positive
      (line id ":RESERVED" a.customer_reserved_account_id debit n.reserved_debit_minor)
    ++ line_if_positive
        (line id ":AVAILABLE-DEBIT" a.customer_available_account_id debit n.available_debit_minor)
    ++ line_if_positive
        (line id ":CLAIM" a.protection_claim_account_id debit n.pool_contribution_minor)
    ++ line id ":STATION" a.station_payable_account_id credit n.station_payment_minor
      ∷ line_if_positive (
          line id ":AVAILABLE-CREDIT" a.customer_available_account_id credit
            n.lower_price_release_minor)

abbrev pub is_side : Side → PostingLine → Bool
is_side debit l = elim l.side [ debit ↦ true | credit ↦ false ]
is_side credit l = elim l.side [ debit ↦ false | credit ↦ true ]

abbrev pub side_total : Side → List PostingLine → ℤ
side_total side lines = reduce_sum (λ l. l.amount_minor) (filter (is_side side) lines)
