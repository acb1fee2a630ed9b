-- ===== src/Lib.antt =====
-- A verification library for the money and policy core of FuelCap, a program that sells fuel price
-- protection, and for the waitlist of its landing page. It models eleven packages of the repository
-- and the store of the waitlist, and proves what makes each of them correct.
--
-- The parts, and the files that model them:
--
-- * Base and Base/*: what the models share. Boolean tests, results (`throw` is an error value),
--   lists, dictionaries (a JavaScript Map or index object, an association list in insertion order),
--   integers with a Boolean order and sums, text, dates. Doubles has `to_double`, the rounding of an
--   integer to the nearest JavaScript number.
-- * Ledger, Ledger/*: packages/ledger/src/index.ts, the double-entry ledger. A ledger is a value:
--   the accounts, the posted journals and the idempotency index. `post_journal` is `postJournal`,
--   `verify_ledger_integrity` is `verifyLedgerIntegrity`, `project_accounts` is `projectAccounts`,
--   `reconcile_safeguarding` and `create_reversal_command` are named as in the code. Types has the
--   data, Checks, Journals, Reports and Corrections the operations. Validation and Posting hold
--   what a returned call has passed, Invariant what every reachable ledger satisfies, Chain the
--   tamper evidence of the hash chain, Projection the trial balance, Idempotency repeated keys,
--   Inherited the keys of `Object.prototype`, Reversal corrections.
-- * Wallet, Wallet/*: packages/wallet/src/index.ts, which derives a customer's balance and activity
--   from a ledger (`derive_wallet_balance`, `derive_wallet_activity`); it uses the ledger's data
--   and its projections. Balance and Activity relate the two views, Corrections is about reversals.
-- * Cards, Cards/*: packages/card-simulator/src/index.ts, the class
--   CardAuthorizationClearingSimulator. Its nine private maps are the record `Simulator`;
--   `authorize`, `clear` and `reverse` (Authorizing, Clearing, Reversing, and Checks for their
--   validation) take a simulator and return the new one. Steps is the step relation that the calls
--   refine; Invariant, Settlement and Limits are invariants of a step, Lifecycle takes them to
--   every simulator that calls can reach, Finality is about closed authorizations, Replay and ClearingReplay are about repeated keys.
-- * Allocation, Allocation/*: packages/allocation-engine/src/index.ts, which shares a purchase out
--   over protection positions; Conservation is about the quantities.
-- * Settlement, Settlement/*: packages/settlement-engine/src/index.ts. Pricing has the slices and
--   amounts of `settlePurchase`, Instruction its posting lines, Settling the calls; the numerators
--   count millionths of a minor unit and are rounded to doubles. Exact has the same without rounding,
--   and what a customer pays in terms of the three prices; Slices and Sums are about the exact sums, Range and
--   Totals about where the doubles agree with them, Posting about the balance, Outcome and Release
--   about what the two calls come to.
-- * Fx, Fx/*: packages/fx-engine/src/index.ts. Rates has the observations and rates, Adjusting the
--   adjustments and `applyFxConversion`; Governance is about the way to publication, Rounding about
--   what a conversion comes to.
-- * Spread, Spread/*: packages/spread-engine/src/index.ts. Proposing has the components, proposals and
--   adjustments, Simulating `simulateSpreadProposal`, Publishing the way to a decision and what
--   follows it; Precedence and Adjusted are about adjustments, Release about scheduled publication.
-- * Authz, Authz/*: packages/authz/src/index.ts, the role table (Roles) and the decisions on it
--   (Rulings); Policy and Decisions are about them.
-- * Rules, Rules/*: packages/rules-engine/src/index.ts. Conditions and Checks have the conditions
--   and `validate_rule_set`, Engine the evaluation, simulation, approval, publication and replay.
--   Order is about the sort that gives precedence, Evaluation about single decisions, Governance
--   about the way to publication.
-- * DemoControl, DemoControl/*: packages/demo-control/src/index.ts, the command handler of the
--   investor demonstration and its audit window.
-- * Billing, Billing/*: packages/billing/src/index.ts, the class StripeTestBillingAdapter. Its eight
--   maps are the record `Adapter`; Creating has the payments and subscriptions, Webhooks the events.
--   Queue is about the pending events, Invariant, Applying, Processing and Funding about every
--   adapter that calls can reach.
-- * Waitlist, Waitlist/*: landing-page/lib/store.ts, whose data is kept by Supabase or in JSON files.
--   Merging has the rows and `merge`, Stores the calls. Registry is the abstract map from a session
--   to its submission, Listing the list in a file, Backend what is asked of JSON and of the table in
--   landing-page/supabase/schema.sql, Refinement the relation between them. Markets
--   (landing-page/lib/markets.ts) has the table of markets, Analytics
--   (landing-page/lib/analytics.ts) the figures of the dashboard; Funnel, Rows and Breakdown are about
--   what these count.
--
-- Modules named Tests and Sample run the definitions on concrete inputs and apply the theorems
-- there.
--
-- How the code is read. A `throw` is an error value and leaves the state as it was, since the code
-- throws before it writes. Amounts are integers without a bound: the code tests
-- `Number.isSafeInteger` on each amount it takes, and the model keeps those tests, but a sum of
-- many amounts is exact here where a JavaScript number would round above 2 ^ 53 - 1. Products and sums
-- of the settlement's numerators, and the numbers that the exchange rate engine makes of a BigInt, are
-- rounded as the code rounds them; a floor of a quotient by a million is exact, as it is in doubles
-- up to 2 ^ 53. Prices and quantities are integers. Supabase returns a `timestamptz` in a form of its
-- own and accepts the rows that its columns hold; both are parameters. Blankness is
-- `String.trim` on the white space of ECMAScript. The numbers of the rules engine's facts are integers.
-- SHA-256, `JSON.stringify`, `Date.parse` and what else the code calls and does not implement, such
-- as the payment gateway and the tables of Supabase, are parameters (records named Host, with
-- `localeCompare` and the text of a number), and where a theorem needs a property of one, such as the
-- absence of collisions among the journals at hand or that JSON text is read back, it is one of its
-- hypotheses. An asynchronous call is one step: calls do not overlap. Arithmetic in floating point,
-- in simulations and percentages, is a parameter. The loops are structural recursion on lists;
-- only the search for the distance of neighbouring doubles runs on fuel, 971 doublings, which reach
-- the largest finite double.
--
-- Not modelled: the other packages, the pages and routes of the web applications, the
-- Supabase client, the verifier of webhook signatures and outside providers.
-- The table `minorUnitScale` of the ledger and constant version fields are left out.
pub mod Base
pub mod Allocation
pub mod Authz
pub mod Billing
pub mod Cards
pub mod DemoControl
pub mod Fx
pub mod Ledger
pub mod Rules
pub mod Settlement
pub mod Spread
pub mod Waitlist
pub mod Wallet
