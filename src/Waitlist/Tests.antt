-- ===== src/Waitlist/Tests.antt =====
-- Runs of the waitlist store, and its theorems there.
use fuel_cap.Base.{
  arith, String, ◌≡◌, refl, Bool, true, false, Option, none, some, List, [], ◌∷◌, Dict, lookup,
  insert, lookup-insert, ◌==◌, string_eq, if◌then◌else◌, Result, ok, err, not, Bool-cases, inl, inr,
  ap, ◌∙◌, values,
}
use fuel_cap.Waitlist.{
  FunnelStep, Submission, SubmissionRow, StoreError, Codec, Database, Host, Store, given,
  no_answers, nothing_given, no_utm, read_json_file, upsert_submission, merge, submission_to_row,
}
use fuel_cap.Base.Objects.{is_inherited}
use fuel_cap.Waitlist.Markets.{is_market_id, get_market, detect_market_from_accept_language}
use fuel_cap.Waitlist.Analytics.{
  compute_funnel_counts, utm_key, market_key, compute_utm_breakdown, compute_market_breakdown,
}
use fuel_cap.Waitlist.Funnel.{IsFunnel, compute_funnel_counts-IsFunnel}
use fuel_cap.Waitlist.Breakdown.{IsBreakdown, compute_breakdowns-IsBreakdown}
use fuel_cap.Waitlist.Registry.{Call, empty_registry, merged, record_call, IsSummary}
use fuel_cap.Waitlist.Backend.{Postgres, Serves, stored_row}
use fuel_cap.Waitlist.Refinement.{
  IsServed, Represents, in_store, read_submission, upsert_all, upsert_submission-refines,
  upsert_all-IsSummary,
}

-- A table as a dictionary by session, and a file whose text is the list itself.
abbrev Table : Type 0
Table = Dict String SubmissionRow

abbrev rows_of : Option SubmissionRow → List SubmissionRow
rows_of none = []
rows_of (some r) = r ∷ []

-- A database that returns every time in UTC, and refuses an empty session.
abbrev normal_time : String → String
normal_time t = if t == "t1" then "t1+00:00" else t

abbrev pg : Postgres
pg = record {
  normal_time = normal_time;
  holds = λ id. not (id == "");
  accepts = λ r. not (r.session_id == "");
}

abbrev database : Database Table
database = record {
  select_session = λ t id. ok (rows_of (lookup id t));
  select_submissions = λ t. ok (values t);
  upsert_row = λ t r.
      let kept = stored_row normal_time r in
      if r.session_id == ""
      then err StoreError.request_failed
      else ok (kept ∷ [], insert r.session_id kept t);
  select_page_views = λ t. ok [];
  insert_page_view = λ t r. ok t;
  select_contacts = λ t. ok [];
  insert_contact = λ t r. ok t;
}

abbrev codec : {A : Type 0} → Codec (List A) A
codec = record { is_empty = λ t. false; parse = some; print = λ xs. xs }

-- The text of a file of page views or contacts, which is not written here.
abbrev no_codec : {A : Type 0} → Codec (List Submission) A
no_codec = record { is_empty = λ t. true; parse = λ t. none; print = λ xs. [] }

abbrev host : Bool → Host (List Submission) Table
host configured = record {
  supabase_configured = configured;
  submission_codec = codec;
  page_view_codec = no_codec;
  contact_codec = no_codec;
  database = database;
}

abbrev empty_store : Store (List Submission) Table
empty_store = record {
  submissions_file = none;
  page_views_file = none;
  contacts_file = none;
  tables = [];
}

abbrev call : String → String → FunnelStep → Option Bool → Option String → Call
call now id step completed referrer = record {
  now = now;
  input = record {
    session_id = id;
    step = step;
    answers = some (record nothing_given { country = given referrer });
    utm = none;
    referrer = referrer;
    user_agent = none;
    completed = completed;
    landing_market = some "US";
  };
}

abbrev first : Call
first = call "t1" "s-1" FunnelStep.zip none none

abbrev second : Call
second = call "t2" "s-2" FunnelStep.started none none

abbrev third : Call
third = call "t3" "s-1" FunnelStep.country (some true) (some "site")

not-eq_true : (b : Bool) → not b ≡ true → b ≡ false
not-eq_true b h = ground arith

serves : Serves database pg
serves = record { normal = twice; stores = stores }
  where
    twice : (t : String) → normal_time (normal_time t) ≡ normal_time t
    twice t = elim (Bool-cases (t == "t1")) [ inl e ↦ rw e refl | inr e ↦ rw (e, e) refl ]

    split :
        (b : Bool) (r : SubmissionRow) (o : Option SubmissionRow)
        → ◌≡◌ {A = Result StoreError (List SubmissionRow)}
            (ok (rows_of (if b then some r else o)))
            (if b then ok (r ∷ []) else ok (rows_of o))
    split true r o = refl
    split false r o = refl

    stores :
        (t : Table) (r : SubmissionRow)
        → not (r.session_id == "") ≡ true
        → (u : Table) × (database.upsert_row t r ≡ ok (stored_row normal_time r ∷ [], u))
          × ((id : String)
              → database.select_session u id ≡ (
                  if r.session_id == id
                  then ok (stored_row normal_time r ∷ [])
                  else database.select_session t id))
    stores t r h =
        let kept = stored_row normal_time r in
        (
          insert r.session_id kept t,
          rw (not-eq_true _ h) refl,
          λ id.
              ap (λ o. ok (rows_of o)) (lookup-insert r.session_id id kept t)
              ∙ split (r.session_id == id) kept (lookup id t),
        )

served : (configured : Bool) → IsServed (host configured) pg
served configured = record {
  database = λ h. serves;
  json = λ h. record { parse-print = λ xs. refl; is_empty-print = λ xs. refl };
}

empty-Represents : (configured : Bool) → Represents (host configured) pg empty_store empty_registry
unfolding read_json_file
empty-Represents true = record { reads = λ id h. refl; is_keyed = λ id s h. absurd (cc) }
empty-Represents false = record { reads = λ id h. refl; is_keyed = λ id s h. absurd (cc) }

upsert_submission-refines_example :
    (after : Store (List Submission) Table) × (upsert_submission
        (host true)
        "t1"
        first.input
        empty_store
      ≡ ok (in_store (host true) pg (merged first empty_registry), after))
    × Represents (host true) pg after (record_call empty_registry first)
unfolding merge submission_to_row
upsert_submission-refines_example =
    upsert_submission-refines (host true) pg first empty_store empty_registry (served true)
      (empty-Represents true) refl

upsert_all-IsSummary_example :
    (after : Store (List Submission) Table) × (s : Submission) × (upsert_all
        (host true)
        pg
        (first ∷ second ∷ third ∷ [])
        empty_store
      ≡ ok after)
    × (read_submission (host true) pg after "s-1" ≡ ok (some (in_store (host true) pg s)))
    × IsSummary first (third ∷ []) s
unfolding merge submission_to_row
upsert_all-IsSummary_example =
    upsert_all-IsSummary (host true) pg (first ∷ second ∷ third ∷ []) empty_store first (third ∷ [])
      (served true) (empty-Represents true) (refl, (refl, (refl, tt))) refl refl

abbrev submission : String → FunnelStep → Bool → Option String → Submission
submission id step completed market = record {
  session_id = id;
  created_at = "t1";
  updated_at = "t1";
  completed_at = none;
  completed = completed;
  furthest_step = step;
  landing_market = market;
  answers = no_answers;
  utm = no_utm;
  referrer = none;
  user_agent = none;
}

abbrev submissions : List Submission
submissions =
    submission "s-1" FunnelStep.gender false (some "usa")
    ∷ submission "s-2" FunnelStep.zip true (some "uk")
    ∷ submission "s-3" FunnelStep.started false (some "uk")
    ∷ []

funnel : compute_funnel_counts submissions ≡ 3 ∷ 2 ∷ 2 ∷ 1 ∷ 1 ∷ 1 ∷ 1 ∷ 1 ∷ []
funnel = refl

market_rows :
    compute_market_breakdown (λ id. id) submissions
    ≡ ("🇬🇧 United Kingdom", record { starts = 2; completions = 1 })
      ∷ ("🇺🇸 United States", record { starts = 1; completions = 0 })
      ∷ []
unfolding get_market
market_rows = refl

-- The `in` test takes a member of `Object.prototype` for a market.
constructor_market : is_market_id "constructor" ≡ true
unfolding is_market_id is_inherited
constructor_market = refl

detected : detect_market_from_accept_language (λ s. s) (some "de-at,de;q=0.9") ≡ "austria"
unfolding detect_market_from_accept_language
detected = refl

compute_funnel_counts-IsFunnel_example : IsFunnel submissions (compute_funnel_counts submissions)
compute_funnel_counts-IsFunnel_example = compute_funnel_counts-IsFunnel submissions

compute_breakdowns-IsBreakdown_example :
    IsBreakdown utm_key submissions (compute_utm_breakdown submissions)
    × IsBreakdown
        (market_key (λ id. id))
        submissions
        (compute_market_breakdown (λ id. id) submissions)
compute_breakdowns-IsBreakdown_example = compute_breakdowns-IsBreakdown (λ id. id) submissions
