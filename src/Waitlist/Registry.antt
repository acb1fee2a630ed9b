-- ===== src/Waitlist/Registry.antt =====
-- What the waitlist store of landing-page/lib/store.ts keeps, whichever backend it has: at most one
-- submission for each session. A call merges its input into that of its session.
use fuel_cap.Base.{
  ℕ, String, ◌≡◌, refl, sym, ap, ◌∙◌, inl, inr, Bool, true, false, ◌||◌, Option, none, some, List,
  [], ◌∷◌, foldl, any, filter, ltb, ◌==◌, ==-eq, string_eq, if◌then◌else◌, Bool-cases, Option-cases,
  some_eq, arith,
}
use fuel_cap.Waitlist.{
  FunnelStep, Submission, SubmissionInput, or_else, or_option, step_index, no_utm, no_answers,
  nothing_given, nothing_given_utm, spread_utm, spread_answers, completion, merge,
}

-- One call of `upsertSubmission`, and when it is made.
pub record Call : Type 0 where
  pub now : String
  pub input : SubmissionInput

abbrev pub Registry : Type 0
Registry = String → Option Submission

abbrev pub empty_registry : Registry
empty_registry id = none

abbrev pub merged : Call → Registry → Submission
merged c m = merge c.now c.input (m c.input.session_id)

abbrev pub record_call : Registry → Call → Registry
record_call m c id = if c.input.session_id == id then some (merged c m) else m id

abbrev pub record_calls : Registry → List Call → Registry
record_calls m [] = m
record_calls m (c ∷ cs) = record_calls (record_call m c) cs

-- A registry keeps a submission under its own session.
abbrev pub IsKeyed : Registry → Type 0
IsKeyed m = (id : String) (s : Submission) → m id ≡ some s → s.session_id ≡ id

pub merged-session_id :
    (c : Call) (m : Registry) → IsKeyed m → (merged c m).session_id ≡ c.input.session_id
unfolding merge
merged-session_id c m keyed = elim (Option-cases (m c.input.session_id)) [
  | inl e ↦ rw e refl
  | inr (s, e) ↦ rw e (keyed c.input.session_id s e)
]

pub record_call-IsKeyed : (m : Registry) (c : Call) → IsKeyed m → IsKeyed (record_call m c)
record_call-IsKeyed m c keyed id s h = elim (Bool-cases (c.input.session_id == id)) [
  | inl e ↦
      sym (ap (λ x. x.session_id) (some_eq (rw e at h)))
      ∙ merged-session_id c m keyed
      ∙ ==-eq c.input.session_id id e
  | inr e ↦ keyed id s (rw e at h)
]

-- The calls of one session, which no other call touches.
abbrev pub of_session : String → List Call → List Call
of_session id cs = filter (λ c. c.input.session_id == id) cs

abbrev pub merge_all : Option Submission → List Call → Option Submission
merge_all o [] = o
merge_all o (c ∷ cs) = merge_all (some (merge c.now c.input o)) cs

record_call-own :
    (m : Registry) (c : Call) (id : String)
    → (c.input.session_id == id) ≡ true
    → record_call m c id ≡ some (merge c.now c.input (m id))
record_call-own m c id e =
    rw e (ap (λ k. some (merge c.now c.input (m k))) (==-eq c.input.session_id id e))

pub record_calls-of_session :
    (m : Registry) (cs : List Call) (id : String)
    → record_calls m cs id ≡ merge_all (m id) (of_session id cs)
record_calls-of_session m [] id = refl
record_calls-of_session m (c ∷ cs) id = elim (Bool-cases (c.input.session_id == id)) [
  | inl e ↦
      let step = record_calls-of_session (record_call m c) cs id in
      rw e (step ∙ ap (λ o. merge_all o (of_session id cs)) (record_call-own m c id e))
  | inr e ↦ let step = record_calls-of_session (record_call m c) cs id in rw e (rw e at step)
]

-- What is asked of the calls of a session.
abbrev pub completes : Call → Bool
completes c = or_else c.input.completed false

abbrev pub max_ℕ : ℕ → ℕ → ℕ
max_ℕ a b = if ltb a b then b else a

abbrev pub furthest : ℕ → List Call → ℕ
furthest n [] = n
furthest n (c ∷ cs) = furthest (max_ℕ n (step_index c.input.step)) cs

abbrev pub first_of : (Call → Option String) → List Call → Option String
first_of f [] = none
first_of f (c ∷ cs) = or_option (f c) (first_of f cs)

abbrev pub last_now : String → List Call → String
last_now now [] = now
last_now now (c ∷ cs) = last_now c.now cs

-- What the calls of a session leave behind: nothing that was reached, completed or known first is
-- lost, and the last answers count.
pub record IsSummary (c : Call) (cs : List Call) (s : Submission) : Type 0 where
  pub session_id : s.session_id ≡ c.input.session_id
  pub created_at : s.created_at ≡ c.now
  pub updated_at : s.updated_at ≡ last_now c.now cs
  pub completed : s.completed ≡ any completes (c ∷ cs)
  pub completed_at : s.completed_at ≡ first_of (λ d. completion d.input d.now) (c ∷ cs)
  pub furthest_step : step_index s.furthest_step ≡ furthest 0 (c ∷ cs)
  pub landing_market : s.landing_market ≡ first_of (λ d. d.input.landing_market) (c ∷ cs)
  pub referrer : s.referrer ≡ first_of (λ d. d.input.referrer) (c ∷ cs)
  pub user_agent : s.user_agent ≡ first_of (λ d. d.input.user_agent) (c ∷ cs)
  pub answers :
      s.answers
      ≡ foldl (λ a d. spread_answers a (or_else d.input.answers nothing_given)) no_answers (c ∷ cs)
  pub utm :
      s.utm ≡ foldl (λ a d. spread_utm a (or_else d.input.utm nothing_given_utm)) no_utm (c ∷ cs)

-- A submission after further calls, from what it was.
record IsContinued (cs : List Call) (r s : Submission) : Type 0 where
  session_id : s.session_id ≡ r.session_id
  created_at : s.created_at ≡ r.created_at
  updated_at : s.updated_at ≡ last_now r.updated_at cs
  completed : s.completed ≡ (r.completed || any completes cs)
  completed_at :
      s.completed_at ≡ or_option r.completed_at (first_of (λ d. completion d.input d.now) cs)
  furthest_step : step_index s.furthest_step ≡ furthest (step_index r.furthest_step) cs
  landing_market :
      s.landing_market ≡ or_option r.landing_market (first_of (λ d. d.input.landing_market) cs)
  referrer : s.referrer ≡ or_option r.referrer (first_of (λ d. d.input.referrer) cs)
  user_agent : s.user_agent ≡ or_option r.user_agent (first_of (λ d. d.input.user_agent) cs)
  answers :
      s.answers
      ≡ foldl (λ a d. spread_answers a (or_else d.input.answers nothing_given)) r.answers cs
  utm : s.utm ≡ foldl (λ a d. spread_utm a (or_else d.input.utm nothing_given_utm)) r.utm cs

or_none {ℓ} : {A : Type ℓ} (o : Option A) → o ≡ or_option o none
or_none none = refl
or_none (some a) = refl

or_assoc {ℓ} :
    {A : Type ℓ} (a b c : Option A) → or_option (or_option a b) c ≡ or_option a (or_option b c)
or_assoc none b c = refl
or_assoc (some x) b c = refl

||_assoc : (a b c : Bool) → ((a || b) || c) ≡ (a || (b || c))
||_assoc a b c = ground arith

further :
    (a b : FunnelStep)
    → step_index (if ltb (step_index a) (step_index b) then b else a)
      ≡ max_ℕ (step_index a) (step_index b)
further a b = elim (Bool-cases (ltb (step_index a) (step_index b))) [
  | inl e ↦ rw e refl
  | inr e ↦ rw e refl
]

continued :
    (cs : List Call) (r : Submission)
    → (s : Submission) × (merge_all (some r) cs ≡ some s) × IsContinued cs r s
unfolding merge
continued [] r = (
  r,
  refl,
  record {
    session_id = refl;
    created_at = refl;
    updated_at = refl;
    completed = ground arith;
    completed_at = or_none _;
    furthest_step = refl;
    landing_market = or_none _;
    referrer = or_none _;
    user_agent = or_none _;
    answers = refl;
    utm = refl;
  },
)
continued (c ∷ cs) r =
    let (s, e, k) = continued cs (merge c.now c.input (some r)) in
    (
      s,
      e,
      record {
        session_id = k.session_id;
        created_at = k.created_at;
        updated_at = k.updated_at;
        completed = k.completed ∙ ||_assoc r.completed (completes c) (any completes cs);
        completed_at = k.completed_at ∙ or_assoc r.completed_at (completion c.input c.now) _;
        furthest_step =
            k.furthest_step ∙ ap (λ n. furthest n cs) (further r.furthest_step c.input.step);
        landing_market = k.landing_market ∙ or_assoc r.landing_market c.input.landing_market _;
        referrer = k.referrer ∙ or_assoc r.referrer c.input.referrer _;
        user_agent = k.user_agent ∙ or_assoc r.user_agent c.input.user_agent _;
        answers = k.answers;
        utm = k.utm;
      },
    )

pub merge_all-IsSummary :
    (c : Call) (cs : List Call)
    → (s : Submission) × (merge_all none (c ∷ cs) ≡ some s) × IsSummary c cs s
unfolding merge
merge_all-IsSummary c cs =
    let (s, e, k) = continued cs (merge c.now c.input none) in
    (
      s,
      e,
      record {
        session_id = k.session_id;
        created_at = k.created_at;
        updated_at = k.updated_at;
        completed = k.completed;
        completed_at = k.completed_at;
        furthest_step =
            k.furthest_step ∙ ap (λ n. furthest n cs) (max_zero (step_index c.input.step));
        landing_market = k.landing_market;
        referrer = k.referrer;
        user_agent = k.user_agent;
        answers = k.answers;
        utm = k.utm;
      },
    )
  where
    max_zero : (n : ℕ) → n ≡ max_ℕ 0 n
    max_zero n = ground arith
