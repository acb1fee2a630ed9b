-- ===== src/Waitlist/Merging.antt =====
-- The rows of the database and `merge` of `upsertSubmission`, in landing-page/lib/store.ts.
use fuel_cap.Base.{ℕ, String, false, Option, none, some, ◌||◌, ltb, if◌then◌else◌}
use fuel_cap.Waitlist.Types.{
  FunnelStep, UtmParams, SignupAnswers, Submission, SubmissionRow, SubmissionInput, Property,
  missing, given, UtmInput, AnswersInput, PageView, PageViewRow, PageViewInput, Contact, ContactRow,
  ContactInput,
}

-- `a ?? b`
abbrev pub or_else {ℓ} : {A : Type ℓ} → Option A → A → A
or_else none b = b
or_else (some a) b = a

-- `a ?? b` where `b` may be undefined
abbrev pub or_option {ℓ} : {A : Type ℓ} → Option A → Option A → Option A
or_option none b = b
or_option (some a) b = some a

-- `stepIndex`
abbrev pub step_index : FunnelStep → ℕ
step_index FunnelStep.started = 0
step_index FunnelStep.country = 1
step_index FunnelStep.gender = 2
step_index FunnelStep.age_range = 3
step_index FunnelStep.driver_type = 4
step_index FunnelStep.fill_frequency = 5
step_index FunnelStep.zip = 6
step_index FunnelStep.email = 7

-- `{}`
abbrev pub no_utm : UtmParams
no_utm = record {
  utm_source = none;
  utm_medium = none;
  utm_campaign = none;
  utm_content = none;
  utm_term = none;
}

abbrev pub no_answers : SignupAnswers
no_answers = record {
  country = none;
  state = none;
  gender = none;
  age_range = none;
  driver_type = none;
  fill_frequency = none;
  zip = none;
  email = none;
}

-- `{}`, passed by a caller
abbrev pub nothing_given_utm : UtmInput
nothing_given_utm = record {
  utm_source = missing;
  utm_medium = missing;
  utm_campaign = missing;
  utm_content = missing;
  utm_term = missing;
}

abbrev pub nothing_given : AnswersInput
nothing_given = record {
  country = missing;
  state = missing;
  gender = missing;
  age_range = missing;
  driver_type = missing;
  fill_frequency = missing;
  zip = missing;
  email = missing;
}

-- One property of `{ ...a, ...b }`: where the second object has it, its value counts, `undefined` too.
abbrev pub override : Option String → Property → Option String
override old missing = old
override old (given value) = value

-- `{ ...a, ...b }`
unfoldable pub spread_utm : UtmParams → UtmInput → UtmParams
spread_utm a b = record {
  utm_source = override a.utm_source b.utm_source;
  utm_medium = override a.utm_medium b.utm_medium;
  utm_campaign = override a.utm_campaign b.utm_campaign;
  utm_content = override a.utm_content b.utm_content;
  utm_term = override a.utm_term b.utm_term;
}

unfoldable pub spread_answers : SignupAnswers → AnswersInput → SignupAnswers
spread_answers a b = record {
  country = override a.country b.country;
  state = override a.state b.state;
  gender = override a.gender b.gender;
  age_range = override a.age_range b.age_range;
  driver_type = override a.driver_type b.driver_type;
  fill_frequency = override a.fill_frequency b.fill_frequency;
  zip = override a.zip b.zip;
  email = override a.email b.email;
}

-- `rowToSubmission`
unfoldable pub row_to_submission : SubmissionRow → Submission
row_to_submission r = record {
  session_id = r.session_id;
  created_at = r.created_at;
  updated_at = r.updated_at;
  completed_at = r.completed_at;
  completed = r.completed;
  furthest_step = r.furthest_step;
  landing_market = r.landing_market;
  answers = or_else r.answers no_answers;
  utm = or_else r.utm no_utm;
  referrer = r.referrer;
  user_agent = r.user_agent;
}

-- `submissionToRow`
unfoldable pub submission_to_row : Submission → SubmissionRow
submission_to_row s = record {
  session_id = s.session_id;
  created_at = s.created_at;
  updated_at = s.updated_at;
  completed = s.completed;
  completed_at = s.completed_at;
  furthest_step = s.furthest_step;
  landing_market = s.landing_market;
  answers = some s.answers;
  utm = some s.utm;
  referrer = s.referrer;
  user_agent = s.user_agent;
}

-- `input.completed ? now : undefined`
abbrev pub completion : SubmissionInput → String → Option String
completion input now = if or_else input.completed false then some now else none

-- `merge` of `upsertSubmission`, at the time `now`.
unfoldable pub merge : String → SubmissionInput → Option Submission → Submission
merge now input none = record {
  session_id = input.session_id;
  created_at = now;
  updated_at = now;
  completed_at = completion input now;
  completed = or_else input.completed false;
  furthest_step = input.step;
  landing_market = input.landing_market;
  answers = spread_answers no_answers (or_else input.answers nothing_given);
  utm = spread_utm no_utm (or_else input.utm nothing_given_utm);
  referrer = input.referrer;
  user_agent = input.user_agent;
}
merge now input (some existing) = record {
  session_id = existing.session_id;
  created_at = existing.created_at;
  updated_at = now;
  completed_at = or_option existing.completed_at (completion input now);
  completed = existing.completed || or_else input.completed false;
  furthest_step =
      if ltb (step_index existing.furthest_step) (step_index input.step)
      then input.step
      else existing.furthest_step;
  landing_market = or_option existing.landing_market input.landing_market;
  answers = spread_answers existing.answers (or_else input.answers nothing_given);
  utm = spread_utm existing.utm (or_else input.utm nothing_given_utm);
  referrer = or_option existing.referrer input.referrer;
  user_agent = or_option existing.user_agent input.user_agent;
}

-- The entry of `addPageView`.
unfoldable pub new_page_view : String → String → PageViewInput → PageView
new_page_view id now input = record {
  id = id;
  timestamp = now;
  utm = spread_utm no_utm (or_else input.utm nothing_given_utm);
  referrer = input.referrer;
  user_agent = input.user_agent;
  path = input.path;
  market = input.market;
}

unfoldable pub page_view_to_row : PageView → PageViewRow
page_view_to_row v = record {
  id = v.id;
  timestamp = v.timestamp;
  utm = some v.utm;
  referrer = v.referrer;
  user_agent = v.user_agent;
  path = v.path;
  market = v.market;
}

unfoldable pub row_to_page_view : PageViewRow → PageView
row_to_page_view r = record {
  id = r.id;
  timestamp = r.timestamp;
  utm = or_else r.utm no_utm;
  referrer = r.referrer;
  user_agent = r.user_agent;
  path = r.path;
  market = r.market;
}

-- The entry of `addContact`.
unfoldable pub new_contact : String → String → ContactInput → Contact
new_contact id now input = record {
  id = id;
  created_at = now;
  name = input.name;
  email = input.email;
  message = input.message;
  market = input.market;
}

unfoldable pub contact_to_row : Contact → ContactRow
contact_to_row c = record {
  id = c.id;
  created_at = c.created_at;
  name = c.name;
  email = c.email;
  message = c.message;
  market = c.market;
}

unfoldable pub row_to_contact : ContactRow → Contact
row_to_contact r = record {
  id = r.id;
  created_at = r.created_at;
  name = r.name;
  email = r.email;
  message = r.message;
  market = r.market;
}
