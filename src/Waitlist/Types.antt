-- ===== src/Waitlist/Types.antt =====
-- The data of landing-page/lib/store.ts and landing-page/lib/types.ts. A property of a stored
-- object that is absent, or `undefined`, is `none`; so is a column that is null.
use fuel_cap.Base.{String, Option, Bool}

-- `FUNNEL_STEPS`, in their order.
pub data FunnelStep : Type 0 where
  started country gender age_range driver_type fill_frequency zip email : FunnelStep

pub record UtmParams : Type 0 where
  pub utm_source : Option String
  pub utm_medium : Option String
  pub utm_campaign : Option String
  pub utm_content : Option String
  pub utm_term : Option String

pub record SignupAnswers : Type 0 where
  pub country : Option String
  pub state : Option String
  pub gender : Option String
  pub age_range : Option String
  pub driver_type : Option String
  pub fill_frequency : Option String
  pub zip : Option String
  pub email : Option String

pub record Submission : Type 0 where
  pub session_id : String
  pub created_at : String
  pub updated_at : String
  pub completed_at : Option String
  pub completed : Bool
  pub furthest_step : FunnelStep
  pub landing_market : Option String
  pub answers : SignupAnswers
  pub utm : UtmParams
  pub referrer : Option String
  pub user_agent : Option String

pub record SubmissionRow : Type 0 where
  pub session_id : String
  pub created_at : String
  pub updated_at : String
  pub completed : Bool
  pub completed_at : Option String
  pub furthest_step : FunnelStep
  pub landing_market : Option String
  pub answers : Option SignupAnswers
  pub utm : Option UtmParams
  pub referrer : Option String
  pub user_agent : Option String

-- A property of an object that a caller passes: one that is absent, or one that is there, whose value
-- may be `undefined`.
pub data Property : Type 0 where
  missing : Property
  given : Option String → Property

-- `UtmParams` and `SignupAnswers`, as a caller passes them.
pub record UtmInput : Type 0 where
  pub utm_source : Property
  pub utm_medium : Property
  pub utm_campaign : Property
  pub utm_content : Property
  pub utm_term : Property

pub record AnswersInput : Type 0 where
  pub country : Property
  pub state : Property
  pub gender : Property
  pub age_range : Property
  pub driver_type : Property
  pub fill_frequency : Property
  pub zip : Property
  pub email : Property

-- The argument of `upsertSubmission`.
pub record SubmissionInput : Type 0 where
  pub session_id : String
  pub step : FunnelStep
  pub answers : Option AnswersInput
  pub utm : Option UtmInput
  pub referrer : Option String
  pub user_agent : Option String
  pub completed : Option Bool
  pub landing_market : Option String

pub record PageView : Type 0 where
  pub id : String
  pub timestamp : String
  pub utm : UtmParams
  pub referrer : Option String
  pub user_agent : Option String
  pub path : String
  pub market : Option String

-- The `Row` of `getPageViews`.
pub record PageViewRow : Type 0 where
  pub id : String
  pub timestamp : String
  pub utm : Option UtmParams
  pub referrer : Option String
  pub user_agent : Option String
  pub path : String
  pub market : Option String

-- The argument of `addPageView`.
pub record PageViewInput : Type 0 where
  pub utm : Option UtmInput
  pub referrer : Option String
  pub user_agent : Option String
  pub path : String
  pub market : Option String

pub record Contact : Type 0 where
  pub id : String
  pub created_at : String
  pub name : String
  pub email : String
  pub message : String
  pub market : Option String

-- The `Row` of `getContacts`.
pub record ContactRow : Type 0 where
  pub id : String
  pub created_at : String
  pub name : String
  pub email : String
  pub message : String
  pub market : Option String

-- The argument of `addContact`.
pub record ContactInput : Type 0 where
  pub name : String
  pub email : String
  pub message : String
  pub market : Option String

-- A file that holds no JSON, or a request that Supabase refuses.
pub data StoreError : Type 0 where
  syntax_error request_failed : StoreError
