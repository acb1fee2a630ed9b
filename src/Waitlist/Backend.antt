-- ===== src/Waitlist/Backend.antt =====
-- What landing-page/lib/store.ts relies on: JSON text, and the table of landing-page/supabase/schema.sql.
use fuel_cap.Base.{
  String, ◌≡◌, refl, ap, ap₂, Bool, true, false, Option, none, some, List, [], ◌∷◌, ◌==◌, string_eq,
  if◌then◌else◌, Result, ok, ◌>>=◌,
}
use fuel_cap.Waitlist.{
  Submission, SubmissionRow, SubmissionInput, StoreError, Codec, Database, or_option,
  first_submission, row_to_submission, submission_to_row, merge,
}

-- JSON text that `JSON.stringify` writes is never blank and `JSON.parse` reads it back.
pub record IsRoundTrip {Text A : Type 0} (codec : Codec Text A) : Type 0 where
  pub parse-print : (xs : List A) → codec.parse (codec.print xs) ≡ some xs
  pub is_empty-print : (xs : List A) → codec.is_empty (codec.print xs) ≡ false

-- The database's side: the text in which it returns a `timestamptz` that it was given as text, which
-- texts a column of type `text` holds (not every JavaScript string, which may have a NUL), and which
-- rows it accepts.
pub record Postgres : Type 0 where
  pub normal_time : String → String
  pub holds : String → Bool
  pub accepts : SubmissionRow → Bool

abbrev pub map_option : (String → String) → Option String → Option String
map_option f none = none
map_option f (some a) = some (f a)

-- A row as it is stored: the three columns of type `timestamptz` in the database's form.
abbrev pub stored_row : (String → String) → SubmissionRow → SubmissionRow
stored_row time r = record r {
  created_at = time r.created_at;
  updated_at = time r.updated_at;
  completed_at = map_option time r.completed_at;
}

-- The same of a submission.
abbrev pub stored_submission : (String → String) → Submission → Submission
stored_submission time s = record s {
  created_at = time s.created_at;
  updated_at = time s.updated_at;
  completed_at = map_option time s.completed_at;
}

abbrev pub map_stored : (String → String) → Option Submission → Option Submission
map_stored time none = none
map_stored time (some s) = some (stored_submission time s)

-- Supabase, reached and in order: an upsert on `session_id` of a row that it accepts stores the row
-- in place of the one with that key and answers with it, its times in the database's form; other rows
-- stay. A time in the database's form is returned as it is.
pub record Serves {T : Type 0} (database : Database T) (pg : Postgres) : Type 0 where
  pub normal : (time : String) → pg.normal_time (pg.normal_time time) ≡ pg.normal_time time
  pub stores :
      (t : T) (r : SubmissionRow)
      → pg.accepts r ≡ true
      → (u : T) × (database.upsert_row t r ≡ ok (stored_row pg.normal_time r ∷ [], u))
        × ((id : String)
            → database.select_session u id ≡ (
                if r.session_id == id
                then ok (stored_row pg.normal_time r ∷ [])
                else database.select_session t id))

pub row_to_submission-stored_row :
    (time : String → String) (s : Submission)
    → row_to_submission (stored_row time (submission_to_row s)) ≡ stored_submission time s
unfolding row_to_submission submission_to_row
row_to_submission-stored_row time s = refl

pub submission_to_row-session_id :
    (s : Submission) → (submission_to_row s).session_id ≡ s.session_id
unfolding submission_to_row
submission_to_row-session_id s = refl

-- What is read after an upsert.
pub select-stored :
    (b : Bool) (time : String → String) (s : Submission)
    (selected : Result StoreError (List SubmissionRow)) (o : Option Submission)
    → (selected >>= (λ rows. ok (first_submission rows))) ≡ ok (map_stored time o)
    → ((if b then ok (stored_row time (submission_to_row s) ∷ []) else selected)
        >>= (λ rows. ok (first_submission rows)))
      ≡ ok (map_stored time (if b then some s else o))
select-stored true time s selected o h = ap (λ x. ok (some x)) (row_to_submission-stored_row time s)
select-stored false time s selected o h = h

stored_completion :
    (time : String → String) (a b : Option String)
    → ((t : String) → time (time t) ≡ time t)
    → map_option time (or_option (map_option time a) b) ≡ map_option time (or_option a b)
stored_completion time none b h = refl
stored_completion time (some x) b h = ap some (h x)

-- Merging into what the database returned, or into what it was given, is stored alike.
pub merge-stored :
    (time : String → String) (now : String) (input : SubmissionInput) (o : Option Submission)
    → ((t : String) → time (time t) ≡ time t)
    → stored_submission time (merge now input (map_stored time o))
      ≡ stored_submission time (merge now input o)
unfolding merge
merge-stored time now input none h = refl
merge-stored time now input (some s) h =
    ap₂
      (λ a b. record (stored_submission time (merge now input (some s))) {
        created_at = a;
        completed_at = b;
      })
      (h s.created_at) (stored_completion time s.completed_at _ h)
