-- ===== src/Waitlist/Stores.antt =====
-- The two backends of landing-page/lib/store.ts. A call takes the store and returns the new one. The
-- queue of a file runs its tasks one after the other, so a call is one step. A file or directory that
-- cannot be written is left out.
use fuel_cap.Base.{
  ℕ, zero, suc, String, Bool, Option, none, some, List, [], ◌∷◌, ◌++◌, map, ◌==◌, string_eq,
  if◌then◌else◌, Result, ok, err, ◌>>=◌,
}
use fuel_cap.Waitlist.Types.{
  Submission, SubmissionRow, SubmissionInput, PageView, PageViewRow, PageViewInput, Contact,
  ContactRow, ContactInput, StoreError, syntax_error,
}
use fuel_cap.Waitlist.Merging.{
  row_to_submission, submission_to_row, merge, new_page_view, page_view_to_row, row_to_page_view,
  new_contact, contact_to_row, row_to_contact,
}

-- `JSON.parse` (`none` where it throws) and `JSON.stringify` of the lists in a file, and the test
-- `!raw.trim()` on its text.
pub record Codec (Text : Type 0) (A : Type 0) : Type 0 where
  pub is_empty : Text → Bool
  pub parse : Text → Option (List A)
  pub print : List A → Text

-- The tables of Supabase, as `sbSelect`, `sbInsert` and `sbUpsert` reach them.
pub record Database (T : Type 0) : Type 0 where
  pub select_session : T → String → Result StoreError (List SubmissionRow)
  pub select_submissions : T → Result StoreError (List SubmissionRow)
  pub upsert_row : T → SubmissionRow → Result StoreError (List SubmissionRow × T)
  pub select_page_views : T → Result StoreError (List PageViewRow)
  pub insert_page_view : T → PageViewRow → Result StoreError T
  pub select_contacts : T → Result StoreError (List ContactRow)
  pub insert_contact : T → ContactRow → Result StoreError T

-- `supabaseConfigured()`, and what the store calls.
pub record Host (Text : Type 0) (T : Type 0) : Type 0 where
  pub supabase_configured : Bool
  pub submission_codec : Codec Text Submission
  pub page_view_codec : Codec Text PageView
  pub contact_codec : Codec Text Contact
  pub database : Database T

-- The text of each file, `none` for one that does not exist, and the tables of the database.
pub record Store (Text : Type 0) (T : Type 0) : Type 0 where
  pub submissions_file : Option Text
  pub page_views_file : Option Text
  pub contacts_file : Option Text
  pub tables : T

abbrev pub next_index : Option ℕ → Option ℕ
next_index none = none
next_index (some i) = some (suc i)

-- `findIndex`, with `none` for -1
abbrev pub find_index {ℓ} : {A : Type ℓ} → (A → Bool) → List A → Option ℕ
find_index p [] = none
find_index p (x ∷ xs) = if p x then some 0 else next_index (find_index p xs)

-- `xs[i]`
abbrev pub get_elem? {ℓ} : {A : Type ℓ} → List A → ℕ → Option A
get_elem? [] i = none
get_elem? (x ∷ xs) zero = some x
get_elem? (x ∷ xs) (suc i) = get_elem? xs i

-- `xs[i] = a` inside the array
abbrev pub set_elem {ℓ} : {A : Type ℓ} → List A → ℕ → A → List A
set_elem [] i a = []
set_elem (x ∷ xs) zero a = a ∷ xs
set_elem (x ∷ xs) (suc i) a = x ∷ set_elem xs i a

-- `existingRows[0] ? rowToSubmission(existingRows[0]) : undefined`
abbrev pub first_submission : List SubmissionRow → Option Submission
first_submission [] = none
first_submission (r ∷ rs) = some (row_to_submission r)

-- `row ? rowToSubmission(row) : merged`
abbrev pub returned_submission : Submission → List SubmissionRow → Submission
returned_submission merged [] = merged
returned_submission merged (r ∷ rs) = row_to_submission r

abbrev pub has_session : String → Submission → Bool
has_session id s = s.session_id == id

-- `idx === -1 ? undefined : submissions[idx]`
abbrev pub read_at {ℓ} : {A : Type ℓ} → List A → Option ℕ → Option A
read_at xs none = none
read_at xs (some i) = get_elem? xs i

-- `if (idx === -1) submissions.push(merged); else submissions[idx] = merged;`
abbrev pub write_at {ℓ} : {A : Type ℓ} → List A → A → Option ℕ → List A
write_at xs a none = xs ++ a ∷ []
write_at xs a (some i) = set_elem xs i a

abbrev pub existing_submission : String → List Submission → Option Submission
existing_submission id xs = read_at xs (find_index (has_session id) xs)

abbrev pub put_submission : String → Submission → List Submission → List Submission
put_submission id merged xs = write_at xs merged (find_index (has_session id) xs)

module _ {Text T : Type 0} (host : Host Text T) where
  -- `readJsonFile`
  unfoldable pub read_json_file :
      {A : Type 0} → Codec Text A → Option Text → Result StoreError (List A)
  read_json_file codec none = ok []
  read_json_file codec (some raw) =
      if codec.is_empty raw
      then ok []
      else elim (codec.parse raw) [ none ↦ err syntax_error | some xs ↦ ok xs ]

  -- `getSubmissions`
  unfoldable pub get_submissions : Store Text T → Result StoreError (List Submission)
  get_submissions store =
      if host.supabase_configured
      then (do
        rows ← host.database.select_submissions store.tables
        ok (map row_to_submission rows))
      else read_json_file host.submission_codec store.submissions_file

  -- The Supabase branch of `upsertSubmission`.
  unfoldable pub upsert_in_database :
      String → SubmissionInput → Store Text T → Result StoreError (Submission × Store Text T)
  upsert_in_database now input store = do
    existing_rows ← host.database.select_session store.tables input.session_id
    let merged = merge now input (first_submission existing_rows)
    result ← host.database.upsert_row store.tables (submission_to_row merged)
    ok (returned_submission merged result.0, record store { tables = result.1 })

  -- The task that `upsertSubmission` queues for its file.
  unfoldable pub upsert_in_file :
      String → SubmissionInput → Store Text T → Result StoreError (Submission × Store Text T)
  upsert_in_file now input store = do
    submissions ← read_json_file host.submission_codec store.submissions_file
    let merged = merge now input (existing_submission input.session_id submissions)
    ok (
      merged,
      record store {
        submissions_file =
            some (host.submission_codec.print (put_submission input.session_id merged submissions));
      },
    )

  -- `upsertSubmission`, at the time `now`
  unfoldable pub upsert_submission :
      String → SubmissionInput → Store Text T → Result StoreError (Submission × Store Text T)
  upsert_submission now input store =
      if host.supabase_configured
      then upsert_in_database now input store
      else upsert_in_file now input store

  -- `getPageViews`
  unfoldable pub get_page_views : Store Text T → Result StoreError (List PageView)
  get_page_views store =
      if host.supabase_configured
      then (do rows ← host.database.select_page_views store.tables; ok (map row_to_page_view rows))
      else read_json_file host.page_view_codec store.page_views_file

  -- `addPageView`, with the identity `id` from `crypto.randomUUID`
  unfoldable pub add_page_view :
      String → String → PageViewInput → Store Text T → Result StoreError (PageView × Store Text T)
  add_page_view id now input store =
      let entry = new_page_view id now input in
      if host.supabase_configured
      then (do
        tables ← host.database.insert_page_view store.tables (page_view_to_row entry)
        ok (entry, record store { tables = tables }))
      else (do
        page_views ← read_json_file host.page_view_codec store.page_views_file
        ok (
          entry,
          record store {
            page_views_file = some (host.page_view_codec.print (page_views ++ entry ∷ []));
          },
        ))

  -- `getContacts`
  unfoldable pub get_contacts : Store Text T → Result StoreError (List Contact)
  get_contacts store =
      if host.supabase_configured
      then (do rows ← host.database.select_contacts store.tables; ok (map row_to_contact rows))
      else read_json_file host.contact_codec store.contacts_file

  -- `addContact`, with the identity `id` from `crypto.randomUUID`
  unfoldable pub add_contact :
      String → String → ContactInput → Store Text T → Result StoreError (Contact × Store Text T)
  add_contact id now input store =
      let entry = new_contact id now input in
      if host.supabase_configured
      then (do
        tables ← host.database.insert_contact store.tables (contact_to_row entry)
        ok (entry, record store { tables = tables }))
      else (do
        contacts ← read_json_file host.contact_codec store.contacts_file
        ok (
          entry,
          record store { contacts_file = some (host.contact_codec.print (contacts ++ entry ∷ [])) },
        ))
