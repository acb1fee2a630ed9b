-- ===== src/Waitlist/Refinement.antt =====
-- Both backends of landing-page/lib/store.ts keep the registry of submissions.
use fuel_cap.Base.{
  String, ◌≡◌, refl, sym, ap, ◌∙◌, Bool, true, false, ◌&&◌, Option, none, some, List, [], ◌∷◌, find,
  ◌==◌, string_eq, if◌then◌else◌, Result, ok, ◌>>=◌, >>=-eq_ok, ok_eq,
}
use mathlib.Core.Bool.{and-eq-true_iff}
use fuel_cap.Waitlist.{
  Submission, StoreError, Host, Store, first_submission, has_session, put_submission, merge,
  submission_to_row, read_json_file, upsert_in_database, upsert_in_file, upsert_submission,
}
use fuel_cap.Waitlist.Backend.{
  IsRoundTrip, Postgres, Serves, map_option, stored_row, stored_submission, map_stored,
  row_to_submission-stored_row, submission_to_row-session_id, select-stored, merge-stored,
}
use fuel_cap.Waitlist.Listing.{existing_submission-find, find-put_submission}
use fuel_cap.Waitlist.Registry.{
  Call, Registry, empty_registry, merged, record_call, record_calls, IsKeyed, merged-session_id,
  record_call-IsKeyed, of_session, merge_all, record_calls-of_session, IsSummary,
  merge_all-IsSummary,
}

map_stored-written :
    (b : Bool) (time : String → String) (r s : Submission) (o : Option Submission)
    → stored_submission time r ≡ stored_submission time s
    → map_stored time (if b then some r else o) ≡ map_stored time (if b then some s else o)
map_stored-written true time r s o h = ap some h
map_stored-written false time r s o h = refl

map_option-same : (o : Option String) → map_option (λ t. t) o ≡ o
map_option-same none = refl
map_option-same (some t) = refl

stored-same : (s : Submission) → stored_submission (λ t. t) s ≡ s
stored-same s = ap (λ c. record s { completed_at = c }) (map_option-same s.completed_at)

map_stored-same : (o : Option Submission) → map_stored (λ t. t) o ≡ o
map_stored-same none = refl
map_stored-same (some s) = ap some (stored-same s)

module _ {Text T : Type 0} (host : Host Text T) (pg : Postgres) where
  -- The submission of a session, as `upsertSubmission` looks it up: in the database, if it is
  -- configured, and in the file if not.
  abbrev pub read_from : Bool → Store Text T → String → Result StoreError (Option Submission)
  read_from true store id =
      host.database.select_session store.tables id >>= (λ rows. ok (first_submission rows))
  read_from false store id =
      read_json_file host host.submission_codec store.submissions_file
      >>= (λ xs. ok (find (has_session id) xs))

  abbrev pub read_submission : Store Text T → String → Result StoreError (Option Submission)
  read_submission = read_from host.supabase_configured

  -- The form of a stored time: the database's; a file keeps the text.
  abbrev pub stored_time : Bool → String → String
  stored_time true t = pg.normal_time t
  stored_time false t = t

  -- The submission of a registry as the backend returns it.
  abbrev pub in_store : Submission → Submission
  in_store = stored_submission (stored_time host.supabase_configured)

  -- The database may hold the session's identity; a file holds any.
  abbrev pub readable_from : Bool → String → Bool
  readable_from true id = pg.holds id
  readable_from false id = true

  abbrev pub is_readable : String → Bool
  is_readable = readable_from host.supabase_configured

  -- The database may hold the call's session, and accepts the row that the call writes; a file
  -- accepts every call.
  abbrev pub accepted_by : Bool → Call → Registry → Bool
  accepted_by true c m =
      pg.holds c.input.session_id
      && pg.accepts (
          submission_to_row
            (merge c.now c.input (map_stored pg.normal_time (m c.input.session_id))))
  accepted_by false c m = true

  abbrev pub is_accepted : Call → Registry → Bool
  is_accepted = accepted_by host.supabase_configured

  -- The backend keeps just the submissions of a registry, its times in the backend's form.
  pub record RepresentsIn (b : Bool) (store : Store Text T) (m : Registry) : Type 0 where
    pub reads :
        (id : String)
        → readable_from b id ≡ true
        → read_from b store id ≡ ok (map_stored (stored_time b) (m id))
    pub is_keyed : IsKeyed m

  abbrev pub Represents : Store Text T → Registry → Type 0
  Represents = RepresentsIn host.supabase_configured

  -- What the store relies on: the database where it is configured, JSON where it is not.
  pub record IsServedBy (b : Bool) : Type 0 where
    pub database : b ≡ true → Serves host.database pg
    pub json : b ≡ false → IsRoundTrip host.submission_codec

  abbrev pub IsServed : Type 0
  IsServed = IsServedBy host.supabase_configured

  module _ (c : Call) (store : Store Text T) (m : Registry) where
    upsert_in_database-refines :
        Serves host.database pg
        → RepresentsIn true store m
        → accepted_by true c m ≡ true
        → (after : Store Text T) × (upsert_in_database host c.now c.input store
            ≡ ok (stored_submission pg.normal_time (merged c m), after))
          × RepresentsIn true after (record_call m c)
    unfolding upsert_in_database
    upsert_in_database-refines serves r accepted =
        let id = c.input.session_id in
        let time = pg.normal_time in
        let (held, fits) = (and-eq-true_iff _ _).0 accepted in
        let written = merge c.now c.input (map_stored time (m id)) in
        let (rows, selected, found) =
          >>=-eq_ok (host.database.select_session store.tables id) _ (r.reads id held) in
        let (u, stored, reads) = serves.stores store.tables (submission_to_row written) fits in
        let same = merge-stored time c.now c.input (m id) serves.normal in
        let own =
          submission_to_row-session_id written
          ∙ ap (λ (s : Submission). s.session_id) same
          ∙ merged-session_id c m r.is_keyed in
        (
          record store { tables = u },
          rw (selected, ok_eq found, stored)
              (ap (λ s. ok (s, record store { tables = u }))
                (row_to_submission-stored_row time written ∙ same)),
          record {
            reads = λ j readable.
                ap (λ q. q >>= (λ rows. ok (first_submission rows)))
                  (reads j
                    ∙ ap
                        (λ k.
                          if k == j
                          then ok (stored_row time (submission_to_row written) ∷ [])
                          else host.database.select_session store.tables j)
                        own)
                ∙ select-stored (id == j) time written (host.database.select_session store.tables j)
                    (m j) (r.reads j readable)
                ∙ ap ok (map_stored-written (id == j) time written (merged c m) (m j) same);
            is_keyed = record_call-IsKeyed m c r.is_keyed;
          },
        )

    upsert_in_file-refines :
        IsRoundTrip host.submission_codec
        → RepresentsIn false store m
        → (after : Store Text T) × (upsert_in_file host c.now c.input store
            ≡ ok (stored_submission (λ t. t) (merged c m), after))
          × RepresentsIn false after (record_call m c)
    unfolding upsert_in_file read_json_file
    upsert_in_file-refines json r =
        let id = c.input.session_id in
        let codec = host.submission_codec in
        let plain : (j : String) → read_from false store j ≡ ok (m j) =
          λ j. r.reads j refl ∙ ap ok (map_stored-same (m j)) in
        let (xs, read, _) =
          >>=-eq_ok (read_json_file host codec store.submissions_file) _ (plain id) in
        let finds : (j : String) → find (has_session j) xs ≡ m j =
          λ j. ok_eq (rw read at plain j) in
        let kept = put_submission id (merged c m) xs in
        (
          record store { submissions_file = some (codec.print kept) },
          rw (read, existing_submission-find id xs, finds id)
              (ap (λ s. ok (s, record store { submissions_file = some (codec.print kept) }))
                (sym (stored-same (merged c m)))),
          record {
            reads = λ j _.
                rw (json.is_empty-print kept, json.parse-print kept)
                  (ap ok (
                    find-put_submission id (merged c m) j xs (merged-session_id c m r.is_keyed)
                    ∙ ap (λ o. if id == j then some (merged c m) else o) (finds j)
                    ∙ sym (map_stored-same (record_call m c j))));
            is_keyed = record_call-IsKeyed m c r.is_keyed;
          },
        )

    upsert_in-refines :
        (b : Bool)
        → IsServedBy b
        → RepresentsIn b store m
        → accepted_by b c m ≡ true
        → (after : Store Text T) × ((if b
              then upsert_in_database host c.now c.input store
              else upsert_in_file host c.now c.input store)
            ≡ ok (stored_submission (stored_time b) (merged c m), after))
          × RepresentsIn b after (record_call m c)
    upsert_in-refines true served r accepted =
        upsert_in_database-refines (served.database refl) r accepted
    upsert_in-refines false served r accepted = upsert_in_file-refines (served.json refl) r

    -- Whichever backend the store has, a call of `upsertSubmission` that it accepts succeeds, returns
    -- its input merged into what the registry has for the session, and leaves a store of the updated
    -- registry. A database returns the times in its own form; which rows it accepts is its affair,
    -- and a file accepts every call.
    pub upsert_submission-refines :
        IsServed
        → Represents store m
        → is_accepted c m ≡ true
        → (after : Store Text T) × (upsert_submission host c.now c.input store
            ≡ ok (in_store (merged c m), after))
          × Represents after (record_call m c)
    unfolding upsert_submission
    upsert_submission-refines = upsert_in-refines host.supabase_configured

  -- One call after the other.
  pub upsert_all : List Call → Store Text T → Result StoreError (Store Text T)
  upsert_all [] store = ok store
  upsert_all (c ∷ cs) store =
      upsert_submission host c.now c.input store >>= (λ r. upsert_all cs r.1)

  -- Each call is accepted when its turn comes.
  abbrev pub AreAccepted : Registry → List Call → Type 0
  AreAccepted m [] = Unit
  AreAccepted m (c ∷ cs) = (is_accepted c m ≡ true) × AreAccepted (record_call m c) cs

  upsert_all-refines :
      (cs : List Call) (store : Store Text T) (m : Registry)
      → IsServed
      → Represents store m
      → AreAccepted m cs
      → (after : Store Text T) × (upsert_all cs store ≡ ok after)
        × Represents after (record_calls m cs)
  unfolding upsert_all
  upsert_all-refines [] store m served r accepted = (store, refl, r)
  upsert_all-refines (c ∷ cs) store m served r accepted =
      let (next, e, k) = upsert_submission-refines c store m served r accepted.0 in
      let (after, f, l) = upsert_all-refines cs next (record_call m c) served k accepted.1 in
      (after, rw e f, l)

  -- From an empty store, calls in any order and for any sessions that the backend accepts succeed,
  -- and what is kept of a session that was called, its times in the backend's form, is the summary of
  -- its own calls: the first times and sources, the furthest step, whether and when it was first
  -- completed, and the answers as the calls override one another.
  pub upsert_all-IsSummary :
      (cs : List Call) (store : Store Text T) (c : Call) (ds : List Call)
      → IsServed
      → Represents store empty_registry
      → AreAccepted empty_registry cs
      → is_readable c.input.session_id ≡ true
      → of_session c.input.session_id cs ≡ c ∷ ds
      → (after : Store Text T) × (s : Submission) × (upsert_all cs store ≡ ok after)
        × (read_submission after c.input.session_id ≡ ok (some (in_store s)))
        × IsSummary c ds s
  upsert_all-IsSummary cs store c ds served r accepted readable own =
      let id = c.input.session_id in
      let (after, e, k) = upsert_all-refines cs store empty_registry served r accepted in
      let (s, f, summary) = merge_all-IsSummary c ds in
      (
        after,
        s,
        e,
        k.reads id readable
            ∙ ap (λ o. ok (map_stored (stored_time host.supabase_configured) o))
                (record_calls-of_session empty_registry cs id ∙ ap (λ l. merge_all none l) own ∙ f),
        summary,
      )
