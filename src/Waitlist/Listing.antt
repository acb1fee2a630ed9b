-- ===== src/Waitlist/Listing.antt =====
-- The list of submissions in the file, read and written by position.
use fuel_cap.Base.{
  ℕ, String, ◌≡◌, refl, sym, ◌∙◌, inl, inr, Bool, true, false, Option, none, some, List, [], ◌∷◌,
  find, ◌==◌, ==-eq, ==_sym, string_eq, if◌then◌else◌, Bool-cases, arith,
}
use fuel_cap.Waitlist.{
  Submission, find_index, next_index, read_at, write_at, has_session, existing_submission,
  put_submission,
}

module _ {ℓ} {A : Type ℓ} where
  read_at-next :
      (x : A) (xs : List A) (i : Option ℕ) → read_at (x ∷ xs) (next_index i) ≡ read_at xs i
  read_at-next x xs none = refl
  read_at-next x xs (some i) = refl

  write_at-next :
      (x a : A) (xs : List A) (i : Option ℕ)
      → write_at (x ∷ xs) a (next_index i) ≡ x ∷ write_at xs a i
  write_at-next x a xs none = refl
  write_at-next x a xs (some i) = refl

  read_at-find : (p : A → Bool) (xs : List A) → read_at xs (find_index p xs) ≡ find p xs
  read_at-find p [] = refl
  read_at-find p (x ∷ xs) = elim (Bool-cases (p x)) [
    | inl e ↦ rw e refl
    | inr e ↦ rw e (read_at-next x xs (find_index p xs) ∙ read_at-find p xs)
  ]

-- The submission at the index of a session is the first one of that session.
pub existing_submission-find :
    (id : String) (xs : List Submission) → existing_submission id xs ≡ find (has_session id) xs
existing_submission-find id xs = read_at-find (has_session id) xs

-- Writing the submission of a session changes what is found for that session only.
pub find-put_submission :
    (id : String) (s : Submission) (j : String) (xs : List Submission)
    → s.session_id ≡ id
    → find (has_session j) (put_submission id s xs)
      ≡ (if id == j then some s else find (has_session j) xs)
find-put_submission id s j [] own = rw own refl
find-put_submission id s j (x ∷ xs) own = elim (Bool-cases (x.session_id == id)) [
  | inl e ↦ rw (e, own, ==-eq x.session_id id e) (ground arith)
  | inr e ↦
      rw (e, write_at-next x s xs (find_index (has_session id) xs))
        (elim (Bool-cases (x.session_id == j)) [
          | inl k ↦ rw (k, other x.session_id id j e k) refl
          | inr k ↦ rw k (find-put_submission id s j xs own)
        ])
]
  where
    other : (a b c : String) → (a == b) ≡ false → (a == c) ≡ true → (b == c) ≡ false
    other a b c h k = rw (sym (==-eq a c k), ==_sym b a) h
