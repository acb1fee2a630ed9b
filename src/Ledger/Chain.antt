-- ===== src/Ledger/Chain.antt =====
-- The hash chain that `verifyLedgerIntegrity` of packages/ledger/src/index.ts walks.
use fuel_cap.Base.{
  ℕ, ◌+◌, String, ◌≡◌, refl, sym, ap, ◌∙◌, ◌≢◌, true, List, [], ◌∷◌, ◌++◌, foldl, Memᴰ, length,
  string_eq, ==-eq, map_or-get_last?, nat_beq_iff, &&-eq_true, &&-intro, eq-==, arith,
}
use fuel_cap.Ledger.{
  Host, LedgerState, PostedJournal, verify_from, verify_ledger_integrity, chain_head,
}

-- The sequence number and the hash with which a run of journals ends.
abbrev pub end_sequence : ℕ → List PostedJournal → ℕ
end_sequence = foldl (λ _ j. j.content.sequence)

abbrev pub end_hash : String → List PostedJournal → String
end_hash = foldl (λ _ j. j.integrity_hash)

-- What the loop tests of one journal.
pub record IsLinked (host : Host) (index : ℕ) (previous : String) (j : PostedJournal) : Type 0 where
  pub numbered : j.content.sequence ≡ index + 1
  pub linked : j.content.previous_hash ≡ previous
  pub sealed : host.hash_journal j.content ≡ j.integrity_hash

module _ (host : Host) where
  pub verify_from-cons :
      (i : ℕ) (h : String) (j : PostedJournal) (js : List PostedJournal)
      → verify_from host i h (j ∷ js) ≡ true
      → IsLinked host i h j × (verify_from host (i + 1) j.integrity_hash js ≡ true)
  unfolding verify_from
  verify_from-cons i h j js v =
      let (front, rest) = &&-eq_true _ _ v in
      let (front', sealed) = &&-eq_true _ _ front in
      let (numbered, linked) = &&-eq_true _ _ front' in
      (
        record {
          numbered = (nat_beq_iff _ _).0 numbered;
          linked = ==-eq _ _ linked;
          sealed = ==-eq _ _ sealed;
        },
        rest,
      )

  IsLinked-verify_from :
      (i : ℕ) (h : String) (j : PostedJournal) (js : List PostedJournal)
      → IsLinked host i h j
      → verify_from host (i + 1) j.integrity_hash js ≡ true
      → verify_from host i h (j ∷ js) ≡ true
  unfolding verify_from
  IsLinked-verify_from i h j js l v =
      &&-intro
        (&&-intro (&&-intro ((nat_beq_iff _ _).1 l.numbered) (eq-== l.linked)) (eq-== l.sealed)) v

  pub end_sequence-verify_from :
      (i : ℕ) (h : String) (js : List PostedJournal)
      → verify_from host i h js ≡ true
      → end_sequence i js ≡ i + length js
  end_sequence-verify_from i h [] v = omega arith
  end_sequence-verify_from i h (j ∷ js) v =
      let (l, rest) = verify_from-cons i h j js v in
      rw l.numbered (omega (arith, end_sequence-verify_from (i + 1) j.integrity_hash js rest))

  pub verify_from-snoc :
      (i : ℕ) (h : String) (js : List PostedJournal) (j : PostedJournal)
      → verify_from host i h js ≡ true
      → IsLinked host (i + length js) (end_hash h js) j
      → verify_from host i h (js ++ j ∷ []) ≡ true
  unfolding verify_from
  verify_from-snoc i h [] j v l =
      IsLinked-verify_from i h j []
        (record { numbered = omega arith; linked = l.linked; sealed = l.sealed }) refl
  verify_from-snoc i h (k ∷ js) j v l =
      let (first, rest) = verify_from-cons i h k js v in
      IsLinked-verify_from i h k (js ++ j ∷ []) first (
        verify_from-snoc (i + 1) k.integrity_hash js j rest
          (record { numbered = omega (arith, l.numbered); linked = l.linked; sealed = l.sealed }))

  -- The content of the last of some journals.
  last_content :
      (i : ℕ) (h : String) (j : PostedJournal) (js : List PostedJournal)
      → verify_from host i h (j ∷ js) ≡ true
      → (k : PostedJournal) × Memᴰ k (j ∷ js)
        × (end_hash h (j ∷ js) ≡ host.hash_journal k.content)
        × (end_sequence i (j ∷ js) ≡ k.content.sequence)
  last_content i h j [] v =
      let (l, _) = verify_from-cons i h j [] v in (j, Memᴰ.head refl, sym l.sealed, refl)
  last_content i h j (k ∷ js) v =
      let (_, rest) = verify_from-cons i h j (k ∷ js) v in
      let (m, there, hash, sequence) = last_content (i + 1) j.integrity_hash k js rest in
      (m, Memᴰ.tail there, hash, sequence)

-- No journal of one history has the digest of a different journal of the other.
abbrev pub NoCollision : Host → List PostedJournal → List PostedJournal → Type 0
NoCollision host js ks =
    (j k : PostedJournal)
    → Memᴰ j js
    → Memᴰ k ks
    → host.hash_journal j.content ≡ host.hash_journal k.content
    → j.content ≡ k.content

-- No journal has the text "GENESIS" for its digest.
abbrev pub NoGenesis : Host → List PostedJournal → Type 0
NoGenesis host js = (j : PostedJournal) → Memᴰ j js → host.hash_journal j.content ≢ "GENESIS"

module _ (host : Host) where
  same_length :
      (js ks : List PostedJournal)
      → NoCollision host js ks
      → NoGenesis host js
      → NoGenesis host ks
      → verify_from host 0 "GENESIS" js ≡ true
      → verify_from host 0 "GENESIS" ks ≡ true
      → end_hash "GENESIS" js ≡ end_hash "GENESIS" ks
      → length js ≡ length ks
  same_length [] [] nc nj nk vj vk e = refl
  same_length [] (k ∷ ks) nc nj nk vj vk e =
      let (m, there, hash, _) = last_content host 0 "GENESIS" k ks vk in
      absurd (nk m there (sym (e ∙ hash)))
  same_length (j ∷ js) [] nc nj nk vj vk e =
      let (m, there, hash, _) = last_content host 0 "GENESIS" j js vj in
      absurd (nj m there (sym hash ∙ e))
  same_length (j ∷ js) (k ∷ ks) nc nj nk vj vk e =
      let (m, in_js, hash, number) = last_content host 0 "GENESIS" j js vj in
      let (n, in_ks, hash', number') = last_content host 0 "GENESIS" k ks vk in
      let same = nc m n in_js in_ks (sym hash ∙ e ∙ hash') in
      omega (
        arith,
        end_sequence-verify_from host 0 "GENESIS" (j ∷ js) vj,
        end_sequence-verify_from host 0 "GENESIS" (k ∷ ks) vk,
        number ∙ ap (λ c. c.sequence) same ∙ sym number',
      )

  same_run :
      (i : ℕ) (h g : String) (js ks : List PostedJournal)
      → NoCollision host js ks
      → length js ≡ length ks
      → verify_from host i h js ≡ true
      → verify_from host i g ks ≡ true
      → end_hash h js ≡ end_hash g ks
      → (h ≡ g) × (js ≡ ks)
  same_run i h g [] [] nc len vj vk e = (e, refl)
  same_run i h g [] (k ∷ ks) nc len vj vk e = absurd (omega arith)
  same_run i h g (j ∷ js) [] nc len vj vk e = absurd (omega arith)
  same_run i h g (j ∷ js) (k ∷ ks) nc len vj vk e =
      let (lj, rest_j) = verify_from-cons host i h j js vj in
      let (lk, rest_k) = verify_from-cons host i g k ks vk in
      let (hash, rest) =
        same_run (i + 1) j.integrity_hash k.integrity_hash js ks
          (λ m n in_js in_ks. nc m n (Memᴰ.tail in_js) (Memᴰ.tail in_ks)) (omega arith) rest_j
          rest_k e in
      let content = nc j k (Memᴰ.head refl) (Memᴰ.head refl) (lj.sealed ∙ hash ∙ sym lk.sealed) in
      (
        sym lj.linked ∙ ap (λ c. c.previous_hash) content ∙ lk.linked,
        λ t. record { content = content t; integrity_hash = hash t } ∷ rest t,
      )

-- The chain commits to the whole history: of two ledgers that both pass the integrity check, and
-- between whose journals the digest has no collision and never gives "GENESIS", equal last hashes
-- mean equal lists of journals.
pub chain_head-injective :
    (host : Host) (s t : LedgerState)
    → NoCollision host s.journals t.journals
    → NoGenesis host s.journals
    → NoGenesis host t.journals
    → verify_ledger_integrity host s ≡ true
    → verify_ledger_integrity host t ≡ true
    → chain_head s.journals ≡ chain_head t.journals
    → s.journals ≡ t.journals
unfolding verify_ledger_integrity chain_head
chain_head-injective host s t nc ns nt vs vt e =
    let heads =
      sym (map_or-get_last? "GENESIS" (λ j. j.integrity_hash) s.journals)
      ∙ e
      ∙ map_or-get_last? "GENESIS" (λ j. j.integrity_hash) t.journals in
    let len = same_length host s.journals t.journals nc ns nt vs vt heads in
    (same_run host 0 "GENESIS" "GENESIS" s.journals t.journals nc len vs vt heads).1
