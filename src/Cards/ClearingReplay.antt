-- ===== src/Cards/ClearingReplay.antt =====
-- Idempotency keys of clearings in packages/card-simulator/src/index.ts.
use fuel_cap.Base.{
  ◌≡◌, refl, ap, subst, ◌∙◌, Bool, true, false, not, Option, none, some, lookup, contains, ◌==◌,
  string_eq, ==-eq, ==_refl, lookup-insert, not-eq_false, if◌then◌else◌, ok, >>-eq_ok, >>=-eq_ok,
  ok_eq,
}
use fuel_cap.Cards.{
  Host, Simulator, CardAuthorization, CardClearing, ClearCardCommand, CardError, StoredKey,
  clearing_reason, new_clearing, store_clearing, accept_clearing, break_clearing, settle,
  clear_found, clear_keyed, clear, validate_clearing_command,
}

-- After a call the key is stored with the command's fingerprint and the clearing's identity.
record IsRecorded (host : Host) (c : ClearCardCommand) (r : Simulator × Option CardClearing)
    : Type 0 where
  key : StoredKey
  recorded : lookup c.idempotency_key r.0.clearing_keys ≡ some key
  fingerprint : key.fingerprint ≡ host.hash_clear c
  result : lookup key.id r.0.clearings ≡ r.1

-- The last branch of a clearing changes neither the clearings nor their keys.
settle-kept :
    (s : Simulator) (a : Option CardAuthorization) (clearing : CardClearing)
    → ((settle s a clearing).clearings ≡ s.clearings)
      × ((settle s a clearing).clearing_keys ≡ s.clearing_keys)
unfolding accept_clearing break_clearing
settle-kept s none clearing = (refl, refl)
settle-kept s (some a) clearing = by_outcome clearing.is_accepted
  where
    by_outcome :
        (b : Bool)
        → ((if b then accept_clearing s a clearing else break_clearing s clearing).clearings
            ≡ s.clearings)
          × ((if b then accept_clearing s a clearing else break_clearing s clearing).clearing_keys
              ≡ s.clearing_keys)
    by_outcome true = (refl, refl)
    by_outcome false = (refl, refl)

module _ (host : Host) (s : Simulator) (c : ClearCardCommand) where
  clear_found-IsRecorded :
      (a : Option CardAuthorization) → IsRecorded host c (clear_found s (host.hash_clear c) c a)
  unfolding store_clearing new_clearing
  clear_found-IsRecorded a =
      let clearing = new_clearing a c (clearing_reason a c) in
      let stored : StoredKey = record { fingerprint = host.hash_clear c; id = c.clearing_id } in
      let (clearings, keys) =
        settle-kept (store_clearing s (host.hash_clear c) c clearing) a clearing in
      record {
        key = stored;
        recorded =
            ap (lookup c.idempotency_key) keys
            ∙ lookup-insert c.idempotency_key c.idempotency_key stored s.clearing_keys
            ∙ rw (==_refl c.idempotency_key);
        fingerprint = refl;
        result =
            ap (lookup c.clearing_id) clearings
            ∙ lookup-insert c.clearing_id c.clearing_id clearing s.clearings
            ∙ rw (==_refl c.clearing_id);
      }

  clear_keyed-IsRecorded :
      (o : Option StoredKey) {r : Simulator × Option CardClearing}
      → lookup c.idempotency_key s.clearing_keys ≡ o
      → clear_keyed s (host.hash_clear c) c o ≡ ok r
      → IsRecorded host c r
  clear_keyed-IsRecorded (some replay) e h =
      let (same, h₁) =
        >>-eq_ok (not (replay.fingerprint == host.hash_clear c)) CardError.key_reused _ h in
      subst (IsRecorded host c) {x = (s, lookup replay.id s.clearings)} (ok_eq h₁) (record {
        key = replay;
        recorded = e;
        fingerprint = ==-eq _ _ (not-eq_false _ same);
        result = refl;
      })
  clear_keyed-IsRecorded none e h =
      let (_, h₁) = >>-eq_ok (contains c.clearing_id s.clearings) CardError.id_not_unique _ h in
      subst (IsRecorded host c) (ok_eq h₁)
        (clear_found-IsRecorded (lookup c.authorization_id s.authorizations))

  -- A clearing can be sent again: whether it was accepted or a break, the second call returns the same
  -- clearing and leaves the simulator as the first call left it, so nothing is settled twice.
  pub clear-clear :
      {r : Simulator × Option CardClearing} → clear host s c ≡ ok r → clear host r.0 c ≡ ok r
  unfolding clear
  clear-clear {r} h =
      let (_, valid, h₁) = >>=-eq_ok (validate_clearing_command host c) _ h in
      let w = clear_keyed-IsRecorded (lookup c.idempotency_key s.clearing_keys) refl h₁ in
      rw (valid, clear, w.recorded, w.fingerprint, ==_refl (host.hash_clear c), w.result)
