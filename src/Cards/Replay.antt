-- ===== src/Cards/Replay.antt =====
-- Idempotency keys of packages/card-simulator/src/index.ts.
use fuel_cap.Base.{
  ◌≡◌, refl, subst, ◌∙◌, not, Option, none, some, lookup, contains, ◌==◌, string_eq, ==-eq, ==_refl,
  lookup-insert, not-eq_false, ok, >>-eq_ok, >>=-eq_ok, ok_eq,
}
use fuel_cap.Cards.{
  Host, Simulator, CardProfile, CardAuthorization, AuthorizeCardCommand, CardError, StoredKey,
  new_authorization, authorization_reason, store_authorization, authorize_card, authorize_keyed,
  validate_authorization_command, authorize,
}

-- After a call the key is stored with the command's fingerprint and the result's identity.
record IsStored (host : Host) (c : AuthorizeCardCommand) (r : Simulator × Option CardAuthorization)
    : Type 0 where
  key : StoredKey
  recorded : lookup c.idempotency_key r.0.authorization_keys ≡ some key
  fingerprint : key.fingerprint ≡ host.hash_authorize c
  result : lookup key.id r.0.authorizations ≡ r.1

module _ (host : Host) (s : Simulator) (c : AuthorizeCardCommand) where
  authorize_card-IsStored :
      (o : Option CardProfile) {r : Simulator × Option CardAuthorization}
      → authorize_card s (host.hash_authorize c) c o ≡ ok r
      → IsStored host c r
  unfolding store_authorization new_authorization
  authorize_card-IsStored none h = absurd (cc)
  authorize_card-IsStored (some card) h =
      let a = new_authorization card c (authorization_reason s.authorizations card c) in
      let stored : StoredKey = record {
        fingerprint = host.hash_authorize c;
        id = c.authorization_id;
      } in
      subst (IsStored host c) {x = (store_authorization s (host.hash_authorize c) c a, some a)}
        (ok_eq h)
        (record {
          key = stored;
          recorded =
              lookup-insert c.idempotency_key c.idempotency_key stored s.authorization_keys
              ∙ rw (==_refl c.idempotency_key);
          fingerprint = refl;
          result =
              lookup-insert c.authorization_id c.authorization_id a s.authorizations
              ∙ rw (==_refl c.authorization_id);
        })

  authorize_keyed-IsStored :
      (o : Option StoredKey) {r : Simulator × Option CardAuthorization}
      → lookup c.idempotency_key s.authorization_keys ≡ o
      → authorize_keyed s (host.hash_authorize c) c o ≡ ok r
      → IsStored host c r
  authorize_keyed-IsStored (some replay) e h =
      let (same, h₁) =
        >>-eq_ok (not (replay.fingerprint == host.hash_authorize c)) CardError.key_reused _ h in
      subst (IsStored host c) {x = (s, lookup replay.id s.authorizations)} (ok_eq h₁) (record {
        key = replay;
        recorded = e;
        fingerprint = ==-eq _ _ (not-eq_false _ same);
        result = refl;
      })
  authorize_keyed-IsStored none e h =
      let (_, h₁) =
        >>-eq_ok (contains c.authorization_id s.authorizations) CardError.id_not_unique _ h in
      authorize_card-IsStored (lookup c.card_id s.cards) h₁

  -- An authorization request can be sent again: the second call returns the same authorization and
  -- leaves the simulator as the first call left it.
  pub authorize-authorize :
      {r : Simulator × Option CardAuthorization}
      → authorize host s c ≡ ok r
      → authorize host r.0 c ≡ ok r
  unfolding authorize
  authorize-authorize {r} h =
      let (_, valid, h₁) = >>=-eq_ok (validate_authorization_command host c) _ h in
      let w = authorize_keyed-IsStored (lookup c.idempotency_key s.authorization_keys) refl h₁ in
      rw (valid, authorize, w.recorded, w.fingerprint, ==_refl (host.hash_authorize c), w.result)
