-- ===== src/Server/Identity/Window.antt =====
-- What an accepted context satisfies: server/src/identity.rs and server/src/verifier.rs.
use sec_s_magik.Base.{
  ℕ, ◌≤◌, Bool, true, false, not, ◌||◌, some, Text, List, bytes, ok, deny, ok_or, ◌≡◌, ◌≢◌, ap, ◌∙◌,
  ◌!=◌, ltb, leb, bne→eq, >>=-eq-ok, deny-eq-ok, ok_or-eq-ok, ok_injective, contains, find, list_eq,
  nat_eq, arith,
}
use sec_s_magik.Server.Clock.{is_clock_read_failure, clock_read_failure_sentinel}
use sec_s_magik.Server.Errors.{
  untrusted_verifier_key, revoked_verifier_key, expired_verifier_key, not_yet_valid_verifier_key,
}
use sec_s_magik.Server.Context.{SignedVerifiedCallContext, is_node_and_verifier}
use sec_s_magik.Server.Identity.{
  Ed25519, VerificationKeyStatus, check_status, is_some_and, PublicVerifierKey,
  PublicVerifierKeyRegistry, ensure_active_at, get_unique, verify_ed25519_with_key,
  verify_signed_context, verify_production_signed_context, has_id,
}

-- The context is the audience's, is not expired at a time that was read, and is signed by the key.
pub record IsAccepted (lib : Ed25519) (key : List ℕ) (audience : Text) (now : ℕ)
    (signed : SignedVerifiedCallContext) : Type 0 where
  pub audience_matches : signed.context.audience ≡ audience
  pub clock_was_read : now ≢ clock_read_failure_sentinel
  pub not_expired : now ≤ signed.context.expires_at
  pub signature :
      (message : List ℕ) × (lib.serialize signed.context ≡ some message)
      × (lib.verify key message signed.signature ≡ true)

-- The key is active: by its status, and at the time by its window and its revocation.
pub record IsActiveAt (now : ℕ) (key : PublicVerifierKey) : Type 0 where
  pub status : key.status ≡ VerificationKeyStatus.active
  pub started : is_some_and key.not_before (λ not_before. ltb now not_before) ≡ false
  pub not_over : is_some_and key.not_after (λ not_after. ltb not_after now) ≡ false
  pub not_revoked : is_some_and key.revoked_at (λ revoked_at. leb revoked_at now) ≡ false

status_facts :
    (status : VerificationKeyStatus) {u : Unit {0}}
    → check_status status ≡ ok u
    → status ≡ VerificationKeyStatus.active
status_facts status h = ground arith

ensure_active_at-IsActiveAt :
    (key : PublicVerifierKey) (now : ℕ) → ensure_active_at key now ≡ ok tt → IsActiveAt now key
unfolding ensure_active_at
ensure_active_at-IsActiveAt key now h =
    let (u1, h1, unrevoked) =
      >>=-eq-ok _
        (λ _.
          deny (is_some_and key.revoked_at (λ revoked_at. leb revoked_at now)) revoked_verifier_key)
        h in
    let (u2, h2, over) =
      >>=-eq-ok _
        (λ _.
          deny (is_some_and key.not_after (λ not_after. ltb not_after now)) expired_verifier_key)
        h1 in
    let (u3, live, start) =
      >>=-eq-ok (check_status key.status)
        (λ _.
          deny (is_some_and key.not_before (λ not_before. ltb now not_before))
            not_yet_valid_verifier_key)
        h2 in
    record {
      status = status_facts key.status live;
      started = deny-eq-ok _ _ start;
      not_over = deny-eq-ok _ _ over;
      not_revoked = deny-eq-ok _ _ unrevoked;
    }

trusted_facts :
    (a b c : Bool) → (not a || b || not c) ≡ false → (a ≡ true) × (b ≡ false) × (c ≡ true)
trusted_facts a b c h = (ground arith, ground arith, ground arith)

module _ (lib : Ed25519) where
  pub verify_ed25519-IsAccepted :
      (signed : SignedVerifiedCallContext) (key : List ℕ) (audience : Text) (now : ℕ)
      → verify_ed25519_with_key lib signed key audience now ≡ ok tt
      → IsAccepted lib key audience now signed
  unfolding verify_ed25519_with_key
  verify_ed25519-IsAccepted signed key audience now h =
      let (message, h0, verified) = >>=-eq-ok _ _ h in
      let (u1, h1, serialized) = >>=-eq-ok _ (λ _. ok_or (lib.serialize signed.context) _) h0 in
      let (u2, h2, sig) = >>=-eq-ok _ (λ _. deny (not (lib.is_signature signed.signature)) _) h1 in
      let (u3, h3, fresh) = >>=-eq-ok _ (λ _. deny (ltb signed.context.expires_at now) _) h2 in
      let (u4, same, read) =
        >>=-eq-ok (deny (signed.context.audience != audience) _)
          (λ _. deny (is_clock_read_failure now) _) h3 in
      record {
        audience_matches = bne→eq signed.context.audience audience (deny-eq-ok _ _ same);
        clock_was_read = λ e. ground (arith, deny-eq-ok _ _ read);
        not_expired = ground (arith, deny-eq-ok _ _ fresh);
        signature = (message, ok_or-eq-ok _ _ serialized, ground (arith, deny-eq-ok _ _ verified));
      }

  pub record IsVerifiedBy (registry : PublicVerifierKeyRegistry) (audience : Text) (now : ℕ)
      (signed : SignedVerifiedCallContext) (key : PublicVerifierKey) : Type 0 where
    pub found : find (has_id signed.signer_key_id) registry.keys ≡ some key
    pub once : contains registry.duplicate_key_ids signed.signer_key_id ≡ false
    pub active : IsActiveAt now key
    pub accepted : IsAccepted lib key.public_key audience now signed

  get_unique_facts :
      (registry : PublicVerifierKeyRegistry) (id : Text) (key : PublicVerifierKey)
      → get_unique registry id ≡ ok key
      → (find (has_id id) registry.keys ≡ some key)
        × (contains registry.duplicate_key_ids id ≡ false)
  unfolding get_unique
  get_unique_facts registry id key h =
      let (k, found, h0) = >>=-eq-ok (ok_or (find (has_id id) registry.keys) _) _ h in
      let (u, once, same) = >>=-eq-ok (deny (contains registry.duplicate_key_ids id) _) _ h0 in
      (ok_or-eq-ok _ _ found ∙ ap some (ok_injective same), deny-eq-ok _ _ once)

  pub verify_signed_context-IsVerifiedBy :
      (registry : PublicVerifierKeyRegistry) (signed : SignedVerifiedCallContext) (audience : Text)
      (now : ℕ)
      → verify_signed_context lib registry signed audience now ≡ ok tt
      → (key : PublicVerifierKey) × IsVerifiedBy registry audience now signed key
  unfolding verify_signed_context
  verify_signed_context-IsVerifiedBy registry signed audience now h =
      let (key, e0, h0) = >>=-eq-ok (get_unique registry signed.signer_key_id) _ h in
      let (u, act, ver) =
        >>=-eq-ok (ensure_active_at key now)
          (λ _. verify_ed25519_with_key lib signed key.public_key audience now) h0 in
      let (found, once) = get_unique_facts registry signed.signer_key_id key e0 in
      (
        key,
        record {
          found = found;
          once = once;
          active = ensure_active_at-IsActiveAt key now act;
          accepted = verify_ed25519-IsAccepted signed key.public_key audience now ver;
        },
      )

  -- A context that passes the production check is signed by a key that the registry holds under its
  -- id, given once, active at the time, with production authority over Ed25519; it is of the
  -- audience and not expired at a time that was read.
  pub verify_production-IsVerifiedBy :
      (registry : PublicVerifierKeyRegistry) (signed : SignedVerifiedCallContext) (audience : Text)
      (now : ℕ)
      → verify_production_signed_context lib registry signed audience now ≡ ok tt
      → (key : PublicVerifierKey) × IsVerifiedBy registry audience now signed key
        × (key.production_authority ≡ true)
        × (key.algorithm ≡ bytes "ed25519")
        × (is_node_and_verifier signed.authenticator_kind ≡ true)
  unfolding verify_production_signed_context
  verify_production-IsVerifiedBy registry signed audience now h =
      let (key, e0, h0) = >>=-eq-ok (get_unique registry signed.signer_key_id) _ h in
      let (u, h1, ver) =
        >>=-eq-ok _ (λ _. verify_ed25519_with_key lib signed key.public_key audience now) h0 in
      let (v, act, trusted) =
        >>=-eq-ok (ensure_active_at key now)
          (λ _.
            deny
              (not key.production_authority
                || key.algorithm != bytes "ed25519"
                || not (is_node_and_verifier signed.authenticator_kind))
              untrusted_verifier_key)
          h1 in
      let (found, once) = get_unique_facts registry signed.signer_key_id key e0 in
      let (auth, algorithm, kind) = trusted_facts _ _ _ (deny-eq-ok _ _ trusted) in
      (
        key,
        record {
          found = found;
          once = once;
          active = ensure_active_at-IsActiveAt key now act;
          accepted = verify_ed25519-IsAccepted signed key.public_key audience now ver;
        },
        auth,
        bne→eq key.algorithm (bytes "ed25519") algorithm,
        kind,
      )
