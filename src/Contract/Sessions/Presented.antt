-- ===== src/Contract/Sessions/Presented.antt =====
-- What a session presentation that verifies comes with: call_allowed, parent_binding and
-- verify_presentation of holder_sessions.rs.
use sec_s_magik.Base.{
  ℕ, ◌+◌, ◌≤◌, ◌<◌, ◌≡◌, true, false, List, ok, Eq, list_eq, nat_eq, bne→eq, arith, some, bytes,
  Has, any→Has, ◌==◌, ◌&&◌, &&-true, beq→eq, sym, ◌∙◌, ap, ok_or, ok_or-eq-ok, deny-eq-ok,
  >>=-eq-ok, Result-cases, inl, inr, option_eq,
}
use sec_s_magik.Contract.Claims.{IssuerPin, Grant, Proof, Wire}
use sec_s_magik.Contract.Codec.{Crypto, JsonLibrary, digest, verify, canonical}
use sec_s_magik.Contract.Json.{Json, Fields, object, has_key}
use sec_s_magik.Contract.{invalid_holder_session}
use sec_s_magik.Contract.Version2.{Permission}
use sec_s_magik.Contract.Sessions.{
  Context, Challenge, Credential, SessionWire, presentation_schema, proof_domain, is_out_of_window,
  str_field, count_fields, as_object,
}
use sec_s_magik.Contract.Sessions.Protocol
use sec_s_magik.Contract.Sessions.Windows.{parent_facts, unbound_facts}

window_facts :
    {Value : Type 0} (c : Challenge Value) (issued expires now : ℕ)
    → is_out_of_window c issued expires now ≡ false
    → (c.issued_at ≤ issued)
      × (issued ≤ now)
      × (now < expires)
      × (expires ≤ c.expires_at)
      × (expires ≤ issued + 60)
unfolding is_out_of_window
window_facts c issued expires now h =
    (ground arith, ground arith, ground arith, ground arith, ground arith)

module _ {SigningKey VerifyingKey Value : Type 0} ⦃e : Eq Value⦄
    (crypto : Crypto SigningKey VerifyingKey) (json : JsonLibrary Value)
    (permission_value : Permission Value → Value)
    (permissions_value : List (Permission Value) → Value) (wire : Wire (Permission Value) Value)
    (session_wire : SessionWire Value) where
  -- The call is an object of an operation, a resource and parameters, and one permission of the
  -- session has its operation and its resource.
  pub record IsAllowed (c : Credential Value) (call : Value) : Type 0 where
    pub fields : Fields
    pub is_object : json.view call ≡ object fields
    pub three : count_fields fields ≡ 3
    pub parameters : has_key (bytes "parameters") fields ≡ true
    pub permitted :
        Has
          (λ p.
            (str_field (bytes "operation") fields ≡ some p.operation)
            × (str_field (bytes "resource") fields ≡ some p.resource))
          c.claims.challenge.permissions

  as_object_facts : (j : Json) (fields : Fields) → as_object j ≡ some fields → j ≡ object fields
  as_object_facts j fields h = ground arith

  asked_permission :
      (fields : Fields) (p : Permission Value)
      → (some p.operation == str_field (bytes "operation") fields
          && some p.resource == str_field (bytes "resource") fields)
        ≡ true
      → (str_field (bytes "operation") fields ≡ some p.operation)
        × (str_field (bytes "resource") fields ≡ some p.resource)
  asked_permission fields p h =
      let (same, also) =
        &&-true (some p.operation == str_field (bytes "operation") fields)
          (some p.resource == str_field (bytes "resource") fields) h in
      (
        sym (beq→eq (some p.operation) (str_field (bytes "operation") fields) same),
        sym (beq→eq (some p.resource) (str_field (bytes "resource") fields) also),
      )

  call_allowed-IsAllowed :
      (c : Credential Value) (call : Value) {u : Unit {0}}
      → Protocol.call_allowed crypto json permission_value permissions_value wire session_wire c
          call
        ≡ ok u
      → IsAllowed c call
  unfolding Protocol.call_allowed
  call_allowed-IsAllowed c call h =
      let (read, readable, h1) = >>=-eq-ok (canonical json call) _ h in
      let (fields, found, h2) =
        >>=-eq-ok (ok_or (as_object (json.view call)) invalid_holder_session) _ h1 in
      let passed = deny-eq-ok _ _ h2 in
      record {
        fields = fields;
        is_object = as_object_facts (json.view call) fields (ok_or-eq-ok _ _ found);
        three = ground (arith, passed);
        parameters = ground (arith, passed);
        permitted =
            any→Has
              (λ p.
                some p.operation == str_field (bytes "operation") fields
                && some p.resource == str_field (bytes "resource") fields)
              (asked_permission fields) c.claims.challenge.permissions (ground (arith, passed));
      }

  -- What a session presentation that verifies comes with.
  pub record IsPresented (pin : IssuerPin) (parent : Grant (Permission Value))
      (c : Credential Value) (call : Value) (p : Proof) (now : ℕ) : Type 0 where
    pub allowed : IsAllowed c call
    pub credential_digest : digest crypto json (session_wire.credential c) ≡ ok p.credential_digest
    pub call_digest : digest crypto json call ≡ ok p.call_digest
    pub schema : p.schema ≡ presentation_schema
    pub signed :
        verify crypto json proof_domain
          (Protocol.proof_value crypto json permission_value permissions_value wire session_wire p)
          p.signature
          c.claims.challenge.session_public_key
        ≡ ok tt
    pub parent_grant_id : c.claims.challenge.parent_grant_id ≡ parent.claims.grant_id
    pub parent_digest :
        digest crypto json (wire.grant_value parent) ≡ ok c.claims.challenge.parent_grant_digest
    pub holder : c.claims.challenge.holder_public_key ≡ parent.claims.holder_public_key
    pub begins : c.claims.challenge.issued_at ≤ p.issued_at
    pub issued : p.issued_at ≤ now
    pub lasts : now < p.expires_at
    pub ends : p.expires_at ≤ c.claims.challenge.expires_at
    pub minute : p.expires_at ≤ p.issued_at + 60

  parent_id_facts :
      (pin : IssuerPin) (parent : Grant (Permission Value)) (c : Challenge Value)
      (context : Context) (now : ℕ)
      → Protocol.parent_binding crypto json permission_value permissions_value wire session_wire pin
          parent c context now
        ≡ ok tt
      → (c.parent_grant_id ≡ parent.claims.grant_id)
        × (digest crypto json (wire.grant_value parent) ≡ ok c.parent_grant_digest)
  unfolding Protocol.parent_binding
  parent_id_facts pin parent c context now h =
      elim (Result-cases (digest crypto json (wire.grant_value parent))) [
        | inr (e, refused) ↦ ground (arith, refused, h)
        | inl (d, read) ↦
            let same = bne→eq c.parent_grant_digest d (ground (arith, read, h)) in
            (
              bne→eq c.parent_grant_id parent.claims.grant_id (ground (arith, read, h)),
              read ∙ ap ok (sym same),
            )
      ]

  presented_facts :
      (pin : IssuerPin) (parent : Grant (Permission Value)) (c : Credential Value) (call : Value)
      (p : Proof) (context : Context) (now : ℕ)
      → Protocol.verify_presentation crypto json permission_value permissions_value wire
          session_wire pin parent c call p context now
        ≡ ok tt
      → (Protocol.parent_binding crypto json permission_value permissions_value wire session_wire
            pin parent c.claims.challenge context now
          ≡ ok tt)
        × (Protocol.call_allowed crypto json permission_value permissions_value wire session_wire c
              call
            ≡ ok tt)
        × (is_out_of_window c.claims.challenge p.issued_at p.expires_at now ≡ false)
  unfolding Protocol.verify_presentation Protocol.verify_parent
  presented_facts pin parent c call p context now h = (ground arith, ground arith, ground arith)

  presented_digests :
      (pin : IssuerPin) (parent : Grant (Permission Value)) (c : Credential Value) (call : Value)
      (p : Proof) (context : Context) (now : ℕ)
      → Protocol.verify_presentation crypto json permission_value permissions_value wire
          session_wire pin parent c call p context now
        ≡ ok tt
      → (digest crypto json (session_wire.credential c) ≡ ok p.credential_digest)
        × (digest crypto json call ≡ ok p.call_digest)
        × (p.schema ≡ presentation_schema)
        × (verify crypto json proof_domain
              (Protocol.proof_value crypto json permission_value permissions_value wire session_wire
                p)
              p.signature
              c.claims.challenge.session_public_key
            ≡ ok tt)
  unfolding Protocol.verify_presentation
  presented_digests pin parent c call p context now h =
      elim (Result-cases (digest crypto json (session_wire.credential c))) [
        | inr (e, refused) ↦ ground (arith, refused, h)
        | inl (d1, first) ↦ elim (Result-cases (digest crypto json call)) [
          | inr (e, refused) ↦ ground (arith, first, refused, h)
          | inl (d2, second) ↦
              let same1 = bne→eq p.credential_digest d1 (ground (arith, first, second, h)) in
              let same2 = bne→eq p.call_digest d2 (ground (arith, first, second, h)) in
              (
                first ∙ ap ok (sym same1),
                second ∙ ap ok (sym same2),
                bne→eq p.schema presentation_schema (ground (arith, h)),
                ground (arith, first, second, h),
              )
        ]
      ]

  -- A session presentation that verifies names the digests of its credential and of its call, and is
  -- signed by the key of the session; the call is an object of three fields, with parameters and
  -- with the operation and the resource of one permission of the session; the session is that of
  -- the holder and the digest of the given parent grant; and the presentation lasts at most sixty
  -- seconds, begins within the session and ends with it at the latest.
  pub session_presentation_bound :
      (pin : IssuerPin) (parent : Grant (Permission Value)) (c : Credential Value) (call : Value)
      (p : Proof) (context : Context) (now : ℕ)
      → Protocol.verify_presentation crypto json permission_value permissions_value wire
          session_wire pin parent c call p context now
        ≡ ok tt
      → IsPresented pin parent c call p now
  session_presentation_bound pin parent c call p context now h =
      let (bound, allowed, inside) = presented_facts pin parent c call p context now h in
      let (digest1, digest2, schema, signed) =
        presented_digests pin parent c call p context now h in
      let (same_id, same_digest) =
        parent_id_facts pin parent c.claims.challenge context now bound in
      let (_, _, unbound, _) =
        parent_facts crypto json permission_value permissions_value wire session_wire pin parent
          c.claims.challenge context now bound in
      let (_, _, _, holder) = unbound_facts c.claims.challenge parent.claims unbound in
      let (a, b, d, f, g) = window_facts c.claims.challenge p.issued_at p.expires_at now inside in
      record {
        allowed = call_allowed-IsAllowed c call allowed;
        credential_digest = digest1;
        call_digest = digest2;
        schema = schema;
        signed = signed;
        parent_grant_id = same_id;
        parent_digest = same_digest;
        holder = holder;
        begins = a;
        issued = b;
        lasts = d;
        ends = f;
        minute = g;
      }
