-- ===== src/Contract/Sessions/Windows.antt =====
-- The windows of session challenges, credentials and their parents: holder_sessions.rs.
use sec_s_magik.Base.{
  ℕ, ◌-◌, ◌≤◌, ◌<◌, ◌≡◌, ◌↔◌, true, false, List, ok, Eq, list_eq, nat_eq, bne→eq, arith,
}
use sec_s_magik.Contract.Claims.{IssuerPin, Grant, GrantClaims, Wire}
use sec_s_magik.Contract.Codec.{Crypto, JsonLibrary}
use sec_s_magik.Contract.Version2
use sec_s_magik.Contract.Version2.{Permission}
use sec_s_magik.Contract.Holder
use sec_s_magik.Contract.Holder.Parts
use sec_s_magik.Contract.Holder.{checked_add}
use sec_s_magik.Contract.Validity
use sec_s_magik.Contract.Json.{safe_integer}
use sec_s_magik.Contract.Sessions.{
  Context, Challenge, Credential, SessionWire, is_bad_structure, is_unbound, ends_before,
}
use sec_s_magik.Contract.Sessions.Protocol

pub structure_window :
    {Value : Type 0} (c : Challenge Value) (context : Context) (now : ℕ)
    → is_bad_structure c context now ≡ false
    → (c.issued_at ≤ now) × (now < c.expires_at) × (c.expires_at ≤ safe_integer)
unfolding is_bad_structure
structure_window c context now h = (ground arith, ground arith, ground arith)

structure_time :
    {Value : Type 0} (c : Challenge Value) (context : Context) (now t : ℕ)
    → is_bad_structure c context now ≡ false
    → c.issued_at ≤ t
    → t < c.expires_at
    → is_bad_structure c context t ≡ false
unfolding is_bad_structure
structure_time c context now t h a b = ground arith

pub unbound_facts :
    {Value : Type 0} (c : Challenge Value) (g : GrantClaims (Permission Value))
    → is_unbound c g ≡ false
    → (Validity.contains g.validity c.issued_at ≡ true)
      × (ends_before (Validity.end_of g.validity) c.expires_at ≡ false)
      × (c.expires_at - c.issued_at ≤ g.max_credential_lifetime_seconds)
      × (c.holder_public_key ≡ g.holder_public_key)
unfolding is_unbound
unbound_facts c g h = (
  ground arith,
  ground arith,
  ground arith,
  bne→eq c.holder_public_key g.holder_public_key (ground arith),
)

-- While a challenge lasts its parent grant is valid.
bound_until :
    (v : Validity.Validity) (a e t : ℕ)
    → Validity.contains v a ≡ true
    → ends_before (Validity.end_of v) e ≡ false
    → e ≤ safe_integer
    → a ≤ t
    → t < e
    → Validity.contains v t ≡ true
unfolding Validity.contains Validity.end_of
bound_until v a e t c b s p q = ground arith

module _ {SigningKey VerifyingKey Value : Type 0} ⦃e : Eq Value⦄
    (crypto : Crypto SigningKey VerifyingKey) (json : JsonLibrary Value)
    (permission_value : Permission Value → Value)
    (permissions_value : List (Permission Value) → Value) (wire : Wire (Permission Value) Value)
    (session_wire : SessionWire Value) where
  pub well_structured :
      (c : Challenge Value) (context : Context) (now : ℕ)
      → Protocol.structure crypto json permission_value permissions_value wire session_wire c
          context now
        ≡ ok tt
      → is_bad_structure c context now ≡ false
  unfolding Protocol.structure
  well_structured c context now h = ground arith

  pub structure_at :
      (c : Challenge Value) (context : Context) (now t : ℕ)
      → Protocol.structure crypto json permission_value permissions_value wire session_wire c
          context now
        ≡ ok tt
      → c.issued_at ≤ t
      → t < c.expires_at
      → Protocol.structure crypto json permission_value permissions_value wire session_wire c
          context t
        ≡ ok tt
  unfolding Protocol.structure
  structure_at c context now t h a b =
      ground (arith, structure_time c context now t (well_structured c context now h) a b)

  pub credential_facts :
      (pin : IssuerPin) (c : Credential Value) (context : Context) (now : ℕ)
      → Protocol.verify_credential crypto json permission_value permissions_value wire session_wire
          pin c context now
        ≡ ok tt
      → Protocol.structure crypto json permission_value permissions_value wire session_wire
          c.claims.challenge context now
        ≡ ok tt
  unfolding Protocol.verify_credential
  credential_facts pin c context now h = ground arith

  credential_again :
      (pin : IssuerPin) (c : Credential Value) (context : Context) (now t : ℕ)
      → Protocol.verify_credential crypto json permission_value permissions_value wire session_wire
          pin c context now
        ≡ ok tt
      → Protocol.structure crypto json permission_value permissions_value wire session_wire
          c.claims.challenge context t
        ≡ ok tt
      → Protocol.verify_credential crypto json permission_value permissions_value wire session_wire
          pin c context t
        ≡ ok tt
  unfolding Protocol.verify_credential
  credential_again pin c context now t h s = ground arith

  -- A session credential that verifies in a context at one time verifies there at exactly the times
  -- from when its challenge was issued up to but not including when it expires.
  pub session_credential_window :
      (pin : IssuerPin) (c : Credential Value) (context : Context) (now t : ℕ)
      → Protocol.verify_credential crypto json permission_value permissions_value wire session_wire
          pin c context now
        ≡ ok tt
      → (Protocol.verify_credential crypto json permission_value permissions_value wire session_wire
            pin c context t
          ≡ ok tt)
        ↔ ((c.claims.challenge.issued_at ≤ t) × (t < c.claims.challenge.expires_at))
  session_credential_window pin c context now t h =
      let x = c.claims.challenge in
      (
        λ again.
            let (a, b, _) =
              structure_window x context t
                (well_structured x context t (credential_facts pin c context t again)) in
            (a, b),
        λ (a, b).
            credential_again pin c context now t h
              (structure_at x context now t (credential_facts pin c context now h) a b),
      )

  pub parent_facts :
      (pin : IssuerPin) (parent : Grant (Permission Value)) (c : Challenge Value)
      (context : Context) (now : ℕ)
      → Protocol.parent_binding crypto json permission_value permissions_value wire session_wire pin
          parent c context now
        ≡ ok tt
      → (Protocol.structure crypto json permission_value permissions_value wire session_wire c
            context now
          ≡ ok tt)
        × (Holder.verify_grant crypto json wire
              (Version2.profile json permission_value permissions_value)
              pin
              parent
              now
            ≡ ok tt)
        × (is_unbound c parent.claims ≡ false)
        × (Version2.permissions_within json permission_value permissions_value c.permissions
              parent.claims.permissions
            ≡ ok tt)
  unfolding Protocol.parent_binding
  parent_facts pin parent c context now h = (ground arith, ground arith, ground arith, ground arith)

  parent_again :
      (pin : IssuerPin) (parent : Grant (Permission Value)) (c : Challenge Value)
      (context : Context) (now t : ℕ)
      → Protocol.parent_binding crypto json permission_value permissions_value wire session_wire pin
          parent c context now
        ≡ ok tt
      → Protocol.structure crypto json permission_value permissions_value wire session_wire c
          context t
        ≡ ok tt
      → Holder.verify_grant crypto json wire
          (Version2.profile json permission_value permissions_value)
          pin
          parent
          t
        ≡ ok tt
      → Protocol.parent_binding crypto json permission_value permissions_value wire session_wire pin
          parent c context t
        ≡ ok tt
  unfolding Protocol.parent_binding
  parent_again pin parent c context now t h s g = ground arith

  -- A challenge that is bound to a parent grant at one time is bound to it at every time from when
  -- it was issued up to but not including when it expires.
  pub parent_binding_at :
      (pin : IssuerPin) (parent : Grant (Permission Value)) (c : Challenge Value)
      (context : Context) (now t : ℕ)
      → Protocol.parent_binding crypto json permission_value permissions_value wire session_wire pin
          parent c context now
        ≡ ok tt
      → c.issued_at ≤ t
      → t < c.expires_at
      → Protocol.parent_binding crypto json permission_value permissions_value wire session_wire pin
          parent c context t
        ≡ ok tt
  parent_binding_at pin parent c context now t h a b =
      let (s, granted, bound, _) = parent_facts pin parent c context now h in
      let (valid, ends, _, _) = unbound_facts c parent.claims bound in
      let (_, _, small) = structure_window c context now (well_structured c context now s) in
      parent_again pin parent c context now t h (structure_at c context now t s a b) (
        Parts.verify_grant_at crypto json wire
          (Version2.profile json permission_value permissions_value) pin parent now t granted
          (bound_until parent.claims.validity c.issued_at c.expires_at t valid ends small a b))
