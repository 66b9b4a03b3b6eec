-- ===== src/Examples/Scoped.antt =====
-- A version 2 credential of the grant of Session: the theorem on its effects.
use sec_s_magik.Base.{[], ◌∷◌, Text, none, bytes, list_eq, nat_eq}
use sec_s_magik.Contract.Validity
use sec_s_magik.Contract.Claims.{IssuerPin, Grant, Proof, Wire}
use sec_s_magik.Contract.Version2
use sec_s_magik.Contract.Version2.{Permission}
use sec_s_magik.Contract.Version2.{permission_eq}
use sec_s_magik.Contract.Version2.Documents
use sec_s_magik.Contract.Claims
use sec_s_magik.Contract.Holder
use sec_s_magik.Examples.Libraries.{times, encode}
use sec_s_magik.Examples.Documents.{narrow2}
use sec_s_magik.Examples.Session.{parent}

-- A version 2 credential of the same holder.
abbrev holder_credential : Claims.Credential (Permission Text)
holder_credential = record {
  grant = parent;
  claims = record {
    schema = bytes "secs.holder-credential.v2";
    credential_id = times 32 b'1';
    grant_digest = encode (times 32 128);
    holder_public_key = encode (times 32 2);
    installation_id = none;
    permissions = narrow2 ∷ [];
    issued_at = 200;
    expires_at = 500;
  };
  signature = encode (times 64 2);
}
