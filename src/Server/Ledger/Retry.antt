-- ===== src/Server/Ledger/Retry.antt =====
-- A retry of an issue is told apart from another use of its key:
-- `reserve_devgraph_authority_replay` of server/src/ledger.rs.
use sec_s_magik.Base.{◌+◌, ◌<◌, Bool, ◌&&◌, ◌==◌, list_eq, nat_eq}
use sec_s_magik.Server.Ledger.Devgraph.{DevgraphAuthorityReplayBindingV1}

-- What is stored of a binding: its numbers as `i64`.
abbrev pub stored : DevgraphAuthorityReplayBindingV1 → DevgraphAuthorityReplayBindingV1
stored b = record b {
  expires_at = b.expires_at + 9223372036854775808;
  issued_at = b.issued_at + 9223372036854775808;
  receiver_policy_version = b.receiver_policy_version + 9223372036854775808;
}

unfoldable pub IsStorable : DevgraphAuthorityReplayBindingV1 → Type 0
IsStorable b =
    (b.expires_at < 9223372036854775808)
    × (b.issued_at < 9223372036854775808)
    × (b.receiver_policy_version < 9223372036854775808)

module _ (b d : DevgraphAuthorityReplayBindingV1) where
  abbrev pub has_key_of : Bool
  has_key_of = d.session_id == b.session_id && d.operation == b.operation && d.nonce == b.nonce
