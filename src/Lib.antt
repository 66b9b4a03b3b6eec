-- ===== src/Lib.antt =====
-- secS-magik: the receiver's router and its stores, its permission policy, and the signed
-- documents of the grant contract.
--
-- A request to a service is allowed twice over. Its caller shows authority: an issuer's signed
-- grant, a credential that the holder derives from it, and a presentation of that credential with
-- one call (or a session key that the holder has authorised). And the receiver holds a local
-- policy of records that allow and deny. The router of verified calls asks that policy last:
-- before it, it checks the signed context against its keys and its manifest, and takes the replay
-- key and the nullifier of the call; after it, it runs one program. This library models all three.
--
--   Base                     tests and equality, lists, texts as bytes, fallible results, loops
--   Permissions              permissions/src/lib.rs: records, windows, `evaluate` and its reasons
--   Permissions.Permctl      server/src/permctl.rs: load_records, build_record, grant, revoke,
--                            evaluate
--   Server.Text, Enums       Rust's text operations, and equality of enumerations
--   Server.Clock, Errors     server/src/clock.rs; verifier.rs: VerificationError
--   Server.Context           server/src/verifier.rs: VerifiedCallContext and what it holds
--   Server.Identity          server/src/identity.rs: keys and their registry, signed contexts
--   Server.Manifest          server/src/manifest.rs: descriptors and their fingerprint
--   Server.Authority         server/src/dregg_authority.rs: AuthorityMode
--   Server.ProofKeys         server/src/proof_keys.rs: entries, their registry, the metadata gate
--   Server.Privacy           server/src/privacy.rs: the disclosure policy and the scan
--   Server.Nullifier         server/src/nullifier.rs: commitments, domains, canonical resources
--   Server.Ledger            server/src/ledger.rs and schema.rs: reservations and nullifier uses
--   Server.Receipt           server/src/receipt.rs: receipts, events, signing
--   Server.Gateway           server/src/gateway.rs: route_verified, in the parts Setup (state),
--                            Check (questions), Trace (what is written), Admit (gates),
--                            Execute (programs)
--   Contract                 crates/secs-grant-contract/src: refusals and the check of a text
--   Contract.Codec           lib.rs: hex, key, canonical, transcript, digest, sign, verify
--   Contract.Json            lib.rs: safe
--   Contract.Validity        lib.rs: Validity, its window and its wire form
--   Contract.Scope           lib.rs: Node, Scope
--   Contract.Claims, Holder  lib.rs and scoped_grants.rs: validate_grant to verify_presentation
--   Contract.Version1        lib.rs: Permission, permissions, permissions_within
--   Contract.Version2        scoped_grants.rs: the same, over the roles of a permission
--   Contract.AccessPoint     lib.rs: access points
--   Contract.Selector        resource_selector.rs
--   Contract.Snapshot        provider_snapshot.rs
--   Contract.Compound        compound_resources.rs
--   Contract.Sessions        holder_sessions.rs; its operations are in Contract.Sessions.Protocol
--   Examples                 the theorems at concrete inputs
--
-- A function of the program is a function here, with its guards in the source's order; `?` is the
-- bind of `Result`, and `if c { return Err(e) }` is `deny c e`. Versions 1 and 2 of the holder
-- documents repeat the same functions, which stand once in Contract.Holder over a `Profile` of
-- what differs: the schema and domain names, the refusal and the checks of permissions.
--
-- Numbers are natural numbers. The source's u64 additions are `checked_add`, which is modelled
-- with its bound; its subtractions stand behind a comparison, or saturate, as `-` does here. A loop
-- over a list is a recursion over it; only the decimal digits below run on fuel.
--
-- The router's state is a record of tables and of the calls of programs so far
-- (Gateway.Setup.Store). SQLite is not modelled: a call comes with the statements that fail for
-- it, and a failing statement changes nothing. A program is what it answers to one call, none when
-- it exceeds its time. Calls come one after the other: what two calls at once do to each other is
-- not modelled. A table is the list of its rows; `as i64` keeps its wrap at 2^63, an i64
-- being its distance from the least. The decimal digits of a u64 take a fuel of twenty, which is
-- enough for 2^64.
--
-- Parameters: the signatures, keys, digests and hex coding (Codec.Crypto), the canonical form and
-- view of a JSON value (Codec.JsonLibrary), the JSON values that derived serializers build
-- (Claims.Wire, Sessions.SessionWire), URL parsing, and decoding a policy file. Where a theorem
-- needs something of the cryptography it takes Codec.Laws.CryptoLaws, documented behaviour of
-- those libraries; nothing is assumed of the security of signatures or digests. On the server,
-- SHA-256, bincode, Ed25519, `str::trim`, the JSON parser and the validation of node registrations
-- are parameters, of which no theorem assumes anything. The provider's state is an interface, as
-- in the source (Selector.ResourceSnapshot); Selector.Narrowing.Answers says that it answers the
-- questions about one service, which a valid ProviderSnapshot does.
--
-- Not modelled: packets and the building of a context from their evidence, the exports of receipts
-- and audits, the development-graph and result authorities, the network code of core, command line
-- programs, the browser code and the duplicate-rejecting JSON parser. They are left for later, or
-- are input, output and glue.
pub mod Base
pub mod Permissions
pub mod Server
pub mod Contract
pub mod Examples
