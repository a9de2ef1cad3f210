-- ===== src/Lib.antt =====
-- A model of the core of the DNSid TypeScript SDK, and the theorems about it: the transparency log
-- that a client trusts for the history of an identity, and the history itself. A client reads a
-- checkpoint of a log (a signed note with the size and root of a Merkle tree), asks its policy whether
-- the log and enough witnesses signed it, advances the checkpoint that it trusts for the log's origin,
-- checks the entries against the root, and makes the state of an identity out of the events in them.
--
-- Merkle.antt is packages/log-c2sp-tlog/src/merkle.ts: merkleRootFromEntries (merkle_root_from_entries),
-- inclusionRoot and verifyInclusion. Merkle/Spec.antt has the tree hash and audit paths of RFC 6962.
-- Tiles.antt is parseEntryBundle and encodeEntryBundle of packages/log-c2sp-tlog/src/tiles.ts.
-- Consistency.antt is verifyC2spConsistencyProof of packages/log-c2sp-tlog/src/checkpoint-trust.ts, and
-- Consistency/Spec.antt the consistency proof of RFC 6962.
-- Trust.antt is the rest of that file: Trust/Store.antt the in-memory store, Trust/Advance.antt
-- verifyCheckpointAdvance, Trust/Client.antt one call of advanceC2spCheckpoint as a state machine
-- (load, verify, swap), and Trust/World.antt any number of calls on one store, as a step relation. The
-- turns of other calls come between the turns, where the source awaits.
-- Notes.antt is the verification of signatures of packages/log-c2sp-tlog/src/signed-note.ts, and
-- Policy.antt with Policy/Enforcement.antt is packages/log-c2sp-tlog/src/policy.ts without the parsing
-- of policy files and keys. Policy/Spec.antt says what a quorum rule asks for.
-- Lifecycle.antt is DomainLog.snapshotAt of packages/protocol/src/verified-domain.ts with the events of
-- packages/protocol/src/log-events.ts; Lifecycle/Grammar.antt has the grammar of histories.
-- Identity.antt is assertFresh and expiry of VerifiedDomain in packages/protocol/src/verified-domain.ts,
-- and Identity/Cache.antt the in-memory cache of packages/protocol/src/identity-cache.ts with its timers.
-- Stream.antt is packages/log-c2sp-tlog/src/stream-verifier.ts: Stream/Verifier.antt verifyLifecycle,
-- which replays the events of a stream with their signatures and chain fields, Stream/Stitching.antt and
-- Stream/References.antt the stitching of a migrated history. Stream/Lineage.antt is the grammar of what
-- is accepted. Stream/Checks.antt has assertSupportedLifecycleJwk of event-codec.ts beside it.
-- Stream/Envelopes.antt is signedC2spEntryBytes and parseChainFields of
-- packages/log-c2sp-tlog/src/event-codec.ts: verifyLifecycle itself takes the event of an item as it is
-- given, and does not parse the bytes of the item again.
-- Rotation.antt is packages/sdk/src/managed-key-rotation.ts: Rotation/Calls.antt has the calls that a
-- rotation makes of its environment, programs of such calls, and traces; Rotation/Steps.antt,
-- Rotation/Resume.antt and Rotation/Rotate.antt the functions; Rotation/Safety.antt which calls are
-- permitted after which others. An environment is any function from a call and the calls before it to a
-- reply or an exception, so that a crash between two calls is an exception of the second.
-- Jwks.antt is packages/protocol/src/jwks.ts, whose key sets a rotation checks.
-- Retry.antt is packages/protocol/src/retry.ts, and Registry.antt packages/protocol/src/log-registry.ts,
-- which opens a reader of a log by the method of a reference.
-- Common.antt has the names and lemmas that these share.
--
-- Numbers are natural numbers; the tests of Number.isSafeInteger are kept, those for negative and
-- fractional numbers have no counterpart. Bytes are lists of numbers. Dates are milliseconds from the
-- epoch on, or invalid. The delays of a retry are exact as long as they are safe integers, but for an
-- initial delay of 0 behind an infinite power, where the source computes NaN. A function that may throw
-- returns a Result with the errors by their kinds, and copies of a value are the value.
-- Loops take fuel: as many rounds as there are entries for a root (every level is shorter), as there
-- are bytes for a bundle, as many as attempts are allowed for a retry, and as the old index for the
-- shifts of a consistency proof. No theorem assumes that the fuel is enough: for roots, bundles and
-- retries that is proved, and the index is proved to be enough for the shifts.
--
-- What is not in the repository is a parameter: `digest` for SHA-256 of node:crypto, `verify` for
-- crypto.verify, `hash` for the text of the digest of a JWK's members, `random` for the delay that
-- Math.random draws, `operation` for what is retried, and the record Suite of Stream/Evidence.antt for
-- jose, WebCrypto and base64url. Suite and the Environment of a rotation also hold functions of the
-- repository that are not modelled: the canonical JSON of envelopes and states, the writer's prepared
-- events, normalizeFQDN. The record Codec of Stream/Envelopes.antt holds the strict JSON parser and the
-- canonical JSON of canonical.ts. Consistency proofs need of `digest` that it has 32 bytes, the bound on
-- the delays of a retry that a random delay is at most the delay it is drawn from, and the commitment of
-- a stream to its past that the canonical JSON of an envelope determines its members. The agreement of
-- verifyLifecycle and snapshotAt needs that jose computes the thumbprints that verified-domain.ts does,
-- none of them empty, and is about streams that an ISSUANCE founds: snapshotAt rejects one that a MIGRATION
-- founds before its prior history is stitched to it.
--
-- Not modelled: the transport (DNS, HTTPS, sockets), the registry client, the cloud key providers, the
-- log reader and writer, the parsers of TXT records, notes and policy files, HTTP signatures, OIDC and
-- JOSE, the selection of a stream's entries, and the SDK's managed issuance.
pub mod Common
pub mod Merkle
pub mod Consistency
pub mod Identity
pub mod Jwks
pub mod Lifecycle
pub mod Notes
pub mod Policy
pub mod Registry
pub mod Retry
pub mod Rotation
pub mod Stream
pub mod Tiles
pub mod Trust
