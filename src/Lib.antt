-- ===== src/Lib.antt =====
-- Embernet keeps channels of signed messages in append-only logs and synchronises them between
-- peers. This library models the Rust program under src/ and proves what makes its parts correct.
--
-- The program's parts. A channel is a directory (src/util.rs names it). Its policy (src/store.rs)
-- says who may read, write and manage it; the policy is derived by replaying a chain of signed
-- events, and a cache of it stands beside the chain. Messages travel in envelopes that bind a
-- channel, an author and a message by a signature (src/proto.rs). Private channels have keys
-- (src/crypto.rs). Peers exchange histories and accept those that extend their own (src/sync.rs,
-- src/store.rs). A server proves its identity by signed challenges and answers a signed request
-- once for each (src/server.rs).
--
-- Files and what they model:
--   Prelude: shared tests, lists, texts as bytes, and the comparison of histories by their ids.
--   Fallible: results, errors, and actions that may write before they fail.
--   Crates: the functions of hex, base64, blake3 and ed25519-dalek, and their documented laws.
--   Util: `valid_channel` and `channel_to_path` of src/util.rs.
--   Proto: `KeypairFile`, `Message`, `Envelope`, `verify_bytes`, `Envelope::sign`, `Envelope::verify`.
--   Ndjson: newline-delimited JSON over bytes, with `serde_json` as a parameter.
--   Channel: the files of a channel's directory. Keyring: its keys, of src/crypto.rs.
--   Policy: policies, actions and the chain (`apply_policy_action`, `derive_policy`).
--   PolicyStore: the policy files (`read_channel_policy`, `append_policy_action`, the role and
--   visibility changes, `append_remote_policy_history`, `rebuild_policy_cache`, saved forks and
--   `resolve_policy_conflict`).
--   Moderation: tombstones and the chain of moderation events (`derive_moderation`).
--   ModerationStore: the moderation files (`moderation_state`, `append_moderation_action`,
--   `append_remote_moderation_history`, `resolve_moderation_conflict`).
--   Redb: tables as the crate redb keeps them. MessageLog: the bytes of the log, the index
--   (`rebuild_index`, `index_insert`, `ensure_index`), `append_message`, `read_message_by_id`,
--   `read_channel_tail`, `tombstone_message`, and the buckets (`chunk_summaries`, `chunk_ids`).
--   I64: wrapping arithmetic and the test for stale times. Challenges: `make_auth_challenge` and
--   `verify_auth_challenge` of src/sync.rs; `challenge` and `discovery_requester` of src/server.rs.
--   Ciphers: the functions of the ciphers and of X25519, and their documented laws. Encryption:
--   `encrypt_message` and `decrypt_envelope` of src/crypto.rs, `sign_message_for_channel` and the
--   decrypted tail of src/store.rs. KeyOffers: `make_key_offers` and `accept_key_offers`.
--   Sync: the messages of a synchronisation, sockets and sessions; Sync.Server: `run_sync`; Sync.Client:
--   `sync_from_peer_inner`, both of src/sync.rs; Sync.Discovery: `discover_peer_channels` and
--   `sync_all_from_peer`. Discovery: `list_readable_channels` of src/store.rs and the reply to `/status`
--   of src/server.rs.
--   Mcp: the requests of src/mcp.rs; Mcp.Framing: `read_mcp_message` and `write_response`; Mcp.Server:
--   `run_stdio`.
--   Peers: the pinned peers of src/peers.rs, with the crate reqwest's URLs as a parameter.
--   Examples: concrete parameters, tests, and the theorems at concrete inputs.
--
-- How state and operations correspond. A file is its bytes or `none`; a channel's directory is the
-- record `ChannelDir`. An operation that writes is an action, a function from the directory to a
-- result and the directory after it, so that what was written before an error is kept. Calls of
-- the clock and of the random generator are arguments. Texts are lists of UTF-8 bytes; an `i64`
-- time stamp is a number below 2 ^ 64, its pattern of bits, and its arithmetic wraps as in a
-- release build.
--
-- Functions of other crates are fields of `Crates`, `Ciphers`, `ToVec`, `Json`, `SyncJson`,
-- `Redb`, `Urls`, `Values` and `McpJson`. Theorems that need their behaviour take it as a named
-- hypothesis: `SignLaws` (a signature of a key pair verifies under its public half), `HashLaws`
-- (no two payloads collide under BLAKE3, and hexadecimal text determines its bytes), `VecLaws`,
-- `LineLaws` (what `serde_json` writes is one line in braces and is read back), `JsonLaws` (it is
-- read back), `RedbLaws` (a table returns what was last inserted under a key), `CipherLaws` (what
-- was encrypted is decrypted under the same key, nonce and associated data), `ExchangeLaws` (the
-- two sides of a Diffie-Hellman exchange derive one secret), `IterationLaws` (going through a set
-- meets each member once, in an order that is a parameter). Examples.Toy, Examples.ToyCiphers,
-- Examples.Wire, Examples.SyncWire and Examples.Tables meet all of these by concrete functions.
--
-- A session's socket holds the frames that the peer will send, an arbitrary list, what has been
-- sent, and how many texts the peer still takes; that the list ends stands for a closed connection
-- and for a timeout. A server's session reads and writes one of the node's channels, and the state
-- of a connection holds all of them.
--
-- Every loop of the program that is modelled goes over a list or counts down, but for three:
-- `run_stdio` takes a number of rounds, and one more than the input has bytes is enough for it to
-- end; `digits` writes at most 20 digits, which an i64 needs, and `chunks_of_32` takes the number
-- of bytes as its rounds, of which each but the last uses up 32 bytes.
--
-- Not modelled: permissions and the temporary files behind a rename, failures of the file system
-- other than a missing file, the order in which locks are taken (each operation runs alone, as its
-- locks ensure), the context strings of errors, the command line, the terminal client, and the
-- parts of the store, of synchronisation and of the server that the list above does not name.
pub mod Challenges
pub mod Channel
pub mod Ciphers
pub mod Crates
pub mod Discovery
pub mod Encryption
pub mod Examples
pub mod Fallible
pub mod I64
pub mod KeyOffers
pub mod Keyring
pub mod Mcp
pub mod MessageLog
pub mod Moderation
pub mod ModerationStore
pub mod Ndjson
pub mod Peers
pub mod Policy
pub mod PolicyStore
pub mod Prelude
pub mod Proto
pub mod Redb
pub mod Sync
pub mod Util
