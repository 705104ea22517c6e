-- ===== src/Sync.antt =====
-- The messages of a synchronisation in src/sync.rs, and its limits. Each message carries its type as
-- a text, as on the wire.
pub mod Socket
pub mod Sets
pub mod Session
pub mod Server
pub mod Client
pub mod Discovery
use embernet.Prelude.{
  ℕ, Bytes, Str, Bool, true, false, ◌&&◌, ◌||◌, not, codes, List, [], ◌∷◌, ◌++◌, Option, none, some,
  length, ltb, leb, ◌==◌, nat_eq, str_eq, if◌then◌else◌,
}
use embernet.Fallible.{
  Result, ok, err, ensure, unsupported_sync_version, too_many_policy_events,
  too_many_moderation_events, bad_inventory, too_many_offers, wrong_offer_sender, unrequested,
}
use embernet.Fallible.Checks.{◌>>=◌, ◌>>◌}
use embernet.Crates.{Crates}
use embernet.Ndjson.{Json}
use embernet.Challenges.{AuthChallenge}
use embernet.Challenges.Decimal.{show_i64}
use embernet.Proto.{Envelope}
use embernet.KeyOffers.{KeyOffer}
use embernet.Policy.{PolicyEvent}
use embernet.Moderation.{ModerationEvent}
use embernet.MessageLog.Reading.{ChunkSummary}

abbrev pub sync_version : ℕ
sync_version = 9

abbrev pub max_differing_ids : ℕ
max_differing_ids = 100000

abbrev pub max_policy_events : ℕ
max_policy_events = 10000

abbrev pub max_moderation_events : ℕ
max_moderation_events = 100000

abbrev pub max_key_offers : ℕ
max_key_offers = 4096

abbrev pub merkle_bucket_count : ℕ
merkle_bucket_count = 256

pub record StatusMessage : Type 0 where
  pub msg_type : Str
  pub version : ℕ
  pub channel : Str
  pub requester : Str
  pub auth_ts : ℕ
  pub auth_sig : Str
  pub policy_events : List PolicyEvent
  pub moderation_events : List ModerationEvent
  pub chunks : List ChunkSummary

pub record PolicySync : Type 0 where
  pub msg_type : Str
  pub status : Str
  pub events : List PolicyEvent

pub record ModerationSync : Type 0 where
  pub msg_type : Str
  pub status : Str
  pub events : List ModerationEvent

pub record KeySync : Type 0 where
  pub msg_type : Str
  pub identity : Str
  pub offers : List KeyOffer

pub record ChunkIds : Type 0 where
  pub index : ℕ
  pub ids : List Str

pub record ChunkDiff : Type 0 where
  pub msg_type : Str
  pub chunks : List ChunkIds
  pub want_chunks : List ℕ

pub record ChunkBatch : Type 0 where
  pub msg_type : Str
  pub chunks : List ChunkIds

pub record WantMessage : Type 0 where
  pub msg_type : Str
  pub ids : List Str

pub record SyncResponse : Type 0 where
  pub msg_type : Str
  pub status : Str
  pub sent : Option ℕ
  pub received : Option ℕ
  pub error : Option Str

-- `SyncResponse::complete`.
unfoldable pub complete : ℕ → ℕ → SyncResponse
complete sent received = record {
  msg_type = codes "response";
  status = codes "complete";
  sent = some sent;
  received = some received;
  error = none;
}

-- `serde_json` at the messages of the protocol.
pub record SyncJson : Type 0 where
  pub challenge : Json AuthChallenge
  pub status : Json StatusMessage
  pub policy : Json PolicySync
  pub moderation : Json ModerationSync
  pub keys : Json KeySync
  pub diff : Json ChunkDiff
  pub batch : Json ChunkBatch
  pub want : Json WantMessage
  pub response : Json SyncResponse

abbrev line_break : Str
line_break = b'\n' ∷ []

unfoldable pub sync_auth_payload : ℕ → Str → Str → Str → Bytes
sync_auth_payload timestamp channel nonce responder =
    codes "embernet-sync-auth-v2"
    ++ (line_break
        ++ (show_i64 timestamp
            ++ (line_break ++ (channel ++ (line_break ++ (nonce ++ (line_break ++ responder)))))))

abbrev pub indices_below : ℕ → List ChunkSummary → Bool
indices_below n [] = true
indices_below n (s ∷ chunks) = ltb s.index n && indices_below n chunks

-- What `run_sync` tests of a status before it looks at the channel.
unfoldable pub check_limits : StatusMessage → Result (Unit {0})
check_limits s = do
  ensure (s.version == sync_version) unsupported_sync_version
  ensure (leb (length s.policy_events) max_policy_events) too_many_policy_events
  ensure (leb (length s.moderation_events) max_moderation_events) too_many_moderation_events
  ensure (leb (length s.chunks) merkle_bucket_count && indices_below merkle_bucket_count s.chunks)
      bad_inventory

abbrev pub all_by : Str → List KeyOffer → Bool
all_by identity [] = true
all_by identity (x ∷ offers) = x.sender == identity && all_by identity offers

unfoldable pub validate_key_offers : KeySync → Result (Unit {0})
validate_key_offers s = do
  ensure (leb (length s.offers) max_key_offers) too_many_offers
  ensure (all_by s.identity s.offers) wrong_offer_sender
