-- ===== src/Examples/SyncWire.antt =====
-- The toy serialiser at the messages of a synchronisation.
use embernet.Prelude.{refl}
use embernet.Crates.{ToVec}
use embernet.Challenges.{AuthChallenge}
use embernet.KeyOffers.{KeyOffer, KeyOfferPayload}
use embernet.MessageLog.Reading.{ChunkSummary}
use embernet.Sync.{
  StatusMessage, PolicySync, ModerationSync, KeySync, ChunkIds, ChunkDiff, ChunkBatch, WantMessage,
  SyncResponse, SyncJson,
}
use embernet.Examples.Codes.{
  Code, nat_code, pair_code, via_code, list_code, option_code, str_code, code_vec, code_json,
}
use embernet.Examples.Wire.{policy_event_code}
use embernet.Examples.ModerationWire.{moderation_event_code}

abbrev challenge_code : Code AuthChallenge
challenge_code =
    via_code
      (pair_code str_code (pair_code str_code (pair_code str_code (pair_code nat_code str_code))))
      (λ c. (c.msg_type, (c.nonce, (c.responder, (c.expires, c.signature)))))
      (λ p. record {
        msg_type = p.0;
        nonce = p.1.0;
        responder = p.1.1.0;
        expires = p.1.1.1.0;
        signature = p.1.1.1.1;
      })
      (λ y. refl)

abbrev summary_code : Code ChunkSummary
summary_code =
    via_code (pair_code nat_code (pair_code nat_code str_code)) (λ c. (c.index, (c.count, c.hash)))
      (λ p. record { index = p.0; count = p.1.0; hash = p.1.1 }) (λ y. refl)

abbrev status_code : Code StatusMessage
status_code =
    via_code
      (pair_code (pair_code str_code (pair_code nat_code str_code)) (
        pair_code (pair_code str_code (pair_code nat_code str_code)) (
          pair_code (list_code policy_event_code)
            (pair_code (list_code moderation_event_code) (list_code summary_code)))))
      (λ m. (
        (m.msg_type, (m.version, m.channel)),
        (
          (m.requester, (m.auth_ts, m.auth_sig)),
          (m.policy_events, (m.moderation_events, m.chunks)),
        ),
      ))
      (λ p. record {
        msg_type = p.0.0;
        version = p.0.1.0;
        channel = p.0.1.1;
        requester = p.1.0.0;
        auth_ts = p.1.0.1.0;
        auth_sig = p.1.0.1.1;
        policy_events = p.1.1.0;
        moderation_events = p.1.1.1.0;
        chunks = p.1.1.1.1;
      })
      (λ y. refl)

abbrev offer_code : Code KeyOffer
offer_code =
    via_code
      (pair_code (pair_code str_code (pair_code str_code (pair_code str_code str_code)))
        (pair_code str_code (pair_code str_code str_code)))
      (λ x. ((x.channel, (x.key_id, (x.sender, x.recipient))), (x.nonce, (x.ciphertext, x.sig))))
      (λ p. record {
        channel = p.0.0;
        key_id = p.0.1.0;
        sender = p.0.1.1.0;
        recipient = p.0.1.1.1;
        nonce = p.1.0;
        ciphertext = p.1.1.0;
        sig = p.1.1.1;
      })
      (λ y. refl)

abbrev offer_payload_code : Code KeyOfferPayload
offer_payload_code =
    via_code
      (pair_code (pair_code str_code (pair_code str_code (pair_code str_code str_code)))
        (pair_code str_code str_code))
      (λ x. ((x.channel, (x.key_id, (x.sender, x.recipient))), (x.nonce, x.ciphertext)))
      (λ p. record {
        channel = p.0.0;
        key_id = p.0.1.0;
        sender = p.0.1.1.0;
        recipient = p.0.1.1.1;
        nonce = p.1.0;
        ciphertext = p.1.1;
      })
      (λ y. refl)

abbrev policy_sync_code : Code PolicySync
policy_sync_code =
    via_code (pair_code str_code (pair_code str_code (list_code policy_event_code)))
      (λ m. (m.msg_type, (m.status, m.events)))
      (λ p. record { msg_type = p.0; status = p.1.0; events = p.1.1 }) (λ y. refl)

abbrev moderation_sync_code : Code ModerationSync
moderation_sync_code =
    via_code (pair_code str_code (pair_code str_code (list_code moderation_event_code)))
      (λ m. (m.msg_type, (m.status, m.events)))
      (λ p. record { msg_type = p.0; status = p.1.0; events = p.1.1 }) (λ y. refl)

abbrev key_sync_code : Code KeySync
key_sync_code =
    via_code (pair_code str_code (pair_code str_code (list_code offer_code)))
      (λ m. (m.msg_type, (m.identity, m.offers)))
      (λ p. record { msg_type = p.0; identity = p.1.0; offers = p.1.1 }) (λ y. refl)

abbrev chunk_code : Code ChunkIds
chunk_code =
    via_code (pair_code nat_code (list_code str_code)) (λ c. (c.index, c.ids))
      (λ p. record { index = p.0; ids = p.1 }) (λ y. refl)

abbrev diff_code : Code ChunkDiff
diff_code =
    via_code (pair_code str_code (pair_code (list_code chunk_code) (list_code nat_code)))
      (λ m. (m.msg_type, (m.chunks, m.want_chunks)))
      (λ p. record { msg_type = p.0; chunks = p.1.0; want_chunks = p.1.1 }) (λ y. refl)

abbrev batch_code : Code ChunkBatch
batch_code =
    via_code (pair_code str_code (list_code chunk_code)) (λ m. (m.msg_type, m.chunks))
      (λ p. record { msg_type = p.0; chunks = p.1 }) (λ y. refl)

abbrev want_code : Code WantMessage
want_code =
    via_code (pair_code str_code (list_code str_code)) (λ m. (m.msg_type, m.ids))
      (λ p. record { msg_type = p.0; ids = p.1 }) (λ y. refl)

abbrev response_code : Code SyncResponse
response_code =
    via_code
      (pair_code str_code (
        pair_code str_code (
          pair_code (option_code nat_code)
            (pair_code (option_code nat_code) (option_code str_code)))))
      (λ m. (m.msg_type, (m.status, (m.sent, (m.received, m.error)))))
      (λ p. record {
        msg_type = p.0;
        status = p.1.0;
        sent = p.1.1.0;
        received = p.1.1.1.0;
        error = p.1.1.1.1;
      })
      (λ y. refl)

instance abbrev pub offer_payload_vec : ToVec KeyOfferPayload
offer_payload_vec = code_vec offer_payload_code

instance abbrev pub toy_sync_json : SyncJson
toy_sync_json = record {
  challenge = code_json challenge_code;
  status = code_json status_code;
  policy = code_json policy_sync_code;
  moderation = code_json moderation_sync_code;
  keys = code_json key_sync_code;
  diff = code_json diff_code;
  batch = code_json batch_code;
  want = code_json want_code;
  response = code_json response_code;
}
