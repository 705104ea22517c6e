-- ===== src/Sync/Server/Transfer.antt =====
-- The exchange of messages in `run_sync` of src/sync.rs: what is wanted of the peer, what it lacks,
-- and the loop over the messages that it uploads.
use embernet.Prelude.{
  ℕ, Bytes, Str, ◌&&◌, codes, List, [], ◌∷◌, ◌++◌, ◌+◌, length, leb, ◌==◌, str_eq, contains,
  remove_all,
}
use embernet.Fallible.{
  Result, ok, ensure, context, Action, lift, pure, fail, writes, invalid_json, peer_closed,
  socket_error, too_many_ids, unrequested, foreign_envelope,
}
use embernet.Fallible.Checks
use embernet.Fallible.Actions.{◌>>=◌, ◌>>◌}
use embernet.Crates.{Crates, ToVec}
use embernet.Redb.{Redb}
use embernet.Ndjson.{Json}
use embernet.Proto.{Message, Envelope, verify}
use embernet.Policy.{ChannelPolicy, PolicyEvent, PolicyEventPayload}
use embernet.MessageLog.Messages.{append_message, read_message_by_id}
use embernet.Sync.Socket.{Frame, text_frame, other_frame, broken_frame, send}
use embernet.Sync.Session.{Session, on_node, on_socket}
use embernet.Sync.Sets.{distinct, difference}
use embernet.Sync.Server.Inventory.{Inventory}
use embernet.Sync.{SyncJson, max_differing_ids, ChunkIds, complete}

unfoldable pub all_ids : List ChunkIds → List Str
all_ids [] = []
all_ids (b ∷ chunks) = b.ids ++ all_ids chunks

-- The set of wanted ids without the one that has come.
unfoldable pub accept_requested_id : List Str → Str → Result (List Str)
accept_requested_id wanted id =
    Checks.◌>>◌ (ensure (contains id wanted) unrequested) (ok (remove_all id wanted))

-- What each side lacks.
pub record Transfer : Type 0 where
  pub wanted_from_client : List Str
  pub to_client : List Str

unfoldable pub plan_transfer : (List Str → List Str) → Inventory → Result Transfer
plan_transfer iteration x =
    let client_ids = distinct (all_ids x.client_chunks) in
    let server_ids = distinct (all_ids x.server_chunks) in
    Checks.◌>>◌
      (ensure
        (leb (length client_ids) max_differing_ids && leb (length server_ids) max_differing_ids)
        too_many_ids)
      (ok (record {
        wanted_from_client = iteration (difference client_ids server_ids);
        to_client = iteration (difference server_ids client_ids);
      }))

module _ ⦃r : Redb⦄ where
  -- The frames that are still to come.
  abbrev pub await : List Frame → Action Session (Unit {0})
  await frames = writes (λ x. record x { socket = record x.socket { incoming = frames } })

module _ ⦃r : Redb⦄ ⦃s : SyncJson⦄ ⦃k : Crates⦄ ⦃v : ToVec Message⦄ ⦃j : Json Envelope⦄
    (chan : Str) where
  unfoldable pub send_messages : List Str → Action Session (Unit {0})
  send_messages [] = pure tt
  send_messages (id ∷ ids) = do
    env ← on_node (read_message_by_id chan id)
    on_socket (send (j.to_vec env))
    send_messages ids

  module _ ⦃p : ToVec PolicyEventPayload⦄ ⦃policy_json : Json PolicyEvent⦄
      ⦃cache_json : Json ChannelPolicy⦄ where
    -- One message of the upload: what is still wanted after it.
    unfoldable pub receive_upload : Bytes → List Str → Action Session (List Str)
    receive_upload t wanted = do
      env ← lift (context (j.from_slice t) invalid_json)
      rest ← lift (accept_requested_id wanted env.id)
      lift (ensure (env.channel == chan) foreign_envelope)
      lift (verify env)
      on_node (append_message chan env)
      pure rest

    -- The loop `while !wanted.is_empty()`, over the frames that come, with the count so far.
    unfoldable pub receive_uploads : List Frame → List Str → ℕ → Action Session ℕ
    receive_uploads frames [] n = do await frames; pure n
    receive_uploads [] (w ∷ wanted) n = do await []; fail peer_closed
    receive_uploads (broken_frame ∷ frames) (w ∷ wanted) n = do await frames; fail socket_error
    receive_uploads (other_frame ∷ frames) (w ∷ wanted) n = receive_uploads frames (w ∷ wanted) n
    receive_uploads (text_frame t ∷ frames) (w ∷ wanted) n = do
      await frames
      rest ← receive_upload t (w ∷ wanted)
      receive_uploads frames rest (n + 1)

    unfoldable pub exchange_messages : (List Str → List Str) → Inventory → Action Session (Unit {0})
    exchange_messages iteration x = do
      plan ← lift (plan_transfer iteration x)
      on_socket
          (send (s.want.to_vec (record { msg_type = codes "want"; ids = plan.wanted_from_client })))
      send_messages plan.to_client
      received ← (λ y. receive_uploads y.socket.incoming plan.wanted_from_client 0 y)
      on_socket (send (s.response.to_vec (complete (length plan.to_client) received)))
