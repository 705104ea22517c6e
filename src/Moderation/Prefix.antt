-- ===== src/Moderation/Prefix.antt =====
-- Moderation histories whose ids agree: `is_moderation_prefix` of src/sync.rs, which src/store.rs
-- repeats inside `append_remote_moderation_history`.
use embernet.Prelude.{
  Str, Bool, true, List, [], ◌∷◌, ◌++◌, Option, none, some, ◌≡◌, arith, length, drop, ◌≤◌,
  str_beq_iff, sym, ap, ◌∙◌, zip_ids_agree, is_prefix, is_prefix-parts,
}
use embernet.Fallible.{ok, ok-injective}
use embernet.Crates.{Crates, ToVec, HashLaws, VecLaws}
use embernet.Policy.{PolicyEvent, PolicyEventPayload}
use embernet.Moderation.Tombstones.{ModerationState, no_tombstones}
use embernet.Moderation.{
  ModerationEvent, ModerationEventPayload, moderation_payload, moderation_id, apply_moderation,
  check_moderation_event, replay_moderation, derive_moderation,
}
use embernet.Moderation.Replay.{replay-Moderates, replay_of_Moderates, check-IsAuthorized}

abbrev pub moderation_event_id : ModerationEvent → Str
moderation_event_id e = e.id

unfoldable pub is_moderation_prefix : List ModerationEvent → List ModerationEvent → Bool
is_moderation_prefix = is_prefix moderation_event_id

module _ ⦃k : Crates⦄ ⦃m : ToVec ModerationEventPayload⦄ ⦃j : ToVec PolicyEventPayload⦄
    (hash : HashLaws k) (vec : VecLaws m) (chan : Str) (policies : List PolicyEvent) where
  id_of_checked :
      (previous : Option Str) (e : ModerationEvent)
      → check_moderation_event chan policies previous e ≡ ok tt
      → e.id ≡ moderation_id e
  id_of_checked previous e h =
      (str_beq_iff e.id (moderation_id e)).0 (check-IsAuthorized chan policies previous e h).id_ok

  -- Two checked events with one id agree in all that the id covers.
  payload-eq_of_id :
      (previous previous' : Option Str) (e f : ModerationEvent)
      → check_moderation_event chan policies previous e ≡ ok tt
      → check_moderation_event chan policies previous' f ≡ ok tt
      → e.id ≡ f.id
      → moderation_payload e ≡ moderation_payload f
  payload-eq_of_id previous previous' e f ce cf h = vec.to_vec-injective _ _ (
      hash.blake3-injective _ _ (
        hash.hex-injective _ _
          (sym (id_of_checked previous e ce) ∙ h ∙ id_of_checked previous' f cf)))

  replay-prefix :
      (s t u : ModerationState) (previous : Option Str) (a b : List ModerationEvent)
      → replay_moderation chan policies s previous a ≡ ok t
      → replay_moderation chan policies s previous b ≡ ok u
      → length a ≤ length b
      → zip_ids_agree moderation_event_id a b ≡ true
      → replay_moderation chan policies s previous (a ++ drop (length a) b) ≡ ok u
  replay-prefix s t u previous [] b ha hb le z = hb
  replay-prefix s t u previous (e ∷ a) [] ha hb le z = absurd (omega arith)
  replay-prefix s t u previous (e ∷ a) (f ∷ b) ha hb le z =
      let x = replay-Moderates chan policies s t previous e a ha in
      let y = replay-Moderates chan policies s u previous f b hb in
      let ids : e.id ≡ f.id = (str_beq_iff e.id f.id).0 (ground arith) in
      let same = payload-eq_of_id previous previous e f x.checked y.checked ids in
      let next : x.next ≡ y.next = ok-injective _ _ (
        sym x.applied
        ∙ ap (λ (l : ModerationEventPayload). apply_moderation s l.action) same
        ∙ y.applied) in
      let rest =
        replay-prefix x.next t u (some e.id) a b x.rest (rw (next, ids) y.rest) (omega arith)
          (ground arith) in
      replay_of_Moderates chan policies s u previous e (a ++ drop (length a) b)
        (record { next = x.next; checked = x.checked; applied = x.applied; rest = rest })

  -- If the ids of a valid local history are a prefix of those of a valid remote one, then the local
  -- events followed by the remote ones beyond them derive the state of the remote history.
  pub derive_moderation-prefix :
      (s t : ModerationState) (prefix remote : List ModerationEvent)
      → derive_moderation chan policies prefix ≡ ok s
      → derive_moderation chan policies remote ≡ ok t
      → is_moderation_prefix prefix remote ≡ true
      → derive_moderation chan policies (prefix ++ drop (length prefix) remote) ≡ ok t
  unfolding derive_moderation is_moderation_prefix
  derive_moderation-prefix s t prefix remote hs ht h =
      let parts = is_prefix-parts moderation_event_id prefix remote h in
      replay-prefix no_tombstones s t none prefix remote hs ht parts.0 parts.1
