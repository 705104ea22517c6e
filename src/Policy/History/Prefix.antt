-- ===== src/Policy/History/Prefix.antt =====
-- Histories whose ids agree: `is_policy_prefix` of src/sync.rs, which src/store.rs repeats inside
-- `append_remote_policy_history`.
use embernet.Prelude.{
  Str, Bool, true, List, [], ◌∷◌, ◌++◌, Option, none, some, ◌≡◌, arith, length, take, drop, ◌≤◌,
  str_eq, str_beq_iff, sym, ap, ◌∙◌, zip_ids_agree, is_prefix, is_prefix-parts,
}
use embernet.Fallible.{ok, ok-injective}
use embernet.Crates.{Crates, ToVec, HashLaws, VecLaws}
use embernet.Policy.{ChannelPolicy, default_policy, PolicyEvent, PolicyEventPayload}
use embernet.Policy.Actions.{apply_policy_action}
use embernet.Policy.History.{
  check_policy_event, policy_id, payload_of, replay_policy, derive_policy,
}
use embernet.Policy.History.Chain.{replay-Replays, replay_of_Replays}

abbrev pub policy_event_id : PolicyEvent → Str
policy_event_id e = e.id

unfoldable pub is_policy_prefix : List PolicyEvent → List PolicyEvent → Bool
is_policy_prefix = is_prefix policy_event_id

module _ ⦃k : Crates⦄ ⦃j : ToVec PolicyEventPayload⦄ where
  pub check-policy_id :
      (chan : Str) (previous : Option Str) (e : PolicyEvent)
      → check_policy_event chan previous e ≡ ok tt
      → e.id ≡ policy_id e
  unfolding check_policy_event
  check-policy_id chan previous e h = ground (arith, str_beq_iff e.id (policy_id e))

module _ ⦃k : Crates⦄ ⦃j : ToVec PolicyEventPayload⦄ (hash : HashLaws k) (vec : VecLaws j) where
  -- Two checked events with one id agree in all that the id covers.
  pub payload-eq_of_id :
      (chan chan' : Str) (previous previous' : Option Str) (e f : PolicyEvent)
      → check_policy_event chan previous e ≡ ok tt
      → check_policy_event chan' previous' f ≡ ok tt
      → e.id ≡ f.id
      → payload_of e ≡ payload_of f
  payload-eq_of_id chan chan' previous previous' e f ce cf h = vec.to_vec-injective _ _ (
      hash.blake3-injective _ _ (
        hash.hex-injective _ _
          (sym (check-policy_id chan previous e ce) ∙ h ∙ check-policy_id chan' previous' f cf)))

  replay-prefix :
      (chan : Str) (p q r : ChannelPolicy) (previous : Option Str) (a b : List PolicyEvent)
      → replay_policy chan p previous a ≡ ok q
      → replay_policy chan p previous b ≡ ok r
      → length a ≤ length b
      → zip_ids_agree policy_event_id a b ≡ true
      → (replay_policy chan p previous (take (length a) b) ≡ ok q)
        × (replay_policy chan p previous (a ++ drop (length a) b) ≡ ok r)
  replay-prefix chan p q r previous [] b ha hb le z = unfold replay_policy in (ha, hb)
  replay-prefix chan p q r previous (e ∷ a) [] ha hb le z = absurd (omega arith)
  replay-prefix chan p q r previous (e ∷ a) (f ∷ b) ha hb le z =
      let x = replay-Replays chan p q previous e a ha in
      let y = replay-Replays chan p r previous f b hb in
      let ids : e.id ≡ f.id = (str_beq_iff e.id f.id).0 (ground arith) in
      let same = payload-eq_of_id chan chan previous previous e f x.checked y.checked ids in
      let next : x.next ≡ y.next = ok-injective _ _ (
        sym x.applied
        ∙ ap (λ (l : PolicyEventPayload). apply_policy_action p l.actor l.action) same
        ∙ y.applied) in
      let rest =
        replay-prefix chan x.next q r (some e.id) a b x.rest (rw (next, ids) y.rest) (omega arith)
          (ground arith) in
      (
        replay_of_Replays chan p q previous f (take (length a) b) (record {
          next = y.next;
          checked = y.checked;
          applied = y.applied;
          rest = rw (← next, ← ids) rest.0;
        }),
        replay_of_Replays chan p r previous e (a ++ drop (length a) b)
            (record { next = x.next; checked = x.checked; applied = x.applied; rest = rest.1 }),
      )

  -- If the ids of a valid local history are a prefix of those of a valid remote one, then the remote
  -- history began with the very policy that the local one derives, and the local events followed by
  -- the remote ones beyond them derive the policy of the remote history.
  pub derive-prefix :
      (chan : Str) (p r : ChannelPolicy) (prefix remote : List PolicyEvent)
      → derive_policy chan prefix ≡ ok p
      → derive_policy chan remote ≡ ok r
      → is_policy_prefix prefix remote ≡ true
      → (derive_policy chan (take (length prefix) remote) ≡ ok p)
        × (derive_policy chan (prefix ++ drop (length prefix) remote) ≡ ok r)
  unfolding derive_policy is_policy_prefix
  derive-prefix chan p r prefix remote hp hr h =
      let parts = is_prefix-parts policy_event_id prefix remote h in
      replay-prefix chan default_policy p r none prefix remote hp hr parts.0 parts.1
