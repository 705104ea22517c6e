-- ===== src/PolicyStore/Remote/Effects.antt =====
-- What a remote policy history changes in a channel of src/store.rs.
use embernet.Prelude.{
  Str, true, false, List, [], ◌++◌, none, some, ◌≡◌, refl, ◌≢◌, length, drop, drop_all, ltb, arith,
  Bool-cases, inl, inr, is_prefix,
}
use mathlib.Core.List.{append-nil}
use embernet.Fallible.{ok, ok-ne-err}
use embernet.Fallible.Actions.{IsAtomicAt, returned, proceed-eq_ok, proceed-IsAtomicAt}
use embernet.Crates.{Crates, ToVec, HashLaws, VecLaws}
use embernet.Ndjson.{Json, LineLaws, encode_lines}
use embernet.Channel.{ChannelDir, append_file}
use embernet.Policy.{ChannelPolicy, default_policy, PolicyEvent, PolicyEventPayload}
use embernet.Policy.History.{derive_policy}
use embernet.Policy.History.Prefix.{is_policy_prefix, derive-prefix}
use embernet.PolicyStore.{read_history, read_policy_history_unlocked}
use embernet.PolicyStore.Changes.Effects.{
  FileEndsClean, read_history-derives, read_history-append, derive-nil,
}
use embernet.PolicyStore.Remote.Plan.{RemotePlan, plan_remote, Accepts, plan_remote-Accepts}
use embernet.PolicyStore.Remote.{append_remote_policy_history}

module _ ⦃k : Crates⦄ ⦃j : ToVec PolicyEventPayload⦄ ⦃event_json : Json PolicyEvent⦄
    ⦃cache_json : Json ChannelPolicy⦄ (chan : Str) where
  -- A remote history that is refused changes nothing.
  pub append_remote_policy_history-IsAtomicAt :
      (remote : List PolicyEvent) (d : ChannelDir)
      → IsAtomicAt (append_remote_policy_history chan remote) d
  unfolding append_remote_policy_history
  append_remote_policy_history-IsAtomicAt remote d =
      proceed-IsAtomicAt _ (plan_remote chan remote d) d λ plan _.
        elim (Bool-cases (ltb (length plan.local) (length remote))) [
          | inl b ↦ rw b (λ e h. absurd (ok-ne-err plan.policy e h))
          | inr b ↦ rw b (λ e h. absurd (ok-ne-err plan.policy e h))
        ]

  -- `d'` is `d` with the events of the remote history that go beyond the local one behind it. The
  -- remote history, and the local file as it now is, derive the policy `p`, which the cache holds;
  -- no other file has changed.
  pub record IsMerged (remote : List PolicyEvent) (d d' : ChannelDir) (p : ChannelPolicy)
      : Type 0 where
    pub local : List PolicyEvent
    pub before : read_policy_history_unlocked chan d ≡ ok local
    pub after : read_policy_history_unlocked chan d' ≡ ok (local ++ drop (length local) remote)
    pub remote_derives : derive_policy chan remote ≡ ok p
    pub local_derives : derive_policy chan (local ++ drop (length local) remote) ≡ ok p
    pub files :
        d' ≡ record d { policy_log = d'.policy_log; policy_cache = some (cache_json.to_vec p) }

  module _ (hash : HashLaws k) (vec : VecLaws j) (laws : LineLaws event_json) where
    accepted_derives :
        (remote : List PolicyEvent) (d : ChannelDir) (plan : RemotePlan)
        → Accepts chan remote d plan
        → derive_policy chan (plan.local ++ drop (length plan.local) remote) ≡ ok plan.policy
    accepted_derives remote d plan found =
        let (q, was) = read_history-derives chan d.policy_log plan.local found.was_read in
        (derive-prefix hash vec chan q plan.policy plan.local remote was found.derived
          found.extends).1

    longer-IsMerged :
        (remote : List PolicyEvent) (d : ChannelDir) (plan : RemotePlan)
        → FileEndsClean d.policy_log
        → Accepts chan remote d plan
        → IsMerged remote d
            (record d {
              policy_log =
                  append_file d.policy_log (encode_lines (drop (length plan.local) remote));
              policy_cache = some (cache_json.to_vec plan.policy);
            })
            plan.policy
    longer-IsMerged remote d plan clean found =
        let derives = accepted_derives remote d plan found in
        record {
          local = plan.local;
          before = found.was_read;
          after =
              read_history-append chan d.policy_log plan.local (drop (length plan.local) remote)
                plan.policy laws clean found.was_read derives;
          remote_derives = found.derived;
          local_derives = derives;
          files = refl;
        }

    equal-IsMerged :
        (remote : List PolicyEvent) (d : ChannelDir) (plan : RemotePlan)
        → ltb (length plan.local) (length remote) ≡ false
        → Accepts chan remote d plan
        → IsMerged remote d
            (record d { policy_cache = some (cache_json.to_vec plan.policy) })
            plan.policy
    equal-IsMerged remote d plan short found =
        let nothing = drop_all (length plan.local) remote (ground arith) in
        record {
          local = plan.local;
          before = found.was_read;
          after = rw (nothing, append-nil) found.was_read;
          remote_derives = found.derived;
          local_derives = accepted_derives remote d plan found;
          files = refl;
        }

    -- A remote history that is accepted on a local file that ends in a newline leaves the local
    -- events in place and adds the remote ones beyond them; the file then derives the same policy as
    -- the remote history, which is returned and cached.
    pub append_remote_policy_history-IsMerged :
        (remote : List PolicyEvent) (d d' : ChannelDir) (p : ChannelPolicy)
        → FileEndsClean d.policy_log
        → append_remote_policy_history chan remote d ≡ (ok p, d')
        → IsMerged remote d d' p
    unfolding append_remote_policy_history
    append_remote_policy_history-IsMerged remote d d' p clean h =
        let (plan, planned, done) = proceed-eq_ok _ (plan_remote chan remote d) d d' p h in
        let found = plan_remote-Accepts chan remote d plan planned in
        elim (Bool-cases (ltb (length plan.local) (length remote))) [
          | inl b ↦
              returned (IsMerged remote d) (rw b at done)
                (longer-IsMerged remote d plan clean found)
          | inr b ↦
              returned (IsMerged remote d) (rw b at done) (equal-IsMerged remote d plan b found)
        ]

  -- Where a channel has no signed policy history, an empty remote history is accepted and makes it an
  -- open channel: the default policy replaces whatever policy was cached.
  pub append_remote-resets_unsigned :
      (d : ChannelDir)
      → d.exists ≡ true
      → d.log ≢ none
      → d.policy_log ≡ none
      → append_remote_policy_history chan [] d
        ≡ (ok default_policy, record d { policy_cache = some (cache_json.to_vec default_policy) })
  unfolding append_remote_policy_history plan_remote read_history is_policy_prefix is_prefix
  append_remote-resets_unsigned d e l n = ground (arith, derive-nil chan)
