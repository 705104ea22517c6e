-- ===== src/ModerationStore/Remote/Effects.antt =====
-- What a remote moderation history changes in a channel of src/store.rs.
use embernet.Prelude.{
  Bytes, Str, List, ◌++◌, Option, some, ◌≡◌, refl, sym, ap, ◌∙◌, length, drop, drop_all, ltb,
  if◌then◌else◌, arith, Bool-cases, inl, inr,
}
use mathlib.Core.List.{append-nil}
use embernet.Fallible.{Result, ok, ok-ne-err}
use embernet.Fallible.Actions.{IsAtomicAt, returned, proceed-eq_ok, proceed-IsAtomicAt}
use embernet.Crates.{Crates, ToVec, HashLaws, VecLaws}
use embernet.Ndjson.{Json, LineLaws, encode_lines}
use embernet.Channel.{ChannelDir, append_file}
use embernet.Policy.{PolicyEvent, PolicyEventPayload}
use embernet.PolicyStore.Changes.Effects.{FileEndsClean}
use embernet.Moderation.Tombstones.{ModerationState}
use embernet.Moderation.{ModerationEvent, ModerationEventPayload}
use embernet.Moderation.Prefix.{derive_moderation-prefix}
use embernet.ModerationStore.{
  validate_moderation_history, read_moderation, read_moderation_history_unlocked, moderation_state,
}
use embernet.ModerationStore.Reading.{
  read_moderation-derives, read_moderation-append, moderation_state_of_history,
  validate-same_policy, read_moderation-same_policy,
}
use embernet.ModerationStore.Remote.Plan.{
  validate-parts, validate_of_parts, plan_remote_moderation, AcceptsModeration,
  plan-AcceptsModeration,
}
use embernet.ModerationStore.Remote.{append_remote_moderation_history}

module _ ⦃k : Crates⦄ ⦃m : ToVec ModerationEventPayload⦄ ⦃j : ToVec PolicyEventPayload⦄
    ⦃policy_json : Json PolicyEvent⦄ ⦃moderation_json : Json ModerationEvent⦄
    ⦃state_json : Json ModerationState⦄ (chan : Str) where
  -- The file after the remote events beyond the local ones have been added.
  abbrev merged_log : List ModerationEvent → List ModerationEvent → Option Bytes → Option Bytes
  merged_log local remote file =
      if ltb (length local) (length remote)
      then append_file file (encode_lines (drop (length local) remote))
      else file

  abbrev merged :
      List ModerationEvent → List ModerationEvent → ModerationState → ChannelDir → ChannelDir
  merged local remote s d = record d {
    moderation_log = merged_log local remote d.moderation_log;
    moderation_cache = some (state_json.to_vec s);
  }

  append_remote_moderation-eq :
      (remote local : List ModerationEvent) (d : ChannelDir)
      (found : AcceptsModeration chan remote d local)
      → plan_remote_moderation chan remote d ≡ ok local
      → append_remote_moderation_history chan remote d
        ≡ (ok found.state, merged local remote found.state d)
  unfolding append_remote_moderation_history
  append_remote_moderation-eq remote local d found h =
      elim (Bool-cases (ltb (length local) (length remote))) [
        | inl b ↦
            let longer : ChannelDir = record d {
              moderation_log =
                  append_file d.moderation_log (encode_lines (drop (length local) remote));
            } in
            let again : validate_moderation_history chan remote longer ≡ ok found.state =
              sym (validate-same_policy chan remote d longer refl) ∙ found.derived in
            rw (h, b, again) refl
        | inr b ↦ rw (h, b, found.derived) refl
      ]

  -- A remote moderation history that is refused changes nothing.
  pub append_remote_moderation_history-IsAtomicAt :
      (remote : List ModerationEvent) (d : ChannelDir)
      → IsAtomicAt (append_remote_moderation_history chan remote) d
  unfolding append_remote_moderation_history
  append_remote_moderation_history-IsAtomicAt remote d =
      proceed-IsAtomicAt _ (plan_remote_moderation chan remote d) d λ local planned e h.
        let found = plan-AcceptsModeration chan remote d local planned in
        absurd (
          ok-ne-err found.state e (
            ap (λ (r : Result ModerationState × ChannelDir). r.0)
              (sym (append_remote_moderation-eq remote local d found planned))
            ∙ rw planned h))

  -- `d'` is `d` with the events of the remote history that go beyond the local one behind it. The
  -- remote history has the state `s` under the channel's policy history, and so has the channel now.
  pub record IsMergedModeration (remote : List ModerationEvent) (d d' : ChannelDir)
      (s : ModerationState) : Type 0 where
    pub local : List ModerationEvent
    pub before : read_moderation_history_unlocked chan d ≡ ok local
    pub after : read_moderation_history_unlocked chan d' ≡ ok (local ++ drop (length local) remote)
    pub remote_derives : validate_moderation_history chan remote d ≡ ok s
    pub current : moderation_state chan d' ≡ ok s
    pub files : d' ≡ record d {
      moderation_log = d'.moderation_log;
      moderation_cache = some (state_json.to_vec s);
    }

  module _ (hash : HashLaws k) (vec : VecLaws m) (laws : LineLaws moderation_json) where
    accepted_derives :
        (remote : List ModerationEvent) (d : ChannelDir) (local : List ModerationEvent)
        (found : AcceptsModeration chan remote d local)
        → validate_moderation_history chan (local ++ drop (length local) remote) d ≡ ok found.state
    accepted_derives remote d local found =
        let (policies, p, v) = validate-parts chan remote d found.state found.derived in
        let (s, was) =
          read_moderation-derives chan d.moderation_log d policies local p found.was_read in
        validate_of_parts chan (local ++ drop (length local) remote) d found.state policies p (
          derive_moderation-prefix hash vec chan policies s found.state local remote was v
            found.extends)

    read_merged :
        (remote : List ModerationEvent) (d : ChannelDir) (local : List ModerationEvent)
        → FileEndsClean d.moderation_log
        → AcceptsModeration chan remote d local
        → read_moderation chan (merged_log local remote d.moderation_log) d
          ≡ ok (local ++ drop (length local) remote)
    read_merged remote d local clean found =
        elim (Bool-cases (ltb (length local) (length remote))) [
          | inl b ↦ rw b (
              read_moderation-append chan d.moderation_log d local (drop (length local) remote)
                found.state laws clean found.was_read (accepted_derives remote d local found))
          | inr b ↦
              let nothing = drop_all (length local) remote (ground arith) in
              rw (b, nothing, append-nil) found.was_read
        ]

    -- A remote moderation history that is accepted on a local file that ends in a newline leaves the
    -- local events in place and adds the remote ones beyond them; the channel then has the state that
    -- the remote history derives under the channel's policy history, which is returned and cached.
    pub append_remote_moderation_history-IsMergedModeration :
        (remote : List ModerationEvent) (d d' : ChannelDir) (s : ModerationState)
        → FileEndsClean d.moderation_log
        → append_remote_moderation_history chan remote d ≡ (ok s, d')
        → IsMergedModeration remote d d' s
    unfolding append_remote_moderation_history
    append_remote_moderation_history-IsMergedModeration remote d d' s clean h =
        let (local, planned, _) = proceed-eq_ok _ (plan_remote_moderation chan remote d) d d' s h in
        let found = plan-AcceptsModeration chan remote d local planned in
        let new = merged local remote found.state d in
        let events = local ++ drop (length local) remote in
        let after : read_moderation_history_unlocked chan new ≡ ok events =
          sym
            (read_moderation-same_policy chan (merged_log local remote d.moderation_log) d new refl)
          ∙ read_merged remote d local clean found in
        returned (IsMergedModeration remote d)
          (sym (append_remote_moderation-eq remote local d found planned) ∙ h)
          (record {
            local = local;
            before = found.was_read;
            after = after;
            remote_derives = found.derived;
            current = moderation_state_of_history chan new events found.state found.opened after (
                sym (validate-same_policy chan events d new refl)
                ∙ accepted_derives remote d local found);
            files = refl;
          })
