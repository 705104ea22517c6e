-- ===== src/PolicyStore/Conflicts/Effects.antt =====
-- Resolving a policy fork of src/store.rs: which history then holds, and that none is lost.
use embernet.Prelude.{
  if◌then◌else◌, Str, true, List, [], ◌∷◌, none, some, ◌==◌, str_eq, option_eq, ◌≡◌, refl, sym, ap,
  ◌∙◌, Bool-cases, inl, inr,
}
use embernet.Fallible.{Result, ok, ok-ne-err, true_of_ensure, missing_directory}
use embernet.Fallible.Actions.{IsAtomicAt, returned, proceed-eq_ok, proceed-IsAtomicAt}
use embernet.Crates.{Crates, ToVec}
use embernet.Ndjson.{Json, LineLaws, read_ndjson, encode_lines}
use embernet.Ndjson.Laws.{read-encode}
use embernet.Channel.{ChannelDir, read_file}
use embernet.Channel.Conflicts.{displaced, is_displaced, read-displaced}
use embernet.Policy.{ChannelPolicy, PolicyEvent, PolicyEventPayload}
use embernet.Policy.History.{derive_policy}
use embernet.PolicyStore.{read_policy_history_unlocked, read_channel_policy}
use embernet.PolicyStore.Changes.Plan.{last_id}
use embernet.PolicyStore.Changes.Effects.{
  read_history-derives, read_history_of_ndjson, read_channel_policy_of_history,
}
use embernet.PolicyStore.Conflicts.Plan.{Resolution, plan_resolution, Finds, plan_resolution-Finds}
use embernet.PolicyStore.Conflicts.{
  save_policy_conflict, preserve_displaced, resolve_policy_conflict,
}

last_id-some :
    (e : PolicyEvent) (events : List PolicyEvent) → (id : Str) × (last_id (e ∷ events) ≡ some id)
last_id-some e [] = (e.id, refl)
last_id-some e (x ∷ events) = last_id-some x events

module _ ⦃k : Crates⦄ ⦃j : ToVec PolicyEventPayload⦄ ⦃event_json : Json PolicyEvent⦄
    (chan : Str) where
  abbrev pub preserved : Str → List PolicyEvent → ChannelDir → ChannelDir
  preserved head current d = record d {
    policy_conflicts = displaced head (last_id current) (encode_lines current) d.policy_conflicts;
  }

  -- The history that stands is saved without fail.
  preserve-eq :
      (head : Str) (current events : List PolicyEvent) (p : ChannelPolicy) (d : ChannelDir)
      → d.exists ≡ true
      → derive_policy chan current ≡ ok p
      → last_id events ≡ some head
      → preserve_displaced chan current events d ≡ (ok tt, preserved head current d)
  unfolding preserve_displaced save_policy_conflict
  preserve-eq head [] events p d x h l = refl
  preserve-eq head (e ∷ current) events p d x h l =
      let (id, newest) = last_id-some e current in
      elim (Bool-cases (id == head)) [
        | inl b ↦ rw (l, newest, last_id, b) refl
        | inr b ↦ rw (l, newest, last_id, b, h, x) refl
      ]

  module _ ⦃cache_json : Json ChannelPolicy⦄ where
    -- The directory after a resolution.
    abbrev pub resolved : Str → Resolution → ChannelDir → ChannelDir
    resolved head plan d = record (preserved head plan.current d) {
      policy_log = some (encode_lines plan.events);
      policy_cache = some (cache_json.to_vec plan.policy);
    }

    pub resolve-eq :
        (head : Str) (plan : Resolution) (d : ChannelDir)
        → plan_resolution chan head d ≡ ok plan
        → resolve_policy_conflict chan head d ≡ (ok plan.policy, resolved head plan d)
    unfolding resolve_policy_conflict
    resolve-eq head plan d h =
        let found = plan_resolution-Finds chan head d plan h in
        let (p, derived) = read_history-derives chan d.policy_log plan.current found.was_read in
        let there = true_of_ensure d.exists missing_directory found.opened in
        rw (h, preserve-eq head plan.current plan.events p d there derived found.ends) refl

    -- A resolution that is refused changes nothing.
    pub resolve_policy_conflict-IsAtomicAt :
        (head : Str) (d : ChannelDir) → IsAtomicAt (resolve_policy_conflict chan head) d
    unfolding resolve_policy_conflict
    resolve_policy_conflict-IsAtomicAt head d =
        proceed-IsAtomicAt _ (plan_resolution chan head d) d λ plan planned e h. absurd (
          ok-ne-err plan.policy e (
            ap (λ (r : Result ChannelPolicy × ChannelDir). r.0)
              (sym (resolve-eq head plan d planned))
            ∙ rw planned h))

    -- The history of `d'` ends in `head` and derives `p`, which is the channel's policy and which
    -- the cache holds. The history that stood in `d` is saved under its newest id, from where the
    -- very same events can be read, unless it ended in `head` as well; every other saved history is
    -- kept.
    pub record IsResolved (head : Str) (d d' : ChannelDir) (p : ChannelPolicy) : Type 0 where
      pub events : List PolicyEvent
      pub displaced_events : List PolicyEvent
      pub ends : last_id events ≡ some head
      pub derived : derive_policy chan events ≡ ok p
      pub after : read_policy_history_unlocked chan d' ≡ ok events
      pub current : read_channel_policy chan d' ≡ ok p
      pub cached : d'.policy_cache ≡ some (cache_json.to_vec p)
      pub before : read_policy_history_unlocked chan d ≡ ok displaced_events
      pub kept :
          (name : Str)
          → read_file name d'.policy_conflicts ≡ (
              if is_displaced head (last_id displaced_events) name
              then some (encode_lines displaced_events)
              else read_file name d.policy_conflicts)
      pub readable : read_ndjson (encode_lines displaced_events) ≡ ok displaced_events

    resolved-IsResolved :
        (head : Str) (plan : Resolution) (d : ChannelDir)
        → LineLaws event_json
        → Finds chan head d plan
        → IsResolved head d (resolved head plan d) plan.policy
    resolved-IsResolved head plan d laws found =
        let after =
          read_history_of_ndjson chan (encode_lines plan.events) plan.events plan.policy
            (read-encode laws plan.events) found.derived in
        record {
          events = plan.events;
          displaced_events = plan.current;
          ends = found.ends;
          derived = found.derived;
          after = after;
          current =
              read_channel_policy_of_history chan (resolved head plan d) none
                (encode_lines plan.events) plan.events plan.policy refl found.opened after
                found.derived;
          cached = refl;
          before = found.was_read;
          kept = λ name.
              read-displaced head name (last_id plan.current) (encode_lines plan.current)
                d.policy_conflicts;
          readable = read-encode laws plan.current;
        }

    -- Resolving a fork puts the saved history that ends in the chosen head in force and loses
    -- nothing: the displaced history is saved, as far as it ended elsewhere.
    pub resolve_policy_conflict-IsResolved :
        (head : Str) (d d' : ChannelDir) (p : ChannelPolicy)
        → LineLaws event_json
        → resolve_policy_conflict chan head d ≡ (ok p, d')
        → IsResolved head d d' p
    unfolding resolve_policy_conflict
    resolve_policy_conflict-IsResolved head d d' p laws h =
        let (plan, planned, _) = proceed-eq_ok _ (plan_resolution chan head d) d d' p h in
        returned (IsResolved head d) (sym (resolve-eq head plan d planned) ∙ h)
          (resolved-IsResolved head plan d laws (plan_resolution-Finds chan head d plan planned))
