-- ===== src/ModerationStore/Conflicts/Effects.antt =====
-- Resolving a moderation fork of src/store.rs: which history then holds, and that none is lost.
use embernet.Prelude.{
  if◌then◌else◌, Str, true, List, [], ◌∷◌, some, ◌==◌, str_eq, ◌≡◌, refl, sym, ap, ◌∙◌, Bool-cases,
  inl, inr,
}
use embernet.Fallible.{Result, ok, ok-ne-err, true_of_ensure, missing_directory}
use embernet.Fallible.Actions.{IsAtomicAt, returned, proceed-eq_ok, proceed-IsAtomicAt}
use embernet.Crates.{Crates, ToVec}
use embernet.Ndjson.{Json, LineLaws, read_ndjson, encode_lines}
use embernet.Ndjson.Laws.{read-encode}
use embernet.Channel.{ChannelDir, read_file}
use embernet.Channel.Conflicts.{displaced, is_displaced, read-displaced}
use embernet.Policy.{PolicyEvent, PolicyEventPayload}
use embernet.Moderation.Tombstones.{ModerationState}
use embernet.Moderation.{ModerationEvent, ModerationEventPayload}
use embernet.ModerationStore.{
  last_moderation_id, validate_moderation_history, read_moderation_history_unlocked,
  moderation_state,
}
use embernet.ModerationStore.Reading.{
  read_moderation-derives, read_moderation_of_ndjson, moderation_state_of_history,
  validate-same_policy,
}
use embernet.ModerationStore.Remote.Plan.{validate-parts, validate_of_parts}
use embernet.ModerationStore.Conflicts.Plan.{
  ModerationResolution, plan_moderation_resolution, FindsModeration, plan-FindsModeration,
}
use embernet.ModerationStore.Conflicts.{
  save_moderation_conflict, preserve_moderation, resolve_moderation_conflict,
}

last_moderation_id-some :
    (e : ModerationEvent) (events : List ModerationEvent)
    → (id : Str) × (last_moderation_id (e ∷ events) ≡ some id)
last_moderation_id-some e [] = (e.id, refl)
last_moderation_id-some e (x ∷ events) = last_moderation_id-some x events

module _ ⦃k : Crates⦄ ⦃m : ToVec ModerationEventPayload⦄ ⦃j : ToVec PolicyEventPayload⦄
    ⦃policy_json : Json PolicyEvent⦄ ⦃moderation_json : Json ModerationEvent⦄ (chan : Str) where
  abbrev preserved : Str → List ModerationEvent → ChannelDir → ChannelDir
  preserved head current d = record d {
    moderation_conflicts =
        displaced head (last_moderation_id current) (encode_lines current) d.moderation_conflicts;
  }

  -- The history that stands is saved without fail.
  preserve-eq :
      (head : Str) (current events : List ModerationEvent) (s : ModerationState) (d : ChannelDir)
      → d.exists ≡ true
      → validate_moderation_history chan current d ≡ ok s
      → last_moderation_id events ≡ some head
      → preserve_moderation chan current events d ≡ (ok tt, preserved head current d)
  unfolding preserve_moderation save_moderation_conflict
  preserve-eq head [] events s d x h l = refl
  preserve-eq head (e ∷ current) events s d x h l =
      let (id, newest) = last_moderation_id-some e current in
      elim (Bool-cases (id == head)) [
        | inl b ↦ rw (l, newest, last_moderation_id, b) refl
        | inr b ↦ rw (l, newest, last_moderation_id, b, h, x) refl
      ]

  current_derives :
      (head : Str) (plan : ModerationResolution) (d : ChannelDir)
      → FindsModeration chan head d plan
      → (s : ModerationState) × (validate_moderation_history chan plan.current d ≡ ok s)
  current_derives head plan d found =
      let (policies, p, _) = validate-parts chan plan.events d plan.state found.derived in
      let (s, derived) =
        read_moderation-derives chan d.moderation_log d policies plan.current p found.was_read in
      (s, validate_of_parts chan plan.current d s policies p derived)

  module _ ⦃state_json : Json ModerationState⦄ where
    -- The directory after a resolution.
    abbrev pub moderation_resolved : Str → ModerationResolution → ChannelDir → ChannelDir
    moderation_resolved head plan d = record (preserved head plan.current d) {
      moderation_log = some (encode_lines plan.events);
      moderation_cache = some (state_json.to_vec plan.state);
    }

    pub resolve_moderation-eq :
        (head : Str) (plan : ModerationResolution) (d : ChannelDir)
        → plan_moderation_resolution chan head d ≡ ok plan
        → resolve_moderation_conflict chan head d ≡ (ok plan.state, moderation_resolved head plan d)
    unfolding resolve_moderation_conflict
    resolve_moderation-eq head plan d h =
        let found = plan-FindsModeration chan head d plan h in
        let (s, derived) = current_derives head plan d found in
        let there = true_of_ensure d.exists missing_directory found.opened in
        rw (h, preserve-eq head plan.current plan.events s d there derived found.ends) refl

    -- A resolution of moderation that is refused changes nothing.
    pub resolve_moderation_conflict-IsAtomicAt :
        (head : Str) (d : ChannelDir) → IsAtomicAt (resolve_moderation_conflict chan head) d
    unfolding resolve_moderation_conflict
    resolve_moderation_conflict-IsAtomicAt head d =
        proceed-IsAtomicAt _ (plan_moderation_resolution chan head d) d λ plan planned e h. absurd (
          ok-ne-err plan.state e (
            ap (λ (r : Result ModerationState × ChannelDir). r.0)
              (sym (resolve_moderation-eq head plan d planned))
            ∙ rw planned h))

    -- The moderation history of `d'` ends in `head` and derives `s`, which is the channel's state and
    -- which the cache holds. The history that stood in `d` is saved under its newest id, from where
    -- the very same events can be read, unless it ended in `head` as well; every other saved history
    -- is kept.
    pub record IsResolved (head : Str) (d d' : ChannelDir) (s : ModerationState) : Type 0 where
      pub events : List ModerationEvent
      pub displaced_events : List ModerationEvent
      pub ends : last_moderation_id events ≡ some head
      pub after : read_moderation_history_unlocked chan d' ≡ ok events
      pub current : moderation_state chan d' ≡ ok s
      pub cached : d'.moderation_cache ≡ some (state_json.to_vec s)
      pub before : read_moderation_history_unlocked chan d ≡ ok displaced_events
      pub kept :
          (name : Str)
          → read_file name d'.moderation_conflicts ≡ (
              if is_displaced head (last_moderation_id displaced_events) name
              then some (encode_lines displaced_events)
              else read_file name d.moderation_conflicts)
      pub readable : read_ndjson (encode_lines displaced_events) ≡ ok displaced_events

    moderation_resolved-IsResolved :
        (head : Str) (plan : ModerationResolution) (d : ChannelDir)
        → LineLaws moderation_json
        → FindsModeration chan head d plan
        → IsResolved head d (moderation_resolved head plan d) plan.state
    moderation_resolved-IsResolved head plan d laws found =
        let new = moderation_resolved head plan d in
        let valid : validate_moderation_history chan plan.events new ≡ ok plan.state =
          sym (validate-same_policy chan plan.events d new refl) ∙ found.derived in
        let after =
          read_moderation_of_ndjson chan (encode_lines plan.events) new plan.events plan.state
            (read-encode laws plan.events) valid in
        record {
          events = plan.events;
          displaced_events = plan.current;
          ends = found.ends;
          after = after;
          current =
              moderation_state_of_history chan new plan.events plan.state found.opened after valid;
          cached = refl;
          before = found.was_read;
          kept = λ name.
              read-displaced head name (last_moderation_id plan.current) (encode_lines plan.current)
                d.moderation_conflicts;
          readable = read-encode laws plan.current;
        }

    -- Resolving a moderation fork puts the saved history that ends in the chosen head in force and
    -- loses nothing: the displaced history is saved, as far as it ended elsewhere.
    pub resolve_moderation_conflict-IsResolved :
        (head : Str) (d d' : ChannelDir) (s : ModerationState)
        → LineLaws moderation_json
        → resolve_moderation_conflict chan head d ≡ (ok s, d')
        → IsResolved head d d' s
    unfolding resolve_moderation_conflict
    resolve_moderation_conflict-IsResolved head d d' s laws h =
        let (plan, planned, _) =
          proceed-eq_ok _ (plan_moderation_resolution chan head d) d d' s h in
        returned (IsResolved head d) (sym (resolve_moderation-eq head plan d planned) ∙ h) (
          moderation_resolved-IsResolved head plan d laws
            (plan-FindsModeration chan head d plan planned))
