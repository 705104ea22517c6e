-- ===== src/Moderation/Verdict.antt =====
-- What the state that `derive_moderation` of src/store.rs derives says of a message: the verdict of
-- the last event that names it.
use embernet.Prelude.{
  Str, Bool, true, false, List, [], ◌∷◌, ◌++◌, Option, none, some, ◌==◌, str_eq, if◌then◌else◌, ◌≡◌,
  refl, sym, ap, ◌∙◌, arith, beq_refl,
}
use embernet.Fallible.{ok, ok-injective}
use embernet.Fallible.Checks.{bind-eq_ok}
use embernet.Crates.{Crates, ToVec}
use embernet.Policy.{PolicyEvent, PolicyEventPayload}
use embernet.Policy.Actions.{validate_public_key}
use embernet.Moderation.Tombstones.{ModerationState, no_tombstones, get, get-insert, get-remove}
use embernet.Moderation.{
  ModerationAction, tombstone, restore, ModerationEvent, ModerationEventPayload, apply_moderation,
  replay_moderation, derive_moderation,
}
use embernet.Moderation.Replay.{replay-Moderates}

-- What an action says of the message it names.
abbrev pub target_of : ModerationAction → Str
target_of (tombstone target reason) = target
target_of (restore target) = target

abbrev pub ruling : ModerationAction → Option (Option Str)
ruling (tombstone target reason) = some reason
ruling (restore target) = none

unfoldable pub names : Str → List ModerationEvent → Bool
names id [] = false
names id (e ∷ events) = if target_of e.action == id then true else names id events

-- The ruling of the last event that names the message: the reason of a tombstone, or `none`.
unfoldable pub verdict : Str → List ModerationEvent → Option (Option Str)
verdict id [] = none
verdict id (e ∷ events) =
    let later = verdict id events in
    if names id events then later else (if target_of e.action == id then ruling e.action else none)

verdict-unnamed :
    (id : Str) (events : List ModerationEvent) → names id events ≡ false → verdict id events ≡ none
unfolding names verdict
verdict-unnamed id [] h = refl
verdict-unnamed id (e ∷ events) h = ground (arith, verdict-unnamed id events)

names-last :
    (id : Str) (events : List ModerationEvent) (e : ModerationEvent)
    → target_of e.action ≡ id
    → names id (events ++ e ∷ []) ≡ true
unfolding names
names-last id [] e h = rw (h, beq_refl id) refl
names-last id (x ∷ events) e h = ground (arith, names-last id events e h)

-- The last event decides on the message that it names.
pub verdict-last :
    (id : Str) (events : List ModerationEvent) (e : ModerationEvent)
    → target_of e.action ≡ id
    → verdict id (events ++ e ∷ []) ≡ ruling e.action
unfolding names verdict
verdict-last id [] e h = rw (h, beq_refl id) refl
verdict-last id (x ∷ events) e h =
    ground (arith, verdict-last id events e h, names-last id events e h)

module _ ⦃k : Crates⦄ ⦃m : ToVec ModerationEventPayload⦄ where
  apply_moderation-get :
      (s t : ModerationState) (action : ModerationAction) (id : Str)
      → apply_moderation s action ≡ ok t
      → get id t.tombstoned
        ≡ (if target_of action == id then ruling action else get id s.tombstoned)
  unfolding apply_moderation
  apply_moderation-get s t (tombstone target reason) id h =
      let (_, _, e) = bind-eq_ok (validate_public_key target) _ h in
      ap (λ (x : ModerationState). get id x.tombstoned) (sym (ok-injective _ t e))
      ∙ get-insert target id reason s.tombstoned
  apply_moderation-get s t (restore target) id h =
      let (_, _, e) = bind-eq_ok (validate_public_key target) _ h in
      ap (λ (x : ModerationState). get id x.tombstoned) (sym (ok-injective _ t e))
      ∙ get-remove target id s.tombstoned

  module _ ⦃j : ToVec PolicyEventPayload⦄ (chan : Str) (policies : List PolicyEvent) where
    replay-verdict :
        (s t : ModerationState) (previous : Option Str) (events : List ModerationEvent) (id : Str)
        → replay_moderation chan policies s previous events ≡ ok t
        → get id t.tombstoned ≡ (if names id events then verdict id events else get id s.tombstoned)
    unfolding names verdict
    replay-verdict s t previous [] id h =
        unfold replay_moderation in
        ap (λ (x : ModerationState). get id x.tombstoned) (sym (ok-injective s t h))
    replay-verdict s t previous (e ∷ events) id h =
        let r = replay-Moderates chan policies s t previous e events h in
        ground (
          arith,
          replay-verdict r.next t (some e.id) events id r.rest,
          apply_moderation-get s r.next e.action id r.applied,
        )

    -- A message is tombstoned, and with which reason, exactly as the last event that names it in the
    -- moderation history says; a message that no event names is not tombstoned.
    pub derive_moderation-verdict :
        (events : List ModerationEvent) (s : ModerationState) (id : Str)
        → derive_moderation chan policies events ≡ ok s
        → get id s.tombstoned ≡ verdict id events
    unfolding derive_moderation get
    derive_moderation-verdict events s id h =
        ground (arith, replay-verdict no_tombstones s none events id h, verdict-unnamed id events)
