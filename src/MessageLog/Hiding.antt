-- ===== src/MessageLog/Hiding.antt =====
-- A tombstone of src/store.rs hides its message: `tombstone_message` and `read_channel_tail`.
use embernet.Prelude.{
  ℕ, suc, Str, false, List, [], ◌∷◌, ◌++◌, Option, some, ◌≡◌, ◌≢◌, sym, ap, ◌∙◌, All, subst,
}
use embernet.Fallible.{Result, ok, context, not_indexed, ok-injective}
use embernet.Fallible.Actions.{proceed-eq_ok, step-eq_ok}
use embernet.Fallible.Checks.{bind-eq_ok}
use embernet.Crates.{Crates, ToVec}
use embernet.Redb.{Redb, RedbLaws}
use embernet.Ndjson.{Json, LineLaws}
use embernet.Channel.{ChannelDir}
use embernet.Proto.{KeypairFile, Message, Envelope, sign_bytes}
use embernet.Policy.{PolicyEvent, PolicyEventPayload}
use embernet.PolicyStore.Changes.Effects.{FileEndsClean}
use embernet.Moderation.Tombstones.{ModerationState, get}
use embernet.Moderation.{
  ModerationAction, tombstone, ModerationEvent, ModerationEventPayload, sign_moderation_event,
}
use embernet.Moderation.Verdict.{ruling, target_of, verdict-last, derive_moderation-verdict}
use embernet.ModerationStore.{moderation_state}
use embernet.ModerationStore.Changes.{append_moderation_action}
use embernet.ModerationStore.Changes.Effects.{IsModerated, append_moderation_action-IsModerated}
use embernet.ModerationStore.Remote.Plan.{validate-parts}
use embernet.MessageLog.Locations.{decode_location}
use embernet.MessageLog.Messages.{IndexedDir, database, log_of, ensure_index, read_message_by_id}
use embernet.MessageLog.Messages.Opening.{ensure_index-IsOpen}
use embernet.MessageLog.Reading.{is_tombstoned, tombstone_message, read_channel_tail}
use embernet.MessageLog.Visible.{IsShown, read_channel_tail-IsView}

signed_action :
    ⦃k : Crates⦄ ⦃m : ToVec ModerationEventPayload⦄ (chan : Str) (signer : KeypairFile) (now : ℕ)
    (previous : Option Str) (policy_head : Str) (action : ModerationAction) (e : ModerationEvent)
    → sign_moderation_event chan signer now previous policy_head action ≡ ok e
    → e.action ≡ action
unfolding sign_moderation_event
signed_action chan signer now previous policy_head action e h =
    let (sig, _, h₁) = bind-eq_ok (sign_bytes signer _) _ h in
    ap (λ (x : ModerationEvent). x.action) (sym (ok-injective _ e h₁))

hidden-ne :
    (moderation : ModerationState) (id target : Str) (reason : Option Str)
    → get target moderation.tombstoned ≡ some reason
    → is_tombstoned id moderation ≡ false
    → id ≢ target
hidden-ne moderation id target reason h visible e = cc (rw (e, is_tombstoned, h) at visible)

shown-others :
    ⦃k : Crates⦄ ⦃v : ToVec Message⦄ ⦃j : Json Envelope⦄ (chan : Str) (moderation : ModerationState)
    (target : Str) (reason : Option Str) (out : List Envelope)
    → get target moderation.tombstoned ≡ some reason
    → All (IsShown chan moderation) out
    → All (λ (e : Envelope). e.id ≢ target) out
shown-others chan moderation target reason [] h shown = tt
shown-others chan moderation target reason (e ∷ out) h shown = (
  hidden-ne moderation e.id target reason h shown.0.visible,
  shown-others chan moderation target reason out h shown.1,
)

module _ ⦃r : Redb⦄ ⦃k : Crates⦄ ⦃v : ToVec Message⦄ ⦃j : Json Envelope⦄ (chan : Str) where
  -- Reading a message leaves the files alone.
  read_message_by_id-files :
      (id : Str) (s t : IndexedDir) (e : Envelope)
      → RedbLaws r
      → read_message_by_id chan id s ≡ (ok e, t)
      → t.dir ≡ s.dir
  unfolding read_message_by_id
  read_message_by_id-files id s t e laws h =
      let (log, _, h₁) = proceed-eq_ok _ (log_of s) s t e h in
      let (_, (u, opened, h₂)) = step-eq_ok ensure_index _ s t e h₁ in
      let (value, _, h₃) =
        proceed-eq_ok _ (context (r.messages.get id (database u).messages) not_indexed) u t e h₂ in
      let (location, _, h₄) = proceed-eq_ok _ (decode_location value) u t e h₃ in
      let (_, o) = ensure_index-IsOpen s u laws opened in
      ap (λ (x : Result Envelope × IndexedDir). x.1.dir) (sym h₄) ∙ o.files

module _ ⦃r : Redb⦄ ⦃k : Crates⦄ ⦃v : ToVec Message⦄ ⦃j : Json Envelope⦄
    ⦃m : ToVec ModerationEventPayload⦄ ⦃p : ToVec PolicyEventPayload⦄
    ⦃policy_json : Json PolicyEvent⦄ ⦃moderation_json : Json ModerationEvent⦄
    ⦃state_json : Json ModerationState⦄ (chan : Str) (signer : KeypairFile) (now : ℕ) where
  -- The new state has the tombstone with its reason.
  moderated-get :
      (d d' : ChannelDir) (state : ModerationState) (target : Str) (reason : Option Str)
      → IsModerated chan signer now (tombstone target reason) d d' state
      → get target state.tombstoned ≡ some reason
  moderated-get d d' state target reason a =
      let (policies, _, derived) =
        validate-parts chan (a.events ++ a.event ∷ []) d state a.derived in
      let action =
        signed_action chan signer now _ a.policy_head (tombstone target reason) a.event a.signed in
      derive_moderation-verdict chan policies (a.events ++ a.event ∷ []) state target derived
      ∙ verdict-last target a.events a.event (ap target_of action)
      ∙ ap ruling action

  -- A tombstone that succeeds on a history file that ends in a newline stands, with its reason, in the
  -- state that is returned, which is the channel's moderation state from then on; and whatever tail
  -- of the channel is read then, the message is not in it.
  pub tombstone_message-hides :
      (target : Str) (reason : Option Str) (s t u : IndexedDir) (state : ModerationState) (n : ℕ)
      (out : List Envelope)
      → RedbLaws r
      → LineLaws moderation_json
      → FileEndsClean s.dir.moderation_log
      → tombstone_message chan signer now target reason s ≡ (ok state, t)
      → read_channel_tail chan (suc n) t ≡ (ok out, u)
      → (get target state.tombstoned ≡ some reason)
        × (moderation_state chan t.dir ≡ ok state)
        × All (λ (e : Envelope). e.id ≢ target) out
  unfolding tombstone_message
  tombstone_message-hides target reason s t u state n out redb laws clean h tail =
      let (e, (x, found, h₁)) = step-eq_ok (read_message_by_id chan target) _ s t state h in
      let files = read_message_by_id-files chan target s x e redb found in
      let act = append_moderation_action chan signer now (tombstone target reason) in
      let done : act x.dir ≡ (ok state, t.dir) =
        ap (λ (y : Result ModerationState × IndexedDir). (y.0, y.1.dir)) h₁ in
      let a =
        append_moderation_action-IsModerated chan signer now (tombstone target reason) x.dir t.dir
          state laws (subst (λ (d : ChannelDir). FileEndsClean d.moderation_log) (sym files) clean)
          done in
      let there = moderated-get x.dir t.dir state target reason a in
      let (moderation, now_found, (_, shown)) = read_channel_tail-IsView chan n t u out tail in
      let same : moderation ≡ state = ok-injective moderation state (sym now_found ∙ a.current) in
      (
        there,
        a.current,
        shown-others chan moderation target reason out
            (ap (λ (y : ModerationState). get target y.tombstoned) same ∙ there) shown,
      )
