-- ===== src/ModerationStore/Remote/Plan.antt =====
-- What `append_remote_moderation_history` of src/store.rs reads and tests before it writes anything.
use embernet.Prelude.{Str, true, List, ◌≡◌, ap, sym, ◌∙◌}
use embernet.Fallible.{Result, ok, ensure, not_an_extension, true_of_ensure, ok-injective}
use embernet.Fallible.Checks.{◌>>=◌, ◌>>◌, bind-eq_ok}
use embernet.Crates.{Crates, ToVec}
use embernet.Ndjson.{Json}
use embernet.Channel.{ChannelDir, open_lock, open_log}
use embernet.Policy.{PolicyEvent, PolicyEventPayload}
use embernet.PolicyStore.{read_policy_history}
use embernet.Moderation.Tombstones.{ModerationState}
use embernet.Moderation.{ModerationEvent, ModerationEventPayload, derive_moderation}
use embernet.Moderation.Prefix.{is_moderation_prefix}
use embernet.ModerationStore.{validate_moderation_history, read_moderation_history_unlocked}

module _ ⦃k : Crates⦄ ⦃m : ToVec ModerationEventPayload⦄ ⦃j : ToVec PolicyEventPayload⦄
    ⦃policy_json : Json PolicyEvent⦄ (chan : Str) where
  pub validate-parts :
      (events : List ModerationEvent) (d : ChannelDir) (s : ModerationState)
      → validate_moderation_history chan events d ≡ ok s
      → (policies : List PolicyEvent) × (read_policy_history chan d ≡ ok policies)
        × (derive_moderation chan policies events ≡ ok s)
  unfolding validate_moderation_history
  validate-parts events d s h = bind-eq_ok (read_policy_history chan d) _ h

  pub validate_of_parts :
      (events : List ModerationEvent) (d : ChannelDir) (s : ModerationState)
      (policies : List PolicyEvent)
      → read_policy_history chan d ≡ ok policies
      → derive_moderation chan policies events ≡ ok s
      → validate_moderation_history chan events d ≡ ok s
  unfolding validate_moderation_history
  validate_of_parts events d s policies p v = rw p v

  module _ ⦃moderation_json : Json ModerationEvent⦄ where
    -- The local history, where the remote one extends it.
    unfoldable pub plan_remote_moderation :
        List ModerationEvent → ChannelDir → Result (List ModerationEvent)
    plan_remote_moderation remote d = do
      open_log d
      open_lock d
      local ← read_moderation_history_unlocked chan d
      validate_moderation_history chan remote d
      ensure (is_moderation_prefix local remote) not_an_extension
      ok local

    -- What a plan that succeeds has found.
    pub record AcceptsModeration (remote : List ModerationEvent) (d : ChannelDir)
        (local : List ModerationEvent) : Type 0 where
      pub state : ModerationState
      pub opened : open_lock d ≡ ok tt
      pub was_read : read_moderation_history_unlocked chan d ≡ ok local
      pub derived : validate_moderation_history chan remote d ≡ ok state
      pub extends : is_moderation_prefix local remote ≡ true

    pub plan-AcceptsModeration :
        (remote : List ModerationEvent) (d : ChannelDir) (local : List ModerationEvent)
        → plan_remote_moderation remote d ≡ ok local
        → AcceptsModeration remote d local
    unfolding plan_remote_moderation
    plan-AcceptsModeration remote d local h =
        let (_, _, h₁) = bind-eq_ok (open_log d) _ h in
        let (_, opened, h₂) = bind-eq_ok (open_lock d) _ h₁ in
        let (found, was_read, h₃) = bind-eq_ok (read_moderation_history_unlocked chan d) _ h₂ in
        let (state, derived, h₄) = bind-eq_ok (validate_moderation_history chan remote d) _ h₃ in
        let (_, extends, h₅) =
          bind-eq_ok (ensure (is_moderation_prefix found remote) not_an_extension) _ h₄ in
        let e = ok-injective found local h₅ in
        record {
          state = state;
          opened = opened;
          was_read = was_read ∙ ap ok e;
          derived = derived;
          extends =
              ap (λ x. is_moderation_prefix x remote) (sym e)
              ∙ true_of_ensure (is_moderation_prefix found remote) not_an_extension extends;
        }
