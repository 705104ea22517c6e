-- ===== src/PolicyStore/Changes/Plan.antt =====
-- What `append_policy_action` of src/store.rs reads, tests and signs before it writes anything.
use embernet.Prelude.{
  ℕ, Str, List, [], ◌∷◌, ◌++◌, Option, none, some, last, if◌then◌else◌, ◌≡◌, refl, sym, ap, ◌∙◌,
  ◌⊎◌, inl, inr, Bool-cases, true,
}
use embernet.Fallible.{Result, ok, ensure, owner_adopts, ok-injective, true_of_ensure}
use embernet.Fallible.Checks.{◌>>=◌, ◌>>◌, bind-eq_ok}
use embernet.Crates.{Crates, ToVec}
use embernet.Ndjson.{Json}
use embernet.Proto.{KeypairFile}
use embernet.Channel.{ChannelDir, open_lock, open_log}
use embernet.Policy.{
  ChannelPolicy, PolicyAction, adopt, is_restricted, is_owner, PolicyEvent, PolicyEventPayload,
}
use embernet.Policy.History.{sign_policy_event, derive_policy}
use embernet.PolicyStore.{read_policy_cache, read_policy_history_unlocked}

-- The id of the newest event.
abbrev pub last_id : List PolicyEvent → Option Str
last_id events = elim (last events) [ none ↦ none | some e ↦ some e.id ]

-- The readings of the clock for an adoption and for the action.
pub record Clock : Type 0 where
  pub adopted_at : ℕ
  pub signed_at : ℕ

-- The events to write and the policy that they lead to.
pub record Extension : Type 0 where
  pub added : List PolicyEvent
  pub policy : ChannelPolicy

module _ ⦃k : Crates⦄ ⦃j : ToVec PolicyEventPayload⦄ where
  -- A restricted policy that has no history yet is first adopted by its owner.
  unfoldable pub adoption :
      Str → KeypairFile → ℕ → List PolicyEvent → ChannelPolicy → Result (List PolicyEvent)
  adoption chan signer now (e ∷ events) cached = ok []
  adoption chan signer now [] cached =
      if is_restricted cached.mode
      then (do
        ensure (is_owner cached signer.public_key) owner_adopts
        e ← sign_policy_event chan signer now none (adopt cached)
        ok (e ∷ []))
      else ok []

  module _ ⦃event_json : Json PolicyEvent⦄ ⦃cache_json : Json ChannelPolicy⦄ where
    abbrev pub current_policy : Str → List PolicyEvent → ChannelDir → Result ChannelPolicy
    current_policy chan [] d = read_policy_cache d
    current_policy chan (e ∷ events) d = derive_policy chan (e ∷ events)

    unfoldable pub plan_policy_action :
        Str → KeypairFile → Clock → PolicyAction → ChannelDir → Result Extension
    plan_policy_action chan signer clock action d = do
      open_log d
      open_lock d
      events ← read_policy_history_unlocked chan d
      cached ← current_policy chan events d
      adopted ← adoption chan signer clock.adopted_at events cached
      event ← sign_policy_event chan signer clock.signed_at (last_id (events ++ adopted)) action
      policy ← derive_policy chan (events ++ (adopted ++ event ∷ []))
      ok (record { added = adopted ++ event ∷ []; policy = policy })

    -- What was adopted: nothing, or the restricted policy that a channel without a history has from its
    -- owner.
    pub record Adopts (chan : Str) (signer : KeypairFile) (now : ℕ)
        (events adopted : List PolicyEvent) : Type 0 where
      pub legacy : ChannelPolicy
      pub event : PolicyEvent
      pub no_history : events ≡ []
      pub restricts : is_restricted legacy.mode ≡ true
      pub owned : is_owner legacy signer.public_key ≡ true
      pub signed : sign_policy_event chan signer now none (adopt legacy) ≡ ok event
      pub only : adopted ≡ event ∷ []

    adoption-Adopts :
        (chan : Str) (signer : KeypairFile) (now : ℕ) (events adopted : List PolicyEvent)
        (cached : ChannelPolicy)
        → adoption chan signer now events cached ≡ ok adopted
        → (adopted ≡ []) ⊎ Adopts chan signer now events adopted
    unfolding adoption
    adoption-Adopts chan signer now (e ∷ events) adopted cached h =
        inl (sym (ok-injective [] adopted h))
    adoption-Adopts chan signer now [] adopted cached h =
        elim (Bool-cases (is_restricted cached.mode)) [
          | inr b ↦ inl (sym (ok-injective [] adopted (rw b at h)))
          | inl b ↦
              let (_, owns, h₁) =
                bind-eq_ok (ensure (is_owner cached signer.public_key) owner_adopts) _
                  (rw b at h) in
              let (e, signed, h₂) =
                bind-eq_ok (sign_policy_event chan signer now none (adopt cached)) _ h₁ in
              inr (record {
                legacy = cached;
                event = e;
                no_history = refl;
                restricts = b;
                owned = true_of_ensure (is_owner cached signer.public_key) owner_adopts owns;
                signed = signed;
                only = sym (ok-injective (e ∷ []) adopted h₂);
              })
        ]

    -- The events of a change: what was adopted, and the signed action behind it.
    pub record IsChange (chan : Str) (signer : KeypairFile) (clock : Clock) (action : PolicyAction)
        (events added : List PolicyEvent) : Type 0 where
      pub adopted : List PolicyEvent
      pub event : PolicyEvent
      pub adopts : (adopted ≡ []) ⊎ Adopts chan signer clock.adopted_at events adopted
      pub signed :
          sign_policy_event chan signer clock.signed_at (last_id (events ++ adopted)) action
          ≡ ok event
      pub all : added ≡ adopted ++ event ∷ []

    -- What a plan that succeeds has found.
    pub record Plans (chan : Str) (signer : KeypairFile) (clock : Clock) (action : PolicyAction)
        (d : ChannelDir) (plan : Extension) : Type 0 where
      pub events : List PolicyEvent
      pub opened : open_lock d ≡ ok tt
      pub was_read : read_policy_history_unlocked chan d ≡ ok events
      pub change : IsChange chan signer clock action events plan.added
      pub derived : derive_policy chan (events ++ plan.added) ≡ ok plan.policy

    plan_derives :
        (chan : Str) (events added : List PolicyEvent) (policy : ChannelPolicy) (plan : Extension)
        → derive_policy chan (events ++ added) ≡ ok policy
        → ok (record { added = added; policy = policy }) ≡ ok plan
        → derive_policy chan (events ++ plan.added) ≡ ok plan.policy
    plan_derives chan events added policy plan d h =
        let e : ◌≡◌ {A = Extension} (record { added = added; policy = policy }) plan =
          ok-injective _ plan h in
        ap (λ (x : Extension). derive_policy chan (events ++ x.added)) (sym e)
        ∙ d
        ∙ ap (λ (x : Extension). ok x.policy) e

    pub plan-Plans :
        (chan : Str) (signer : KeypairFile) (clock : Clock) (action : PolicyAction) (d : ChannelDir)
        (plan : Extension)
        → plan_policy_action chan signer clock action d ≡ ok plan
        → Plans chan signer clock action d plan
    unfolding plan_policy_action
    plan-Plans chan signer clock action d plan h =
        let (_, _, h₁) = bind-eq_ok (open_log d) _ h in
        let (_, opened, h₂) = bind-eq_ok (open_lock d) _ h₁ in
        let (events, was_read, h₃) = bind-eq_ok (read_policy_history_unlocked chan d) _ h₂ in
        let (cached, _, h₄) = bind-eq_ok (current_policy chan events d) _ h₃ in
        let (adopted, adoptable, h₅) =
          bind-eq_ok (adoption chan signer clock.adopted_at events cached) _ h₄ in
        let (event, signed, h₆) =
          bind-eq_ok
            (sign_policy_event chan signer clock.signed_at (last_id (events ++ adopted)) action) _
            h₅ in
        let (policy, derived, h₇) =
          bind-eq_ok (derive_policy chan (events ++ (adopted ++ event ∷ []))) _ h₆ in
        record {
          events = events;
          opened = opened;
          was_read = was_read;
          change = record {
            adopted = adopted;
            event = event;
            adopts = adoption-Adopts chan signer clock.adopted_at events adopted cached adoptable;
            signed = signed;
            all = ap (λ (x : Extension). x.added) (sym (ok-injective _ plan h₇));
          };
          derived = plan_derives chan events (adopted ++ event ∷ []) policy plan derived h₇;
        }
