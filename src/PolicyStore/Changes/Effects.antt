-- ===== src/PolicyStore/Changes/Effects.antt =====
-- What `append_policy_action` of src/store.rs leaves behind, on success and on failure.
use embernet.Prelude.{Bytes, Str, List, [], ◌++◌, Option, none, some, ◌≡◌, refl, sym, ◌∙◌, ap}
use embernet.Fallible.{ok, ok-ne-err, ok-injective}
use embernet.Fallible.Checks.{bind-eq_ok}
use embernet.Fallible.Actions.{IsAtomicAt, proceed-IsAtomicAt}
use embernet.Crates.{Crates, ToVec}
use embernet.Ndjson.{Json, LineLaws, read_ndjson, encode_lines}
use embernet.Ndjson.Laws.{EndsClean, read-encode, read-append}
use embernet.Proto.{KeypairFile}
use embernet.Channel.{ChannelDir, open_lock, append_file}
use embernet.Policy.{ChannelPolicy, default_policy, PolicyAction, PolicyEvent, PolicyEventPayload}
use embernet.Policy.History.{replay_policy, derive_policy}
use embernet.PolicyStore.{read_history, read_policy_history_unlocked, read_channel_policy}
use embernet.PolicyStore.Changes.Plan.{Clock, plan_policy_action, IsChange}
use embernet.PolicyStore.Changes.{append_policy_action}

-- A file that is not there or ends in a newline.
abbrev pub FileEndsClean : Option Bytes → Type 0
FileEndsClean none = Unit
FileEndsClean (some bytes) = EndsClean bytes

module _ ⦃k : Crates⦄ ⦃j : ToVec PolicyEventPayload⦄ where
  pub derive-nil : (chan : Str) → derive_policy chan [] ≡ ok default_policy
  unfolding derive_policy replay_policy
  derive-nil chan = refl

module _ ⦃k : Crates⦄ ⦃j : ToVec PolicyEventPayload⦄ ⦃event_json : Json PolicyEvent⦄ where
  -- A history that is read derives a policy.
  pub read_history-derives :
      (chan : Str) (file : Option Bytes) (events : List PolicyEvent)
      → read_history chan file ≡ ok events
      → (p : ChannelPolicy) × (derive_policy chan events ≡ ok p)
  unfolding read_history
  read_history-derives chan none events h =
      (default_policy, rw (← ok-injective [] events h) (derive-nil chan))
  read_history-derives chan (some bytes) events h =
      let (xs, r, h') = bind-eq_ok (read_ndjson bytes) _ h in
      let (p, d, h'') = bind-eq_ok (derive_policy chan xs) _ h' in
      (p, ap (derive_policy chan) (sym (ok-injective xs events h'')) ∙ d)

  pub read_history_of_ndjson :
      (chan : Str) (bytes : Bytes) (events : List PolicyEvent) (p : ChannelPolicy)
      → read_ndjson bytes ≡ ok events
      → derive_policy chan events ≡ ok p
      → read_history chan (some bytes) ≡ ok events
  unfolding read_history
  read_history_of_ndjson chan bytes events p r d = rw (r, d)

  -- Events that are appended to a clean file are read behind what was there.
  pub read_history-append :
      (chan : Str) (file : Option Bytes) (events more : List PolicyEvent) (p : ChannelPolicy)
      → LineLaws event_json
      → FileEndsClean file
      → read_history chan file ≡ ok events
      → derive_policy chan (events ++ more) ≡ ok p
      → read_history chan (append_file file (encode_lines more)) ≡ ok (events ++ more)
  unfolding read_history
  read_history-append chan none events more p laws clean h d =
      let e = ok-injective [] events h in
      read_history_of_ndjson chan _ (events ++ more) p (rw (← e) (read-encode laws more)) d
  read_history-append chan (some bytes) events more p laws clean h d =
      let (xs, r, h') = bind-eq_ok (read_ndjson bytes) _ h in
      let (q, _, h'') = bind-eq_ok (derive_policy chan xs) _ h' in
      read_history_of_ndjson chan _ (events ++ more) p
        (read-append laws bytes events more clean (r ∙ ap ok (ok-injective xs events h''))) d

module _ ⦃k : Crates⦄ ⦃j : ToVec PolicyEventPayload⦄ ⦃event_json : Json PolicyEvent⦄
    ⦃cache_json : Json ChannelPolicy⦄ where
  pub read_channel_policy_of_history :
      (chan : Str) (d : ChannelDir) (file : Option Bytes) (new : Bytes) (events : List PolicyEvent)
      (p : ChannelPolicy)
      → d.policy_log ≡ append_file file new
      → open_lock d ≡ ok tt
      → read_policy_history_unlocked chan d ≡ ok events
      → derive_policy chan events ≡ ok p
      → read_channel_policy chan d ≡ ok p
  unfolding read_channel_policy
  read_channel_policy_of_history chan d none new events p f o r e = rw (f, o, ← f, r) e
  read_channel_policy_of_history chan d (some old) new events p f o r e = rw (f, o, ← f, r) e

module _ ⦃k : Crates⦄ ⦃j : ToVec PolicyEventPayload⦄ ⦃event_json : Json PolicyEvent⦄
    ⦃cache_json : Json ChannelPolicy⦄ (chan : Str) (signer : KeypairFile) (clock : Clock) where
  -- A local change that fails writes nothing.
  pub append_policy_action-IsAtomicAt :
      (action : PolicyAction) (d : ChannelDir)
      → IsAtomicAt (append_policy_action chan signer clock action) d
  unfolding append_policy_action
  append_policy_action-IsAtomicAt action d =
      proceed-IsAtomicAt _ (plan_policy_action chan signer clock action d) d
        λ plan _ e h. absurd (ok-ne-err plan.policy e h)

  abbrev pub extended : ChannelDir → List PolicyEvent → ChannelPolicy → ChannelDir
  extended d added p = record d {
    policy_log = append_file d.policy_log (encode_lines added);
    policy_cache = some (cache_json.to_vec p);
  }

  -- `d'` is `d` with the events of the change behind its history, and `p` is the policy that the new
  -- history derives, that the channel now has and that the cache holds; no other file has changed.
  pub record IsExtension (action : PolicyAction) (d d' : ChannelDir) (p : ChannelPolicy)
      : Type 0 where
    pub events : List PolicyEvent
    pub added : List PolicyEvent
    pub change : IsChange chan signer clock action events added
    pub files : d' ≡ extended d added p
    pub before : read_policy_history_unlocked chan d ≡ ok events
    pub after : read_policy_history_unlocked chan d' ≡ ok (events ++ added)
    pub derived : derive_policy chan (events ++ added) ≡ ok p
    pub current : read_channel_policy chan d' ≡ ok p
