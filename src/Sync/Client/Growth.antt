-- ===== src/Sync/Client/Growth.antt =====
-- Whatever a peer sends to the asking side of src/sync.rs, it cannot shorten or rewrite the policy
-- history of the channel.
use embernet.Prelude.{
  Bytes, Str, List, [], ◌++◌, Option, none, some, ◌≡◌, sym, ap, ◌∙◌, subst, length, drop, ltb,
  str_eq, Bool-cases, inl, inr,
}
use mathlib.Core.List.{append-nil, append_assoc}
use embernet.Fallible.{Result, Result-cases, ok, ok-injective}
use embernet.Fallible.Actions.{proceed-either}
use embernet.Fallible.Always.{Always}
use embernet.Crates.{Crates, ToVec, HashLaws, VecLaws}
use embernet.Ndjson.{Json, LineLaws, encode_lines}
use embernet.Ndjson.Laws.{EndsClean-append, EndsClean-encode}
use embernet.Channel.{ChannelDir, append_file}
use embernet.Policy.{ChannelPolicy, PolicyEvent, PolicyEventPayload}
use embernet.PolicyStore.{read_history}
use embernet.PolicyStore.Changes.Effects.{FileEndsClean}
use embernet.PolicyStore.Remote.Plan.{plan_remote}
use embernet.PolicyStore.Remote.{append_remote_policy_history}
use embernet.PolicyStore.Remote.Effects.{
  append_remote_policy_history-IsMerged, append_remote_policy_history-IsAtomicAt,
}
use embernet.Sync.Client.Untouched.{SamePolicies}

module _ ⦃k : Crates⦄ ⦃p : ToVec PolicyEventPayload⦄ ⦃policy_json : Json PolicyEvent⦄
    (chan : Str) where
  -- The file goes on ending in a newline, and the history that it holds goes on being read, with
  -- nothing but events behind it.
  pub record Grows (d d' : ChannelDir) : Type 0 where
    pub clean : FileEndsClean d.policy_log → FileEndsClean d'.policy_log
    pub longer :
        (events : List PolicyEvent)
        → FileEndsClean d.policy_log
        → read_history chan d.policy_log ≡ ok events
        → (more : List PolicyEvent) × (read_history chan d'.policy_log ≡ ok (events ++ more))

  pub same-Grows : (d d' : ChannelDir) → SamePolicies d d' → Grows d d'
  same-Grows d d' e = record {
    clean = subst FileEndsClean (sym e);
    longer = λ events _ h. ([], rw (e, append-nil) h);
  }

  pub chain-Grows : (d e f : ChannelDir) → Grows d e → Grows e f → Grows d f
  chain-Grows d e f a b = record {
    clean = λ c. b.clean (a.clean c);
    longer = λ events c h.
        let (more, h₁) = a.longer events c h in
        let (most, h₂) = b.longer (events ++ more) (a.clean c) h₁ in
        (more ++ most, rw (← append_assoc events more most) h₂);
  }

  module _ ⦃cache_json : Json ChannelPolicy⦄ (hash : HashLaws k) (vec : VecLaws p)
      (laws : LineLaws policy_json) where
    clean-append :
        (file : Option Bytes) (events : List PolicyEvent)
        → FileEndsClean file
        → FileEndsClean (append_file file (encode_lines events))
    clean-append none events c = EndsClean-encode events
    clean-append (some bytes) events c =
        EndsClean-append bytes (encode_lines events) c (EndsClean-encode events)

    append_remote-clean :
        (remote : List PolicyEvent) (d : ChannelDir)
        → FileEndsClean d.policy_log
        → FileEndsClean (append_remote_policy_history chan remote d).1.policy_log
    unfolding append_remote_policy_history
    append_remote-clean remote d c =
        let P : ChannelDir → Type 0 = λ e. FileEndsClean e.policy_log in
        proceed-either P _ (plan_remote chan remote d) d (λ _ _. c)
          λ plan _. elim (Bool-cases (ltb (length plan.local) (length remote))) [
            | inl b ↦ rw b (clean-append d.policy_log (drop (length plan.local) remote) c)
            | inr b ↦ rw b c
          ]

    -- A remote history that is taken or refused.
    pub append_remote-Grows :
        (remote : List PolicyEvent) → Always Grows (append_remote_policy_history chan remote)
    append_remote-Grows remote d =
        let t = append_remote_policy_history chan remote d in
        record {
          clean = append_remote-clean remote d;
          longer = λ events c h. elim (Result-cases t.0) [
            | inl (q, done) ↦
                let m =
                  append_remote_policy_history-IsMerged chan hash vec laws remote d t.1 q c
                    (ap (λ (x : Result ChannelPolicy). (x, t.1)) done) in
                let same = ok-injective m.local events (sym m.before ∙ h) in
                (
                  drop (length m.local) remote,
                  m.after ∙ ap (λ l. ok (l ++ drop (length m.local) remote)) same,
                )
            | inr (e, failed) ↦ (
              [],
              rw (append_remote_policy_history-IsAtomicAt chan remote d e failed, append-nil) h,
            )
          ];
        }
