-- ===== src/Discovery/Disclosure.antt =====
-- To whom `/status` of src/server.rs names a channel.
use embernet.Prelude.{
  ℕ, Str, Bool, true, ◌&&◌, List, [], ◌∷◌, Option, ◌==◌, str_eq, str_beq_iff, contains, ◌≡◌, refl,
  sym, ap, ap₂, ◌∙◌, subst, Bool-cases, inl, inr, arith, if◌then◌else◌,
}
use embernet.Fallible.{Result, Result-cases, ok, ensure, ok-injective, invalid_channel_name}
use embernet.Fallible.Checks.{bind-eq_ok}
use embernet.Crates.{Crates, ToVec}
use embernet.Ndjson.{Json}
use embernet.Util.{valid_channel}
use embernet.Channel.{ChannelDir}
use embernet.Policy.{ChannelPolicy, PolicyEvent, PolicyEventPayload}
use embernet.PolicyStore.{read_channel_policy}
use embernet.Challenges.{AppState, Headers, discovery_requester}
use embernet.Discovery.{
  Entries, list_channels, is_readable, keep_readable, list_readable_channels, or_nothing,
  StatusReply, unauthorized, listing, status,
}

-- One more name, kept or not.
contains-kept :
    (x name : Str) (names more : List Str) (b c : Bool)
    → contains name more ≡ (contains name names && c)
    → ((x == name) ≡ true → b ≡ c)
    → contains name (if b then x ∷ more else more) ≡ (contains name (x ∷ names) && c)
unfolding contains
contains-kept x name names more b c later agree = elim (Bool-cases (x == name)) [
  | inl e ↦ ground (arith, e, agree e)
  | inr e ↦ ground (arith, e)
]

abbrev named : StatusReply → List Str
named (unauthorized e) = []
named (listing names) = names

module _ ⦃k : Crates⦄ ⦃p : ToVec PolicyEventPayload⦄ ⦃policy_json : Json PolicyEvent⦄
    ⦃cache_json : Json ChannelPolicy⦄ (channels : Str → ChannelDir) where
  contains-keep_readable :
      (key : Option Str) (names kept : List Str) (name : Str) (policy : ChannelPolicy)
      → keep_readable channels key names ≡ ok kept
      → read_channel_policy name (channels name) ≡ ok policy
      → contains name kept ≡ (contains name names && is_readable key policy)
  unfolding keep_readable contains
  contains-keep_readable key [] kept name policy h read = rw (← ok-injective [] kept h) refl
  contains-keep_readable key (x ∷ names) kept name policy h read =
      let (_, _, h₁) = bind-eq_ok (ensure (valid_channel x) invalid_channel_name) _ h in
      let (q, read', h₂) = bind-eq_ok (read_channel_policy x (channels x)) _ h₁ in
      let (more, rest, h₃) = bind-eq_ok (keep_readable channels key names) _ h₂ in
      let later = contains-keep_readable key names more name policy rest read in
      let same = ok-injective (if is_readable key q then x ∷ more else more) kept h₃ in
      let agree : (x == name) ≡ true → is_readable key q ≡ is_readable key policy = λ b.
        let there =
          subst (λ n. read_channel_policy n (channels n) ≡ ok q) ((str_beq_iff x name).0 b) read' in
        ap (is_readable key) (ok-injective q policy (sym there ∙ read)) in
      rw (← ok-injective (if is_readable key q then x ∷ more else more) kept h₃)
        (contains-kept x name names more (is_readable key q) (is_readable key policy) later agree)

  -- What `list_readable_channels` gives: of the channels that there are, those that may be read.
  contains-list_readable_channels :
      (root : Option Entries) (key : Option Str) (kept : List Str) (name : Str)
      (policy : ChannelPolicy)
      → list_readable_channels channels root key ≡ ok kept
      → read_channel_policy name (channels name) ≡ ok policy
      → contains name kept ≡ (contains name (list_channels root) && is_readable key policy)
  unfolding list_readable_channels
  contains-list_readable_channels root key kept name policy h read =
      contains-keep_readable key (list_channels root) kept name policy h read

  keep_readable-reads :
      (key : Option Str) (names kept : List Str) (name : Str)
      → keep_readable channels key names ≡ ok kept
      → contains name names ≡ true
      → (policy : ChannelPolicy) × (read_channel_policy name (channels name) ≡ ok policy)
  unfolding keep_readable contains
  keep_readable-reads key [] kept name h there = cc
  keep_readable-reads key (x ∷ names) kept name h there =
      let (_, _, h₁) = bind-eq_ok (ensure (valid_channel x) invalid_channel_name) _ h in
      let (q, read, h₂) = bind-eq_ok (read_channel_policy x (channels x)) _ h₁ in
      let (more, rest, _) = bind-eq_ok (keep_readable channels key names) _ h₂ in
      elim (Bool-cases (x == name)) [
        | inl b ↦ (
          q,
          subst (λ n. read_channel_policy n (channels n) ≡ ok q) ((str_beq_iff x name).0 b) read,
        )
        | inr b ↦ keep_readable-reads key names more name rest (rw b at there)
      ]

  keep_readable-kept :
      (key : Option Str) (names kept : List Str) (name : Str)
      → keep_readable channels key names ≡ ok kept
      → contains name kept ≡ true
      → contains name names ≡ true
  unfolding keep_readable contains
  keep_readable-kept key [] kept name h there = rw (← ok-injective [] kept h) at there
  keep_readable-kept key (x ∷ names) kept name h there =
      let (_, _, h₁) = bind-eq_ok (ensure (valid_channel x) invalid_channel_name) _ h in
      let (q, _, h₂) = bind-eq_ok (read_channel_policy x (channels x)) _ h₁ in
      let (more, rest, h₃) = bind-eq_ok (keep_readable channels key names) _ h₂ in
      let there' =
        rw (← ok-injective (if is_readable key q then x ∷ more else more) kept h₃) at there in
      elim (Bool-cases (x == name)) [
        | inl b ↦ rw b refl
        | inr b ↦ rw b (
            keep_readable-kept key names more name rest (elim (Bool-cases (is_readable key q)) [
              | inl c ↦ rw (c, b) at there'
              | inr c ↦ rw c at there'
            ]))
      ]

  -- A channel that is in the list is there, and its policy lets the requester read.
  pub record IsDisclosed (root : Option Entries) (requester : Option Str) (name : Str)
      : Type 0 where
    pub policy : ChannelPolicy
    pub listed : contains name (list_channels root) ≡ true
    pub in_force : read_channel_policy name (channels name) ≡ ok policy
    pub readable : is_readable requester policy ≡ true

  list_readable_channels-IsDisclosed :
      (root : Option Entries) (key : Option Str) (name : Str)
      → contains name (or_nothing (list_readable_channels channels root key)) ≡ true
      → IsDisclosed root key name
  unfolding list_readable_channels contains
  list_readable_channels-IsDisclosed root key name there =
      elim (Result-cases (list_readable_channels channels root key)) [
        | inr (e, h) ↦ absurd (cc (rw h at there))
        | inl (kept, h) ↦
            let there' = rw h at there in
            let listed = keep_readable-kept key (list_channels root) kept name h there' in
            let (policy, read) = keep_readable-reads key (list_channels root) kept name h listed in
            let exact = contains-list_readable_channels root key kept name policy h read in
            record {
              policy = policy;
              listed = listed;
              in_force = read;
              readable = ground (arith, exact, there', listed);
            }
      ]

  -- Every channel that a reply of `/status` names is one that the node has, and its policy lets the
  -- requester read that `discovery_requester` found; where the request names nobody, the channel is
  -- public.
  pub status-IsDisclosed :
      (root : Option Entries) (h : Headers) (now now' : ℕ) (s t : AppState) (names : List Str)
      (name : Str)
      → status root channels h now now' s ≡ (listing names, t)
      → contains name names ≡ true
      → (requester : Option Str) × (discovery_requester h now now' s ≡ (ok requester, t))
        × IsDisclosed root requester name
  unfolding status contains
  status-IsDisclosed root h now now' s t names name e there =
      elim (Result-cases (discovery_requester h now now' s).0) [
        | inr (x, f) ↦
            let none_named = ap (λ (q : StatusReply × AppState). named q.0) (rw f at e) in
            absurd (cc (rw (← none_named) at there))
        | inl (requester, f) ↦
            let named_so = ap (λ (q : StatusReply × AppState). named q.0) (rw f at e) in
            let answered = discovery_requester h now now' s in
            (
              requester,
              ap₂ (λ (a : Result (Option Str)) (u : AppState). (a, u)) f
                  (ap (λ (q : StatusReply × AppState). q.1) e),
              list_readable_channels-IsDisclosed root requester name (rw (← named_so) at there),
            )
      ]
