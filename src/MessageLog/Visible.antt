-- ===== src/MessageLog/Visible.antt =====
-- What `read_channel_tail_with_options` of src/store.rs shows.
use embernet.Prelude.{
  ℕ, zero, suc, Bytes, Str, false, ◌&&◌, List, [], ◌∷◌, length, ◌≤◌, ◌+◌, ◌==◌, str_eq, str_beq_iff,
  ◌≡◌, ap, ◌∙◌, subst, arith, All, Bool-cases, inl, inr,
}
use embernet.Fallible.{
  ok, ensure, context, corrupt_record, invalid_json, ok-injective, true_of_ensure,
}
use embernet.Fallible.Actions.{proceed-eq_ok, step-eq_ok, returned}
use embernet.Fallible.Checks.{bind-eq_ok}
use embernet.Crates.{Crates, ToVec}
use embernet.Redb.{Redb}
use embernet.Ndjson.{Json}
use embernet.Proto.{Message, Envelope, verify}
use embernet.Policy.{PolicyEvent, PolicyEventPayload}
use embernet.Moderation.Tombstones.{ModerationState}
use embernet.Moderation.{ModerationEvent, ModerationEventPayload}
use embernet.ModerationStore.{moderation_state}
use embernet.MessageLog.{pop_newline, read_exact, read_indexed_envelope}
use embernet.MessageLog.Messages.{IndexedDir, database, log_of, ensure_index}
use embernet.MessageLog.Reading.{
  Located, is_tombstoned, read_visible, reverse_onto, locate, latest_first, read_channel_tail,
  read_channel_tail_with_options,
}

module _ ⦃k : Crates⦄ ⦃v : ToVec Message⦄ ⦃j : Json Envelope⦄ (chan : Str) where
  -- A genuine message of the channel that is not tombstoned.
  pub record IsShown (moderation : ModerationState) (e : Envelope) : Type 0 where
    pub authentic : verify e ≡ ok tt
    pub in_channel : e.channel ≡ chan
    pub visible : is_tombstoned e.id moderation ≡ false

  read_indexed-IsShown :
      (log : Bytes) (id : Str) (offset size : ℕ) (e : Envelope) (moderation : ModerationState)
      → is_tombstoned id moderation ≡ false
      → read_indexed_envelope log chan id offset size ≡ ok e
      → IsShown moderation e
  unfolding read_indexed_envelope
  read_indexed-IsShown log id offset size e moderation visible h =
      let (raw, _, h₁) = bind-eq_ok (read_exact offset size log) _ h in
      let (body, _, h₂) = bind-eq_ok (context (pop_newline raw) corrupt_record) _ h₁ in
      let (env, _, h₃) = bind-eq_ok (context (j.from_slice body) invalid_json) _ h₂ in
      let (_, same, h₄) =
        bind-eq_ok (ensure ((env.id == id) && (env.channel == chan)) corrupt_record) _ h₃ in
      let (_, authentic, h₅) = bind-eq_ok (verify env) _ h₄ in
      let both = true_of_ensure ((env.id == id) && (env.channel == chan)) corrupt_record same in
      let id_same : env.id ≡ id = (str_beq_iff env.id id).0 (ground arith) in
      subst (IsShown moderation) (ok-injective env e h₅) (record {
        authentic = authentic;
        in_channel = (str_beq_iff env.channel chan).0 (ground arith);
        visible = ap (λ x. is_tombstoned x moderation) id_same ∙ visible;
      })

  visible_parts :
      (log : Bytes) (moderation : ModerationState) (n : ℕ) (x : Located) (l : List Located)
      (out : List Envelope)
      → is_tombstoned x.id moderation ≡ false
      → read_visible log chan false moderation (suc n) (x ∷ l) ≡ ok out
      → (env : Envelope) × ((more : List Envelope) × (read_indexed_envelope log chan x.id x.offset
              x.length
            ≡ ok env)
          × (read_visible log chan false moderation n l ≡ ok more)
          × (env ∷ more ≡ out))
  unfolding read_visible
  visible_parts log moderation n x l out visible h =
      let (env, found, h₁) =
        bind-eq_ok (read_indexed_envelope log chan x.id x.offset x.length) _ (rw visible at h) in
      let (more, rest, h₂) = bind-eq_ok (read_visible log chan false moderation n l) _ h₁ in
      (env, (more, found, rest, ok-injective (env ∷ more) out h₂))

  -- At most `n` messages, each of which may be shown.
  abbrev pub IsView : ModerationState → ℕ → List Envelope → Type 0
  IsView moderation n out = (length out ≤ n) × All (IsShown moderation) out

  read_visible-IsView :
      (log : Bytes) (moderation : ModerationState) (n : ℕ) (l : List Located) (out : List Envelope)
      → read_visible log chan false moderation n l ≡ ok out
      → IsView moderation n out
  read_visible-IsView log moderation zero l out h =
      subst (IsView moderation 0)
        (ok-injective {A = List Envelope} [] out (unfold read_visible in h)) (omega arith, tt)
  read_visible-IsView log moderation (suc n) [] out h =
      subst (IsView moderation (suc n))
        (ok-injective {A = List Envelope} [] out (unfold read_visible in h)) (omega arith, tt)
  read_visible-IsView log moderation (suc n) (x ∷ l) out h =
      elim (Bool-cases (is_tombstoned x.id moderation)) [
        | inl hidden ↦
            read_visible-IsView log moderation (suc n) l out (unfold read_visible in rw hidden at h)
        | inr visible ↦
            let (env, (more, found, rest, e)) = visible_parts log moderation n x l out visible h in
            let (short, shown) = read_visible-IsView log moderation n l more rest in
            subst (IsView moderation (suc n)) e (
              omega (arith, short),
              (read_indexed-IsShown log x.id x.offset x.length env moderation visible found, shown),
            )
      ]

All-reverse_onto :
    (P : Envelope → Type 0) (out l : List Envelope)
    → All P out
    → All P l
    → All P (reverse_onto out l)
unfolding reverse_onto
All-reverse_onto P out [] po pl = po
All-reverse_onto P out (e ∷ l) po pl = All-reverse_onto P (e ∷ out) l (pl.0, po) pl.1

length-reverse_onto : (out l : List Envelope) → length (reverse_onto out l) ≡ length out + length l
unfolding reverse_onto
length-reverse_onto out [] = omega arith
length-reverse_onto out (e ∷ l) = omega (arith, length-reverse_onto (e ∷ out) l)

module _ ⦃r : Redb⦄ ⦃k : Crates⦄ ⦃v : ToVec Message⦄ ⦃j : Json Envelope⦄
    ⦃m : ToVec ModerationEventPayload⦄ ⦃p : ToVec PolicyEventPayload⦄
    ⦃policy_json : Json PolicyEvent⦄ ⦃moderation_json : Json ModerationEvent⦄ (chan : Str) where
  -- The tail of a channel holds at most `n + 1` messages where `n + 1` are asked for. Every one of
  -- them verifies, belongs to the channel, and is not tombstoned in the channel's moderation state.
  pub read_channel_tail-IsView :
      (n : ℕ) (s t : IndexedDir) (out : List Envelope)
      → read_channel_tail chan (suc n) s ≡ (ok out, t)
      → (moderation : ModerationState) × (moderation_state chan s.dir ≡ ok moderation)
        × IsView chan moderation (suc n) out
  unfolding read_channel_tail read_channel_tail_with_options
  read_channel_tail-IsView n s t out h =
      let (moderation, found, h₁) = proceed-eq_ok _ (moderation_state chan s.dir) s t out h in
      let (log, _, h₂) = proceed-eq_ok _ (log_of s) s t out h₁ in
      let (_, (u, _, h₃)) = step-eq_ok ensure_index _ s t out h₂ in
      let (located, _, h₄) =
        proceed-eq_ok _ (locate (r.messages.entries (database u).messages)) u t out h₃ in
      let (envelopes, shown, h₅) =
        proceed-eq_ok _ (read_visible log chan false moderation (suc n) (latest_first located)) u t
          out h₄ in
      let (short, all) =
        read_visible-IsView chan log moderation (suc n) (latest_first located) envelopes shown in
      (
        moderation,
        found,
        returned (λ _ o. IsView chan moderation (suc n) o) h₅
            (
              omega (arith, short, length-reverse_onto [] envelopes),
              All-reverse_onto (IsShown chan moderation) [] envelopes tt all,
            ),
      )
