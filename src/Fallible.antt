-- ===== src/Fallible.antt =====
-- `anyhow::Result` as a type of results with one error for each cause that the program names, and
-- the actions that may change a state before they fail. The context strings that are put around a
-- cause are left out.
pub mod Checks
pub mod Actions
pub mod Always
use embernet.Prelude.{
  ℕ, Bool, true, false, List, [], ◌∷◌, Option, none, some, ◌≡◌, refl, ap, arith, ◌⊎◌, inl, inr,
}

pub data Error : Type 0 where
  bad_hex bad_base64 bad_public_key bad_signature bad_verifying_key signature_failed : Error
  bad_key_bytes bad_keypair timestamp_mismatch id_mismatch : Error
  invalid_channel_name wrong_channel missing_directory missing_log : Error
  not_a_reader not_a_writer : Error
  channel_not_restricted owner_manages_moderators owner_or_moderator_manages_writers : Error
  owner_or_moderator_manages_readers owner_transfers owner_sets_visibility : Error
  invalid_restrict invalid_adoption owner_adopts : Error
  broken_policy_chain bad_policy_id broken_moderation_chain bad_moderation_id : Error
  unknown_policy_head not_a_moderator policy_required unknown_message : Error
  invalid_json unsupported_policy_version restricted_without_owner private_but_open : Error
  missing_key bad_channel_key : Error
  truncated_record not_indexed bad_location corrupt_record short_read : Error
  bad_url bad_scheme unconverted_url status_too_large unhealthy_peer too_many_channels : Error
  bad_content_length missing_content_length message_too_large outside_datadir unknown_channel :
      Error
  unknown_tool : Error
  missing_host bad_peer_version conflicting_pins already_pinned : Error
  unpinned_peer peer_not_inserted : Error
  stale_signature unknown_challenge expired_challenge too_many_challenges missing_header : Error
  bad_timestamp not_a_challenge bad_expiry bad_nonce identity_mismatch : Error
  bad_message_id empty_message_id missing_chunk_hash bad_chunk : Error
  not_an_extension empty_conflict missing_conflict wrong_conflict_head : Error
  already_encrypted encryption_failed bad_message_nonce decryption_failed not_utf8 : Error
  non_contributory wrap_failed unwrap_failed wrong_recipient bad_offer_nonce : Error
  bad_unwrapped_key wrong_key_id : Error
  peer_closed socket_error send_failed not_text unexpected_type : Error
  unsupported_sync_version too_many_policy_events too_many_moderation_events : Error
  bad_inventory requester_not_member policy_fork moderation_fork server_not_member : Error
  wrong_key_identity sender_not_member too_many_offers wrong_offer_sender : Error
  keys_for_public bad_chunk_summary unexpected_inventory foreign_id too_many_ids : Error
  unrequested foreign_envelope peer_error unexpected_status incomplete timed_out : Error

-- What a function that may fail returns.
pub data Result {ℓ} (A : Type ℓ) : Type ℓ where
  err : Error → Result A
  ok : A → Result A

-- `bail!` unless the test holds.
abbrev pub ensure : Bool → Error → Result (Unit {0})
ensure true e = ok tt
ensure false e = err e

-- `Option::context`.
abbrev pub context {ℓ} : {A : Type ℓ} → Option A → Error → Result A
context none e = err e
context (some a) e = ok a

-- An action on a state: what it wrote before a failure stays written.
abbrev pub Action {ℓ} : Type ℓ → Type ℓ → Type ℓ
Action S A = S → Result A × S

module _ {ℓ} {S A : Type ℓ} where
  -- A read of the state, which may fail.
  abbrev pub reads : (S → Result A) → Action S A
  reads f s = (f s, s)

  abbrev pub lift : Result A → Action S A
  lift r s = (r, s)

  abbrev pub pure : A → Action S A
  pure a s = (ok a, s)

  abbrev pub fail : Error → Action S A
  fail e s = (err e, s)

module _ {ℓ} {S : Type ℓ} where
  abbrev pub writes : (S → S) → Action S (Unit {ℓ})
  writes f s = (ok tt, f s)

module _ {ℓ} {A : Type ℓ} where
  abbrev pub Succeeds : Result A → Type ℓ
  Succeeds r = (a : A) × (r ≡ ok a)

  abbrev pub Fails : Result A → Type ℓ
  Fails r = (e : Error) × (r ≡ err e)

  -- A result is one of the two.
  pub Result-cases : (r : Result A) → Succeeds r ⊎ Fails r
  Result-cases (err e) = inr (e, refl)
  Result-cases (ok a) = inl (a, refl)

pub ok-injective {ℓ} : {A : Type ℓ} (a b : A) → ok a ≡ ok b → a ≡ b
ok-injective a b h = cc h

pub ok-ne-err {ℓ} : {A : Type ℓ} (a : A) (e : Error) → ok a ≡ err e → ⊥
ok-ne-err a e h = cc h

pub true_of_ensure : (b : Bool) (e : Error) → ensure b e ≡ ok tt → b ≡ true
true_of_ensure b e h = ground arith

-- An optional value that was asked for is there.
pub context-eq_ok {ℓ} :
    {A : Type ℓ} (o : Option A) (e : Error) (a : A) → context o e ≡ ok a → o ≡ some a
context-eq_ok none e a h = cc
context-eq_ok (some b) e a h = ap some (ok-injective b a h)
