-- ===== src/Policy/History.antt =====
-- `sign_policy_event` and `derive_policy` of src/store.rs: the chain of signed policy events.
pub mod Chain
pub mod Prefix
use embernet.Prelude.{
  ℕ, Bytes, Str, codes, true, ◌&&◌, List, [], ◌∷◌, ◌++◌, Option, none, some, ◌==◌, str_eq,
  option_eq,
}
use embernet.Fallible.{Result, ok, err, ensure, broken_policy_chain, bad_policy_id}
use embernet.Fallible.Checks.{◌>>=◌, ◌>>◌}
use embernet.Crates.{Crates, ToVec}
use embernet.Proto.{KeypairFile, sign_bytes, verify_bytes}
use embernet.Policy.{ChannelPolicy, default_policy, PolicyAction, PolicyEvent, PolicyEventPayload}
use embernet.Policy.Actions.{apply_policy_action}

abbrev pub payload_of : PolicyEvent → PolicyEventPayload
payload_of e = record {
  channel = e.channel;
  actor = e.actor;
  ts = e.ts;
  previous = e.previous;
  action = e.action;
}

abbrev pub signed_policy : Bytes → Bytes
signed_policy payload = codes "embernet-policy-v1" ++ b'\n' ∷ payload

module _ ⦃k : Crates⦄ ⦃j : ToVec PolicyEventPayload⦄ where
  abbrev pub policy_id : PolicyEvent → Str
  policy_id e = k.hex_encode (k.blake3 (j.to_vec (payload_of e)))

  unfoldable pub sign_policy_event :
      Str → KeypairFile → ℕ → Option Str → PolicyAction → Result PolicyEvent
  sign_policy_event chan signer now previous action = do
    let payload = j.to_vec (record {
      channel = chan;
      actor = signer.public_key;
      ts = now;
      previous = previous;
      action = action;
    })
    sig ← sign_bytes signer (signed_policy payload)
    ok (record {
      id = k.hex_encode (k.blake3 payload);
      channel = chan;
      actor = signer.public_key;
      ts = now;
      previous = previous;
      action = action;
      sig = sig;
    })

  -- The tests of one round of `derive_policy`.
  unfoldable pub check_policy_event : Str → Option Str → PolicyEvent → Result (Unit {0})
  check_policy_event chan previous e = do
    ensure ((e.channel == chan) && (e.previous == previous)) broken_policy_chain
    ensure (e.id == policy_id e) bad_policy_id
    verify_bytes e.actor e.sig (signed_policy (j.to_vec (payload_of e)))

  -- The loop of `derive_policy`, from the policy and the id of the event before.
  unfoldable pub replay_policy :
      Str → ChannelPolicy → Option Str → List PolicyEvent → Result ChannelPolicy
  replay_policy chan policy previous [] = ok policy
  replay_policy chan policy previous (e ∷ events) = do
    check_policy_event chan previous e
    next ← apply_policy_action policy e.actor e.action
    replay_policy chan next (some e.id) events

  unfoldable pub derive_policy : Str → List PolicyEvent → Result ChannelPolicy
  derive_policy chan events = replay_policy chan default_policy none events
