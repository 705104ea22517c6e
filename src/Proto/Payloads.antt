-- ===== src/Proto/Payloads.antt =====
-- The text that an author signs in src/proto.rs binds the channel to the message.
use embernet.Prelude.{Bytes, Str, true, [], ◌∷◌, ◌≡◌, refl, ap₂, arith, All, ◌≢◌}
use embernet.Util.{allowed, all_allowed, valid_channel}
use embernet.Proto.{signed_payload}

abbrev HasNoNewline : Str → Type 0
HasNoNewline = All (λ c. c ≢ b'\n')

valid_channel-HasNoNewline : (s : Str) → all_allowed s ≡ true → HasNoNewline s
unfolding all_allowed allowed
valid_channel-HasNoNewline [] h = tt
valid_channel-HasNoNewline (c ∷ s) h =
    ((λ e. ground arith), valid_channel-HasNoNewline s (ground arith))

split_at_newline :
    (a b : Str) (m n : Bytes)
    → HasNoNewline a
    → HasNoNewline b
    → signed_payload a m ≡ signed_payload b n
    → (a ≡ b) × (m ≡ n)
split_at_newline [] [] m n ha hb e = (refl, ground (arith, e))
split_at_newline [] (d ∷ b) m n ha hb e = absurd (hb.0 (ground (arith, e)))
split_at_newline (c ∷ a) [] m n ha hb e = absurd (ha.0 (ground (arith, e)))
split_at_newline (c ∷ a) (d ∷ b) m n ha hb e =
    let rest = split_at_newline a b m n ha.1 hb.1 (ground (arith, e)) in
    (ap₂ ◌∷◌ (ground (arith, e)) rest.0, rest.1)

-- For valid channel names the signed text determines both the channel and the message bytes, so a
-- signature made for one channel is over another text than any message of another channel.
pub signed_payload-injective :
    (a b : Str) (m n : Bytes)
    → valid_channel a ≡ true
    → valid_channel b ≡ true
    → signed_payload a m ≡ signed_payload b n
    → (a ≡ b) × (m ≡ n)
unfolding valid_channel
signed_payload-injective a b m n ha hb e =
    split_at_newline a b m n (valid_channel-HasNoNewline a (ground arith))
      (valid_channel-HasNoNewline b (ground arith)) e
