-- ===== src/Sync/Socket.antt =====
-- The two ends of a WebSocket as src/sync.rs uses them. What the peer will send is a list of frames,
-- an arbitrary one; what is sent goes behind what was sent. The peer takes a number of texts, and
-- then sending fails.
use embernet.Prelude.{ℕ, zero, suc, Bytes, List, [], ◌∷◌, ◌++◌, ◌≡◌, refl, ap, ◌∙◌, ◌⊎◌, inl, inr}
use embernet.Fallible.{
  Error, Result, ok, err, ok-injective, Action, peer_closed, socket_error, send_failed, not_text,
}

-- A text, another kind of message, or an error of the connection.
pub data Frame : Type 0 where
  text_frame : Bytes → Frame
  other_frame broken_frame : Frame

pub record Socket : Type 0 where
  pub incoming : List Frame
  pub sent : List Bytes
  pub room : ℕ

-- A text is asked for.
abbrev pub text_of : Frame → Result Bytes
text_of (text_frame t) = ok t
text_of other_frame = err not_text
text_of broken_frame = err not_text

-- `ws.next().await`, where the end of the stream and an error of the connection are errors.
abbrev pub next_frame : List Frame → Result Frame
next_frame [] = err peer_closed
next_frame (broken_frame ∷ frames) = err socket_error
next_frame (text_frame t ∷ frames) = ok (text_frame t)
next_frame (other_frame ∷ frames) = ok other_frame

abbrev pub later_frames : List Frame → List Frame
later_frames [] = []
later_frames (f ∷ frames) = frames

unfoldable pub next : Action Socket Frame
next s = (next_frame s.incoming, record s { incoming = later_frames s.incoming })

abbrev pub send_with : ℕ → Bytes → Action Socket (Unit {0})
send_with zero t s = (err send_failed, s)
send_with (suc n) t s = (ok tt, record s { sent = s.sent ++ t ∷ []; room = n })

-- `ws.send(Message::Text(..)).await`.
unfoldable pub send : Bytes → Action Socket (Unit {0})
send t s = send_with s.room t s

-- The first text among the frames, where the others are passed over, and the frames behind it.
unfoldable pub first_text : List Frame → Result Bytes
first_text [] = err peer_closed
first_text (broken_frame ∷ frames) = err socket_error
first_text (text_frame t ∷ frames) = ok t
first_text (other_frame ∷ frames) = first_text frames

unfoldable pub after_text : List Frame → List Frame
after_text [] = []
after_text (broken_frame ∷ frames) = frames
after_text (text_frame t ∷ frames) = frames
after_text (other_frame ∷ frames) = after_text frames

-- The loops of `read_chunk_batch` and `read_key_sync` up to their first text.
unfoldable pub next_text : Action Socket Bytes
next_text s = (first_text s.incoming, record s { incoming = after_text s.incoming })

-- What has been sent after an attempt to send.
pub send-cases :
    (t : Bytes) (x : Socket)
    → ((e : Error) × ((send t x).0 ≡ err e) × ((send t x).1.sent ≡ x.sent))
      ⊎ (((send t x).0 ≡ ok tt) × ((send t x).1.sent ≡ x.sent ++ t ∷ []))
unfolding send
send-cases t x = cases x.room
  where
    cases :
        (n : ℕ)
        → ((e : Error) × ((send_with n t x).0 ≡ err e) × ((send_with n t x).1.sent ≡ x.sent))
          ⊎ (((send_with n t x).0 ≡ ok tt) × ((send_with n t x).1.sent ≡ x.sent ++ t ∷ []))
    cases zero = inl (send_failed, refl, refl)
    cases (suc n) = inr (refl, refl)

-- Sending leaves what the peer will send.
pub send-incoming : (t : Bytes) (x : Socket) → (send t x).1.incoming ≡ x.incoming
unfolding send
send-incoming t x = cases x.room
  where
    cases : (n : ℕ) → (send_with n t x).1.incoming ≡ x.incoming
    cases zero = refl
    cases (suc n) = refl

-- A frame that has been taken and is a text was the first of those that the peer sends.
pub next_frame-text :
    (frames : List Frame) (f : Frame) (t : Bytes)
    → next_frame frames ≡ ok f
    → text_of f ≡ ok t
    → frames ≡ text_frame t ∷ later_frames frames
next_frame-text [] f t h e = absurd (cc h)
next_frame-text (broken_frame ∷ frames) f t h e = absurd (cc h)
next_frame-text (text_frame u ∷ frames) f t h e =
    let same : u ≡ t = ok-injective u t (ap text_of (ok-injective (text_frame u) f h) ∙ e) in
    ap (λ b. text_frame b ∷ frames) same
next_frame-text (other_frame ∷ frames) f t h e =
    absurd (cc (ap text_of (ok-injective other_frame f h) ∙ e))
