-- ===== src/Fallible/Always.antt =====
-- What an action does to its state whether it succeeds or fails.
use embernet.Fallible.{Action}

module _ {S : Type 0} (R : S → S → Type 0) where
  -- From every state.
  abbrev pub Always : {A : Type 0} → Action S A → Type 0
  Always m = (s : S) → R s (m s).1
