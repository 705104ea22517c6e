-- ===== src/MessageLog/Buckets.antt =====
-- The bytes of a bucket in src/store.rs and the ids that `chunks_exact(32)` cuts them into.
use embernet.Prelude.{
  ℕ, zero, suc, Bytes, true, List, [], ◌∷◌, ◌++◌, ◌≤◌, length, length-append, take_front,
  drop_front, leb, ◌≡◌, refl, arith, All, ap,
}
use embernet.MessageLog.Index.{concat, chunks_of_32, chunks_exact}

abbrev IsId : Bytes → Type 0
IsId b = length b ≡ 32

-- As many rounds as there are bytes are enough to cut a bucket into its ids.
chunks_of_32-concat :
    (n : ℕ) (ids : List Bytes)
    → All IsId ids
    → length (concat ids) ≤ n
    → chunks_of_32 n (concat ids) ≡ ids
unfolding chunks_of_32 concat
chunks_of_32-concat zero [] h le = refl
chunks_of_32-concat zero (b ∷ ids) h le = absurd (omega (arith, length-append b (concat ids), h.0))
chunks_of_32-concat (suc n) [] h le = refl
chunks_of_32-concat (suc n) (b ∷ ids) h le =
    let size = length-append b (concat ids) in
    let whole : leb 32 (length (b ++ concat ids)) ≡ true = ground (arith, size, h.0) in
    rw (whole, take_front 32 b (concat ids) h.0, drop_front 32 b (concat ids) h.0)
      (ap (◌∷◌ b) (chunks_of_32-concat n ids h.1 (omega (arith, size, h.0))))

-- What is written as ids of 32 bytes, one behind the other, is cut into the same ids.
pub chunks_exact-concat : (ids : List Bytes) → All IsId ids → chunks_exact (concat ids) ≡ ids
chunks_exact-concat ids h = chunks_of_32-concat (length (concat ids)) ids h (omega arith)
