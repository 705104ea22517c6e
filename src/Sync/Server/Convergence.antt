-- ===== src/Sync/Server/Convergence.antt =====
-- What the two sides of src/sync.rs have to exchange, and that the serving side then lacks nothing.
use embernet.Prelude.{
  ◌↔◌, ◌≢◌, ℕ, Str, Bool, true, false, ◌&&◌, ◌||◌, not, List, [], ◌∷◌, ◌++◌, none, ◌≡◌, refl, ◌∙◌,
  subst, length, leb, ◌==◌, nat_eq, str_eq, option_eq, option_beq_iff, nat_beq_iff, contains,
  Bool-cases, inl, inr, arith, if◌then◌else◌,
}
use embernet.Fallible.{ok, ensure, ok-injective, too_many_ids}
use embernet.Fallible.Checks.{bind-eq_ok}
use embernet.MessageLog.Reading.{ChunkSummary}
use embernet.Sync.Sets.{
  distinct, difference, IsDistinct, contains-distinct, distinct-IsDistinct, contains-difference,
  contains-append, insert_index, sort_indices,
}
use embernet.Sync.{max_differing_ids}
use embernet.Sync.Server.Inventory.{Inventory, hash_of, indices, where_different, differing}
use embernet.Sync.Server.Transfer.{all_ids, Transfer, plan_transfer}

contains-insert_index :
    (i j : ℕ) (l : List ℕ) → contains i (insert_index j l) ≡ (if j == i then true else contains i l)
unfolding contains insert_index
contains-insert_index i j [] = refl
contains-insert_index i j (x ∷ l) = ground (arith, contains-insert_index i j l)

contains-sort_indices : (i : ℕ) (l : List ℕ) → contains i (sort_indices l) ≡ contains i l
unfolding contains sort_indices
contains-sort_indices i [] = refl
contains-sort_indices i (x ∷ l) =
    ground (arith, contains-insert_index i x (sort_indices l), contains-sort_indices i l)

abbrev differs : List ChunkSummary → List ChunkSummary → ℕ → Bool
differs server client i = not (hash_of i server == hash_of i client)

contains-where_different :
    (i : ℕ) (server client : List ChunkSummary) (l : List ℕ)
    → contains i (where_different server client l) ≡ (contains i l && differs server client i)
unfolding contains where_different
contains-where_different i server client [] = refl
contains-where_different i server client (x ∷ l) = elim (Bool-cases (x == i)) [
  | inl b ↦
      let e = (nat_beq_iff x i).0 b in ground (arith, contains-where_different i server client l, e)
  | inr b ↦ ground (arith, contains-where_different i server client l, b)
]

hash_of_absent :
    (i : ℕ) (l : List ChunkSummary) → contains i (indices l) ≡ false → hash_of i l ≡ none
unfolding contains hash_of
hash_of_absent i [] h = refl
hash_of_absent i (x ∷ l) h = ground (arith, hash_of_absent i l)

differs_absent :
    (i : ℕ) (server client : List ChunkSummary)
    → contains i (indices server) ≡ false
    → contains i (indices client) ≡ false
    → differs server client i ≡ false
differs_absent i server client a b = rw (hash_of_absent i server a, hash_of_absent i client b) refl

-- A bucket is compared message by message exactly where the two sides give different hashes for it, or
-- only one of them gives a hash; in particular nothing is compared with a peer of equal hashes.
pub differing_iff :
    (i : ℕ) (server client : List ChunkSummary)
    → (contains i (differing server client) ≡ true) ↔ (hash_of i server ≢ hash_of i client)
unfolding differing
differing_iff i server client =
    let all = distinct (indices server ++ indices client) in
    let found =
      contains-sort_indices i (where_different server client all)
      ∙ contains-where_different i server client all in
    let named =
      contains-distinct i (indices server ++ indices client)
      ∙ contains-append i (indices server) (indices client) in
    let exact = option_beq_iff (hash_of i server) (hash_of i client) in
    (
      λ c e. ground (arith, c, found, exact.1 e),
      λ ne. elim (Bool-cases (differs server client i)) [
        | inl b ↦ elim (Bool-cases (contains i all)) [
          | inl c ↦ found ∙ rw (b, c) refl
          | inr c ↦ ground (arith, named, c, b, differs_absent i server client)
        ]
        | inr b ↦ ground (arith, b, exact.0, ne)
      ],
    )

-- The order in which a set is gone through: the same members, each once.
pub record IterationLaws (iteration : List Str → List Str) : Type 0 where
  pub same : (a : Str) (l : List Str) → contains a (iteration l) ≡ contains a l
  pub once : (l : List Str) → IsDistinct l → IsDistinct (iteration l)

difference-IsDistinct : (xs ys : List Str) → IsDistinct xs → IsDistinct (difference xs ys)
unfolding difference
difference-IsDistinct [] ys d = tt
difference-IsDistinct (x ∷ xs) ys d =
    ground (arith, contains-difference x xs ys, difference-IsDistinct xs ys d.1)

-- What one side has and the other lacks, in whatever order the set is gone through.
contains-iteration :
    (iteration : List Str → List Str) (xs ys : List Str) (a : Str)
    → IterationLaws iteration
    → contains a (iteration (difference (distinct xs) (distinct ys)))
      ≡ (contains a xs && not (contains a ys))
contains-iteration iteration xs ys a laws =
    rw
      (
        laws.same a (difference (distinct xs) (distinct ys)),
        contains-difference a (distinct xs) (distinct ys),
        contains-distinct a xs,
        contains-distinct a ys,
      )
      refl

balance : (b c : Bool) → (b || (c && not b)) ≡ (c || (b && not c))
balance true true = refl
balance true false = refl
balance false true = refl
balance false false = refl

contains-exchanged :
    (iteration : List Str → List Str) (xs ys : List Str) (a : Str)
    → IterationLaws iteration
    → contains a (ys ++ iteration (difference (distinct xs) (distinct ys)))
      ≡ contains a (xs ++ iteration (difference (distinct ys) (distinct xs)))
contains-exchanged iteration xs ys a laws =
    rw
      (
        contains-append a ys (iteration (difference (distinct xs) (distinct ys))),
        contains-append a xs (iteration (difference (distinct ys) (distinct xs))),
        contains-iteration iteration xs ys a laws,
        contains-iteration iteration ys xs a laws,
      )
      (balance (contains a ys) (contains a xs))

-- The two directions of an exchange.
pub record IsBalanced (x : Inventory) (t : Transfer) : Type 0 where
  pub wanted_once : IsDistinct t.wanted_from_client
  pub sent_once : IsDistinct t.to_client
  pub wanted :
      (a : Str)
      → contains a t.wanted_from_client
        ≡ (contains a (all_ids x.client_chunks) && not (contains a (all_ids x.server_chunks)))
  pub balanced :
      (a : Str)
      → contains a (all_ids x.server_chunks ++ t.wanted_from_client)
        ≡ contains a (all_ids x.client_chunks ++ t.to_client)

-- What the plan of the exchange has for the two directions: the server asks, each id once, for what
-- the client named and it did not name itself; with what it asks for and what it sends, both sides
-- have the same ids. It needs that going through a set meets each member once.
pub plan_transfer-IsBalanced :
    (iteration : List Str → List Str) (x : Inventory) (t : Transfer)
    → IterationLaws iteration
    → plan_transfer iteration x ≡ ok t
    → IsBalanced x t
unfolding plan_transfer
plan_transfer-IsBalanced iteration x t laws h =
    let client = distinct (all_ids x.client_chunks) in
    let server = distinct (all_ids x.server_chunks) in
    let (_, _, e) =
      bind-eq_ok
        (ensure (leb (length client) max_differing_ids && leb (length server) max_differing_ids)
          too_many_ids)
        _ h in
    let made : Transfer = record {
      wanted_from_client = iteration (difference client server);
      to_client = iteration (difference server client);
    } in
    subst (IsBalanced x) (ok-injective made t e) (record {
      wanted_once =
          laws.once (difference client server)
            (difference-IsDistinct client server (distinct-IsDistinct (all_ids x.client_chunks)));
      sent_once =
          laws.once (difference server client)
            (difference-IsDistinct server client (distinct-IsDistinct (all_ids x.server_chunks)));
      wanted = λ a.
          contains-iteration iteration (all_ids x.client_chunks) (all_ids x.server_chunks) a laws;
      balanced = λ a.
          contains-exchanged iteration (all_ids x.client_chunks) (all_ids x.server_chunks) a laws;
    })
