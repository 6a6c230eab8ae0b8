-- ===== src/Kernel/Tree/Fetch.antt =====
-- The loops over the sources of `CcuSmallStagingTreeKernel`, which skip the own one, as lists over
-- the channels.
use hccl_reduce_scatter.Prelude.{
  ℕ, zero, suc, ◌+◌, ◌≤◌, ◌<◌, ◌≡◌, ◌≢◌, true, false, refl, ◌∙◌, ap, [], ◌∷◌, ◌++◌, map, arith, inl,
  inr, Bool-cases, ltb, lt→ltb, le→ltb, get_or, range_from, ◌==◌, ==_iff, if◌then◌else◌,
}
use hccl_reduce_scatter.Ccu.{Address, Flight, Inputs, start}
use hccl_reduce_scatter.Kernel.Args.{CcuPartialReduceKernelArg, shift}
use hccl_reduce_scatter.Kernel.Common.{nowhere}
use hccl_reduce_scatter.Kernel.Tree.{tree_fetch, tree_leaves, tree_slot, tree_input, tree_offset}
use hccl_reduce_scatter.Kernel.Tree.Waits.{pull}

-- An element of a list over a range with one more behind it.
get_or-within :
    {A : Type 0} (f : ℕ → A) (x d : A) (i n t : ℕ)
    → t < n
    → get_or (map f (range_from i n) ++ (x ∷ [])) t d ≡ f (i + t)
get_or-within f x d i zero t h = elim h [ ]
get_or-within f x d i (suc n) zero h = ap f (omega arith)
get_or-within f x d i (suc n) (suc t) h =
    get_or-within f x d (i + 1) n t (omega arith) ∙ ap f (omega arith)

get_or-last :
    {A : Type 0} (f : ℕ → A) (x d : A) (i n : ℕ)
    → get_or (map f (range_from i n) ++ (x ∷ [])) n d ≡ x
get_or-last f x d i zero = refl
get_or-last f x d i (suc n) = get_or-last f x d (i + 1) n

module _ (k : CcuPartialReduceKernelArg) where
  -- The source that a channel leads to.
  abbrev pub remote_source : ℕ → ℕ
  remote_source channel = if ltb channel k.local_source_index then channel else channel + 1

  remote_source_low : (c : ℕ) → c < k.local_source_index → remote_source c ≡ c
  remote_source_low c h = rw (lt→ltb c k.local_source_index h)

  remote_source_high : (c : ℕ) → k.local_source_index ≤ c → remote_source c ≡ c + 1
  remote_source_high c h = rw (le→ltb c k.local_source_index h)

  pub remote_source-ne : (c : ℕ) → remote_source c ≢ k.local_source_index
  remote_source-ne c = ground arith

module _ (k : CcuPartialReduceKernelArg) (i : Inputs) where
  abbrev pub pull_of : ℕ → Flight
  pull_of c = pull k i (remote_source k c) c

  fetch_behind :
      (n c : ℕ)
      → k.local_source_index ≤ c
      → tree_fetch k i n (c + 1) c ≡ map (λ c. start (pull_of c)) (range_from c n)
  unfolding tree_fetch
  fetch_behind zero c past = refl
  fetch_behind (suc n) c past =
      let other : (c + 1 == k.local_source_index) ≡ false = ground arith in
      rw (other, remote_source_high k c past)
        (ap (λ cs. start (pull k i (c + 1) c) ∷ cs) (fetch_behind n (c + 1) (omega arith)))

  pub fetch-map :
      (n c : ℕ)
      → c ≤ k.local_source_index
      → k.local_source_index ≤ c + n
      → tree_fetch k i (suc n) c c ≡ map (λ c. start (pull_of c)) (range_from c n)
  unfolding tree_fetch
  fetch-map zero c lo hi = let own : (c == k.local_source_index) ≡ true = ground arith in rw own
  fetch-map (suc n) c lo hi = elim (Bool-cases (c == k.local_source_index)) [
    | inl own ↦
        let here = (==_iff c k.local_source_index).0 own in
        rw own (fetch_behind (suc n) c (omega arith))
    | inr other ↦
        let away : c ≢ k.local_source_index = ground arith in
        rw (other, remote_source_low k c (omega arith))
          (ap (λ cs. start (pull k i c c) ∷ cs) (fetch-map n (c + 1) (omega arith) (omega arith)))
  ]

  abbrev pub slot_of : ℕ → Address
  slot_of c = tree_slot k i (remote_source k c)

  abbrev pub own_leaf : Address
  own_leaf = shift (tree_input k i) (tree_offset k i)

  leaves_behind :
      (n c : ℕ)
      → k.local_source_index ≤ c
      → tree_leaves k i n (c + 1) ≡ map slot_of (range_from c n) ++ (own_leaf ∷ [])
  unfolding tree_leaves
  leaves_behind zero c past = refl
  leaves_behind (suc n) c past =
      let other : (c + 1 == k.local_source_index) ≡ false = ground arith in
      rw (other, remote_source_high k c past)
        (ap (λ l. tree_slot k i (c + 1) ∷ l) (leaves_behind n (c + 1) (omega arith)))

  leaves-map :
      (n c : ℕ)
      → c ≤ k.local_source_index
      → k.local_source_index ≤ c + n
      → tree_leaves k i (suc n) c ≡ map slot_of (range_from c n) ++ (own_leaf ∷ [])
  unfolding tree_leaves
  leaves-map zero c lo hi = let own : (c == k.local_source_index) ≡ true = ground arith in rw own
  leaves-map (suc n) c lo hi = elim (Bool-cases (c == k.local_source_index)) [
    | inl own ↦
        let here = (==_iff c k.local_source_index).0 own in
        rw own (leaves_behind (suc n) c (omega arith))
    | inr other ↦
        let away : c ≢ k.local_source_index = ground arith in
        rw (other, remote_source_low k c (omega arith))
          (ap (λ l. tree_slot k i c ∷ l) (leaves-map n (c + 1) (omega arith) (omega arith)))
  ]

  pub leaves_slot :
      (count n t : ℕ)
      → count ≡ suc n
      → k.local_source_index < count
      → t < n
      → get_or (tree_leaves k i count 0) t nowhere ≡ slot_of t
  leaves_slot count n t each own h =
      ap (λ s. get_or (tree_leaves k i s 0) t nowhere) each
      ∙ ap (λ l. get_or l t nowhere) (leaves-map n 0 (omega arith) (omega arith))
      ∙ get_or-within slot_of own_leaf nowhere 0 n t h
      ∙ ap slot_of (omega arith)

  pub leaves_own :
      (count n : ℕ)
      → count ≡ suc n
      → k.local_source_index < count
      → get_or (tree_leaves k i count 0) n nowhere ≡ own_leaf
  leaves_own count n each own =
      ap (λ s. get_or (tree_leaves k i s 0) n nowhere) each
      ∙ ap (λ l. get_or l n nowhere) (leaves-map n 0 (omega arith) (omega arith))
      ∙ get_or-last slot_of own_leaf nowhere 0 n
