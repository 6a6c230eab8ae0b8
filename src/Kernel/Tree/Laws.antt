-- ===== src/Kernel/Tree/Laws.antt =====
-- The reduction tree of `CcuSmallStagingTreeKernel`: its rounds and its operands.
use mathlib.Core.List.{Perm, perm_append_comm}
use mathlib.Core.List.Perm
use mathlib.Core.Path.{subst}
use hccl_reduce_scatter.Prelude.{
  ℕ, zero, suc, ◌+◌, ◌-◌, ◌/◌, ◌≤◌, ◌≡◌, ◌≢◌, false, refl, sym, ◌∙◌, ap, List, [], ◌∷◌, ◌++◌, map,
  arith, inl, inr, Bool-cases, ltb, ltb→lt, ltb→le, get_or, range_from, range_split, shift_range,
  length, ◌<◌, ◌==◌, ==_iff,
}
use hccl_reduce_scatter.Ccu.{
  Address, Transfer, local_copy, local_reduce, read, read_reduce, write, Inputs, Call, HcclDataType,
  HcclReduceOp, event_wait, Mask,
}
use hccl_reduce_scatter.Ccu.Device.{flights}
use hccl_reduce_scatter.Kernel.Common.{nowhere}
use hccl_reduce_scatter.Kernel.Args.{CcuPartialReduceKernelArg}
use hccl_reduce_scatter.Kernel.Tree.{tree_leaves, tree_bytes, piece_call, tree_round, tree_rounds}

-- The address that a transfer reads from.
abbrev pub source_of : Transfer → Address
source_of (local_copy destination source bytes) = source
source_of (local_reduce destination source bytes type op) = source
source_of (read channel destination source bytes) = source
source_of (read_reduce channel destination source bytes type op) = source
source_of (write channel destination source bytes) = source

-- What the transfers of a program read from, in the order of their calls.
abbrev pub sources : List Call → List Address
sources cs = map (λ f. source_of f.transfer) (flights cs)

elements_lem :
    {A : Type 0} (xs : List A) (d : A) → map (λ j. get_or xs j d) (range_from 0 (length xs)) ≡ xs
elements_lem [] d = refl
elements_lem (x ∷ xs) d =
    ap (λ l. x ∷ l) (shift_range (λ j. get_or (x ∷ xs) j d) 0 (length xs) ∙ elements_lem xs d)

module _ (work : List Address) (bytes : ℕ) (type : HcclDataType) (op : HcclReduceOp)
    (event : ℕ) where
  abbrev pub leaf : ℕ → Address
  leaf j = get_or work j nowhere

  sources_pieces :
      (base h i : ℕ) (mask : Mask) (rest : List Call)
      → sources (
          (map (piece_call work bytes type op event base) (range_from i h)
            ++ (event_wait event mask ∷ []))
          ++ rest)
        ≡ map leaf (range_from (base + i) h) ++ sources rest
  sources_pieces base zero i mask rest = refl
  sources_pieces base (suc h) i mask rest =
      ap (λ l. leaf (base + i) ∷ l) (sources_pieces base h (i + 1) mask rest)
      ∙ ap (λ j. leaf (base + i) ∷ map leaf (range_from j h) ++ sources rest) (omega arith)

  rounds-consume :
      (fuel n : ℕ)
      → 1 ≤ n
      → n ≤ fuel
      → Perm
          (sources (tree_rounds work bytes type op event fuel n))
          (map leaf (range_from 1 (n - 1)))
  unfolding tree_rounds
  rounds-consume zero n some_leaf enough = absurd (omega arith)
  rounds-consume (suc fuel) n some_leaf enough = elim (Bool-cases (ltb 1 n)) [
    | inl more ↦
        let two = ltb→lt 1 n more in
        let h = n / 2 in
        let left = n - h in
        let rest = tree_rounds work bytes type op event fuel left in
        let round : sources (tree_round work bytes type op event n ++ rest)
            ≡ map leaf (range_from left h) ++ sources rest =
          sources_pieces left h 0 _ rest
          ∙ ap (λ j. map leaf (range_from j h) ++ sources rest) (omega arith) in
        let all : map leaf (range_from 1 (left - 1)) ++ map leaf (range_from left h)
            ≡ map leaf (range_from 1 (n - 1)) =
          ap (λ j. map leaf (range_from 1 (left - 1)) ++ map leaf (range_from j h)) (omega arith)
          ∙ range_split leaf (left - 1) 1 h
          ∙ ap (λ j. map leaf (range_from 1 j)) (omega arith) in
        rw more (
          subst (λ s. Perm s (map leaf (range_from 1 (n - 1)))) (sym round)
            (Perm.trans
              (Perm.append_left (map leaf (range_from left h))
                (rounds-consume fuel left (omega arith) (omega arith)))
              (subst (Perm (map leaf (range_from left h) ++ map leaf (range_from 1 (left - 1)))) all
                (perm_append_comm (map leaf (range_from left h))
                  (map leaf (range_from 1 (left - 1)))))))
    | inr single ↦
        let one : n ≡ 1 = omega (arith, ltb→le 1 n single) in
        rw single (subst (λ j. Perm [] (map leaf (range_from 1 (j - 1)))) (sym one) (Perm.refl []))
  ]

module _ (k : CcuPartialReduceKernelArg) (i : Inputs) where
  leaves_behind :
      (n source : ℕ) → k.local_source_index < source → length (tree_leaves k i n source) ≡ suc n
  unfolding tree_leaves
  leaves_behind zero source past = refl
  leaves_behind (suc n) source past =
      let other : (source == k.local_source_index) ≡ false = ground arith in
      rw other (ap suc (leaves_behind n (source + 1) (omega arith)))

  length-tree_leaves :
      (n source : ℕ)
      → source ≤ k.local_source_index
      → k.local_source_index < source + n
      → length (tree_leaves k i n source) ≡ n
  unfolding tree_leaves
  length-tree_leaves zero source lo hi = absurd (omega arith)
  length-tree_leaves (suc n) source lo hi = elim (Bool-cases (source == k.local_source_index)) [
    | inl own ↦
        let here = (==_iff source k.local_source_index).0 own in
        rw own (leaves_behind n (source + 1) (omega arith))
    | inr other ↦
        let away : source ≢ k.local_source_index = ground arith in
        rw other (ap suc (length-tree_leaves n (source + 1) (omega arith) (omega arith)))
  ]

  -- The rounds of the reduction, as the kernel makes them.
  abbrev pub reduction_calls : List Call
  reduction_calls =
      tree_rounds (tree_leaves k i k.source_count 0) (tree_bytes k i) k.data_type k.reduce_op 1
        k.source_count k.source_count

  -- For an own source among the sources, the tree has one leaf for each source, and the transfers
  -- of its rounds read from every leaf but the first exactly once, in some order.
  pub tree_rounds-consume :
      k.local_source_index < k.source_count
      → (length (tree_leaves k i k.source_count 0) ≡ k.source_count)
        × ((first : Address) × (others : List Address) × (tree_leaves k i k.source_count 0
              ≡ first ∷ others)
            × Perm (sources reduction_calls) others)
  tree_rounds-consume own =
      let count = length-tree_leaves k.source_count 0 (omega arith) (omega arith) in
      let rounds =
        rounds-consume (tree_leaves k i k.source_count 0) (tree_bytes k i) k.data_type k.reduce_op 1
          k.source_count k.source_count (omega arith) (omega arith) in
      (
        count,
        but_first (tree_leaves k i k.source_count 0) k.source_count (omega arith) count rounds,
      )
    where
      but_first :
          (leaves : List Address) (n : ℕ)
          → 1 ≤ n
          → length leaves ≡ n
          → Perm
              (sources reduction_calls)
              (map (λ j. get_or leaves j nowhere) (range_from 1 (n - 1)))
          → (first : Address) × (others : List Address) × (leaves ≡ first ∷ others)
            × Perm (sources reduction_calls) others
      but_first [] n some_leaf count p = absurd (omega arith)
      but_first (x ∷ xs) n some_leaf count p =
          let rest : n - 1 ≡ length xs = omega arith in
          let all : map (λ j. get_or (x ∷ xs) j nowhere) (range_from 1 (n - 1)) ≡ xs =
            ap (λ m. map (λ j. get_or (x ∷ xs) j nowhere) (range_from 1 m)) rest
            ∙ shift_range (λ j. get_or (x ∷ xs) j nowhere) 0 (length xs)
            ∙ elements_lem xs nowhere in
          (x, xs, refl, subst (Perm (sources reduction_calls)) all p)
