-- ===== src/Kernel/Tree/Signals.antt =====
-- `CcuSmallStagingTreeKernel` does not hang at an `EventWait`.
use mathlib.Core.Path.{subst}
use hccl_reduce_scatter.Prelude.{
  ℕ, zero, suc, ◌+◌, ◌-◌, ◌/◌, ◌≤◌, ◌<◌, ◌≡◌, refl, sym, ◌∙◌, ap, false, List, [], ◌∷◌, ◌++◌, map,
  arith, inl, inr, Bool-cases, ltb, ◌==◌, range_from, low_mask16, All, append_assoc, append-nil,
}
use hccl_reduce_scatter.Ccu.{
  Address, Flight, Call, Inputs, bits, start, event_wait, HcclDataType, HcclReduceOp,
}
use hccl_reduce_scatter.Ccu.Device.{is_awaited}
use hccl_reduce_scatter.Ccu.Race.Waits.{
  AllSignalled, AllSignalled-after_control, AllSignalled-batch, low_mask-IsSignalled,
}
use hccl_reduce_scatter.Kernel.Args.{CcuPartialReduceKernelArg}
use hccl_reduce_scatter.Kernel.Common.Laws.{exchange-IsControl}
use hccl_reduce_scatter.Kernel.Tree.{
  tree_calls, tree_rounds, tree_round, tree_fetch, tree_leaves, tree_input, tree_bytes,
}
use hccl_reduce_scatter.Kernel.Tree.Waits.{reduce_piece}
use hccl_reduce_scatter.Kernel.Tree.Fetch.{pull_of, fetch-map}

-- The tree beside transfers on another event.
module _ (leaves : List Address) (bytes : ℕ) (type : HcclDataType) (op : HcclReduceOp) (event : ℕ)
    (cs : List Call) (bs : List Flight) (others : All (λ g. (event == g.event) ≡ false) bs)
    (behind : AllSignalled cs bs) where
  uncovered :
      (n : ℕ) (gs : List Flight)
      → All (λ g. (event == g.event) ≡ false) gs
      → All (λ g. is_awaited event (bits (low_mask16 n)) g ≡ false) gs
  uncovered n [] h = tt
  uncovered n (g ∷ gs) h = (rw (h.0), uncovered n gs h.1)

  abbrev rounds : ℕ → ℕ → List Call
  rounds fuel n = tree_rounds leaves bytes type op event fuel n

  abbrev piece : ℕ → ℕ → Flight
  piece base p = reduce_piece leaves bytes type op event base p

  round-shape :
      (n : ℕ) (rest : List Call)
      → (tree_round leaves bytes type op event n ++ rest) ++ cs
        ≡ map (λ p. start (piece (n - n / 2) p)) (range_from 0 (n / 2))
          ++ (event_wait event (bits (low_mask16 (n / 2))) ∷ (rest ++ cs))
  round-shape n rest = simp append_assoc

  pub rounds-AllSignalled : (fuel n : ℕ) → n ≤ 16 → AllSignalled (rounds fuel n ++ cs) bs
  unfolding tree_rounds
  rounds-AllSignalled zero n few = behind
  rounds-AllSignalled (suc fuel) n few = elim (Bool-cases (ltb 1 n)) [
    | inl more ↦
        let base = n - n / 2 in
        rw more (
          subst (λ l. AllSignalled l bs) (sym (round-shape n (rounds fuel base)))
            (AllSignalled-batch (piece base) (range_from 0 (n / 2)) event
              (bits (low_mask16 (n / 2))) (rounds fuel base ++ cs) bs
              (low_mask-IsSignalled event (n / 2) (piece base) (omega arith) (λ t. refl)
                (λ t. refl))
              (uncovered (n / 2) bs others) (rounds-AllSignalled fuel base (omega arith))))
    | inr lone ↦ rw lone behind
  ]

-- For at most 16 sources with one channel for each but the own one, every `EventWait` of the small
-- staging tree is for bits that transfers started in front of it, and not taken by an earlier
-- wait, signal.
pub tree_calls-AllSignalled :
    (k : CcuPartialReduceKernelArg) (i : Inputs)
    → k.local_source_index < k.source_count
    → k.source_count ≡ suc k.base.channel_count
    → k.source_count ≤ 16
    → AllSignalled (tree_calls k i) []
unfolding tree_calls
tree_calls-AllSignalled k i own each few =
    let channels = k.base.channel_count in
    let rounds =
      tree_rounds (tree_leaves k i k.source_count 0) (tree_bytes k i) k.data_type k.reduce_op 1
        k.source_count k.source_count in
    let fetch : tree_fetch k i k.source_count 0 0
        ≡ map (λ c. start (pull_of k i c)) (range_from 0 channels) =
      ap (λ n. tree_fetch k i n 0 0) each ∙ fetch-map k i channels 0 (omega arith) (omega arith) in
    AllSignalled-after_control _ _ []
      (exchange-IsControl k.base _ (tree_input k i) (7 + k.source_count) k.source_count)
      (subst (λ cs. AllSignalled (cs ++ (event_wait 0 (bits (low_mask16 channels)) ∷ rounds)) [])
        (sym fetch)
        (AllSignalled-batch (pull_of k i) (range_from 0 channels) 0 (bits (low_mask16 channels))
          rounds []
          (low_mask-IsSignalled 0 channels (pull_of k i) (omega arith) (λ t. refl) (λ t. refl)) tt
          (subst (λ cs. AllSignalled cs []) (append-nil rounds)
            (rounds-AllSignalled (tree_leaves k i k.source_count 0) (tree_bytes k i) k.data_type
              k.reduce_op 1 [] [] tt tt k.source_count k.source_count few))))
