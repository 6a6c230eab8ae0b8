-- ===== src/Kernel/Tree/Races.antt =====
-- `CcuSmallStagingTreeKernel` has no race: its leaves, and the commuting of its transfers.
use mathlib.Core.Path.{subst}
use hccl_reduce_scatter.Prelude.{
  ℕ, suc, ◌+◌, ◌-◌, ◌≤◌, ◌<◌, ◌≡◌, ◌≢◌, refl, sym, ◌∙◌, ap, true, List, [], ◌∷◌, ◌++◌, map, arith,
  ltb, get_or, range_from, low_mask16, if◌then◌else◌, word64, All-map_range,
}
use hccl_reduce_scatter.Ccu.{Address, Call, Inputs, bits, start, event_wait}
use hccl_reduce_scatter.Ccu.Device.{Device, IsLawful, is_awaited}
use hccl_reduce_scatter.Ccu.Race.{IsRaceFree}
use hccl_reduce_scatter.Ccu.Disjoint.{Spares-Commutes}
use hccl_reduce_scatter.Ccu.Batch.{IsRaceFree-batch, AllCommute-range}
use hccl_reduce_scatter.Ccu.Program.{IsRaceFree-after_control}
use hccl_reduce_scatter.Kernel.Args.{CcuPartialReduceKernelArg, channel_at}
use hccl_reduce_scatter.Kernel.Common.{nowhere, channel_of}
use hccl_reduce_scatter.Kernel.Common.Laws.{exchange-IsControl}
use hccl_reduce_scatter.Kernel.Tree.{
  tree_calls, tree_fetch, tree_leaves, tree_rounds, tree_input, tree_offset, tree_bytes,
}
use hccl_reduce_scatter.Kernel.Tree.Waits.{awaited_bit}
use hccl_reduce_scatter.Kernel.Tree.Fetch.{
  remote_source, pull_of, slot_of, own_leaf, fetch-map, leaves_slot, leaves_own,
}
use hccl_reduce_scatter.Kernel.Tree.Rounds.{AreApart, apart_lem, rounds-IsRaceFree}

module _ (k : CcuPartialReduceKernelArg) (i : Inputs) where
  abbrev pub leaf_at : ℕ → Address
  leaf_at t = get_or (tree_leaves k i k.source_count 0) t nowhere

  -- Two to sixteen sources with one channel for each but the own one, inputs in the address
  -- space, and a leaf for each source with a range of its own.
  pub record IsFit (input_addr : ℕ → ℕ) : Type 0 where
    pub two_sources : 2 ≤ k.source_count
    pub few_sources : k.source_count ≤ 16
    pub own_source : k.local_source_index < k.source_count
    pub one_channel_each : k.source_count ≡ suc k.base.channel_count
    pub in_space : (r : ℕ) → r < k.source_count → input_addr r + tree_offset k i < word64
    pub leaves_apart :
        (s t : ℕ)
        → s < k.source_count
        → t < k.source_count
        → s ≢ t
        → AreApart (tree_bytes k i) (leaf_at s).addr (leaf_at t).addr

  -- The source whose contribution is at a leaf: the others in their order, then the own one.
  abbrev pub source_order : ℕ → ℕ
  source_order t = if ltb t (k.source_count - 1) then remote_source k t else k.local_source_index

module _ {V : Type 0} (D : Device V) (k : CcuPartialReduceKernelArg) (i : Inputs) where
  -- What the kernel finds behind its channels: the memory of each other source, and the address
  -- that this source has written there.
  pub record IsWired (memory : ℕ → ℕ → V) (input_addr : ℕ → ℕ) : Type 0 where
    pub own_addr : (tree_input k i).addr ≡ input_addr k.local_source_index
    pub peer_memory :
        (r a : ℕ)
        → r < k.source_count
        → r ≢ k.local_source_index
        → D.remote (channel_at k.base (channel_of k.local_source_index r)) a ≡ memory r a
    pub peer_addr :
        (r : ℕ)
        → r < k.source_count
        → r ≢ k.local_source_index
        → i.res_by_channel (channel_at k.base (channel_of k.local_source_index r)) 1 ≡ input_addr r

  abbrev pub share : (ℕ → ℕ → V) → (ℕ → ℕ) → ℕ → ℕ → V
  share memory input_addr j r = memory r (input_addr r + tree_offset k i + j)

  module _ (lawful : IsLawful D) {input_addr : ℕ → ℕ} (fit : IsFit k i input_addr) where
    abbrev pub channels : ℕ
    channels = k.base.channel_count

    abbrev pub rounds : List Call
    rounds =
        tree_rounds (tree_leaves k i k.source_count 0) (tree_bytes k i) k.data_type k.reduce_op 1
          k.source_count k.source_count

    pub fetch_lem :
        tree_fetch k i k.source_count 0 0 ≡ map (λ c. start (pull_of k i c)) (range_from 0 channels)
    fetch_lem =
        let own = fit.own_source in
        let each = fit.one_channel_each in
        ap (λ n. tree_fetch k i n 0 0) each ∙ fetch-map k i channels 0 (omega arith) (omega arith)

    pub leaf_slot : (t : ℕ) → t < channels → leaf_at k i t ≡ slot_of k i t
    leaf_slot t h = leaves_slot k i k.source_count channels t fit.one_channel_each fit.own_source h

    pub leaf_own : leaf_at k i channels ≡ own_leaf k i
    leaf_own = leaves_own k i k.source_count channels fit.one_channel_each fit.own_source

    pub slots_apart :
        (s t : ℕ)
        → s < channels
        → t < channels
        → s ≢ t
        → AreApart (tree_bytes k i) (slot_of k i s).addr (slot_of k i t).addr
    slots_apart s t hs ht away =
        let each = fit.one_channel_each in
        rw (← leaf_slot s hs, ← leaf_slot t ht)
          (fit.leaves_apart s t (omega arith) (omega arith) away)

    pub tree_calls-IsRaceFree : IsRaceFree D (tree_calls k i) []
    unfolding tree_calls
    tree_calls-IsRaceFree =
        let each = fit.one_channel_each in
        let few = fit.few_sources in
        IsRaceFree-after_control D _ _ []
          (exchange-IsControl k.base _ (tree_input k i) (7 + k.source_count) k.source_count)
          (subst
            (λ cs. IsRaceFree D (cs ++ (event_wait 0 (bits (low_mask16 channels)) ∷ rounds)) [])
            (sym fetch_lem)
            (IsRaceFree-batch D (pull_of k i) (range_from 0 channels) 0 (bits (low_mask16 channels))
              rounds []
              (AllCommute-range D (pull_of k i) 0 channels (λ s t lo lt hi.
                Spares-Commutes D lawful (pull_of k i s) (pull_of k i t)
                  (
                    λ a l.
                        apart_lem (tree_bytes k i) (slot_of k i s) (slot_of k i t) a
                          (slots_apart s t (omega arith) (omega arith) (omega arith)) l,
                    λ a l. refl,
                  )
                  (
                    λ a l.
                        apart_lem (tree_bytes k i) (slot_of k i t) (slot_of k i s) a
                          (slots_apart t s (omega arith) (omega arith) (omega arith)) l,
                    λ a l. refl,
                  )))
              (All-map_range (λ g. is_awaited 0 (bits (low_mask16 channels)) g ≡ true) (pull_of k i)
                0 channels
                (λ t lo hi.
                  awaited_bit 0 channels t (pull_of k i t) refl refl (omega arith) (omega arith)))
              (rounds-IsRaceFree D lawful (tree_leaves k i k.source_count 0) (tree_bytes k i)
                k.data_type k.reduce_op 1 k.source_count k.source_count few fit.leaves_apart)))
