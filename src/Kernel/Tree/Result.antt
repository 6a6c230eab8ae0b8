-- ===== src/Kernel/Tree/Result.antt =====
-- The result of `CcuSmallStagingTreeKernel`: the contributions of all sources, combined by the tree.
use mathlib.Core.Path.{subst}
use hccl_reduce_scatter.Prelude.{
  ℕ, ◌+◌, ◌-◌, ◌<◌, ◌≡◌, refl, sym, ◌∙◌, ap, [], ◌∷◌, ◌++◌, map, arith, inl, inr, Bool-cases, ltb,
  ltb→lt, ltb→le, get_or, range_from, low_mask16, add64, add64_small, sub32_small,
}
use hccl_reduce_scatter.Ccu.{Inputs, bits, event_wait}
use hccl_reduce_scatter.Ccu.Device.{Device, IsLawful, Run, perform_all, flights}
use hccl_reduce_scatter.Ccu.Race.{Run-eq}
use hccl_reduce_scatter.Ccu.Batch.{flights_batch, batch_frame, batch_value}
use hccl_reduce_scatter.Ccu.Program.{perform_all_append, flights_after_control}
use hccl_reduce_scatter.Kernel.Args.{CcuPartialReduceKernelArg, channel_at, shift}
use hccl_reduce_scatter.Kernel.Common.{nowhere, channel_of}
use hccl_reduce_scatter.Kernel.Common.Laws.{
  exchange-IsControl, get_or-remote_inputs, remote_at_away,
}
use hccl_reduce_scatter.Kernel.Tree.{
  tree_calls, tree_leaves, tree_output, tree_input, tree_offset, tree_bytes, tree_remotes,
}
use hccl_reduce_scatter.Kernel.Tree.Fetch.{
  remote_source, remote_source-ne, pull_of, slot_of, own_leaf,
}
use hccl_reduce_scatter.Kernel.Tree.Rounds.{AreApart, apart_lem, inside_at, across_at}
use hccl_reduce_scatter.Kernel.Tree.Values.{tree_value, tree_value-eq, rounds-value}
use hccl_reduce_scatter.Kernel.Tree.Races.{
  IsFit, IsWired, leaf_at, source_order, share, rounds, fetch_lem, leaf_slot, leaf_own, slots_apart,
  tree_calls-IsRaceFree,
}

module _ {V : Type 0} (D : Device V) (k : CcuPartialReduceKernelArg) (i : Inputs)
    (lawful : IsLawful D) {memory : ℕ → ℕ → V} {input_addr : ℕ → ℕ} (fit : IsFit k i input_addr)
    (wired : IsWired D k i memory input_addr) where
  abbrev last : ℕ
  last = k.base.channel_count

  channel_lem : (c : ℕ) → c < last → channel_of k.local_source_index (remote_source k c) ≡ c
  channel_lem c h =
      let each = fit.one_channel_each in
      let few = fit.few_sources in ground (arith, sub32_small (c + 1) 1)

  remote_below : (c : ℕ) → c < last → remote_source k c < k.source_count
  remote_below c h = let each = fit.one_channel_each in ground arith

  pulled_address :
      (c : ℕ)
      → c < last
      → (shift (get_or (tree_remotes k i) (remote_source k c) nowhere) (tree_offset k i)).addr
        ≡ input_addr (remote_source k c) + tree_offset k i
  pulled_address c h =
      let few = fit.few_sources in
      let r = remote_source k c in
      let below = remote_below c h in
      ap (λ b. add64 b.addr (tree_offset k i))
        (get_or-remote_inputs k.base k.local_source_index (tree_input k i) i k.source_count r
          nowhere below (omega arith))
      ∙ ap (λ b. add64 b (tree_offset k i))
          (remote_at_away k.base k.local_source_index (tree_input k i) i r (remote_source-ne k c)
            ∙ wired.peer_addr r below (remote_source-ne k c))
      ∙ add64_small (input_addr r) (tree_offset k i) (fit.in_space r below)

  -- What the pulls leave.
  abbrev fetched : (ℕ → V) → ℕ → V
  fetched m = perform_all D (map (pull_of k i) (range_from 0 last)) m

  fetched_slot :
      (c j : ℕ) (m : ℕ → V)
      → c < last
      → j < tree_bytes k i
      → fetched m ((slot_of k i c).addr + j) ≡ share D k i memory input_addr j (remote_source k c)
  fetched_slot c j m h within =
      let r = remote_source k c in
      let src = shift (get_or (tree_remotes k i) r nowhere) (tree_offset k i) in
      batch_value D lawful (pull_of k i) 0 last c ((slot_of k i c).addr + j) m (omega arith)
        (omega arith) (inside_at (slot_of k i c) (tree_bytes k i) j within)
        (λ t lo hi away. (
          λ a l.
              apart_lem (tree_bytes k i) (slot_of k i t) (slot_of k i c) a
                (slots_apart D k i lawful fit t c (omega arith) h away) l,
          λ a l. refl,
        ))
      ∙ ap (D.remote (channel_at k.base c)) (across_at (slot_of k i c) src j)
      ∙ ap (λ n. D.remote (channel_at k.base n) (src.addr + j)) (sym (channel_lem c h))
      ∙ wired.peer_memory r (src.addr + j) (remote_below c h) (remote_source-ne k c)
      ∙ ap (λ a. memory r (a + j)) (pulled_address c h)

  own_address : (own_leaf k i).addr ≡ input_addr k.local_source_index + tree_offset k i
  own_address =
      ap (λ b. add64 b (tree_offset k i)) wired.own_addr
      ∙ add64_small (input_addr k.local_source_index) (tree_offset k i)
          (fit.in_space k.local_source_index fit.own_source)

  fetched_own :
      (j : ℕ) (m : ℕ → V)
      → j < tree_bytes k i
      → fetched m ((own_leaf k i).addr + j) ≡ m ((own_leaf k i).addr + j)
  fetched_own j m within =
      let each = fit.one_channel_each in
      batch_frame D lawful (pull_of k i) 0 last ((own_leaf k i).addr + j) m (λ t lo hi.
        apart_lem (tree_bytes k i) (own_leaf k i) (slot_of k i t) ((own_leaf k i).addr + j)
          (subst (λ d. AreApart (tree_bytes k i) d.addr (slot_of k i t).addr)
            (leaf_own D k i lawful fit)
            (subst (λ d. AreApart (tree_bytes k i) (leaf_at k i last).addr d.addr)
              (leaf_slot D k i lawful fit t (omega arith))
              (fit.leaves_apart last t (omega arith) (omega arith) (omega arith))))
          (inside_at (own_leaf k i) (tree_bytes k i) j within))

  module _ (m : ℕ → V)
      (own_chunk : (j : ℕ)
        → j < tree_bytes k i
        → m (input_addr k.local_source_index + tree_offset k i + j)
          ≡ share D k i memory input_addr j k.local_source_index) where
    -- Behind the pulls each leaf holds the contribution of its source.
    leaf_value :
        (t j : ℕ)
        → t < k.source_count
        → j < tree_bytes k i
        → fetched m ((leaf_at k i t).addr + j)
          ≡ share D k i memory input_addr j (source_order k i t)
    leaf_value t j below within =
        let each = fit.one_channel_each in
        elim (Bool-cases (ltb t (k.source_count - 1))) [
          | inl remote ↦
              let low = ltb→lt t (k.source_count - 1) remote in
              rw (leaf_slot D k i lawful fit t (omega arith), remote)
                (fetched_slot t j m (omega arith) within)
          | inr own ↦
              let high = ltb→le t (k.source_count - 1) own in
              let here : t ≡ last = omega arith in
              rw own (
                ap (λ s. fetched m ((leaf_at k i s).addr + j)) here
                ∙ ap (λ l. fetched m (l.addr + j)) (leaf_own D k i lawful fit)
                ∙ fetched_own j m within
                ∙ ap (λ a. m (a + j)) own_address
                ∙ own_chunk j within)
        ]

    output_leaf : leaf_at k i 0 ≡ tree_output k i
    output_leaf =
        let each = fit.one_channel_each in
        let two = fit.two_sources in leaf_slot D k i lawful fit 0 (omega arith) ∙ ground arith

    tree_flights :
        flights (tree_calls k i)
        ≡ map (pull_of k i) (range_from 0 last) ++ flights (rounds D k i lawful fit)
    unfolding tree_calls
    tree_flights =
        flights_after_control _ _
          (exchange-IsControl k.base _ (tree_input k i) (7 + k.source_count) k.source_count)
        ∙ ap
            (λ cs.
              flights (cs ++ (event_wait 0 (bits (low_mask16 last)) ∷ rounds D k i lawful fit)))
            (fetch_lem D k i lawful fit)
        ∙ flights_batch (pull_of k i) (range_from 0 last) 0 (bits (low_mask16 last))
            (rounds D k i lawful fit)

    -- The tree over the contributions to an element.
    abbrev pub tree_reduction : ℕ → V
    tree_reduction j =
        tree_value (D.combine k.data_type k.reduce_op) k.source_count k.source_count
          (λ t. share D k i memory input_addr j (source_order k i t))

    output_element :
        (j : ℕ)
        → j < tree_bytes k i
        → perform_all D (flights (tree_calls k i)) m ((tree_output k i).addr + j) ≡ tree_reduction j
    output_element j h =
        let two = fit.two_sources in
        ap (λ fs. perform_all D fs m ((tree_output k i).addr + j)) tree_flights
        ∙ ap (λ f. f ((tree_output k i).addr + j))
            (perform_all_append D (map (pull_of k i) (range_from 0 last))
              (flights (rounds D k i lawful fit)) m)
        ∙ ap (λ a. perform_all D (flights (rounds D k i lawful fit)) (fetched m) (a.addr + j))
            (sym output_leaf)
        ∙ rounds-value D lawful (tree_leaves k i k.source_count 0) (tree_bytes k i) k.data_type
            k.reduce_op 1 k.source_count k.source_count j (fetched m) (omega arith) fit.leaves_apart
            h
        ∙ tree_value-eq (D.combine k.data_type k.reduce_op) k.source_count k.source_count _ _
            (omega arith) (λ t below. leaf_value t j below h)

    -- On a lawful device, for 2 to 16 sources of which the own one holds its chunk, with a source
    -- behind the channel of each other one, the address of its input in the channel's variable, the
    -- beginnings of the chunks in the address space, and leaves apart from each other: however the
    -- transfers of the kernel land in a run, each element
    -- of the output is then the combination of the contributions by the reduction tree, whose
    -- leaves are the other sources in their order and then the own one.
    pub tree_calls-reduces :
        {m' : ℕ → V}
        → Run D (tree_calls k i) m [] m'
        → (j : ℕ) → j < tree_bytes k i
        → m' ((tree_output k i).addr + j) ≡ tree_reduction j
    tree_calls-reduces run j h =
        ap (λ f. f ((tree_output k i).addr + j))
          (Run-eq D (tree_calls-IsRaceFree D k i lawful fit) run)
        ∙ output_element j h
