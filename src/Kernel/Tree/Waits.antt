-- ===== src/Kernel/Tree/Waits.antt =====
-- The waits of `CcuSmallStagingTreeKernel`: what is in flight behind them.
use hccl_reduce_scatter.Prelude.{
  ℕ, zero, suc, ◌+◌, ◌-◌, ◌/◌, ◌≤◌, ◌<◌, ◌≡◌, ◌≢◌, refl, true, false, List, [], ◌∷◌, ◌++◌, map,
  arith, inl, inr, Bool-cases, ◌==◌, ==_iff, range_from, get_or, bit16, low_mask16,
  low_mask16-bit16, All,
}
use hccl_reduce_scatter.Ccu.{
  Flight, Call, Mask, Inputs, bits, start, event_wait, load_arg, write_variable, notify_record,
  notify_wait, read, local_reduce, Address, HcclDataType, HcclReduceOp,
}
use hccl_reduce_scatter.Ccu.Device.{is_awaited}
use hccl_reduce_scatter.Ccu.Race.{unawaited}
use hccl_reduce_scatter.Kernel.Args.{channel_at, shift, CcuPartialReduceKernelArg}
use hccl_reduce_scatter.Kernel.Common.{nowhere}
use hccl_reduce_scatter.Kernel.Tree.{
  piece_call, tree_round, tree_fetch, tree_slot, tree_remotes, tree_offset, tree_bytes,
}

-- What can still be in flight when the calls of a program have returned, if `fs` was before.
abbrev pub pending : List Call → List Flight → List Flight
pending [] fs = fs
pending (start f ∷ cs) fs = pending cs (fs ++ (f ∷ []))
pending (event_wait event mask ∷ cs) fs = pending cs (unawaited event mask fs)
pending (load_arg _ ∷ cs) fs = pending cs fs
pending (write_variable _ _ _ _ _ ∷ cs) fs = pending cs fs
pending (notify_record _ _ _ ∷ cs) fs = pending cs fs
pending (notify_wait _ _ _ ∷ cs) fs = pending cs fs

module _ (event : ℕ) (mask : Mask) where
  abbrev AllAwaited : List Flight → Type 0
  AllAwaited fs = All (λ f. is_awaited event mask f ≡ true) fs

  one_more :
      (fs : List Flight) (f : Flight)
      → AllAwaited fs
      → is_awaited event mask f ≡ true
      → AllAwaited (fs ++ (f ∷ []))
  one_more [] f h last = (last, tt)
  one_more (g ∷ fs) f h last = (h.0, one_more fs f h.1 last)

  none_left : (fs : List Flight) → AllAwaited fs → unawaited event mask fs ≡ []
  none_left [] h = refl
  none_left (f ∷ fs) h = rw (h.0) (none_left fs h.1)

pub awaited_bit :
    (event n s : ℕ) (f : Flight)
    → f.event ≡ event
    → f.mask ≡ bits (bit16 s)
    → n ≤ 16
    → s < n
    → is_awaited event (bits (low_mask16 n)) f ≡ true
awaited_bit event n s f at_event masked few below =
    let same : (event == event) ≡ true = ground arith in
    rw (at_event, masked, same, low_mask16-bit16 n s few below)

-- The transfer that pulls a contribution.
module _ (k : CcuPartialReduceKernelArg) (i : Inputs) where
  abbrev pub pull : ℕ → ℕ → Flight
  pull source channel = record {
    transfer =
        read (channel_at k.base channel) (tree_slot k i source)
          (shift (get_or (tree_remotes k i) source nowhere) (tree_offset k i)) (tree_bytes k i);
    event = 0;
    mask = bits (bit16 channel);
  }

module _ (k : CcuPartialReduceKernelArg) (i : Inputs) (n : ℕ) (few : n ≤ 16) where
  abbrev wait : List Call
  wait = event_wait 0 (bits (low_mask16 n)) ∷ []

  with_pull :
      (fs : List Flight) (source channel : ℕ)
      → channel < n
      → AllAwaited 0 (bits (low_mask16 n)) fs
      → AllAwaited 0 (bits (low_mask16 n)) (fs ++ (pull k i source channel ∷ []))
  with_pull fs source channel below h =
      one_more 0 (bits (low_mask16 n)) fs (pull k i source channel) h
        (awaited_bit 0 n channel (pull k i source channel) refl refl few below)

  fetch_behind :
      (left source channel : ℕ) (fs : List Flight)
      → k.local_source_index < source
      → channel + left ≤ n
      → AllAwaited 0 (bits (low_mask16 n)) fs
      → pending (tree_fetch k i left source channel ++ wait) fs ≡ []
  unfolding tree_fetch
  fetch_behind zero source channel fs past room h = none_left 0 (bits (low_mask16 n)) fs h
  fetch_behind (suc left) source channel fs past room h =
      let other : (source == k.local_source_index) ≡ false = ground arith in
      rw other (
        fetch_behind left (source + 1) (channel + 1) (fs ++ (pull k i source channel ∷ []))
          (omega arith) (omega arith) (with_pull fs source channel (omega arith) h))

  fetch-settles :
      (left source channel : ℕ) (fs : List Flight)
      → source ≤ k.local_source_index
      → k.local_source_index < source + left
      → channel + left ≤ n + 1
      → AllAwaited 0 (bits (low_mask16 n)) fs
      → pending (tree_fetch k i left source channel ++ wait) fs ≡ []
  unfolding tree_fetch
  fetch-settles zero source channel fs lo hi room h = absurd (omega arith)
  fetch-settles (suc left) source channel fs lo hi room h =
      elim (Bool-cases (source == k.local_source_index)) [
        | inl own ↦
            let here = (==_iff source k.local_source_index).0 own in
            rw own (fetch_behind left (source + 1) channel fs (omega arith) (omega arith) h)
        | inr other ↦
            let away : source ≢ k.local_source_index = ground arith in
            rw other (
              fetch-settles left (source + 1) (channel + 1) (fs ++ (pull k i source channel ∷ []))
                (omega arith) (omega arith) (omega arith)
                (with_pull fs source channel (omega arith) h))
      ]

module _ (work : List Address) (bytes : ℕ) (type : HcclDataType) (op : HcclReduceOp)
    (event : ℕ) where
  -- The transfer that reduces a piece.
  abbrev pub reduce_piece : ℕ → ℕ → Flight
  reduce_piece base piece = record {
    transfer =
        local_reduce (get_or work piece nowhere) (get_or work (base + piece) nowhere) bytes type op;
    event = event;
    mask = bits (bit16 piece);
  }

  pieces-settle :
      (n : ℕ) (few : n ≤ 16) (base h i : ℕ) (fs : List Flight)
      → i + h ≤ n
      → AllAwaited event (bits (low_mask16 n)) fs
      → pending
          (map (piece_call work bytes type op event base) (range_from i h)
            ++ (event_wait event (bits (low_mask16 n)) ∷ []))
          fs
        ≡ []
  pieces-settle n few base zero i fs room h = none_left event (bits (low_mask16 n)) fs h
  pieces-settle n few base (suc left) i fs room h =
      pieces-settle n few base left (i + 1) (fs ++ (reduce_piece base i ∷ [])) (omega arith) (
        one_more event (bits (low_mask16 n)) fs (reduce_piece base i) h
          (awaited_bit event n i (reduce_piece base i) refl refl few (omega arith)))

-- For an own source among the sources, with one channel for each other source and at most 16 of
-- them: nothing is in flight any more when the wait behind the pulls returns, and nothing when
-- the wait at the end of a round of the tree returns, for a round that begins with nothing in
-- flight and with no more pieces than sources.
pub tree_waits-settle :
    (k : CcuPartialReduceKernelArg) (i : Inputs) (work : List Address) (remain : ℕ)
    → k.local_source_index < k.source_count
    → k.source_count ≡ k.base.channel_count + 1
    → k.base.channel_count ≤ 16
    → remain ≤ k.source_count
    → (pending
          (tree_fetch k i k.source_count 0 0
            ++ (event_wait 0 (bits (low_mask16 k.base.channel_count)) ∷ []))
          []
        ≡ [])
      × (pending (tree_round work (tree_bytes k i) k.data_type k.reduce_op 1 remain) [] ≡ [])
tree_waits-settle k i work remain own channels few rounds = (
  fetch-settles k i k.base.channel_count few k.source_count 0 0 [] (omega arith) (omega arith)
      (omega arith) tt,
  pieces-settle work (tree_bytes k i) k.data_type k.reduce_op 1 (remain / 2) (omega arith)
      (remain - remain / 2) (remain / 2) 0 [] (omega arith) tt,
)
