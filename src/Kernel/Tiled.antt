-- ===== src/Kernel/Tiled.antt =====
-- `FetchTiledPartial`, `ReduceTiledPartial` and `CcuTiledPartialReduceKernel`: the chunk is
-- reduced tile by tile, with two banks of scratch slots, so that the sources of one tile are
-- fetched while the tile before it is reduced. `CCU_IF` and `CCU_WHILE` test device variables:
-- the model lists the calls that the device performs for the values at hand.
pub mod Signals
pub mod Fetch
pub mod Pipeline
pub mod Places
pub mod Leaves
pub mod Values
pub mod Outputs
pub mod Remotes
pub mod Footprint
pub mod Races
pub mod Result
use hccl_reduce_scatter.Prelude.{
  ℕ, zero, suc, ◌+◌, ◌-◌, ◌*◌, ◌||◌, ◌&&◌, Bool, not, Option, none, some, List, [], ◌∷◌, ◌++◌, ltb,
  ◌==◌, get_or, if◌then◌else◌, add64, sub32, bit16, low_mask16, word64,
}
use hccl_reduce_scatter.Status.{CcuResult, ccu_e_para}
use hccl_reduce_scatter.Ccu.{Address, read, bits, Call, event_wait, Inputs}
use hccl_reduce_scatter.Kernel.Args.{
  CcuTiledPartialReduceKernelArg, channel_at, shift, max_rank_size,
}
use hccl_reduce_scatter.Kernel.Common.{run_calls, remote_inputs, exchange, nowhere, launch_on}
use hccl_reduce_scatter.Kernel.Tree.{tree_rounds}

abbrev pub uint64_max : ℕ
uint64_max = word64 - 1

module _ (k : CcuTiledPartialReduceKernelArg) (i : Inputs) where
  abbrev pub tiled_output : Address
  tiled_output = record { addr = i.task_arg 0; token = i.task_arg 1 }

  abbrev pub tiled_input : Address
  tiled_input = record { addr = i.task_arg 2; token = i.task_arg 3 }

  abbrev pub tiled_scratch_token : ℕ
  tiled_scratch_token = i.task_arg 4

  abbrev pub tiled_offset : ℕ
  tiled_offset = i.task_arg 5

  abbrev pub tile_capacity : ℕ
  tile_capacity = i.task_arg 6

  abbrev pub pair_count : ℕ
  pair_count = i.task_arg 7

  abbrev pub has_odd_tile : ℕ
  has_odd_tile = i.task_arg 8

  abbrev pub tail_bytes : ℕ
  tail_bytes = i.task_arg 9

  abbrev pub is_included : ℕ → Bool
  is_included source = k.include_local_source && source == k.local_source_index

  abbrev pub tiled_remotes : List Address
  tiled_remotes = remote_inputs k.base is_included tiled_input i k.source_count 0 0

  abbrev pub first_source : ℕ
  first_source = if k.include_local_source && k.local_source_index == 0 then 1 else 0

  -- Where the contribution of a source to a tile is put: the first in the output, each other in
  -- its slot of the bank.
  abbrev pub tile_slot : ℕ → ℕ → ℕ → Address
  tile_slot tile_offset bank source =
      if source == first_source then shift tiled_output tile_offset else record {
        addr = i.task_arg (10 + (bank * k.source_count + source));
        token = tiled_scratch_token;
      }

  -- `FetchTiledPartial`, with `n` sources left. `transferEvent` is event 0.
  pub fetch_tiled_partial : ℕ → ℕ → ℕ → ℕ → ℕ → ℕ → List Call
  fetch_tiled_partial tile_offset tile_bytes bank zero source channel_idx = []
  fetch_tiled_partial tile_offset tile_bytes bank (suc n) source channel_idx =
      (if is_included source
        then []
        else launch_on 0 (bit16 channel_idx) (
            read (channel_at k.base channel_idx) (tile_slot tile_offset bank source)
              (shift (shift (get_or tiled_remotes source nowhere) tiled_offset) tile_offset)
              tile_bytes)
          ∷ [])
      ++ fetch_tiled_partial tile_offset tile_bytes bank n (source + 1)
          (if is_included source then channel_idx else channel_idx + 1)

  -- The work list of `ReduceTiledPartial`, with `n` sources left.
  pub tiled_leaves : ℕ → ℕ → ℕ → ℕ → List Address
  tiled_leaves tile_offset bank zero source =
      if k.include_local_source then shift (shift tiled_input tiled_offset) tile_offset ∷ [] else []
  tiled_leaves tile_offset bank (suc n) source =
      (if is_included source then [] else tile_slot tile_offset bank source ∷ [])
      ++ tiled_leaves tile_offset bank n (source + 1)

  -- `ReduceTiledPartial`. `reduceEvent` is event 1.
  pub reduce_tiled_partial : ℕ → ℕ → ℕ → List Call
  reduce_tiled_partial tile_offset tile_bytes bank =
      tree_rounds (tiled_leaves tile_offset bank k.source_count 0) tile_bytes k.data_type
        k.reduce_op 1 k.source_count k.source_count

  abbrev pub fetch : ℕ → ℕ → ℕ → List Call
  fetch tile_offset tile_bytes bank =
      fetch_tiled_partial tile_offset tile_bytes bank k.source_count 0 0

  abbrev pub await_fetch : List Call
  await_fetch = event_wait 0 (bits (low_mask16 k.base.channel_count)) ∷ []

  abbrev pub has_more_pairs : ℕ → Bool
  has_more_pairs pair = not (pair == uint64_max)

  -- One round of the loop over the pairs of full tiles.
  pub tiled_pair : ℕ → ℕ → List Call
  tiled_pair pair tile_offset =
      let next_offset = add64 tile_offset tile_capacity in
      let after = add64 next_offset tile_capacity in
      let more = has_more_pairs (add64 pair 1) in
      fetch next_offset tile_capacity 1
      ++ (reduce_tiled_partial tile_offset tile_capacity 0
          ++ (await_fetch
              ++ ((if more then fetch after tile_capacity 0 else [])
                  ++ (reduce_tiled_partial next_offset tile_capacity 1
                      ++ (if more then await_fetch else [])))))

  -- `CCU_WHILE(pairCount != UINT64_MAX)`, with what follows the loop. The counter goes up to
  -- `UINT64_MAX`, so the difference is enough fuel.
  pub tiled_pairs : ℕ → ℕ → ℕ → (ℕ → List Call) → List Call
  tiled_pairs zero pair tile_offset after = after tile_offset
  tiled_pairs (suc fuel) pair tile_offset after =
      let rest =
        tiled_pair pair tile_offset
        ++ tiled_pairs fuel (add64 pair 1) (add64 (add64 tile_offset tile_capacity) tile_capacity)
            after in
      if has_more_pairs pair then rest else after tile_offset

  -- The last full tile, if their number is odd, and the fetch of the tail beside it.
  pub tiled_odd : ℕ → List Call
  tiled_odd tile_offset =
      let has_tail = not (tail_bytes == 0) in
      fetch tile_offset tile_capacity 0
      ++ (await_fetch
          ++ ((if has_tail then fetch (add64 tile_offset tile_capacity) tail_bytes 1 else [])
              ++ (reduce_tiled_partial tile_offset tile_capacity 0
                  ++ (if has_tail then await_fetch else []))))

  pub tiled_tail : ℕ → List Call
  tiled_tail tile_offset =
      if tail_bytes == 0
      then []
      else (if has_odd_tile == 0 then fetch tile_offset tail_bytes 1 ++ await_fetch else [])
        ++ reduce_tiled_partial tile_offset tail_bytes 1

  -- What follows the loop.
  pub tiled_rest : ℕ → List Call
  tiled_rest tile_offset =
      if has_odd_tile == 0
      then tiled_tail tile_offset
      else tiled_odd tile_offset ++ tiled_tail (add64 tile_offset tile_capacity)

  pub tiled_calls : List Call
  tiled_calls =
      exchange k.base is_included tiled_input (10 + 2 * k.source_count) k.source_count
      ++ ((if has_more_pairs pair_count then fetch 0 tile_capacity 0 ++ await_fetch else [])
          ++ tiled_pairs (uint64_max - pair_count) pair_count 0 tiled_rest)

abbrev pub tiled_refuses : CcuTiledPartialReduceKernelArg → Bool
tiled_refuses k =
    k.source_count == 0
    || ltb max_rank_size k.source_count
    || not (k.base.channel_count == sub32 k.source_count (if k.include_local_source then 1 else 0))
    || (k.include_local_source && not (ltb k.local_source_index k.source_count))

pub ccu_tiled_partial_reduce_kernel :
    (List Call → Call → CcuResult)
    → Option CcuTiledPartialReduceKernelArg
    → Inputs
    → CcuResult × List Call
ccu_tiled_partial_reduce_kernel reply none i = (ccu_e_para, [])
ccu_tiled_partial_reduce_kernel reply (some k) i =
    if tiled_refuses k then (ccu_e_para, []) else run_calls reply (tiled_calls k i)
