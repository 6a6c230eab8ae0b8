-- ===== src/Kernel/Tiled/Pipeline/Tiles.antt =====
-- The tiles of a chunk in the order in which `CcuTiledPartialReduceKernel` takes them.
use hccl_reduce_scatter.Prelude.{
  ℕ, ◌+◌, ◌-◌, ◌*◌, ◌/◌, ◌%◌, ◌≤◌, ◌<◌, ◌≡◌, Bool, List, [], ◌∷◌, ◌++◌, map, ltb, range_from, ◌==◌,
  if◌then◌else◌, word64,
}
use hccl_reduce_scatter.Ccu.{Call, Inputs}
use hccl_reduce_scatter.Kernel.Args.{CcuTiledPartialReduceKernelArg}
use hccl_reduce_scatter.Kernel.Tiled.{
  fetch, await_fetch, reduce_tiled_partial, tile_capacity, pair_count, has_odd_tile, tail_bytes,
  uint64_max,
}
use hccl_reduce_scatter.Kernel.Tiled.Fetch.{Tile}

-- A tile, and whether it is fetched while the tile before it is reduced.
pub record Entry : Type 0 where
  pub is_overlapped : Bool
  pub tile : Tile

module _ (k : CcuTiledPartialReduceKernelArg) (i : Inputs) where
  abbrev pub fetch_tile : Tile → List Call
  fetch_tile j = fetch k i j.offset j.bytes j.bank

  abbrev pub reduce_tile : Tile → List Call
  reduce_tile j = reduce_tiled_partial k i j.offset j.bytes j.bank

  -- A tile that is in its slots, and the tiles that follow it.
  unfoldable pub pipeline : Tile → List Entry → List Call
  pipeline j [] = reduce_tile j
  pipeline j (e ∷ es) =
      (if e.is_overlapped
        then fetch_tile e.tile ++ reduce_tile j
        else reduce_tile j ++ fetch_tile e.tile)
      ++ (await_fetch k i ++ pipeline e.tile es)

  abbrev pub from_start : List Entry → List Call
  from_start [] = []
  from_start (e ∷ es) = fetch_tile e.tile ++ (await_fetch k i ++ pipeline e.tile es)

  -- The tile with an index below the number of full tiles, or the tail at that number.
  abbrev pub tile_at : ℕ → ℕ → Tile
  tile_at full t =
      if t == full
      then record { offset = full * tile_capacity k i; bytes = tail_bytes k i; bank = 1 }
      else record { offset = t * tile_capacity k i; bytes = tile_capacity k i; bank = t % 2 }

  -- The tail overlaps with the odd tile only, and the odd tile with none before it.
  abbrev pub entry_at : ℕ → ℕ → Entry
  entry_at full t = record {
    is_overlapped = if t == full then full % 2 == 1 else ltb t (2 * (full / 2));
    tile = tile_at full t;
  }

  abbrev pub tile_count : ℕ → ℕ
  tile_count full = full + (if tail_bytes k i == 0 then 0 else 1)

  abbrev pub entries : ℕ → List Entry
  entries full = map (entry_at full) (range_from 0 (tile_count full))

  abbrev pub entries_from : ℕ → ℕ → List Entry
  entries_from full t = map (entry_at full) (range_from t (tile_count full - t))

  -- The arguments of the launch cut the chunk into full tiles and a tail.
  pub record IsCut (full : ℕ) : Type 0 where
    pub some : 1 ≤ tile_capacity k i
    pub pairs_left : pair_count k i ≡ uint64_max - full / 2
    pub odd : has_odd_tile k i ≡ full % 2
    pub in_space : full * tile_capacity k i + tail_bytes k i < word64
