-- ===== src/Collective/Slots/Tiles.antt =====
-- The tiles that the device loops of `CcuTiledPartialReduceKernel` take on the launch arguments of
-- `ExecOp`.
use hccl_reduce_scatter.Prelude.{
  ℕ, ◌+◌, ◌*◌, ◌≤◌, ◌<◌, ◌≡◌, refl, Bool, true, ◌++◌, arith, inl, inr, Bool-cases, ◌==◌, ==_iff, ap,
  ◌≢◌, ◌%◌, if◌then◌else◌, word64,
}
use hccl_reduce_scatter.Kernel.Args.{CcuTiledPartialReduceKernelArg}
use hccl_reduce_scatter.Kernel.Common.{exchange}
use hccl_reduce_scatter.Kernel.Tiled.{tiled_calls, tiled_input, is_included}
use hccl_reduce_scatter.Kernel.Tiled.Pipeline.{tiled_calls-pipeline}
use hccl_reduce_scatter.Kernel.Tiled.Pipeline.Tiles.{
  IsCut, from_start, entries, tile_at, tile_count,
}
use hccl_reduce_scatter.Host.Exec.Context.{Task}
use hccl_reduce_scatter.Host.Exec.Partial.{full_tile_count}
use hccl_reduce_scatter.Collective.Slots.{inputs, tile, chunk_lem}

last_full :
    (full size tail total t : ℕ)
    → t ≢ full
    → t + 1 ≡ full + (if tail == 0 then 0 else 1)
    → full * size + tail ≡ total
    → t * size + size ≡ total
last_full full size tail total t away at_end whole = elim (Bool-cases (tail == 0)) [
  | inl none_left ↦
      let nothing : tail ≡ 0 = ground arith in
      let here : t + 1 ≡ full + 0 = rw none_left at at_end in
      let whole_tiles : t + 1 ≡ full = omega (arith, here) in
      omega (arith, nothing, ap (λ n. n * size) whole_tiles)
  | inr some_left ↦ let late : t + 1 ≡ full + 1 = rw some_left at at_end in absurd (omega arith)
]

module _ (dual_die : Bool) (c : Task) (k : CcuTiledPartialReduceKernelArg) (vars : ℕ → ℕ → ℕ)
    (out_addr out_token base : ℕ) where
  abbrev full : ℕ
  full = full_tile_count dual_die c

  launch-IsCut :
      1 ≤ tile dual_die c k vars out_addr out_token base
      → c.recv_bytes < word64
      → IsCut k (inputs dual_die c k vars out_addr out_token base) full
  launch-IsCut some space = record {
    some = some;
    pairs_left = refl;
    odd = refl;
    in_space = omega (arith, chunk_lem dual_die c k vars out_addr out_token base);
  }

  -- With a tile of one byte at least and a chunk below the address space, the device loops on the
  -- arguments of the launch fetch and reduce the tiles in order, as many pairs, odd tile and tail
  -- as there are: each tile ends where the next one begins, and the last one at the end of the
  -- chunk.
  pub launch-tiles :
      1 ≤ tile dual_die c k vars out_addr out_token base
      → c.recv_bytes < word64
      → (t : ℕ) → t < tile_count k (inputs dual_die c k vars out_addr out_token base) full
      → (tiled_calls k (inputs dual_die c k vars out_addr out_token base)
          ≡ exchange k.base
              (is_included k (inputs dual_die c k vars out_addr out_token base))
              (tiled_input k (inputs dual_die c k vars out_addr out_token base))
              (10 + 2 * k.source_count)
              k.source_count
            ++ from_start k
                (inputs dual_die c k vars out_addr out_token base)
                (entries k (inputs dual_die c k vars out_addr out_token base) full))
        × ((tile_at k (inputs dual_die c k vars out_addr out_token base) full t).offset
              + (tile_at k (inputs dual_die c k vars out_addr out_token base) full t).bytes
            ≡ (if t + 1 == tile_count k (inputs dual_die c k vars out_addr out_token base) full
                then c.recv_bytes
                else (tile_at k
                    (inputs dual_die c k vars out_addr out_token base)
                    full
                    (t + 1)).offset))
  launch-tiles some space t h =
      let chunk = chunk_lem dual_die c k vars out_addr out_token base in
      (
        tiled_calls-pipeline k (inputs dual_die c k vars out_addr out_token base) full
            (launch-IsCut some space),
        elim (Bool-cases (t == full)) [
          | inl last ↦
              let end : (t + 1
                    == tile_count k (inputs dual_die c k vars out_addr out_token base) full)
                  ≡ true =
                ground arith in
              rw (last, end) chunk
          | inr inner ↦
              elim (Bool-cases
                (t + 1 == tile_count k (inputs dual_die c k vars out_addr out_token base) full)) [
                  | inl end ↦
                      let at_end : t + 1
                          ≡ full
                            + (if c.recv_bytes % tile dual_die c k vars out_addr out_token base == 0
                                then 0
                                else 1) =
                        (==_iff (t + 1) _).0 end in
                      let past : t ≢ full = (λ e. cc ((==_iff t full).1 e, inner)) in
                      rw (inner, end)
                        (last_full full (tile dual_die c k vars out_addr out_token base)
                          (c.recv_bytes % tile dual_die c k vars out_addr out_token base)
                          c.recv_bytes t past at_end chunk)
                  | inr more ↦ elim (Bool-cases (t + 1 == full)) [
                    | inl next ↦
                        let here : t + 1 ≡ full = ground arith in
                        rw (inner, more, next, ← here) (omega arith)
                    | inr away ↦ rw (inner, more, away) (omega arith)
                  ]
                ]
        ],
      )
