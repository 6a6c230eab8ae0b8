-- ===== src/Host/Exec/Partial/Laws.antt =====
-- The tiles of a chunk and the scratch space of the partial reductions.
use native.Mathlib.Nat.{mul-div-le, div-mul-le_self}
use hccl_reduce_scatter.Prelude.{
  ℕ, ◌+◌, ◌-◌, ◌*◌, ◌/◌, ◌≤◌, ◌<◌, ◌≡◌, refl, sym, ◌∙◌, ap, true, false, arith, leb, ◌==◌,
  ==_positive, le→ltb, min, word64, add64, add64_small, mul64, mul64_small, length,
}
use hccl_reduce_scatter.Status.{hccl_success}
use hccl_reduce_scatter.Host.Exec.Context.{Task, ccl_size, ccl_addr}
use hccl_reduce_scatter.Host.Exec.Partial.{
  scratch_slot_count, partial_tile, local_scratch_bytes, cross_scratch_bytes, cross_scratch_addr,
  cross_partial_addr, dual_die_calls, overflows, exec_partial, preferred_tile_bytes,
}

slots_fit : (slots tile space : ℕ) → tile ≤ space / slots → slots * tile ≤ space
slots_fit slots tile space h = grind (arith, mul-div-le space slots)

module _ (c : Task) where
  -- Two dies whose groups of ranks are small, and a buffer with room for more than the partial.
  pub record IsDualDie : Type 0 where
    pub local_some : 1 ≤ length c.ctx.local_ranks
    pub cross_some : 1 ≤ length c.ctx.cross_peers
    pub few : length c.ctx.local_ranks + length c.ctx.cross_peers ≤ 16
    pub room : c.recv_bytes < ccl_size c
    pub in_space : ccl_addr c + ccl_size c < word64

  module _ (d : IsDualDie) where
    slots_lem :
        scratch_slot_count true c ≡ 2 * (length c.ctx.local_ranks + length c.ctx.cross_peers)
    slots_lem =
        ap (mul64 2)
          (add64_small (length c.ctx.local_ranks) (length c.ctx.cross_peers) (omega arith))
        ∙ mul64_small 2 (length c.ctx.local_ranks + length c.ctx.cross_peers) (omega arith)

    -- The slots of both dies fit beside the partial.
    tile_room :
        2 * (length c.ctx.local_ranks + length c.ctx.cross_peers) * partial_tile true c
        ≤ ccl_size c - c.recv_bytes
    tile_room =
        slots_fit (2 * (length c.ctx.local_ranks + length c.ctx.cross_peers)) (partial_tile true c)
          (ccl_size c - c.recv_bytes)
          (rw (← slots_lem) (
            omega (
              arith,
              div-mul-le_self
                  (min
                    (min preferred_tile_bytes
                      ((ccl_size c - c.recv_bytes) / scratch_slot_count true c))
                    c.recv_bytes)
                  c.data_type_size,
            )))

    local_scratch_lem :
        local_scratch_bytes true c ≡ 2 * length c.ctx.local_ranks * partial_tile true c
    local_scratch_lem =
        ap (λ n. mul64 n (partial_tile true c))
          (mul64_small 2 (length c.ctx.local_ranks) (omega arith))
        ∙ mul64_small _ _ (grind (arith, tile_room))

    cross_scratch_lem :
        cross_scratch_bytes true c ≡ 2 * length c.ctx.cross_peers * partial_tile true c
    cross_scratch_lem =
        ap (λ n. mul64 n (partial_tile true c))
          (mul64_small 2 (length c.ctx.cross_peers) (omega arith))
        ∙ mul64_small _ _ (grind (arith, tile_room))

    cross_scratch_addr_lem :
        cross_scratch_addr true c ≡ ccl_addr c + 2 * length c.ctx.local_ranks * partial_tile true c
    cross_scratch_addr_lem =
        ap (add64 (ccl_addr c)) local_scratch_lem
        ∙ add64_small (ccl_addr c) (2 * length c.ctx.local_ranks * partial_tile true c)
            (omega (arith, tile_room))

    cross_partial_addr_lem :
        cross_partial_addr true c
        ≡ ccl_addr c
          + 2 * length c.ctx.local_ranks * partial_tile true c
          + 2 * length c.ctx.cross_peers * partial_tile true c
    cross_partial_addr_lem =
        ap (λ a. add64 a (cross_scratch_bytes true c)) cross_scratch_addr_lem
        ∙ ap (add64 (ccl_addr c + 2 * length c.ctx.local_ranks * partial_tile true c))
            cross_scratch_lem
        ∙ add64_small (ccl_addr c + 2 * length c.ctx.local_ranks * partial_tile true c)
            (2 * length c.ctx.cross_peers * partial_tile true c) (omega (arith, tile_room))

    fits_lem : overflows true c ≡ false
    fits_lem = le→ltb _ _ (
        omega (
          arith,
          cross_partial_addr_lem,
          tile_room,
          d.room,
          d.in_space,
          add64_small (ccl_addr c) (ccl_size c),
          add64_small (cross_partial_addr true c) c.recv_bytes,
        ))

    no_local : (length c.ctx.local_ranks == 0) ≡ false
    no_local = ground arith

    no_cross : (length c.ctx.cross_peers == 0) ≡ false
    no_cross = ground arith

    no_room : leb (ccl_size c) c.recv_bytes ≡ false
    no_room = ground arith

    -- On two dies, with three kernels and two threads, and a tile of at least one element, the
    -- branch launches the three kernels: its check of the scratch space never fails. The scratch
    -- slots of the local die, those of the other die and the partial lie in this order, without
    -- overlap, inside the CCL buffer.
    pub exec_partial-fits :
        length c.ctx.ccu_kernels ≡ 3
        → length c.ctx.threads ≡ 2
        → 1 ≤ partial_tile true c
        → (exec_partial true c ≡ record { calls = dual_die_calls true c; result = hccl_success })
          × (ccl_addr c + 2 * length c.ctx.local_ranks * partial_tile true c
              ≡ cross_scratch_addr true c)
          × (cross_scratch_addr true c + 2 * length c.ctx.cross_peers * partial_tile true c
              ≡ cross_partial_addr true c)
          × (cross_partial_addr true c + c.recv_bytes ≤ ccl_addr c + ccl_size c)
    unfolding exec_partial
    exec_partial-fits kernels threads some_tile =
        let no_tile : (partial_tile true c == 0) ≡ false =
          ==_positive (partial_tile true c) some_tile in
        (
          rw (kernels, threads, no_local, no_cross, no_room, no_tile, fits_lem) refl,
          sym cross_scratch_addr_lem,
          omega (arith, cross_scratch_addr_lem, cross_partial_addr_lem),
          omega (arith, cross_partial_addr_lem, tile_room, d.room),
        )
