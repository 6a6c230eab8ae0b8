-- ===== src/Collective/DualDie/Refines.antt =====
-- `DUAL_DIE_PARTIAL` keeps the promise of the reduce-scatter.
use mathlib.Core.List.{Permᴰ, map-append}
use mathlib.Core.List.Permᴰ
use mathlib.Core.Path.{subst}
use hccl_reduce_scatter.Prelude.{
  ℕ, suc, ◌+◌, ◌-◌, ◌*◌, ◌≡◌, refl, sym, ◌∙◌, ap, true, List, [], ◌∷◌, ◌++◌, map, arith, get_or,
  length, range_from, map_along,
}
use hccl_reduce_scatter.Ccu.Device.{Device, IsLawful, Run}
use hccl_reduce_scatter.Ccu.Race.Parallel.{RunBoth}
use hccl_reduce_scatter.Kernel.Tree.Values.{tree_value-eq}
use hccl_reduce_scatter.Kernel.Tiled.Result.{source_order}
use hccl_reduce_scatter.Host.Resources.Groups.{index_of}
use hccl_reduce_scatter.Host.Exec.Context.{Task, rank_offset}
use hccl_reduce_scatter.Collective.Slots.{offset_lem}
use hccl_reduce_scatter.Collective.Spec.{Combines, join}
use hccl_reduce_scatter.Collective.Spec.Orders.{own_last, own_last-perm, perm_of_eq}
use hccl_reduce_scatter.Collective.Spec.Trees.{ordered-Combines}
use hccl_reduce_scatter.Collective.Refines.{ReduceScattered}
use hccl_reduce_scatter.Collective.DualDie.{
  local_arg, cross_arg, local_inputs, cross_inputs, IsTwoDies, local_laid, cross_laid,
}
use hccl_reduce_scatter.Collective.DualDie.Cells.{local_program, cross_program, merge_program}
use hccl_reduce_scatter.Collective.DualDie.Result.{
  IsDualWired, local_partial, cross_partial, dual_die-reduces,
}

map_places :
    {V : Type 0} (f : ℕ → V) (rs : List ℕ)
    → map (λ s. f (get_or rs s 0)) (range_from 0 (length rs)) ≡ map f rs
map_places f [] = refl
map_places f (r ∷ rs) =
    ap (λ l. f r ∷ l)
      (map_along (λ s. f (get_or (r ∷ rs) s 0)) (λ s. f (get_or rs s 0)) 1 0 (length rs)
          (λ t h.
            let next : 1 + t ≡ suc t = omega arith in
            let here : t ≡ 0 + t = omega arith in
            ap (λ s. f (get_or (r ∷ rs) s 0)) next ∙ ap (λ s. f (get_or rs s 0)) here)
        ∙ map_places f rs)

module _ {V : Type 0} (D : Device V) (c : Task) (local_channels cross_channels : List ℕ)
    (vars : ℕ → ℕ → ℕ) (lawful : IsLawful D)
    (dies : IsTwoDies D c local_channels cross_channels vars)
    (kernels : length c.ctx.ccu_kernels ≡ 3) (threads : length c.ctx.threads ≡ 2)
    {memory : ℕ → ℕ → V} {input_addr : ℕ → ℕ}
    (wired : IsDualWired D c local_channels cross_channels vars memory input_addr) (m : ℕ → V)
    (own : (a : ℕ) → m a ≡ memory c.param.my_rank a) where
  abbrev contribution_from : ℕ → ℕ → ℕ → V
  contribution_from e offset r = memory r (input_addr r + offset + e)

  abbrev contribution : ℕ → ℕ → V
  contribution e r = contribution_from e (c.param.my_rank * c.recv_bytes) r

  abbrev combine : V → V → V
  combine = D.combine c.param.data_type c.param.reduce_type

  local-Combines :
      (e : ℕ)
      → Combines combine (map (contribution e) c.ctx.local_ranks) (
          local_partial D c local_channels cross_channels vars lawful dies kernels threads wired m
            own e)
  local-Combines e =
      let n = length c.ctx.local_ranks in
      let place = index_of c.param.my_rank c.ctx.local_ranks in
      let f = λ (s : ℕ). contribution e (get_or c.ctx.local_ranks s 0) in
      let offset =
        offset_lem true c _ vars _ _ _
          (local_laid D c local_channels cross_channels vars dies kernels threads) in
      let inside = dies.in_group in
      let same : length local_channels ≡ n - 1 = omega (arith, dies.local_count) in
      subst
        (λ l. Combines combine l (
          local_partial D c local_channels cross_channels vars lawful dies kernels threads wired m
            own e))
        (map_places (contribution e) c.ctx.local_ranks)
        (subst (Combines combine (map f (range_from 0 n)))
          (tree_value-eq combine n n _ _ (omega arith) (λ p h.
            let order : own_last f n place p
                ≡ source_order D (local_arg D c local_channels cross_channels vars)
                    (local_inputs D c local_channels cross_channels vars) p =
              ground arith in
            ap (λ s. contribution e (get_or c.ctx.local_ranks s 0)) order
            ∙ ap
                (λ o. contribution_from e o (
                  get_or c.ctx.local_ranks
                    (source_order D (local_arg D c local_channels cross_channels vars)
                      (local_inputs D c local_channels cross_channels vars) p)
                    0))
                (sym offset)))
          (ordered-Combines combine f n (own_last f n place) (omega arith)
            (own_last-perm f n place inside)))

  cross-Combines :
      (e : ℕ)
      → Combines combine (map (contribution e) c.ctx.cross_peers) (
          cross_partial D c local_channels cross_channels vars lawful dies kernels threads wired m
            own e)
  cross-Combines e =
      let n = length c.ctx.cross_peers in
      let f = λ (s : ℕ). contribution e (get_or c.ctx.cross_peers s 0) in
      let some = dies.dual.cross_some in
      let offset =
        offset_lem true c _ vars _ _ _
          (cross_laid D c local_channels cross_channels vars dies kernels threads) in
      subst
        (λ l. Combines combine l (
          cross_partial D c local_channels cross_channels vars lawful dies kernels threads wired m
            own e))
        (map_places (contribution e) c.ctx.cross_peers)
        (subst (Combines combine (map f (range_from 0 n)))
          (tree_value-eq combine n n _ _ some (λ p h.
            let order : p
                ≡ source_order D (cross_arg D c local_channels cross_channels vars)
                    (cross_inputs D c local_channels cross_channels vars) p =
              ground (arith, dies.cross_count) in
            ap (λ o. contribution_from e o (get_or c.ctx.cross_peers p 0)) (sym offset)
            ∙ ap (λ s. contribution_from e (rank_offset c) (get_or c.ctx.cross_peers s 0)) order))
          (ordered-Combines combine f n (λ t. t) some (Permᴰ.refl _)))

  -- On a lawful device, for a rank of two dies with three kernels and two threads, where its group
  -- and the ranks of the other die are all ranks, each once, every run of the kernels of the dies,
  -- however they interleave, and then of the merge keeps the promise of the reduce-scatter.
  pub dual_die-refines :
      Permᴰ (range_from 0 c.param.rank_size) (c.ctx.local_ranks ++ c.ctx.cross_peers)
      → {m1 m2 : ℕ → V}
      → RunBoth D
          (local_program D c local_channels cross_channels vars)
          []
          (cross_program D c local_channels cross_channels vars)
          []
          m
          m1
      → Run D (merge_program D c local_channels cross_channels vars) m1 [] m2
      → ReduceScattered D c memory input_addr m2
  dual_die-refines all both merge e h =
      subst (Combines combine _)
        (sym (
          dual_die-reduces D c local_channels cross_channels vars lawful dies kernels threads wired
            m own both merge e h))
        (join (local-Combines e) (cross-Combines e) (
          Permᴰ.trans (Permᴰ.map (contribution e) all)
            (perm_of_eq (map-append (contribution e) c.ctx.local_ranks c.ctx.cross_peers))))
