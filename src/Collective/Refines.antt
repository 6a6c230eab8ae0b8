-- ===== src/Collective/Refines.antt =====
-- The algorithms implement one specification: every element of the output combines the
-- contributions of all ranks, each once.
use mathlib.Core.List.Permᴰ
use mathlib.Core.Path.{subst}
use hccl_reduce_scatter.Prelude.{
  ℕ, ◌+◌, ◌-◌, ◌*◌, ◌%◌, ◌≤◌, ◌<◌, ◌≡◌, sym, true, false, List, [], ◌∷◌, map, range_from, foldl,
  length, word64, arith,
}
use hccl_reduce_scatter.Ccu.Device.{Device, IsLawful, Run}
use hccl_reduce_scatter.Host.Exec.Context.{Task}
use hccl_reduce_scatter.Host.Exec.Mesh.{exec_direct}
use hccl_reduce_scatter.Host.Exec.Partial.{exec_partial}
use hccl_reduce_scatter.Host.Exec.Small.{exec_small_staging_tree}
use hccl_reduce_scatter.Host.Exec.Striped.Laws.{IsSized}
use hccl_reduce_scatter.Host.Select.{use_small_staging_tree, use_small_clos_parallel}
use hccl_reduce_scatter.Host.Select.Scratch.{IsSmallTask}
use hccl_reduce_scatter.Host.Types.{max_data_size}
use hccl_reduce_scatter.Kernel.Tree.Values.{tree_value}
use hccl_reduce_scatter.Kernel.Striped.{striped_calls}
use hccl_reduce_scatter.Collective.Joined.{IsJoined}
use hccl_reduce_scatter.Collective.Runs.{RunAll}
use hccl_reduce_scatter.Collective.Spec.{Combines, single, Combines-perm, Combines-foldl}
use hccl_reduce_scatter.Collective.Spec.Orders.{cyclic-perm, own_last, own_last-perm}
use hccl_reduce_scatter.Collective.Spec.Trees.{ordered-Combines}
use hccl_reduce_scatter.Collective.Direct as Direct
use hccl_reduce_scatter.Collective.Direct.{direct-reduce_scatters}
use hccl_reduce_scatter.Collective.Striped as Striped
use hccl_reduce_scatter.Collective.Striped.{launch_inputs, striped-reduce_scatters}
use hccl_reduce_scatter.Collective.Clos as Clos
use hccl_reduce_scatter.Collective.Clos.{HasBanks, clos-reduce_scatters}
use hccl_reduce_scatter.Collective.Tree as Tree
use hccl_reduce_scatter.Collective.Tree.{tree-reduce_scatters}
use hccl_reduce_scatter.Collective.Tree.Leaves.{HasScratch}

module _ {V : Type 0} (D : Device V) (c : Task) where
  -- What a reduce-scatter promises to a rank: each element of its chunk is in the output, as a
  -- combination of what all ranks hold at that element, each rank once.
  abbrev pub ReduceScattered : (ℕ → ℕ → V) → (ℕ → ℕ) → (ℕ → V) → Type 0
  ReduceScattered memory input_addr m' =
      (e : ℕ)
      → e < c.recv_bytes
      → Combines (D.combine c.param.data_type c.param.reduce_type)
          (map (λ r. memory r (input_addr r + c.param.my_rank * c.recv_bytes + e))
            (range_from 0 c.param.rank_size))
          (m' (c.param.output_ptr + e))

  cyclic-Combines :
      (value : ℕ → V) (s : ℕ)
      → s < c.param.rank_size
      → Combines
          (D.combine c.param.data_type c.param.reduce_type)
          (map value (range_from 0 c.param.rank_size))
          (foldl
            (D.combine c.param.data_type c.param.reduce_type)
            (value s)
            (map (λ t. value ((s + t) % c.param.rank_size)) (range_from 1 (c.param.rank_size - 1))))
  cyclic-Combines value s h =
      Combines-perm (cyclic-perm value c.param.rank_size s h)
        (Combines-foldl {zs = value s ∷ []} _ (single (Permᴰ.refl (value s ∷ []))))

  -- The tree over the ranks, with the own one last.
  own_last-Combines :
      (f : ℕ → V)
      → c.param.my_rank < c.param.rank_size
      → 2 ≤ c.param.rank_size
      → Combines
          (D.combine c.param.data_type c.param.reduce_type)
          (map f (range_from 0 c.param.rank_size))
          (tree_value
            (D.combine c.param.data_type c.param.reduce_type)
            c.param.rank_size
            c.param.rank_size
            (λ t. f (own_last f c.param.rank_size c.param.my_rank t)))
  own_last-Combines f own two =
      ordered-Combines (D.combine c.param.data_type c.param.reduce_type) f c.param.rank_size
        (own_last f c.param.rank_size c.param.my_rank) (omega arith)
        (own_last-perm f c.param.rank_size c.param.my_rank own)

  module _ (channels : List ℕ) (vars : ℕ → ℕ → ℕ) {memory : ℕ → ℕ → V} {input_addr : ℕ → ℕ}
      (joined : IsJoined D c channels vars memory input_addr) (lawful : IsLawful D)
      (count : length channels ≡ c.param.rank_size - 1) (m : ℕ → V)
      (own : (a : ℕ) → m a ≡ memory c.param.my_rank a) where
    -- On a lawful device, for a rank joined to 2 to 16 ranks with one channel for each peer, one
    -- registered kernel and a chunk in the address space with room for one more piece, every run
    -- of the launches of the direct algorithm keeps the promise of the reduce-scatter.
    pub direct-refines :
        length c.ctx.ccu_kernels ≡ 1
        → c.recv_bytes + max_data_size < word64
        → {m' : ℕ → V}
        → RunAll D (map (Direct.program_of D c channels vars) (exec_direct c).calls) m m'
        → ReduceScattered memory input_addr m'
    direct-refines kernel room runs e h =
        subst (Combines (D.combine c.param.data_type c.param.reduce_type) _)
          (sym (
            direct-reduce_scatters D c channels vars joined lawful count kernel room m own runs e
              h))
          (cyclic-Combines (λ r. memory r (input_addr r + c.param.my_rank * c.recv_bytes + e))
            c.param.my_rank joined.own_rank)

    -- On a lawful device, for a rank joined to 2 to 16 ranks with one channel for each peer and a
    -- chunk of 4-byte elements in the address space, every run of the striped kernel on the
    -- arguments that `ExecOp` launches it with keeps the promise of the reduce-scatter.
    pub striped-refines :
        (sized : IsSized c)
        → {m' : ℕ → V}
        → Run D (striped_calls (Striped.arg D c channels vars) (launch_inputs c vars)) m [] m'
        → ReduceScattered memory input_addr m'
    striped-refines sized run e h =
        let (s, below, value) =
          (striped-reduce_scatters D c channels vars sized joined count m own lawful run e h) in
        subst (Combines (D.combine c.param.data_type c.param.reduce_type) _) (sym value) (
          cyclic-Combines (λ r. memory r (input_addr r + c.param.my_rank * c.recv_bytes + e)) s
            below)

    -- On a lawful device, for a rank joined to the others with one channel for each peer and slots
    -- apart from its output and its chunk, where the small staging tree is chosen, with one
    -- kernel, one thread, a CCL buffer of 1 MB at least and an input below the address space, every
    -- run of its launch keeps the promise of the reduce-scatter.
    pub tree-refines :
        HasScratch c
        → IsSmallTask c
        → use_small_staging_tree c.param.count c.param.rank_size ≡ true
        → length c.ctx.ccu_kernels ≡ 1
        → length c.ctx.threads ≡ 1
        → {m' : ℕ → V}
        → RunAll D (map (Tree.program_of D c channels vars) (exec_small_staging_tree c).calls) m m'
        → ReduceScattered memory input_addr m'
    tree-refines scratch small chosen kernel thread runs e h =
        subst (Combines (D.combine c.param.data_type c.param.reduce_type) _)
          (sym (
            tree-reduce_scatters D c channels vars joined scratch count lawful small chosen kernel
              thread m own runs e h))
          (own_last-Combines (λ r. memory r (input_addr r + c.param.my_rank * c.recv_bytes + e))
            joined.own_rank joined.two_ranks)

    -- On a lawful device, for a rank joined to the others with one channel for each peer and two
    -- banks of slots apart from its output and its chunk, where the parallel reduction of twelve
    -- ranks is chosen, with one kernel, one thread, a CCL buffer of 1 MB at least and an input below
    -- the address space, every run of its launch keeps the promise of the reduce-scatter.
    pub clos-refines :
        HasBanks c
        → IsSmallTask c
        → use_small_clos_parallel c.param.count c.param.rank_size ≡ true
        → length c.ctx.ccu_kernels ≡ 1
        → length c.ctx.threads ≡ 1
        → {m' : ℕ → V}
        → RunAll D (map (Clos.program_of D c channels vars) (exec_partial false c).calls) m m'
        → ReduceScattered memory input_addr m'
    clos-refines banks small chosen kernel thread runs e h =
        subst (Combines (D.combine c.param.data_type c.param.reduce_type) _)
          (sym (
            clos-reduce_scatters D c channels vars joined banks count lawful small chosen kernel
              thread m own runs e h))
          (own_last-Combines (λ r. memory r (input_addr r + c.param.my_rank * c.recv_bytes + e))
            joined.own_rank joined.two_ranks)
