-- ===== src/Host/Entry/Resources.antt =====
-- The resources that a first call builds are complete for its algorithm.
use hccl_reduce_scatter.Prelude.{
  ℕ, ◌≤◌, ◌≡◌, refl, ◌∙◌, ap, Bool, true, false, not, List, [], ◌∷◌, if◌then◌else◌, lt→ltb, ◌==◌,
  get_or, length, suc, is_empty,
}
use hccl_reduce_scatter.Status.{hccl_e_internal, hccl_e_not_support}
use hccl_reduce_scatter.Host.Types.{
  ReduceScatterAlgorithm, dual_die_partial, direct_mesh, striped_single_die, small_staging_tree,
  small_clos_parallel, AlgResourceCtx, OpParam,
}
use hccl_reduce_scatter.Host.Select.{
  use_dual_die, use_small_staging_tree, use_small_clos_parallel, use_striped_single_die,
  built_algorithm, registered_algorithm,
}
use hccl_reduce_scatter.Host.Sdk.{
  CcuKernelInfo, direct_kernel, striped_kernel, small_tree_kernel, tiled_kernel, thread_acquire,
  kernel_register, kernel_register_start, kernel_register_end, query_ccu_ins, get_hccl_buffer, Act,
  ask, call, refuse, pure, ◌>>=◌,
}
use hccl_reduce_scatter.Host.Sdk.Laws.{
  Ensures, Ensures_bind, Ensures_pure, Ensures_any, Ensures_weaken, Ensures_then,
}
use hccl_reduce_scatter.Host.Register.{
  mesh_kernel_arg, striped_kernel_arg, small_tree_kernel_arg, small_clos_kernel_arg,
}
use hccl_reduce_scatter.Host.Resources.Channels.{
  other_ranks, acquire_mesh_channels, acquire_channels_at_layer,
}
use hccl_reduce_scatter.Host.Resources.Groups.{
  local_group, build_own_target_plan, holds_rank, remote_ranks,
}
use hccl_reduce_scatter.Host.Resources.Kernels.{
  register_each, register_kernels, register_on, register_striped_single_die_kernel,
  register_small_staging_tree_kernel, register_small_clos_parallel_kernel,
  register_dual_die_partial_kernels,
}
use hccl_reduce_scatter.Host.Entry.{
  build_on_buffer, complete_ctx, threaded_ctx, register_chosen, slave_threads, build_resources,
}

register_each-length :
    (ins : ℕ) (ks : List CcuKernelInfo)
    → Ensures (register_each ins ks) (λ handles. length handles ≡ length ks)
unfolding register_each
register_each-length ins [] = Ensures_pure [] refl
register_each-length ins (k ∷ ks) =
    Ensures_bind (Ensures_any (call (kernel_register ins k))) (λ _ _.
      Ensures_bind (Ensures_any (ask (λ api. api.kernel_handle))) (λ handle _.
        Ensures_bind (register_each-length ins ks)
          (λ rest count. Ensures_pure (handle ∷ rest) (ap suc count))))

-- The resources are those before, with the algorithm and as many kernels.
abbrev Completed : ReduceScatterAlgorithm → ℕ → List ℕ → AlgResourceCtx → Type 0
Completed algorithm kernels threads c =
    (c.algorithm ≡ algorithm) × (length c.ccu_kernels ≡ kernels) × (c.threads ≡ threads)

register_on-Completed :
    (algorithm : ReduceScatterAlgorithm) (kernels : List CcuKernelInfo) (ctx : AlgResourceCtx)
    (ins : ℕ × ℕ)
    → Ensures
        (register_on algorithm kernels ctx ins)
        (Completed algorithm (length kernels) ctx.threads)
unfolding register_on
register_on-Completed algorithm kernels ctx (ins, ins_num) =
    Ensures_then (refuse (not (ins_num == 1)) hccl_e_internal) (
      Ensures_then (call (kernel_register_start ins)) (
        Ensures_bind (register_each-length ins kernels) (λ handles count.
          Ensures_then (call (kernel_register_end ins)) (
            Ensures_pure (record ctx { algorithm = algorithm; ccu_kernels = handles })
              (refl, count, refl)))))

register_kernels-Completed :
    (algorithm : ReduceScatterAlgorithm) (kernels : List CcuKernelInfo) (ctx : AlgResourceCtx)
    → Ensures
        (register_kernels algorithm kernels ctx)
        (Completed algorithm (length kernels) ctx.threads)
unfolding register_kernels
register_kernels-Completed algorithm kernels ctx = Ensures_then (call query_ccu_ins) (
    Ensures_bind {f = register_on algorithm kernels ctx} (Ensures_any (ask (λ api. api.ccu_ins)))
      (λ ins _. register_on-Completed algorithm kernels ctx ins))

build_own_target_plan-threads :
    (param : OpParam) (ctx : AlgResourceCtx)
    → Ensures (build_own_target_plan param ctx) (λ c. c.threads ≡ ctx.threads)
unfolding build_own_target_plan
build_own_target_plan-threads param ctx = Ensures_bind (Ensures_any local_group) (λ group _.
    Ensures_then (refuse (not (holds_rank param.my_rank group)) hccl_e_internal) (
      Ensures_then (refuse (is_empty (remote_ranks param group)) hccl_e_not_support) (
        Ensures_pure
          (record ctx {
            local_ranks = group;
            cross_peers = remote_ranks param group;
            target_ranks = param.my_rank ∷ [];
          })
          refl)))

-- A registration that first acquires channels.
after {ℓ} :
    {A : Type 0} {P : AlgResourceCtx → Type ℓ} (m : Act A) (f : A → Act AlgResourceCtx)
    → ((a : A) → Ensures (f a) P)
    → Ensures (m >>= f) P
after m f next = Ensures_bind {f = f} (Ensures_any m) (λ a _. next a)

dual_die-Completed :
    (param : OpParam) (ctx : AlgResourceCtx)
    → Ensures
        (register_dual_die_partial_kernels param ctx)
        (Completed dual_die_partial 3 ctx.threads)
unfolding register_dual_die_partial_kernels
dual_die-Completed param ctx =
    Ensures_bind
      (Ensures_any
        (acquire_channels_at_layer param.my_rank 0 (other_ranks param.my_rank ctx.local_ranks)))
      (λ locals _.
        Ensures_bind (Ensures_any (acquire_channels_at_layer param.my_rank 1 ctx.cross_peers))
          (λ crosses _. register_kernels-Completed dual_die_partial _ ctx))

abbrev pub kernels_of : OpParam → ℕ
kernels_of param = if use_dual_die param.count param.rank_size then 3 else 1

-- A choice between two registrations, and between what they complete.
either :
    (b : Bool) {x y : Act AlgResourceCtx} {a a' : ReduceScatterAlgorithm} {n n' : ℕ}
    {threads : List ℕ}
    → Ensures x (Completed a n threads)
    → Ensures y (Completed a' n' threads)
    → Ensures (if b then x else y) (Completed (if b then a else a') (if b then n else n') threads)
either true h k = h
either false h k = k

either_same :
    (b : Bool) {x y : Act AlgResourceCtx} {a a' : ReduceScatterAlgorithm} {n : ℕ} {threads : List ℕ}
    → Ensures x (Completed a n threads)
    → Ensures y (Completed a' n threads)
    → Ensures (if b then x else y) (Completed (if b then a else a') n threads)
either_same true h k = h
either_same false h k = k

module _ (param : OpParam) (ctx : AlgResourceCtx) where
  single_die-Completed :
      (algorithm : ReduceScatterAlgorithm) (kernel : List ℕ → CcuKernelInfo)
      → Ensures
          (acquire_mesh_channels param >>= λ channels.
            register_kernels algorithm (kernel channels ∷ []) ctx)
          (Completed algorithm 1 ctx.threads)
  single_die-Completed algorithm kernel =
      after (acquire_mesh_channels param)
        (λ channels. register_kernels algorithm (kernel channels ∷ []) ctx)
        (λ channels. register_kernels-Completed algorithm (kernel channels ∷ []) ctx)

  own_target-Completed :
      Ensures
        (build_own_target_plan param ctx >>= register_dual_die_partial_kernels param)
        (Completed dual_die_partial 3 ctx.threads)
  own_target-Completed = Ensures_bind (build_own_target_plan-threads param ctx) (λ c kept.
      Ensures_weaken (register_dual_die_partial_kernels param c)
        (λ r done. (done.0, done.1, done.2 ∙ kept)) (dual_die-Completed param c))

  register_chosen-Completed :
      Ensures (register_chosen param ctx) (
        Completed (registered_algorithm param.count param.rank_size) (kernels_of param) ctx.threads)
  unfolding register_chosen register_small_staging_tree_kernel register_small_clos_parallel_kernel
      register_striped_single_die_kernel
  register_chosen-Completed =
      either (use_dual_die param.count param.rank_size) own_target-Completed (
        either_same (use_small_staging_tree param.count param.rank_size)
          (single_die-Completed small_staging_tree
            (λ cs. small_tree_kernel (small_tree_kernel_arg param cs)))
          (either_same (use_small_clos_parallel param.count param.rank_size)
            (single_die-Completed small_clos_parallel
              (λ cs. tiled_kernel (small_clos_kernel_arg param cs)))
            (either_same (use_striped_single_die param.count param.rank_size)
              (single_die-Completed striped_single_die
                (λ cs. striped_kernel (striped_kernel_arg param cs)))
              (single_die-Completed direct_mesh (λ cs. direct_kernel (mesh_kernel_arg param cs))))))

abbrev pub threads_of : OpParam → ℕ
threads_of param = if use_dual_die param.count param.rank_size then 2 else 1

slave_threads-length :
    (dual : Bool) → Ensures (slave_threads dual) (λ ts. suc (length ts) ≡ (if dual then 2 else 1))
slave_threads-length true = Ensures_then (call (thread_acquire 1 1)) (
    Ensures_bind {f = λ slave. pure (slave ∷ [])} (Ensures_any (ask (λ api. api.thread_handle)))
      (λ slave _. Ensures_pure (slave ∷ []) refl))
slave_threads-length false = Ensures_pure [] refl

-- With more than one rank: whenever the building of the resources goes on, they are complete.
-- They name the chosen algorithm and have as many threads and kernels as `ExecOp` asks for: two
-- threads and three kernels for the two dies, and one of each for every other algorithm; the
-- first thread is that of the call's stream.
pub build_resources_complete :
    (param : OpParam)
    → 2 ≤ param.rank_size
    → Ensures (build_resources param) (λ ctx.
      (ctx.algorithm ≡ built_algorithm param.count param.rank_size)
      × (length ctx.ccu_kernels ≡ kernels_of param)
      × (length ctx.threads ≡ threads_of param)
      × (get_or ctx.threads 0 0 ≡ param.cpu_thread))
unfolding build_resources
build_resources_complete param several =
    let chosen : registered_algorithm param.count param.rank_size
        ≡ built_algorithm param.count param.rank_size =
      rw (lt→ltb 1 param.rank_size several) refl in
    Ensures_then (call get_hccl_buffer) (
      Ensures_bind {f = build_on_buffer param} (Ensures_any (ask (λ api. api.buffer))) (λ buffer _.
        Ensures_bind (slave_threads-length (use_dual_die param.count param.rank_size))
          (λ slaves count.
            Ensures_weaken (complete_ctx param (threaded_ctx param buffer slaves))
              {P = Completed (registered_algorithm param.count param.rank_size) (kernels_of param)
                (param.cpu_thread ∷ slaves)}
              (λ ctx done. (
                done.0 ∙ chosen,
                done.1,
                ap length done.2 ∙ count,
                ap (λ ts. get_or ts 0 0) done.2,
              ))
              (rw (lt→ltb 1 param.rank_size several)
                (register_chosen-Completed param (threaded_ctx param buffer slaves))))))
