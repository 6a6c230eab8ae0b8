-- ===== src/Collective/DualDie/Threads.antt =====
-- The launches of `DUAL_DIE_PARTIAL` on the two threads of a rank: a fork, two kernels, a join and
-- the merge.
use hccl_reduce_scatter.Prelude.{
  ℕ, ◌+◌, ◌<◌, ◌≡◌, ◌≢◌, refl, sym, ◌∙◌, ap, Bool, true, false, List, [], ◌∷◌, arith, ◌==◌,
  if◌then◌else◌, get_or, length,
}
use mathlib.Core.Path.{subst}
use hccl_reduce_scatter.Status.{hccl_success}
use hccl_reduce_scatter.Ccu.{Call, Inputs}
use hccl_reduce_scatter.Ccu.Device.{Device, IsLawful, Run}
use hccl_reduce_scatter.Ccu.Race.Parallel.{RunBoth}
use hccl_reduce_scatter.Kernel.Tiled.{tiled_calls}
use hccl_reduce_scatter.Kernel.Merge.{merge_calls}
use hccl_reduce_scatter.Host.Types.{
  HostCall, local_copy_on_thread, get_mem_token, kernel_launch, notify_record_on_thread,
  notify_wait_on_thread,
}
use hccl_reduce_scatter.Host.Exec.Context.{Task, thread, launch}
use hccl_reduce_scatter.Host.Exec.Partial.{
  exec_partial, local_args, cross_args, merge_args, dual_die_calls,
}
use hccl_reduce_scatter.Collective.DualDie.{local_arg, cross_arg, merge_arg, IsTwoDies, plan}
use hccl_reduce_scatter.Collective.DualDie.Cells.{local_program, cross_program, merge_program}
use hccl_reduce_scatter.Collective.DualDie.Result.{
  IsDualWired, local_partial, cross_partial, dual_die-reduces,
}

-- A thread performs the calls that are made on it in their order.
abbrev on_thread : ℕ → HostCall → Bool
on_thread t (local_copy_on_thread u _ _ _) = u == t
on_thread t (get_mem_token _ _) = false
on_thread t (kernel_launch u _ _) = u == t
on_thread t (notify_record_on_thread u _ _) = u == t
on_thread t (notify_wait_on_thread u _) = u == t

abbrev pub queue : ℕ → List HostCall → List HostCall
queue t [] = []
queue t (c ∷ cs) = let rest = queue t cs in if on_thread t c then c ∷ rest else rest

module _ {V : Type 0} (D : Device V) (c : Task) (local_channels cross_channels : List ℕ)
    (vars : ℕ → ℕ → ℕ) where
  abbrev handle : ℕ → ℕ
  handle n = get_or c.ctx.ccu_kernels n 0

  -- The two threads, and the three kernels, have different handles.
  pub record HasHandles : Type 0 where
    pub threads_apart : thread c 0 ≢ thread c 1
    pub local_cross : handle 0 ≢ handle 1
    pub local_merge : handle 0 ≢ handle 2
    pub cross_merge : handle 1 ≢ handle 2

  abbrev inputs_of : List ℕ → Inputs
  inputs_of args = record { task_arg = λ n. get_or args n 0; res_by_channel = vars }

  -- The program of a launch: the kernel that is registered under the handle, on the arguments.
  abbrev pub program_of : HostCall → List Call
  program_of (local_copy_on_thread _ _ _ _) = []
  program_of (get_mem_token _ _) = []
  program_of (notify_record_on_thread _ _ _) = []
  program_of (notify_wait_on_thread _ _) = []
  program_of (kernel_launch t kernel args) =
      if kernel == handle 0
      then tiled_calls (local_arg D c local_channels cross_channels vars) (inputs_of args)
      else if kernel == handle 1
      then tiled_calls (cross_arg D c local_channels cross_channels vars) (inputs_of args)
      else merge_calls (merge_arg D c local_channels cross_channels vars) (inputs_of args)

  -- What the main thread performs: the fork, a launch, the join and another launch.
  abbrev pub main_queue : HostCall → HostCall → List HostCall
  main_queue first last =
      notify_record_on_thread (thread c 0) (thread c 1) 0
      ∷ first
      ∷ notify_wait_on_thread (thread c 0) 0
      ∷ last
      ∷ []

  -- What the other thread performs between the fork and the join.
  abbrev pub other_queue : HostCall → List HostCall
  other_queue only =
      notify_wait_on_thread (thread c 1) 0
      ∷ only
      ∷ notify_record_on_thread (thread c 1) (thread c 0) 0
      ∷ []

  module _ (dies : IsTwoDies D c local_channels cross_channels vars)
      (kernels : length c.ctx.ccu_kernels ≡ 3) (threads : length c.ctx.threads ≡ 2)
      (handles : HasHandles) where
    calls_lem : (exec_partial true c).calls ≡ dual_die_calls true c
    calls_lem =
        ap (λ p. p.calls) (plan D c local_channels cross_channels vars dies kernels threads).0

    main_lem :
        queue (thread c 0) (dual_die_calls true c)
        ≡ main_queue (launch c 0 0 (local_args true c)) (launch c 0 2 (merge_args true c))
    main_lem =
        let away : (thread c 1 == thread c 0) ≡ false = ground (arith, handles.threads_apart) in
        let here : (thread c 0 == thread c 0) ≡ true = ground arith in rw (away, here) refl

    other_lem :
        queue (thread c 1) (dual_die_calls true c) ≡ other_queue (launch c 1 1 (cross_args true c))
    other_lem =
        let away : (thread c 0 == thread c 1) ≡ false = ground (arith, handles.threads_apart) in
        let here : (thread c 1 == thread c 1) ≡ true = ground arith in rw (away, here) refl

    -- For a rank of two dies with three kernels and two threads under handles of their own,
    -- `ExecOp` succeeds; its main thread performs the fork, the launch on the local die, the join
    -- and the merge, and its other thread, behind the fork, the launch on the other die and then
    -- its part of the join.
    pub dual_die-forks :
        ((exec_partial true c).result ≡ hccl_success)
        × (queue (thread c 0) (exec_partial true c).calls
            ≡ main_queue (launch c 0 0 (local_args true c)) (launch c 0 2 (merge_args true c)))
        × (queue (thread c 1) (exec_partial true c).calls
            ≡ other_queue (launch c 1 1 (cross_args true c)))
    dual_die-forks = (
      ap (λ p. p.result) (plan D c local_channels cross_channels vars dies kernels threads).0,
      ap (queue (thread c 0)) calls_lem ∙ main_lem,
      ap (queue (thread c 1)) calls_lem ∙ other_lem,
    )

    local_lem :
        program_of (launch c 0 0 (local_args true c))
        ≡ local_program D c local_channels cross_channels vars
    local_lem = let same : (handle 0 == handle 0) ≡ true = ground arith in rw same refl

    cross_lem :
        program_of (launch c 1 1 (cross_args true c))
        ≡ cross_program D c local_channels cross_channels vars
    cross_lem =
        let away : (handle 1 == handle 0) ≡ false = ground (arith, handles.local_cross) in
        let same : (handle 1 == handle 1) ≡ true = ground arith in rw (away, same) refl

    merge_lem :
        program_of (launch c 0 2 (merge_args true c))
        ≡ merge_program D c local_channels cross_channels vars
    merge_lem =
        let away : (handle 2 == handle 0) ≡ false = ground (arith, handles.local_merge) in
        let away' : (handle 2 == handle 1) ≡ false = ground (arith, handles.cross_merge) in
        rw (away, away') refl

    -- On a lawful device, for a rank of two dies with three kernels and two threads under handles
    -- of their own: where the calls of `ExecOp` on the main thread are a fork, a launch, a join and
    -- a second launch, and those on the other thread a launch between fork and join, and the
    -- launches on both sides of the fork run side by side, however their calls and transfers
    -- interleave, and then the one behind the join, each element of the chunk is in the output the
    -- combination of the two dies' partials, each the combination of the contributions of its
    -- ranks by the tree.
    pub dual_die_launches-reduce :
        (lawful : IsLawful D) {memory : ℕ → ℕ → V} {input_addr : ℕ → ℕ}
        (wired : IsDualWired D c local_channels cross_channels vars memory input_addr) (m : ℕ → V)
        (own : (a : ℕ) → m a ≡ memory c.param.my_rank a)
        → {first only last : HostCall}
        → queue (thread c 0) (exec_partial true c).calls ≡ main_queue first last
        → queue (thread c 1) (exec_partial true c).calls ≡ other_queue only
        → {m1 m2 : ℕ → V} → RunBoth D (program_of first) [] (program_of only) [] m m1
        → Run D (program_of last) m1 [] m2
        → (e : ℕ) → e < c.recv_bytes
        → m2 (c.param.output_ptr + e)
          ≡ D.combine c.param.data_type c.param.reduce_type
              (local_partial D c local_channels cross_channels vars lawful dies kernels threads
                wired m own e)
              (cross_partial D c local_channels cross_channels vars lawful dies kernels threads
                wired m own e)
    dual_die_launches-reduce lawful wired m own {first} {only} {last} main other {m1} {m2} both
          merge e h =
        let main_eq : main_queue first last
            ≡ main_queue (launch c 0 0 (local_args true c)) (launch c 0 2 (merge_args true c)) =
          sym main ∙ dual_die-forks.1 in
        let other_eq : other_queue only ≡ other_queue (launch c 1 1 (cross_args true c)) =
          sym other ∙ dual_die-forks.2 in
        let first_eq : first ≡ launch c 0 0 (local_args true c) = cc main_eq in
        let last_eq : last ≡ launch c 0 2 (merge_args true c) = cc main_eq in
        let only_eq : only ≡ launch c 1 1 (cross_args true c) = cc other_eq in
        dual_die-reduces D c local_channels cross_channels vars lawful dies kernels threads wired m
          own
          (subst
            (λ q. RunBoth D (local_program D c local_channels cross_channels vars) [] q [] m m1)
            (ap program_of only_eq ∙ cross_lem)
            (subst (λ p. RunBoth D p [] (program_of only) [] m m1)
              (ap program_of first_eq ∙ local_lem) both))
          (subst (λ p. Run D p m1 [] m2) (ap program_of last_eq ∙ merge_lem) merge) e h
