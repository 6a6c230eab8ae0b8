-- ===== src/Collective/Direct.antt =====
-- The algorithm `DIRECT_MESH` from the arguments of the collective to its result, over all of its
-- launches.
use native.Mathlib.Nat.{div-add-mod, mod-lt}
use mathlib.Core.Path.{subst}
use hccl_reduce_scatter.Prelude.{
  ℕ, zero, suc, ◌+◌, ◌-◌, ◌*◌, ◌%◌, ◌≤◌, ◌<◌, ◌≡◌, ◌⊎◌, refl, sym, fun_ext, ◌∙◌, ap, List, [], ◌∷◌,
  map, foldl, arith, inl, inr, Bool-cases, ltb, ltb→lt, ltb→le, get_or, min, range_from, word64,
  add64, add64_small, mul64_small, length,
}
use hccl_reduce_scatter.Ccu.{Inputs, Call}
use hccl_reduce_scatter.Ccu.Device.{Device, IsLawful, Run}
use hccl_reduce_scatter.Kernel.Args.{CcuReduceScatterKernelArg}
use hccl_reduce_scatter.Kernel.Direct.{direct_calls, direct_output, direct_offset}
use hccl_reduce_scatter.Kernel.Direct.Laws.{
  IsWired, IsFit, share, direct_calls-reduces, direct_calls_frame,
}
use hccl_reduce_scatter.Ccu.Disjoint.{outside}
use hccl_reduce_scatter.Host.Register.{mesh_kernel_arg}
use hccl_reduce_scatter.Host.Exec.Context.{Task, launch, rank_offset}
use hccl_reduce_scatter.Host.Exec.Mesh.{direct_args, exec_direct}
use hccl_reduce_scatter.Host.Types.{
  max_data_size, HostCall, kernel_launch, local_copy_on_thread, get_mem_token,
  notify_record_on_thread, notify_wait_on_thread,
}
use hccl_reduce_scatter.Host.Exec.Mesh.Laws.{chunk_count, chunk_calls, exec_direct-covers}
use hccl_reduce_scatter.Collective.Joined.{IsJoined}
use hccl_reduce_scatter.Collective.Runs.{RunAll, next, all_done}

module _ {V : Type 0} (D : Device V) (c : Task) (channels : List ℕ) (vars : ℕ → ℕ → ℕ) where
  abbrev pub arg : CcuReduceScatterKernelArg
  arg = mesh_kernel_arg c.param channels

  -- The inputs of the kernel in the launch for a piece of the chunk.
  abbrev pub piece_inputs : ℕ → ℕ → Inputs
  piece_inputs offset bytes = record {
    task_arg = λ n. get_or (direct_args c offset bytes) n 0;
    res_by_channel = vars;
  }

  -- The program of piece `u`, and those of `n` pieces from number `t` on.
  abbrev pub piece_calls : ℕ → List Call
  piece_calls u =
      direct_calls arg
        (piece_inputs (u * max_data_size) (min max_data_size (c.recv_bytes - u * max_data_size)))

  abbrev pub pieces : ℕ → ℕ → List (List Call)
  pieces t n = map piece_calls (range_from t n)

  -- The kernel that a launch of this algorithm runs.
  abbrev pub program_of : HostCall → List Call
  program_of (kernel_launch thread kernel args) =
      direct_calls arg (record { task_arg = λ n. get_or args n 0; res_by_channel = vars })
  program_of (local_copy_on_thread _ _ _ _) = []
  program_of (get_mem_token _ _) = []
  program_of (notify_record_on_thread _ _ _) = []
  program_of (notify_wait_on_thread _ _) = []

  programs_lem :
      (t n : ℕ)
      → map program_of (
          chunk_calls max_data_size c.recv_bytes
            (λ offset bytes. launch c 0 0 (direct_args c offset bytes))
            t
            n)
        ≡ pieces t n
  programs_lem t zero = refl
  programs_lem t (suc n) = ap (λ rest. piece_calls t ∷ rest) (programs_lem (t + 1) n)

  module _ {memory : ℕ → ℕ → V} {input_addr : ℕ → ℕ}
      (joined : IsJoined D c channels vars memory input_addr) where
    chunk_offset : rank_offset c ≡ c.param.my_rank * c.recv_bytes
    chunk_offset =
        mul64_small c.param.my_rank c.recv_bytes
          (omega (arith, joined.input_room c.param.my_rank joined.own_rank))

    offset_lem :
        (o b : ℕ)
        → o < c.recv_bytes
        → direct_offset arg (piece_inputs o b) ≡ c.param.my_rank * c.recv_bytes + o
    offset_lem o b h =
        ap (λ r. add64 r o) chunk_offset
        ∙ add64_small (c.param.my_rank * c.recv_bytes) o
            (omega (arith, joined.input_room c.param.my_rank joined.own_rank))

    output_lem :
        (o b : ℕ)
        → o < c.recv_bytes
        → (direct_output arg (piece_inputs o b)).addr ≡ c.param.output_ptr + o
    output_lem o b h = add64_small c.param.output_ptr o (omega (arith, joined.output_room))

    piece-IsWired : (o b : ℕ) → IsWired D arg (piece_inputs o b) memory input_addr
    piece-IsWired o b = record {
      own_addr = joined.own_input;
      peer_memory = joined.peer_memory;
      peer_addr = joined.peer_addr;
    }

    piece-IsFit : (o b : ℕ) → o < c.recv_bytes → IsFit D arg (piece_inputs o b) input_addr
    piece-IsFit o b h = record {
      two_ranks = joined.two_ranks;
      few_ranks = joined.few_ranks;
      own_rank = joined.own_rank;
      in_space = λ r below. omega (arith, joined.input_room r below, offset_lem o b h);
    }

    -- The contribution of a rank at a position of the chunk that is due to this rank.
    abbrev pub contribution : ℕ → ℕ → V
    contribution e r = memory r (input_addr r + c.param.my_rank * c.recv_bytes + e)

    -- The contributions of all ranks, in the cyclic order that begins with the own rank.
    abbrev pub reduction : ℕ → V
    reduction e =
        foldl (D.combine c.param.data_type c.param.reduce_type) (contribution e c.param.my_rank) (
          map (λ step. contribution e ((c.param.my_rank + step) % c.param.rank_size))
            (range_from 1 (c.param.rank_size - 1)))

    -- The rank's own chunk is still in its input.
    abbrev HoldsChunk : (ℕ → V) → Type 0
    HoldsChunk m =
        (e : ℕ)
        → e < c.recv_bytes
        → m (input_addr c.param.my_rank + c.param.my_rank * c.recv_bytes + e)
          ≡ contribution e c.param.my_rank

    share_lem :
        (o b j r : ℕ)
        → o < c.recv_bytes
        → share D arg (piece_inputs o b) memory input_addr j r ≡ contribution (o + j) r
    share_lem o b j r h =
        let place : input_addr r + direct_offset arg (piece_inputs o b) + j
            ≡ input_addr r + c.param.my_rank * c.recv_bytes + (o + j) =
          omega (arith, offset_lem o b h) in
        ap (memory r) place

    module _ (lawful : IsLawful D) where
      piece_reduces :
          (o b : ℕ) {m m' : ℕ → V}
          → o + b ≤ c.recv_bytes
          → o < c.recv_bytes
          → HoldsChunk m
          → Run D (direct_calls arg (piece_inputs o b)) m [] m'
          → (j : ℕ) → j < b
          → m' (c.param.output_ptr + (o + j)) ≡ reduction (o + j)
      piece_reduces o b {m} {m'} within start holds run j h =
          let at_output : c.param.output_ptr + (o + j)
              ≡ (direct_output arg (piece_inputs o b)).addr + j =
            omega (arith, output_lem o b start) in
          let in_chunk : (j' : ℕ)
              → input_addr c.param.my_rank + direct_offset arg (piece_inputs o b) + j'
                ≡ input_addr c.param.my_rank + c.param.my_rank * c.recv_bytes + (o + j') =
            λ j'. omega (arith, offset_lem o b start) in
          ap m' at_output
          ∙ direct_calls-reduces D arg (piece_inputs o b) (piece-IsWired o b)
              (piece-IsFit o b start) lawful m
              (λ j' l.
                ap m (in_chunk j')
                ∙ holds (o + j') (omega arith)
                ∙ sym (share_lem o b j' c.param.my_rank start))
              run j h
          ∙ ap
              (λ f. foldl (D.combine c.param.data_type c.param.reduce_type) (f c.param.my_rank) (
                map (λ step. f ((c.param.my_rank + step) % c.param.rank_size))
                  (range_from 1 (c.param.rank_size - 1))))
              (fun_ext (λ r. share_lem o b j r start))

      piece_frame :
          (o b : ℕ) {m m' : ℕ → V}
          → o < c.recv_bytes
          → Run D (direct_calls arg (piece_inputs o b)) m [] m'
          → (a : ℕ) → (a < c.param.output_ptr + o) ⊎ (c.param.output_ptr + (o + b) ≤ a)
          → m' a ≡ m a
      piece_frame o b start run a apart =
          let at = output_lem o b start in
          direct_calls_frame D arg (piece_inputs o b) lawful run a (
            outside (direct_output arg (piece_inputs o b)) b a
              (elim apart [ inl l ↦ inl (omega arith) | inr l ↦ inr (omega arith) ]))

      abbrev start_of : ℕ → ℕ
      start_of u = u * max_data_size

      abbrev size_of_piece : ℕ → ℕ
      size_of_piece u = min max_data_size (c.recv_bytes - start_of u)

      pieces_frame :
          (n t : ℕ) {m m' : ℕ → V}
          → start_of (t + n) < c.recv_bytes + max_data_size
          → RunAll D (pieces t n) m m'
          → (a : ℕ)
          → (a < c.param.output_ptr + start_of t) ⊎ (c.param.output_ptr + c.recv_bytes ≤ a)
          → m' a ≡ m a
      pieces_frame zero t h all_done a apart = refl
      pieces_frame (suc n) t h (next run rest) a apart =
          pieces_frame n (t + 1) (omega arith) rest a
            (elim apart [ inl l ↦ inl (omega arith) | inr l ↦ inr l ])
          ∙ piece_frame (start_of t) (size_of_piece t) (omega arith) run a
              (elim apart [ inl l ↦ inl l | inr l ↦ inr (omega arith) ])

      pieces_reduce :
          (n t : ℕ) {m m' : ℕ → V}
          → start_of (t + n) < c.recv_bytes + max_data_size
          → HoldsChunk m
          → RunAll D (pieces t n) m m'
          → (e : ℕ) → start_of t ≤ e
          → e < start_of (t + n)
          → e < c.recv_bytes
          → m' (c.param.output_ptr + e) ≡ reduction e
      pieces_reduce zero t h holds all_done e lo hi in_chunk = absurd (omega arith)
      pieces_reduce (suc n) t {m} h holds (next {m' = m1} run rest) e lo hi in_chunk =
          elim (Bool-cases (ltb e (start_of (t + 1)))) [
            | inl here ↦
                let below = ltb→lt e (start_of (t + 1)) here in
                let j = e - start_of t in
                let place : start_of t + j ≡ e = omega arith in
                pieces_frame n (t + 1) (omega arith) rest (c.param.output_ptr + e)
                  (inl (omega arith))
                ∙ ap (λ q. m1 (c.param.output_ptr + q)) (sym place)
                ∙ piece_reduces (start_of t) (size_of_piece t) (omega arith) (omega arith) holds run
                    j (omega arith)
                ∙ ap reduction place
            | inr later ↦
                pieces_reduce n (t + 1) (omega arith)
                  (still_holds (start_of t) (size_of_piece t) (omega arith) (omega arith) holds run)
                  rest e (ltb→le e (start_of (t + 1)) later) (omega arith) in_chunk
          ]
        where
          still_holds :
              (o b : ℕ) {m m' : ℕ → V}
              → o + b ≤ c.recv_bytes
              → o < c.recv_bytes
              → HoldsChunk m
              → Run D (direct_calls arg (piece_inputs o b)) m [] m'
              → HoldsChunk m'
          still_holds o b within start holds run e h =
              let own = joined.own_input in
              piece_frame o b start run _
                (elim joined.apart [ inl l ↦ inr (omega arith) | inr l ↦ inl (omega arith) ])
              ∙ holds e h

      -- On a lawful device, for a rank joined to 2 to 16 ranks with one channel for each peer, one
      -- registered kernel, and a chunk in the address space with room for one more piece: after
      -- every run of the launches that `ExecOp` makes each element of the chunk is in the output as
      -- the combination of the contributions of all ranks in exactly the cyclic order that begins
      -- with the own rank, across the boundaries of the pieces.
      pub direct-reduce_scatters :
          length channels ≡ c.param.rank_size - 1
          → length c.ctx.ccu_kernels ≡ 1
          → c.recv_bytes + max_data_size < word64
          → (m : ℕ → V) → ((a : ℕ) → m a ≡ memory c.param.my_rank a)
          → {m' : ℕ → V} → RunAll D (map program_of (exec_direct c).calls) m m'
          → (e : ℕ) → e < c.recv_bytes
          → m' (c.param.output_ptr + e) ≡ reduction e
      direct-reduce_scatters count one room m own {m'} run e h =
          let count_lem = div-add-mod (c.recv_bytes + max_data_size - 1) max_data_size in
          let left = mod-lt (c.recv_bytes + max_data_size - 1) {m = max_data_size} (omega arith) in
          let programs : map program_of (exec_direct c).calls
              ≡ pieces 0 (chunk_count max_data_size c.recv_bytes) =
            ap (λ p. map program_of p.calls) (exec_direct-covers c one room)
            ∙ programs_lem 0 (chunk_count max_data_size c.recv_bytes) in
          pieces_reduce (chunk_count max_data_size c.recv_bytes) 0 (omega arith) (λ e' l. own _)
            (subst (λ ps. RunAll D ps m m') programs run) e (omega arith) (omega arith) h
