-- ===== src/Stream/Context.antt =====
-- `AlgResourceCtx::Serialize` and `DeSerialize` (include/custom.h).
use hccl_reduce_scatter.Prelude.{
  ℕ, ◌^◌, ◌<◌, ◌≡◌, ◌∙◌, Option, some, get_elem?, append-nil, List, [], ◌∷◌, ◌++◌, append_assoc,
  All, length, word64, arith,
}
use hccl_reduce_scatter.Host.Types.{
  ReduceScatterAlgorithm, direct_mesh, staging_mesh, hierarchical, hierarchical_staging,
  dual_die_partial, striped_single_die, small_staging_tree, small_clos_parallel, CommBuffer,
  AlgResourceCtx,
}
use hccl_reduce_scatter.Stream.{◌>>=◌, >>=_some, Codec, plain, vector}
use hccl_reduce_scatter.Stream.Laws.{plain-RoundTrips, vector-RoundTrips}

-- The values of the enumeration `ReduceScatterAlgorithm : uint32_t`.
unfoldable pub number_of : ReduceScatterAlgorithm → ℕ
number_of direct_mesh = 0
number_of staging_mesh = 1
number_of hierarchical = 2
number_of hierarchical_staging = 3
number_of dual_die_partial = 4
number_of striped_single_die = 5
number_of small_staging_tree = 6
number_of small_clos_parallel = 7

-- A number that is no enumerator is no value of the model.
abbrev pub algorithms : List ReduceScatterAlgorithm
algorithms =
    direct_mesh ∷ staging_mesh ∷ hierarchical ∷ hierarchical_staging ∷ dual_die_partial
    ∷ striped_single_die ∷ small_staging_tree ∷ small_clos_parallel ∷ []

unfoldable pub algorithm_codec : Codec ReduceScatterAlgorithm
unfolding number_of
algorithm_codec = record {
  put = λ a. (plain 4).put (number_of a);
  get = λ bs. (plain 4).get bs >>= λ (n, rest). get_elem? algorithms n >>= λ a. some (a, rest);
}

-- The bytes of the struct `CommBuffer`.
unfoldable pub buffer_codec : Codec CommBuffer
buffer_codec = record {
  put = λ b. (plain 8).put b.addr ++ (plain 8).put b.size;
  get = λ bs. (plain 8).get bs >>= λ (addr, rest).
      (plain 8).get rest >>= λ (size, end). some (record { addr = addr; size = size }, end);
}

-- The handles of the SDK are taken to be of 64 bits.
abbrev pub handle_codec : Codec ℕ
handle_codec = plain 8

abbrev pub rank_codec : Codec ℕ
rank_codec = plain 4

unfoldable pub serialize : AlgResourceCtx → List ℕ
serialize r =
    algorithm_codec.put r.algorithm
    ++ (handle_codec.put r.ccu_thread
        ++ (buffer_codec.put r.local_buffer
            ++ ((vector handle_codec).put r.threads
                ++ ((vector handle_codec).put r.ccu_kernels
                    ++ ((vector rank_codec).put r.local_ranks
                        ++ ((vector rank_codec).put r.target_ranks
                            ++ ((vector rank_codec).put r.cross_peers
                                ++ (vector rank_codec).put r.cross_send_target_indices)))))))

unfoldable pub deserialize : List ℕ → Option AlgResourceCtx
deserialize bs = algorithm_codec.get bs >>= λ (algorithm, b1).
    handle_codec.get b1 >>= λ (ccu_thread, b2). buffer_codec.get b2 >>= λ (local_buffer, b3).
    (vector handle_codec).get b3 >>= λ (threads, b4).
    (vector handle_codec).get b4 >>= λ (ccu_kernels, b5).
    (vector rank_codec).get b5 >>= λ (local_ranks, b6).
    (vector rank_codec).get b6 >>= λ (target_ranks, b7).
    (vector rank_codec).get b7 >>= λ (cross_peers, b8).
    (vector rank_codec).get b8 >>= λ (indices, b9). some (record {
      algorithm = algorithm;
      ccu_thread = ccu_thread;
      local_buffer = local_buffer;
      threads = threads;
      ccu_kernels = ccu_kernels;
      local_ranks = local_ranks;
      target_ranks = target_ranks;
      cross_peers = cross_peers;
      cross_send_target_indices = indices;
    })

-- A vector whose values and length fit their types.
abbrev pub FitsVector : ℕ → List ℕ → Type 0
FitsVector w xs = All (λ x. x < 256 ^ w) xs × (length xs < word64)

-- The fields lie in the ranges of their types.
pub record IsRepresentable (r : AlgResourceCtx) : Type 0 where
  pub thread_fits : r.ccu_thread < 256 ^ 8
  pub addr_fits : r.local_buffer.addr < 256 ^ 8
  pub size_fits : r.local_buffer.size < 256 ^ 8
  pub threads_fit : FitsVector 8 r.threads
  pub kernels_fit : FitsVector 8 r.ccu_kernels
  pub local_fit : FitsVector 4 r.local_ranks
  pub target_fit : FitsVector 4 r.target_ranks
  pub peers_fit : FitsVector 4 r.cross_peers
  pub indices_fit : FitsVector 4 r.cross_send_target_indices

algorithm-RoundTrips :
    (a : ReduceScatterAlgorithm) (rest : List ℕ)
    → algorithm_codec.get (algorithm_codec.put a ++ rest) ≡ some (a, rest)
unfolding algorithm_codec
algorithm-RoundTrips direct_mesh rest = rw (plain-RoundTrips 4 0 rest (omega arith))
algorithm-RoundTrips staging_mesh rest = rw (plain-RoundTrips 4 1 rest (omega arith))
algorithm-RoundTrips hierarchical rest = rw (plain-RoundTrips 4 2 rest (omega arith))
algorithm-RoundTrips hierarchical_staging rest = rw (plain-RoundTrips 4 3 rest (omega arith))
algorithm-RoundTrips dual_die_partial rest = rw (plain-RoundTrips 4 4 rest (omega arith))
algorithm-RoundTrips striped_single_die rest = rw (plain-RoundTrips 4 5 rest (omega arith))
algorithm-RoundTrips small_staging_tree rest = rw (plain-RoundTrips 4 6 rest (omega arith))
algorithm-RoundTrips small_clos_parallel rest = rw (plain-RoundTrips 4 7 rest (omega arith))

buffer-RoundTrips :
    (b : CommBuffer) (rest : List ℕ)
    → b.addr < 256 ^ 8
    → b.size < 256 ^ 8
    → buffer_codec.get (buffer_codec.put b ++ rest) ≡ some (b, rest)
unfolding buffer_codec
buffer-RoundTrips b rest h k = rw (
  append_assoc ((plain 8).put b.addr) ((plain 8).put b.size) rest,
  plain-RoundTrips 8 b.addr ((plain 8).put b.size ++ rest) h,
  plain-RoundTrips 8 b.size rest k,
)

handles-RoundTrips :
    (xs rest : List ℕ)
    → FitsVector 8 xs
    → (vector handle_codec).get ((vector handle_codec).put xs ++ rest) ≡ some (xs, rest)
handles-RoundTrips xs rest h = vector-RoundTrips handle_codec _ (plain-RoundTrips 8) xs rest h

ranks-RoundTrips :
    (xs rest : List ℕ)
    → FitsVector 4 xs
    → (vector rank_codec).get ((vector rank_codec).put xs ++ rest) ≡ some (xs, rest)
ranks-RoundTrips xs rest h = vector-RoundTrips rank_codec _ (plain-RoundTrips 4) xs rest h

ranks-RoundTrips_end :
    (xs : List ℕ)
    → FitsVector 4 xs
    → (vector rank_codec).get ((vector rank_codec).put xs) ≡ some (xs, [])
ranks-RoundTrips_end xs h =
    rw (← append-nil ((vector rank_codec).put xs)) (ranks-RoundTrips xs [] h)

-- A context whose fields fit their types comes back from the bytes that it was written to.
pub deserialize-serialize :
    (r : AlgResourceCtx) → IsRepresentable r → deserialize (serialize r) ≡ some r
unfolding deserialize serialize
deserialize-serialize r h =
    >>=_some _ (algorithm-RoundTrips r.algorithm _)
    ∙ >>=_some _ (plain-RoundTrips 8 r.ccu_thread _ h.thread_fits)
    ∙ >>=_some _ (buffer-RoundTrips r.local_buffer _ h.addr_fits h.size_fits)
    ∙ >>=_some _ (handles-RoundTrips r.threads _ h.threads_fit)
    ∙ >>=_some _ (handles-RoundTrips r.ccu_kernels _ h.kernels_fit)
    ∙ >>=_some _ (ranks-RoundTrips r.local_ranks _ h.local_fit)
    ∙ >>=_some _ (ranks-RoundTrips r.target_ranks _ h.target_fit)
    ∙ >>=_some _ (ranks-RoundTrips r.cross_peers _ h.peers_fit)
    ∙ >>=_some _ (ranks-RoundTrips_end r.cross_send_target_indices h.indices_fit)
