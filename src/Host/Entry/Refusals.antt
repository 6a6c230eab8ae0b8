-- ===== src/Host/Entry/Refusals.antt =====
-- The calls that `HcclReduceScatter` does not support.
use mathlib.Core.Bool.{false≢true}
use hccl_reduce_scatter.Prelude.{
  arith, ℕ, ◌||◌, ◌≡◌, refl, Bool, true, false, not, none, some, List, [], ◌∷◌, ltb, ◌==◌,
}
use hccl_reduce_scatter.Status.{HcclResult, hccl_e_not_support, chk_ret}
use hccl_reduce_scatter.Kernel.Args.{max_rank_size}
use hccl_reduce_scatter.Host.Types.{Hcomm}
use hccl_reduce_scatter.Host.Sdk.{
  Sdk, SdkCall, get_comm_name, reg_op_info, get_rank_id, get_rank_size, Act, ◌>>◌, refuse, stop,
}
use hccl_reduce_scatter.Host.Entry.{Request, is_fp32, is_sum, prepare, acquire, run_reduce_scatter}

-- What the collective asks before it decides whether it supports the call.
abbrev pub queries : List SdkCall
queries = get_comm_name ∷ reg_op_info ∷ get_rank_id ∷ get_rank_size ∷ []

-- The SDK answers these queries.
pub record IsAnswering (sdk : Sdk) : Type 0 where
  pub name : chk_ret (sdk.hccl_code [] get_comm_name) ≡ none
  pub registration : chk_ret (sdk.hccl_code (get_comm_name ∷ []) reg_op_info) ≡ none
  pub rank : chk_ret (sdk.hccl_code (get_comm_name ∷ reg_op_info ∷ []) get_rank_id) ≡ none
  pub ranks :
      chk_ret (sdk.hccl_code (get_comm_name ∷ reg_op_info ∷ get_rank_id ∷ []) get_rank_size) ≡ none

abbrev pub is_unsupported : ℕ → Request → Bool
is_unsupported ranks q =
    (ranks == 0 || ltb max_rank_size ranks) || (not (is_fp32 q.data_type) || not (is_sum q.op))

one_refuses {ℓ} :
    {A : Type ℓ} (size type op : Bool) (code : HcclResult) (k : Act A)
    → (size || (type || op)) ≡ true
    → (sdk : Sdk) (h : List SdkCall)
    → (refuse size code >> (refuse type code >> (refuse op code >> k))) sdk h ≡ (stop code, h)
one_refuses true type op code k h sdk made = refl
one_refuses false true op code k h sdk made = refl
one_refuses false false true code k h sdk made = refl
one_refuses false false false code k h sdk made = absurd (false≢true h)

prepare_refuses :
    (sdk : Sdk) (q : Request)
    → (q.send_buf == 0 || q.recv_buf == 0 || q.comm == 0 || q.stream == 0) ≡ false
    → IsAnswering sdk
    → is_unsupported (sdk.rank_count queries) q ≡ true
    → prepare q sdk [] ≡ (stop hccl_e_not_support, queries)
unfolding prepare
prepare_refuses sdk q pointers answers unsupported =
    let send : (q.send_buf == 0) ≡ false = ground arith in
    let recv : (q.recv_buf == 0) ≡ false = ground arith in
    let comm : (q.comm == 0) ≡ false = ground arith in
    let stream : (q.stream == 0) ≡ false = ground arith in
    let size = sdk.rank_count queries == 0 || ltb max_rank_size (sdk.rank_count queries) in
    rw
      (
        prepare, send, recv, comm, stream, answers.name, answers.registration, answers.rank,
        answers.ranks,
      )
      (one_refuses size (not (is_fp32 q.data_type)) (not (is_sum q.op)) hccl_e_not_support
        (acquire q (sdk.rank_id (get_comm_name ∷ reg_op_info ∷ get_rank_id ∷ []))
          (sdk.rank_count queries))
        unsupported sdk queries)

-- When no pointer is null and the queries for the name, the registration, the rank and the number
-- of ranks succeed, a call for no rank, for more than 16 ranks, for another type than `float` or
-- for another reduction than the sum is refused as not supported, and these queries are the only
-- calls of the SDK: no thread, channel, kernel or context is acquired.
pub unsupported-refused :
    (sdk : Sdk) (hcomm : Hcomm) (q : Request)
    → (q.send_buf == 0 || q.recv_buf == 0 || q.comm == 0 || q.stream == 0) ≡ false
    → IsAnswering sdk
    → is_unsupported (sdk.rank_count queries) q ≡ true
    → run_reduce_scatter sdk hcomm q ≡ (some (hccl_e_not_support, []), queries)
unfolding run_reduce_scatter
unsupported-refused sdk hcomm q pointers answers unsupported =
    rw (prepare_refuses sdk q pointers answers unsupported)
