-- ===== src/Host/Sdk.antt =====
-- The SDK calls of op_host/reduce_scatter.cc, and functions that make them: such a function runs
-- until a call fails or it returns, and leaves the list of the calls made.
pub mod Laws
use hccl_reduce_scatter.Prelude.{
  if◌then◌else◌, ℕ, Bool, true, false, Option, none, some, List, [], ◌∷◌, ◌++◌,
}
use hccl_reduce_scatter.Status.{CcuResult, HcclResult, chk_ret, chk_ret_ccu}
use hccl_reduce_scatter.Host.Types.{CommBuffer}
use hccl_reduce_scatter.Host.Select.{AlgorithmTag}
use hccl_reduce_scatter.Kernel.Args.{
  CcuReduceScatterKernelArg, CcuLocalReduceKernelArg, CcuCrossReduceKernelArg,
  CcuPartialReduceKernelArg, CcuTiledPartialReduceKernelArg, CcuMergePartialKernelArg,
}

-- `CommLink`, as far as the program reads it: whether its protocol is `COMM_PROTOCOL_UBC_CTP`,
-- and its two endpoints.
pub record CommLink : Type 0 where
  pub is_ubc_ctp : Bool
  pub src_endpoint : ℕ
  pub dst_endpoint : ℕ

-- `HcclChannelDesc`; the protocol is always that of the selected link.
pub record HcclChannelDesc : Type 0 where
  pub remote_rank : ℕ
  pub notify_num : ℕ
  pub local_endpoint : ℕ
  pub remote_endpoint : ℕ

-- A kernel function with its argument (`CcuKernelInfo`).
pub data CcuKernelInfo : Type 0 where
  direct_kernel : CcuReduceScatterKernelArg → CcuKernelInfo
  staging_kernel : CcuReduceScatterKernelArg → CcuKernelInfo
  local_kernel : CcuLocalReduceKernelArg → CcuKernelInfo
  cross_kernel : CcuCrossReduceKernelArg → CcuKernelInfo
  striped_kernel : CcuPartialReduceKernelArg → CcuKernelInfo
  small_tree_kernel : CcuPartialReduceKernelArg → CcuKernelInfo
  tiled_kernel : CcuTiledPartialReduceKernelArg → CcuKernelInfo
  merge_kernel : CcuMergePartialKernelArg → CcuKernelInfo

pub data SdkCall : Type 0 where
  get_comm_name reg_op_info get_rank_id get_rank_size get_hccl_buffer : SdkCall
  get_layers channel_desc_init query_ccu_ins : SdkCall
  get_links : ℕ → ℕ → ℕ → SdkCall
  get_ranks_by_layer : ℕ → SdkCall
  channel_acquire : List HcclChannelDesc → SdkCall
  kernel_register_start : ℕ → SdkCall
  kernel_register : ℕ → CcuKernelInfo → SdkCall
  kernel_register_end : ℕ → SdkCall
  thread_acquire_with_stream : ℕ → ℕ → SdkCall
  thread_acquire : ℕ → ℕ → SdkCall
  engine_ctx_get : AlgorithmTag → SdkCall
  engine_ctx_create : AlgorithmTag → ℕ → SdkCall
  engine_ctx_copy : AlgorithmTag → List ℕ → SdkCall

-- The status of a call, and what the last call has put in its output arguments; both may depend
-- on all calls made so far.
pub record Sdk : Type 0 where
  pub hccl_code : List SdkCall → SdkCall → HcclResult
  pub ccu_code : List SdkCall → SdkCall → CcuResult
  pub links : List SdkCall → List CommLink
  pub layers : List SdkCall → List ℕ
  pub ranks : List SdkCall → List ℕ
  pub channel : List SdkCall → ℕ → ℕ
  pub ccu_ins : List SdkCall → ℕ × ℕ
  pub kernel_handle : List SdkCall → ℕ
  pub rank_id : List SdkCall → ℕ
  pub rank_count : List SdkCall → ℕ
  pub thread_handle : List SdkCall → ℕ
  pub buffer : List SdkCall → CommBuffer
  pub engine_ctx : List SdkCall → List ℕ

-- The calls that stand in `CHK_RET_CCU`.
abbrev pub is_registration : SdkCall → Bool
is_registration c = elim c [
  | SdkCall.kernel_register_start _ ↦ true
  | SdkCall.kernel_register _ _ ↦ true
  | SdkCall.kernel_register_end _ ↦ true
  | _ ↦ false
]

-- What the macro around a call returns: `CHK_RET_CCU` around the registration, else `CHK_RET`.
abbrev pub sdk_reply : Sdk → List SdkCall → SdkCall → Option HcclResult
sdk_reply api h c =
    if is_registration c then chk_ret_ccu (api.ccu_code h c) else chk_ret (api.hccl_code h c)

-- Either the function goes on with a value, or its caller returns the code.
pub data Step {ℓ} (A : Type ℓ) : Type ℓ where
  go : A → Step A
  stop : HcclResult → Step A

abbrev pub Act {ℓ} : Type ℓ → Type ℓ
Act A = Sdk → List SdkCall → Step A × List SdkCall

abbrev pub continue {ℓ κ} :
    {A : Type ℓ} {B : Type κ} → Sdk → (A → Act B) → Step A × List SdkCall → Step B × List SdkCall
continue api f (go a, h) = f a api h
continue api f (stop e, h) = (stop e, h)

infixl 5 ◌>>=◌ ◌>>◌
abbrev pub ◌>>=◌ {ℓ κ} : {A : Type ℓ} {B : Type κ} → Act A → (A → Act B) → Act B
(m >>= f) api h = continue api f (m api h)

abbrev pub ◌>>◌ {ℓ κ} : {A : Type ℓ} {B : Type κ} → Act A → Act B → Act B
m >> k = m >>= λ _. k

abbrev pub pure {ℓ} : {A : Type ℓ} → A → Act A
pure a api h = (go a, h)

-- `CHK_RET` or `CHK_RET_CCU` around a call.
abbrev pub call : SdkCall → Act (Unit {0})
call c api h = (elim (sdk_reply api h c) [ none ↦ go tt | some e ↦ stop e ], h ++ (c ∷ []))

-- An output argument of the last call.
abbrev pub ask {ℓ} : {A : Type ℓ} → (Sdk → List SdkCall → A) → Act A
ask f api h = (go (f api h), h)

-- `CHK_PRT_RET`.
abbrev pub refuse : Bool → HcclResult → Act (Unit {0})
refuse true code api h = (stop code, h)
refuse false code api h = (go tt, h)
