-- ===== src/Status.antt =====
-- The return codes of include/log.h: the SDK's enumerations, as far as the program names their
-- members, and the conversion between them.
pub mod Laws
use hccl_reduce_scatter.Prelude.{ℕ, Bool, true, false, Option, none, some}

-- `CcuResult`; `ccu_e_other` stands for every code that the program does not name.
pub data CcuResult : Type 0 where
  ccu_success ccu_e_para ccu_e_ptr ccu_e_internal ccu_e_not_support ccu_e_not_found : CcuResult
  ccu_e_unavail : CcuResult
  ccu_e_other : ℕ → CcuResult

-- `HcclResult`, likewise.
pub data HcclResult : Type 0 where
  hccl_success hccl_e_para hccl_e_ptr hccl_e_internal hccl_e_not_support : HcclResult
  hccl_e_not_found hccl_e_unavail : HcclResult
  hccl_e_other : ℕ → HcclResult

unfoldable pub convert_ccu_to_hccl : CcuResult → HcclResult
convert_ccu_to_hccl ccu_success = hccl_success
convert_ccu_to_hccl ccu_e_para = hccl_e_para
convert_ccu_to_hccl ccu_e_ptr = hccl_e_ptr
convert_ccu_to_hccl ccu_e_internal = hccl_e_internal
convert_ccu_to_hccl ccu_e_not_support = hccl_e_not_support
convert_ccu_to_hccl ccu_e_not_found = hccl_e_not_found
convert_ccu_to_hccl ccu_e_unavail = hccl_e_unavail
convert_ccu_to_hccl (ccu_e_other code) = hccl_e_internal

-- `CHK_RET`: the code that the caller returns, and `none` where it goes on.
unfoldable pub chk_ret : HcclResult → Option HcclResult
chk_ret hccl_success = none
chk_ret code = some code

-- `CHK_RET_CCU`.
unfoldable pub chk_ret_ccu : CcuResult → Option HcclResult
unfolding convert_ccu_to_hccl
chk_ret_ccu ccu_success = none
chk_ret_ccu code = some (convert_ccu_to_hccl code)

-- `CCU_RETURN_IF_ERROR`.
unfoldable pub ccu_return_if_error : CcuResult → Option CcuResult
ccu_return_if_error ccu_success = none
ccu_return_if_error code = some code
