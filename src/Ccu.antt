-- ===== src/Ccu.antt =====
-- The CCU calls that the kernels of op_kernel_ccu/ccu_kernel.cc issue. The calls are the SDK's: a
-- kernel is modelled by the list of the calls that it makes. Device variables stand for
-- the values that they hold when the kernel runs.
pub mod Device
pub mod Race
pub mod Program
pub mod Disjoint
pub mod Batch
pub mod Overlap
use hccl_reduce_scatter.Prelude.{ℕ, List, Option}

-- `HcclDataType` and `HcclReduceOp`; `other` stands for every member that the program does not
-- name.
pub data HcclDataType : Type 0 where
  fp32 : HcclDataType
  other : ℕ → HcclDataType

pub data HcclReduceOp : Type 0 where
  sum : HcclReduceOp
  other : ℕ → HcclReduceOp

-- `ccu::LocalAddr` and `ccu::RemoteAddr`.
pub record Address : Type 0 where
  pub addr : ℕ
  pub token : ℕ

-- The calls that move data: the destination stands before the source, and a call that reaches a
-- peer begins with its channel.
pub data Transfer : Type 0 where
  local_copy : Address → Address → ℕ → Transfer
  local_reduce : Address → Address → ℕ → HcclDataType → HcclReduceOp → Transfer
  read : ℕ → Address → Address → ℕ → Transfer
  read_reduce : ℕ → Address → Address → ℕ → HcclDataType → HcclReduceOp → Transfer
  write : ℕ → Address → Address → ℕ → Transfer

-- The mask argument of a transfer or of `EventWait`, which the kernels may leave out.
pub data Mask : Type 0 where
  unmasked : Mask
  bits : ℕ → Mask

-- A transfer with the event that its end signals.
pub record Flight : Type 0 where
  pub transfer : Transfer
  pub event : ℕ
  pub mask : Mask

pub data Call : Type 0 where
  -- `LoadArg(variable, argId)`
  load_arg : ℕ → Call
  -- `WriteVariableWithNotify(channel, value, variable id, notify index, mask)`
  write_variable : ℕ → ℕ → ℕ → ℕ → ℕ → Call
  -- `NotifyRecord(channel, notify index, mask)` and `NotifyWait`
  notify_record : ℕ → ℕ → ℕ → Call
  notify_wait : ℕ → ℕ → ℕ → Call
  start : Flight → Call
  event_wait : ℕ → Mask → Call

-- What a kernel reads from its environment: the task arguments that `LoadArg` binds, and the
-- variables of a channel, which the peer fills by `WriteVariableWithNotify`.
pub record Inputs : Type 0 where
  pub task_arg : ℕ → ℕ
  pub res_by_channel : ℕ → ℕ → ℕ

abbrev pub channel_notify_index : ℕ
channel_notify_index = 0
