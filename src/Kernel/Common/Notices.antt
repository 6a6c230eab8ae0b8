-- ===== src/Kernel/Common/Notices.antt =====
-- The handshake of the exchange. The kernel at the other end of a channel is the same: where a
-- kernel makes on each channel the records that it waits for, in front of the wait, the other end
-- has made its own before it can come to its wait, and no two kernels wait for each other.
use mathlib.Core.Path.{subst}
use hccl_reduce_scatter.Prelude.{
  ℕ, zero, suc, ◌+◌, ◌-◌, ◌<◌, ◌≡◌, Bool, true, false, ◌&&◌, ◌||◌, List, [], ◌∷◌, ◌++◌, map, arith,
  inl, inr, Bool-cases, ◌==◌, if◌then◌else◌, range_from, bit16, ready_parts, leb,
}
use hccl_reduce_scatter.Ccu.{
  Address, Call, bits, start, event_wait, load_arg, write_variable, notify_record, notify_wait,
  channel_notify_index,
}
use hccl_reduce_scatter.Ccu.Device.{covers}
use hccl_reduce_scatter.Kernel.Args.{CcuKernelArgBase, channel_at}
use hccl_reduce_scatter.Kernel.Common.{advertise, exchange, wait_all}

-- A record on a channel: its notify index and its mask.
pub record Notice : Type 0 where
  pub channel : ℕ
  pub index : ℕ
  pub mask : ℕ

abbrev pub any_recorded : ℕ → ℕ → ℕ → List Notice → Bool
any_recorded channel index bit [] = false
any_recorded channel index bit (n ∷ ns) =
    (channel == n.channel && index == n.index && covers (bits n.mask) (bits bit))
    || any_recorded channel index bit ns

abbrev pub IsRecorded : ℕ → ℕ → ℕ → List Notice → Type 0
IsRecorded channel index mask ns =
    (b : ℕ)
    → b < 16
    → covers (bits mask) (bits (bit16 b)) ≡ true
    → any_recorded channel index (bit16 b) ns ≡ true

-- Every `NotifyWait` is for bits that an earlier record on its channel, with its index, carries.
abbrev pub AllNotified : List Call → List Notice → Type 0
AllNotified [] ns = Unit
AllNotified (write_variable channel _ _ index mask ∷ cs) ns =
    AllNotified cs (record { channel = channel; index = index; mask = mask } ∷ ns)
AllNotified (notify_record channel index mask ∷ cs) ns =
    AllNotified cs (record { channel = channel; index = index; mask = mask } ∷ ns)
AllNotified (notify_wait channel index mask ∷ cs) ns =
    IsRecorded channel index mask ns × AllNotified cs ns
AllNotified (load_arg _ ∷ cs) ns = AllNotified cs ns
AllNotified (start _ ∷ cs) ns = AllNotified cs ns
AllNotified (event_wait _ _ ∷ cs) ns = AllNotified cs ns

module _ (base : CcuKernelArgBase) (included : Bool) (local_index : ℕ) (own : Address) where
  abbrev is_local : ℕ → Bool
  is_local source = included && source == local_index

  abbrev remote_count : ℕ → ℕ → ℕ
  remote_count zero source = 0
  remote_count (suc n) source = (if is_local source then 0 else 1) + remote_count n (source + 1)

  -- The first `n` channels have their records.
  abbrev AreRecorded : ℕ → List Notice → Type 0
  AreRecorded n ns = (c : ℕ) → c < n → IsRecorded (channel_at base c) 0 6 ns

  -- The records of the address and of the token.
  abbrev with_both : ℕ → List Notice → List Notice
  with_both channel ns =
      record { channel = channel; index = 0; mask = 4 }
      ∷ record { channel = channel; index = 0; mask = 2 }
      ∷ ns

  pair-IsRecorded : (channel : ℕ) (ns : List Notice) → IsRecorded channel 0 6 (with_both channel ns)
  pair-IsRecorded channel ns b below held =
      let same : (channel == channel) ≡ true = ground arith in
      let parts = ready_parts b below held in rw same (ground arith)

  advertise-AreRecorded :
      (n source channel : ℕ) (cs : List Call) (ns : List Notice)
      → ((ns' : List Notice)
          → AreRecorded (channel + remote_count n source) ns'
          → AllNotified cs ns')
      → AreRecorded channel ns
      → AllNotified (advertise base is_local own n source channel ++ cs) ns
  unfolding advertise
  advertise-AreRecorded zero source channel cs ns behind so_far =
      behind ns (λ c h. so_far c (omega arith))
  advertise-AreRecorded (suc n) source channel cs ns behind so_far =
      elim (Bool-cases (is_local source)) [
        | inl here ↦ rw here (
            advertise-AreRecorded n (source + 1) channel cs ns
              (λ ns' all. behind ns' (λ c h. all c (ground arith))) so_far)
        | inr away ↦ rw away (
            advertise-AreRecorded n (source + 1) (channel + 1) cs
              (with_both (channel_at base channel) ns)
              (λ ns' all. behind ns' (λ c h. all c (ground arith)))
              (λ c h. elim (Bool-cases (c == channel)) [
                | inl new ↦
                    let same : channel ≡ c = ground arith in
                    subst
                      (λ d.
                        IsRecorded (channel_at base d) 0 6 (with_both (channel_at base channel) ns))
                      same (pair-IsRecorded (channel_at base channel) ns)
                | inr old ↦ λ b below held.
                    let earlier = so_far c (ground arith) b below held in ground arith
              ]))
      ]

  remote_count_lem :
      (n source : ℕ)
      → (included ≡ true → local_index < source + n)
      → remote_count n source ≡ n - (if included && leb source local_index then 1 else 0)
  remote_count_lem zero source within = ground arith
  remote_count_lem (suc n) source within =
      let rest = remote_count_lem n (source + 1) (λ e. omega (arith, within e)) in
      elim (Bool-cases included) [
        | inl inside ↦ let low = within inside in ground arith
        | inr outside ↦ ground arith
      ]

  waits-AllNotified :
      (i n : ℕ) (ns : List Notice)
      → AreRecorded (i + n) ns
      → AllNotified
          (map (λ j. notify_wait (channel_at base j) channel_notify_index 6) (range_from i n))
          ns
  waits-AllNotified i zero ns all = tt
  waits-AllNotified i (suc n) ns all =
      (all i (omega arith), waits-AllNotified (i + 1) n ns (λ c h. all c (omega arith)))

  loads-AllNotified :
      (i n : ℕ) (cs : List Call) (ns : List Notice)
      → AllNotified cs ns
      → AllNotified (map load_arg (range_from i n) ++ cs) ns
  loads-AllNotified i zero cs ns h = h
  loads-AllNotified i (suc n) cs ns h = loads-AllNotified (i + 1) n cs ns h

  -- With the local source, where there is one, among the sources, and one channel for each other
  -- source, every `NotifyWait` of the exchange is for bits that the kernel has recorded on the same
  -- channel in front of it.
  pub exchange-AllNotified :
      (args sources : ℕ)
      → (included ≡ true → local_index < sources)
      → base.channel_count ≡ sources - (if included then 1 else 0)
      → AllNotified (exchange base is_local own args sources) []
  unfolding exchange
  exchange-AllNotified args sources within each = loads-AllNotified 0 args _ [] (
      advertise-AreRecorded sources 0 0 (wait_all base 6) []
        (λ ns all.
          let count = remote_count_lem sources 0 (λ e. omega (arith, within e)) in
          waits-AllNotified 0 base.channel_count ns (λ c h. all c (ground arith)))
        (λ c h. absurd (omega (arith, h))))
