-- ===== src/Ccu/Device.antt =====
-- How a CCU runs the calls of a kernel. A transfer is in flight from its call until it lands,
-- at any later moment and in any order among those in flight; `EventWait` holds the kernel back
-- while a transfer that signals one of its bits is in flight.
use Prim.Native.Nat.{bit_and}
use hccl_reduce_scatter.Prelude.{
  ℕ, ◌+◌, ◌-◌, ◌≡◌, Bool, true, false, not, ◌&&◌, ◌||◌, List, [], ◌∷◌, ◌++◌, leb, ltb, ◌==◌,
  if◌then◌else◌,
}
use hccl_reduce_scatter.Ccu.{
  HcclDataType, HcclReduceOp, Address, Transfer, local_copy, local_reduce, read, read_reduce, write,
  Mask, unmasked, bits, Flight, Call, load_arg, write_variable, notify_record, notify_wait, start,
  event_wait,
}

-- The range that a transfer fills in local memory holds the address; a `Write` fills none.
abbrev pub inside : Address → ℕ → ℕ → Bool
inside dst len a = leb dst.addr a && ltb a (dst.addr + len)

abbrev pub fills : Transfer → ℕ → Bool
fills (local_copy dst src len) a = inside dst len a
fills (local_reduce dst src len type op) a = inside dst len a
fills (read channel dst src len) a = inside dst len a
fills (read_reduce channel dst src len type op) a = inside dst len a
fills (write channel dst src len) a = false

-- The source address that corresponds to an address of the destination.
abbrev pub across : Address → Address → ℕ → ℕ
across dst src a = src.addr + (a - dst.addr)

-- A device over the values `V` of memory cells: the reduction of two elements, the memory at the
-- far end of each channel, which stays as it is while a kernel runs, and what landing does.
pub record Device (V : Type 0) : Type 0 where
  pub combine : HcclDataType → HcclReduceOp → V → V → V
  pub remote : ℕ → ℕ → V
  pub perform : Transfer → (ℕ → V) → ℕ → V

module _ {V : Type 0} (D : Device V) where
  -- The value that a transfer puts at an address which it fills.
  abbrev pub incoming : Transfer → (ℕ → V) → ℕ → V
  incoming (local_copy dst src len) m a = m (across dst src a)
  incoming (local_reduce dst src len type op) m a = D.combine type op (m a) (m (across dst src a))
  incoming (read channel dst src len) m a = D.remote channel (across dst src a)
  incoming (read_reduce channel dst src len type op) m a =
      D.combine type op (m a) (D.remote channel (across dst src a))
  incoming (write channel dst src len) m a = m a

  -- The documented behaviour of the transfers: copies and reductions, cell by cell, on the
  -- destination range and nowhere else.
  abbrev pub IsLawful : Type 0
  IsLawful =
      (t : Transfer) (m : ℕ → V) (a : ℕ)
      → D.perform t m a ≡ (if fills t a then incoming t m a else m a)

  abbrev pub perform_all : List Flight → (ℕ → V) → ℕ → V
  perform_all [] m = m
  perform_all (f ∷ fs) m = perform_all fs (D.perform f.transfer m)

-- The wait covers the signal of the transfer.
abbrev pub covers : Mask → Mask → Bool
covers unmasked unmasked = true
covers unmasked (bits s) = true
covers (bits w) unmasked = true
covers (bits w) (bits s) = not (bit_and w s == 0)

abbrev pub is_awaited : ℕ → Mask → Flight → Bool
is_awaited event mask f = (event == f.event) && covers mask f.mask

abbrev pub any_awaited : ℕ → Mask → List Flight → Bool
any_awaited event mask [] = false
any_awaited event mask (f ∷ fs) = is_awaited event mask f || any_awaited event mask fs

-- The call moves no data and waits for none.
abbrev pub is_control : Call → Bool
is_control (start f) = false
is_control (event_wait event mask) = false
is_control (load_arg index) = true
is_control (write_variable channel value id index mask) = true
is_control (notify_record channel index mask) = true
is_control (notify_wait channel index mask) = true

-- `Run D cs m fs m'`: with the transfers `fs` in flight and memory `m`, the calls `cs` can run
-- to their end and leave the memory `m'`.
pub data Run {V : Type 0} (D : Device V)
    : List Call → (ℕ → V) → List Flight → (ℕ → V) → Type 0 where
  finish : {m : ℕ → V} {fs : List Flight} → Run D [] m fs m
  control :
      {c : Call} {cs : List Call} {m m' : ℕ → V} {fs : List Flight}
      → is_control c ≡ true
      → Run D cs m fs m'
      → Run D (c ∷ cs) m fs m'
  launch :
      {f : Flight} {cs : List Call} {m m' : ℕ → V} {fs : List Flight}
      → Run D cs m (fs ++ (f ∷ [])) m'
      → Run D (start f ∷ cs) m fs m'
  land :
      {cs : List Call} {m m' : ℕ → V} {fs : List Flight} (before : List Flight) (f : Flight)
      (after : List Flight)
      → fs ≡ before ++ (f ∷ after)
      → Run D cs (D.perform f.transfer m) (before ++ after) m'
      → Run D cs m fs m'
  pass :
      {event : ℕ} {mask : Mask} {cs : List Call} {m m' : ℕ → V} {fs : List Flight}
      → any_awaited event mask fs ≡ false
      → Run D cs m fs m'
      → Run D (event_wait event mask ∷ cs) m fs m'

-- The transfers of a program, in the order of the calls.
abbrev pub flights : List Call → List Flight
flights [] = []
flights (start f ∷ cs) = f ∷ flights cs
flights (c ∷ cs) = flights cs
