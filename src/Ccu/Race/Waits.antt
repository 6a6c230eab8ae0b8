-- ===== src/Ccu/Race/Waits.antt =====
-- Waits that end: an `EventWait` returns when each bit of its mask has been signalled, and takes
-- these signals; a program hangs at a wait for a bit that no transfer in front of it signals.
use hccl_reduce_scatter.Prelude.{
  ℕ, zero, suc, ◌+◌, ◌≤◌, ◌<◌, ◌≡◌, ◌==◌, sym, true, false, List, [], ◌∷◌, ◌++◌, map, inl, inr,
  Bool-cases, All, bit16, low_mask16, low_mask16-below, bit16-own, range_from, arith, append_assoc,
  append-nil,
}
use mathlib.Core.Path.{subst}
use hccl_reduce_scatter.Ccu.{
  Mask, bits, Flight, Call, start, event_wait, load_arg, write_variable, notify_record, notify_wait,
}
use hccl_reduce_scatter.Ccu.Device.{Device, Run, is_awaited, any_awaited, covers, is_control}
use hccl_reduce_scatter.Ccu.Race.{unawaited, Within, stop, keep, skip, Within-append}
use hccl_reduce_scatter.Ccu.Program.{IsControl}

-- Each of the 16 bits of an event that the mask holds is signalled by one of the transfers.
abbrev pub IsSignalled : ℕ → Mask → List Flight → Type 0
IsSignalled event mask fs =
    (b : ℕ)
    → b < 16
    → covers mask (bits (bit16 b)) ≡ true
    → any_awaited event (bits (bit16 b)) fs ≡ true

-- With the transfers `fs` started and not taken by a wait, every wait of the program is for bits
-- that transfers started in front of it signal.
abbrev pub AllSignalled : List Call → List Flight → Type 0
AllSignalled [] fs = Unit
AllSignalled (start f ∷ cs) fs = AllSignalled cs (fs ++ (f ∷ []))
AllSignalled (event_wait event mask ∷ cs) fs =
    IsSignalled event mask fs × AllSignalled cs (unawaited event mask fs)
AllSignalled (load_arg _ ∷ cs) fs = AllSignalled cs fs
AllSignalled (write_variable _ _ _ _ _ ∷ cs) fs = AllSignalled cs fs
AllSignalled (notify_record _ _ _ ∷ cs) fs = AllSignalled cs fs
AllSignalled (notify_wait _ _ _ ∷ cs) fs = AllSignalled cs fs

any_awaited-Within :
    (event : ℕ) (mask : Mask) {fs gs : List Flight}
    → Within fs gs
    → any_awaited event mask fs ≡ true
    → any_awaited event mask gs ≡ true
any_awaited-Within event mask stop h = h
any_awaited-Within event mask (keep {x = f} w) h = elim (Bool-cases (is_awaited event mask f)) [
  | inl hit ↦ rw hit
  | inr miss ↦ rw miss (any_awaited-Within event mask w (rw miss at h))
]
any_awaited-Within event mask (skip {y = f} w) h = elim (Bool-cases (is_awaited event mask f)) [
  | inl hit ↦ rw hit
  | inr miss ↦ rw miss (any_awaited-Within event mask w h)
]

unawaited-Within_both :
    (event : ℕ) (mask : Mask) {fs gs : List Flight}
    → Within fs gs
    → Within (unawaited event mask fs) (unawaited event mask gs)
unawaited-Within_both event mask stop = stop
unawaited-Within_both event mask (keep {x = f} w) = elim (Bool-cases (is_awaited event mask f)) [
  | inl hit ↦ rw hit (unawaited-Within_both event mask w)
  | inr miss ↦ rw miss (keep (unawaited-Within_both event mask w))
]
unawaited-Within_both event mask (skip {y = f} w) = elim (Bool-cases (is_awaited event mask f)) [
  | inl hit ↦ rw hit (unawaited-Within_both event mask w)
  | inr miss ↦ rw miss (skip (unawaited-Within_both event mask w))
]

-- More signals do no harm.
AllSignalled-Within :
    (cs : List Call) {fs gs : List Flight} → Within fs gs → AllSignalled cs fs → AllSignalled cs gs
AllSignalled-Within [] w h = tt
AllSignalled-Within (start f ∷ cs) w h = AllSignalled-Within cs (Within-append f w) h
AllSignalled-Within (event_wait event mask ∷ cs) w h = (
  λ b below held. any_awaited-Within event (bits (bit16 b)) w (h.0 b below held),
  AllSignalled-Within cs (unawaited-Within_both event mask w) h.1,
)
AllSignalled-Within (load_arg _ ∷ cs) w h = AllSignalled-Within cs w h
AllSignalled-Within (write_variable _ _ _ _ _ ∷ cs) w h = AllSignalled-Within cs w h
AllSignalled-Within (notify_record _ _ _ ∷ cs) w h = AllSignalled-Within cs w h
AllSignalled-Within (notify_wait _ _ _ ∷ cs) w h = AllSignalled-Within cs w h

pub AllSignalled-after_control :
    (cs ds : List Call) (fs : List Flight)
    → All IsControl cs
    → AllSignalled ds fs
    → AllSignalled (cs ++ ds) fs
AllSignalled-after_control [] ds fs h r = r
AllSignalled-after_control (load_arg _ ∷ cs) ds fs h r = AllSignalled-after_control cs ds fs h.1 r
AllSignalled-after_control (write_variable _ _ _ _ _ ∷ cs) ds fs h r =
    AllSignalled-after_control cs ds fs h.1 r
AllSignalled-after_control (notify_record _ _ _ ∷ cs) ds fs h r =
    AllSignalled-after_control cs ds fs h.1 r
AllSignalled-after_control (notify_wait _ _ _ ∷ cs) ds fs h r =
    AllSignalled-after_control cs ds fs h.1 r
AllSignalled-after_control (start _ ∷ cs) ds fs h r = cc (h.0)
AllSignalled-after_control (event_wait _ _ ∷ cs) ds fs h r = cc (h.0)

pub AllSignalled-starts :
    {A : Type 0} (f : A → Flight) (xs : List A) (cs : List Call) (gs : List Flight)
    → AllSignalled cs (gs ++ map f xs)
    → AllSignalled (map (λ x. start (f x)) xs ++ cs) gs
AllSignalled-starts f [] cs gs r = subst (AllSignalled cs) (append-nil gs) r
AllSignalled-starts f (x ∷ xs) cs gs r =
    AllSignalled-starts f xs cs (gs ++ (f x ∷ []))
      (subst (AllSignalled cs) (sym (append_assoc gs (f x ∷ []) (map f xs))) r)

Within-none : {A : Type 0} (xs : List A) → Within [] xs
Within-none [] = stop
Within-none (x ∷ xs) = skip (Within-none xs)

Within-behind : {A : Type 0} (bs xs : List A) → Within xs (bs ++ xs)
Within-behind [] [] = stop
Within-behind [] (x ∷ xs) = keep (Within-behind [] xs)
Within-behind (b ∷ bs) xs = skip (Within-behind bs xs)

-- What a wait does not cover is left.
kept-Within :
    (event : ℕ) (mask : Mask) (bs gs : List Flight)
    → All (λ g. is_awaited event mask g ≡ false) bs
    → Within bs (unawaited event mask (bs ++ gs))
kept-Within event mask [] gs h = Within-none (unawaited event mask gs)
kept-Within event mask (b ∷ bs) gs h = rw (h.0) (keep (kept-Within event mask bs gs h.1))

-- Transfers that signal every bit of the wait behind them, beside others that it does not cover.
pub AllSignalled-batch :
    {A : Type 0} (f : A → Flight) (xs : List A) (event : ℕ) (mask : Mask) (cs : List Call)
    (bs : List Flight)
    → IsSignalled event mask (map f xs)
    → All (λ g. is_awaited event mask g ≡ false) bs
    → AllSignalled cs bs
    → AllSignalled (map (λ x. start (f x)) xs ++ (event_wait event mask ∷ cs)) bs
AllSignalled-batch f xs event mask cs bs signalled others r =
    AllSignalled-starts f xs (event_wait event mask ∷ cs) bs (
      λ b below held.
          any_awaited-Within event (bits (bit16 b)) (Within-behind bs (map f xs))
            (signalled b below held),
      AllSignalled-Within cs (kept-Within event mask bs (map f xs) others) r,
    )

pub any_awaited-map :
    (event : ℕ) (f : ℕ → Flight) (i n t : ℕ)
    → i ≤ t
    → t < i + n
    → t < 16
    → (f t).event ≡ event
    → (f t).mask ≡ bits (bit16 t)
    → any_awaited event (bits (bit16 t)) (map f (range_from i n)) ≡ true
any_awaited-map event f i zero t lo hi few at_event masked = absurd (omega arith)
any_awaited-map event f i (suc n) t lo hi few at_event masked = elim (Bool-cases (i == t)) [
  | inl here ↦
      let same : i ≡ t = ground arith in
      let own : (event == event) ≡ true = ground arith in
      rw (same, at_event, masked, own, bit16-own t few)
  | inr away ↦
      let rest =
        any_awaited-map event f (i + 1) n t (ground arith) (omega arith) few at_event masked in
      elim (Bool-cases (is_awaited event (bits (bit16 t)) (f i))) [
        | inl hit ↦ rw hit
        | inr miss ↦ rw (miss, rest)
      ]
]

-- Transfers that each signal the bit of their number, under the mask of all of them.
pub low_mask-IsSignalled :
    (event n : ℕ) (f : ℕ → Flight)
    → n ≤ 16
    → ((t : ℕ) → (f t).event ≡ event)
    → ((t : ℕ) → (f t).mask ≡ bits (bit16 t))
    → IsSignalled event (bits (low_mask16 n)) (map f (range_from 0 n))
low_mask-IsSignalled event n f few at_event masked b below held =
    let low = low_mask16-below n b few below held in
    any_awaited-map event f 0 n b (omega arith) (omega arith) below (at_event b) (masked b)

pub AllSignalled-wait :
    (event : ℕ) (mask : Mask) (cs : List Call) (fs : List Flight)
    → IsSignalled event mask fs
    → AllSignalled cs []
    → AllSignalled (event_wait event mask ∷ cs) fs
AllSignalled-wait event mask cs fs signalled r =
    (signalled, AllSignalled-Within cs (Within-none (unawaited event mask fs)) r)

-- As `Run`, on a device whose waits block: a wait returns when its bits are signalled and none of
-- the transfers that it covers is in flight, and takes the signals. The second list is of the
-- transfers started whose signals no wait has taken.
pub data RunSignalled {V : Type 0} (D : Device V)
    : List Call → (ℕ → V) → List Flight → List Flight → (ℕ → V) → Type 0 where
  finish : {m : ℕ → V} {fs ss : List Flight} → RunSignalled D [] m fs ss m
  control :
      {c : Call} {cs : List Call} {m m' : ℕ → V} {fs ss : List Flight}
      → is_control c ≡ true
      → RunSignalled D cs m fs ss m'
      → RunSignalled D (c ∷ cs) m fs ss m'
  launch :
      {f : Flight} {cs : List Call} {m m' : ℕ → V} {fs ss : List Flight}
      → RunSignalled D cs m (fs ++ (f ∷ [])) (ss ++ (f ∷ [])) m'
      → RunSignalled D (start f ∷ cs) m fs ss m'
  land :
      {cs : List Call} {m m' : ℕ → V} {fs ss : List Flight} (before : List Flight) (f : Flight)
      (after : List Flight)
      → fs ≡ before ++ (f ∷ after)
      → RunSignalled D cs (D.perform f.transfer m) (before ++ after) ss m'
      → RunSignalled D cs m fs ss m'
  pass :
      {event : ℕ} {mask : Mask} {cs : List Call} {m m' : ℕ → V} {fs ss : List Flight}
      → any_awaited event mask fs ≡ false
      → IsSignalled event mask ss
      → RunSignalled D cs m fs (unawaited event mask ss) m'
      → RunSignalled D (event_wait event mask ∷ cs) m fs ss m'

behind_control :
    (c : Call) (cs : List Call) (ss : List Flight)
    → is_control c ≡ true
    → AllSignalled (c ∷ cs) ss
    → AllSignalled cs ss
behind_control (load_arg _) cs ss h a = a
behind_control (write_variable _ _ _ _ _) cs ss h a = a
behind_control (notify_record _ _ _) cs ss h a = a
behind_control (notify_wait _ _ _) cs ss h a = a
behind_control (start _) cs ss h a = cc h
behind_control (event_wait _ _) cs ss h a = cc h

-- Where every wait is signalled, each run is a run of a device whose waits block.
pub Run-RunSignalled :
    {V : Type 0} (D : Device V) {cs : List Call} {m m' : ℕ → V} {fs : List Flight}
    (ss : List Flight)
    → Run D cs m fs m'
    → AllSignalled cs ss
    → RunSignalled D cs m fs ss m'
Run-RunSignalled D ss Run.finish a = finish
Run-RunSignalled D ss (Run.control {c} {cs} h run) a =
    control h (Run-RunSignalled D ss run (behind_control c cs ss h a))
Run-RunSignalled D ss (Run.launch {f} run) a = launch (Run-RunSignalled D (ss ++ (f ∷ [])) run a)
Run-RunSignalled D ss (Run.land before f after split run) a =
    land before f after split (Run-RunSignalled D ss run a)
Run-RunSignalled D ss (Run.pass {event} {mask} none_left run) a =
    pass none_left a.0 (Run-RunSignalled D (unawaited event mask ss) run a.1)
