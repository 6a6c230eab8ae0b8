-- ===== src/Ccu/Overlap.antt =====
-- Transfers in flight beside others: a batch that starts while another one is not awaited yet.
use mathlib.Core.Path.{subst}
use hccl_reduce_scatter.Prelude.{
  ℕ, ◌≡◌, refl, sym, ap, true, false, List, [], ◌∷◌, ◌++◌, map, All, All-append, append_assoc,
  append-nil,
}
use hccl_reduce_scatter.Ccu.{Mask, Flight, Call, start, event_wait}
use hccl_reduce_scatter.Ccu.Device.{Device, is_awaited}
use hccl_reduce_scatter.Ccu.Race.{Commutes, AllCommute, IsRaceFree, unawaited}

-- A wait takes the transfers that it covers and leaves the others.
pub unawaited-append :
    (event : ℕ) (mask : Mask) (bs gs : List Flight)
    → All (λ g. is_awaited event mask g ≡ false) bs
    → All (λ g. is_awaited event mask g ≡ true) gs
    → unawaited event mask (bs ++ gs) ≡ bs
unawaited-append event mask [] [] h w = refl
unawaited-append event mask [] (g ∷ gs) h w = rw (w.0) (unawaited-append event mask [] gs h w.1)
unawaited-append event mask (b ∷ bs) gs h w =
    rw (h.0) (ap (λ l. b ∷ l) (unawaited-append event mask bs gs h.1 w))

module _ {V : Type 0} (D : Device V) where
  front-Commutes :
      (gs : List Flight) (f : Flight) (fs : List Flight)
      → AllCommute D (gs ++ (f ∷ fs))
      → All (λ g. Commutes D g f) gs
  front-Commutes [] f fs h = tt
  front-Commutes (g ∷ gs) f fs h = (pick gs h.0, front-Commutes gs f fs h.1)
    where
      pick : (gs : List Flight) → All (Commutes D g) (gs ++ (f ∷ fs)) → Commutes D g f
      pick [] h = h.0
      pick (e ∷ gs) h = pick gs h.1

  pub AllCommute-joined :
      (bs gs : List Flight)
      → AllCommute D bs
      → AllCommute D gs
      → All (λ b. All (Commutes D b) gs) bs
      → AllCommute D (bs ++ gs)
  AllCommute-joined [] gs h k cross = k
  AllCommute-joined (b ∷ bs) gs h k cross =
      (All-append (Commutes D b) bs gs h.0 cross.0, AllCommute-joined bs gs h.1 k cross.1)

  -- Transfers that start and are not awaited at once.
  pub IsRaceFree-starts :
      {A : Type 0} (f : A → Flight) (xs : List A) (cs : List Call) (gs : List Flight)
      → AllCommute D (gs ++ map f xs)
      → IsRaceFree D cs (gs ++ map f xs)
      → IsRaceFree D (map (λ x. start (f x)) xs ++ cs) gs
  IsRaceFree-starts f [] cs gs c r = subst (IsRaceFree D cs) (append-nil gs) r
  IsRaceFree-starts f (x ∷ xs) cs gs c r =
      let e : gs ++ (f x ∷ map f xs) ≡ (gs ++ (f x ∷ [])) ++ map f xs =
        sym (append_assoc gs (f x ∷ []) (map f xs)) in
      (
        front-Commutes gs (f x) (map f xs) c,
        IsRaceFree-starts f xs cs (gs ++ (f x ∷ [])) (subst (AllCommute D) e c)
            (subst (IsRaceFree D cs) e r),
      )

  -- A batch with its own wait, beside transfers that this wait does not cover.
  pub IsRaceFree-beside :
      {A : Type 0} (f : A → Flight) (xs : List A) (event : ℕ) (mask : Mask) (cs : List Call)
      (bs : List Flight)
      → AllCommute D (bs ++ map f xs)
      → All (λ g. is_awaited event mask g ≡ false) bs
      → All (λ g. is_awaited event mask g ≡ true) (map f xs)
      → IsRaceFree D cs bs
      → IsRaceFree D (map (λ x. start (f x)) xs ++ (event_wait event mask ∷ cs)) bs
  IsRaceFree-beside f xs event mask cs bs c h w r =
      IsRaceFree-starts f xs (event_wait event mask ∷ cs) bs c
        (subst (IsRaceFree D cs) (sym (unawaited-append event mask bs (map f xs) h w)) r)
