-- ===== src/Ccu/Batch.antt =====
-- Transfers that are launched together on one event and waited for together.
use mathlib.Core.Path.{subst}
use hccl_reduce_scatter.Prelude.{
  ℕ, zero, suc, ◌+◌, ◌≤◌, ◌<◌, ◌≡◌, ◌≢◌, refl, sym, ◌∙◌, ap, true, false, List, [], ◌∷◌, ◌++◌, map,
  range_from, All, All-map_range, append_assoc, append-nil, arith, inl, inr, Bool-cases, ◌==◌,
  ==_iff,
}
use hccl_reduce_scatter.Ccu.{Mask, Flight, Call, start, event_wait}
use hccl_reduce_scatter.Ccu.Device.{
  Device, IsLawful, perform_all, flights, is_awaited, fills, incoming,
}
use hccl_reduce_scatter.Ccu.Race.{Commutes, AllCommute, IsRaceFree, unawaited}
use hccl_reduce_scatter.Ccu.Disjoint.{
  Spares, perform_other, perform_filled, incoming-perform, contra,
}

unawaited-eq-nil :
    (event : ℕ) (mask : Mask) (gs : List Flight)
    → All (λ g. is_awaited event mask g ≡ true) gs
    → unawaited event mask gs ≡ []
unawaited-eq-nil event mask [] h = refl
unawaited-eq-nil event mask (g ∷ gs) h = rw (h.0) (unawaited-eq-nil event mask gs h.1)

pub flights_batch :
    {A : Type 0} (f : A → Flight) (xs : List A) (event : ℕ) (mask : Mask) (cs : List Call)
    → flights (map (λ x. start (f x)) xs ++ (event_wait event mask ∷ cs)) ≡ map f xs ++ flights cs
flights_batch f [] event mask cs = refl
flights_batch f (x ∷ xs) event mask cs = ap (λ k. f x ∷ k) (flights_batch f xs event mask cs)

module _ {V : Type 0} (D : Device V) where
  commute_with_front :
      (gs : List Flight) (f : Flight) (fs : List Flight)
      → AllCommute D (gs ++ (f ∷ fs))
      → All (λ g. Commutes D g f) gs
  commute_with_front [] f fs h = tt
  commute_with_front (g ∷ gs) f fs h = (pick gs h.0, commute_with_front gs f fs h.1)
    where
      pick : (gs : List Flight) → All (Commutes D g) (gs ++ (f ∷ fs)) → Commutes D g f
      pick [] h = h.0
      pick (e ∷ gs) h = pick gs h.1

  -- Pairwise commuting transfers under one wait are free of races.
  pub IsRaceFree-batch :
      {A : Type 0} (f : A → Flight) (xs : List A) (event : ℕ) (mask : Mask) (cs : List Call)
      (gs : List Flight)
      → AllCommute D (gs ++ map f xs)
      → All (λ g. is_awaited event mask g ≡ true) (gs ++ map f xs)
      → IsRaceFree D cs []
      → IsRaceFree D (map (λ x. start (f x)) xs ++ (event_wait event mask ∷ cs)) gs
  IsRaceFree-batch f [] event mask cs gs c w r =
      subst (IsRaceFree D cs)
        (sym (
          unawaited-eq-nil event mask gs
            (subst (All (λ g. is_awaited event mask g ≡ true)) (append-nil gs) w)))
        r
  IsRaceFree-batch f (x ∷ xs) event mask cs gs c w r =
      let e : gs ++ (f x ∷ map f xs) ≡ (gs ++ (f x ∷ [])) ++ map f xs =
        sym (append_assoc gs (f x ∷ []) (map f xs)) in
      (
        commute_with_front gs (f x) (map f xs) c,
        IsRaceFree-batch f xs event mask cs (gs ++ (f x ∷ [])) (subst (AllCommute D) e c)
            (subst (All (λ g. is_awaited event mask g ≡ true)) e w) r,
      )

  pub AllCommute-range :
      (f : ℕ → Flight) (i n : ℕ)
      → ((s t : ℕ) → i ≤ s → s < t → t < i + n → Commutes D (f s) (f t))
      → AllCommute D (map f (range_from i n))
  AllCommute-range f i zero h = tt
  AllCommute-range f i (suc n) h = (
    All-map_range (Commutes D (f i)) f (i + 1) n
        (λ t lo hi. h i t (omega arith) (omega arith) (omega arith)),
    AllCommute-range f (i + 1) n (λ s t lo lt hi. h s t (omega arith) lt (omega arith)),
  )

  module _ (lawful : IsLawful D) (f : ℕ → Flight) where
    -- A cell that no transfer of the batch fills.
    pub batch_frame :
        (i n a : ℕ) (m : ℕ → V)
        → ((t : ℕ) → i ≤ t → t < i + n → fills (f t).transfer a ≡ false)
        → perform_all D (map f (range_from i n)) m a ≡ m a
    batch_frame i zero a m h = refl
    batch_frame i (suc n) a m h =
        batch_frame (i + 1) n a (D.perform (f i).transfer m)
          (λ t lo hi. h t (omega arith) (omega arith))
        ∙ perform_other D lawful (f i).transfer m a (h i (omega arith) (omega arith))

    -- A cell that one transfer fills and the others neither fill nor, at the cell's source, change.
    pub batch_value :
        (i n s a : ℕ) (m : ℕ → V)
        → i ≤ s
        → s < i + n
        → fills (f s).transfer a ≡ true
        → ((t : ℕ) → i ≤ t → t < i + n → t ≢ s → Spares (f t).transfer (f s).transfer)
        → perform_all D (map f (range_from i n)) m a ≡ incoming D (f s).transfer m a
    batch_value i zero s a m lo hi h others = absurd (omega arith)
    batch_value i (suc n) s a m lo hi h others = elim (Bool-cases (i == s)) [
      | inl here ↦
          let same : i ≡ s = (==_iff i s).0 here in
          batch_frame (i + 1) n a (D.perform (f i).transfer m)
            (λ t lo' hi'. unfilled t (others t (omega arith) (omega arith) (omega arith)))
          ∙ ap (λ r. D.perform (f r).transfer m a) same
          ∙ perform_filled D lawful (f s).transfer m a h
      | inr away ↦
          let apart : i ≢ s = (λ e. cc ((==_iff i s).1 e)) in
          let spared = others i (omega arith) (omega arith) apart in
          batch_value (i + 1) n s a (D.perform (f i).transfer m) (omega arith) (omega arith) h
            (λ t lo' hi' ne. others t (omega arith) (omega arith) ne)
          ∙ incoming-perform D lawful (f s).transfer (f i).transfer m a h (unfilled i spared)
              (contra D lawful (f i).transfer (f s).transfer spared)
    ]
      where
        unfilled : (t : ℕ) → Spares (f t).transfer (f s).transfer → fills (f t).transfer a ≡ false
        unfilled t spared = elim (Bool-cases (fills (f t).transfer a)) [
          | inl bad ↦ absurd (cc (spared.0 a bad))
          | inr good ↦ good
        ]
