-- ===== src/Ccu/Race.antt =====
-- A program whose concurrent transfers commute has one result: that of its transfers in order.
pub mod Parallel
pub mod Waits
use mathlib.Core.Path.{subst}
use hccl_reduce_scatter.Prelude.{
  ℕ, ◌≡◌, refl, sym, ◌∙◌, ap, Bool, true, false, List, [], ◌∷◌, ◌++◌, inl, inr, Bool-cases,
  if◌then◌else◌, All,
}
use hccl_reduce_scatter.Ccu.{
  Mask, Flight, Call, start, event_wait, load_arg, write_variable, notify_record, notify_wait,
}
use hccl_reduce_scatter.Ccu.Device.{
  Device, perform_all, is_awaited, any_awaited, Run, finish, control, launch, land, pass, flights,
  is_control,
}

-- The transfers that a wait leaves in flight at most.
abbrev pub unawaited : ℕ → Mask → List Flight → List Flight
unawaited event mask [] = []
unawaited event mask (f ∷ fs) =
    let rest = unawaited event mask fs in if is_awaited event mask f then rest else f ∷ rest

module _ {V : Type 0} (D : Device V) where
  abbrev pub Commutes : Flight → Flight → Type 0
  Commutes f g =
      (m : ℕ → V)
      → D.perform f.transfer (D.perform g.transfer m)
        ≡ D.perform g.transfer (D.perform f.transfer m)

  -- Each transfer commutes with every later one.
  abbrev pub AllCommute : List Flight → Type 0
  AllCommute [] = Unit
  AllCommute (f ∷ fs) = All (Commutes f) fs × AllCommute fs

  -- With the transfers `fs` possibly in flight, each new transfer commutes with those, and
  -- nothing is in flight at the end.
  abbrev pub IsRaceFree : List Call → List Flight → Type 0
  IsRaceFree [] fs = fs ≡ []
  IsRaceFree (start f ∷ cs) fs = All (λ g. Commutes g f) fs × IsRaceFree cs (fs ++ (f ∷ []))
  IsRaceFree (event_wait event mask ∷ cs) fs = IsRaceFree cs (unawaited event mask fs)
  IsRaceFree (load_arg _ ∷ cs) fs = IsRaceFree cs fs
  IsRaceFree (write_variable _ _ _ _ _ ∷ cs) fs = IsRaceFree cs fs
  IsRaceFree (notify_record _ _ _ ∷ cs) fs = IsRaceFree cs fs
  IsRaceFree (notify_wait _ _ _ ∷ cs) fs = IsRaceFree cs fs

-- The first list is the second with some elements left out.
data Within {A : Type 0} : List A → List A → Type 0 where
  stop : Within [] []
  keep : {x : A} {xs ys : List A} → Within xs ys → Within (x ∷ xs) (x ∷ ys)
  skip : {y : A} {xs ys : List A} → Within xs ys → Within xs (y ∷ ys)

module _ {A : Type 0} where
  Within-append : (x : A) {xs ys : List A} → Within xs ys → Within (xs ++ (x ∷ [])) (ys ++ (x ∷ []))
  Within-append x stop = keep stop
  Within-append x (keep w) = keep (Within-append x w)
  Within-append x (skip w) = skip (Within-append x w)

  Within-refl : (xs : List A) → Within xs xs
  Within-refl [] = stop
  Within-refl (x ∷ xs) = keep (Within-refl xs)

  Within-trans : {ys zs : List A} → Within ys zs → {xs : List A} → Within xs ys → Within xs zs
  Within-trans stop v = v
  Within-trans (keep w) (keep v) = keep (Within-trans w v)
  Within-trans (keep w) (skip v) = skip (Within-trans w v)
  Within-trans (skip w) v = skip (Within-trans w v)

  Within-remove :
      (before : List A) (x : A) (after : List A) → Within (before ++ after) (before ++ (x ∷ after))
  Within-remove [] x after = skip (Within-refl after)
  Within-remove (y ∷ before) x after = keep (Within-remove before x after)

  Within-nil : {xs : List A} → Within xs [] → xs ≡ []
  Within-nil stop = refl

  Within-All : (P : A → Type 0) {xs ys : List A} → Within xs ys → All P ys → All P xs
  Within-All P stop h = tt
  Within-All P (keep w) h = (h.0, Within-All P w h.1)
  Within-All P (skip w) h = Within-All P w h.1

Within-unawaited :
    (event : ℕ) (mask : Mask) {fs gs : List Flight}
    → any_awaited event mask fs ≡ false
    → Within fs gs
    → Within fs (unawaited event mask gs)
Within-unawaited event mask h stop = stop
Within-unawaited event mask h (keep {x = f} w) = elim (Bool-cases (is_awaited event mask f)) [
  | inl hit ↦ absurd (cc (ap (λ (b : Bool). b) (rw hit at h)))
  | inr miss ↦ rw miss (keep (Within-unawaited event mask (rw miss at h) w))
]
Within-unawaited event mask h (skip {y = f} w) = elim (Bool-cases (is_awaited event mask f)) [
  | inl hit ↦ rw hit (Within-unawaited event mask h w)
  | inr miss ↦ rw miss (skip (Within-unawaited event mask h w))
]

unawaited-Within :
    (event : ℕ) (mask : Mask) (fs : List Flight) → Within (unawaited event mask fs) fs
unawaited-Within event mask [] = stop
unawaited-Within event mask (f ∷ fs) = elim (Bool-cases (is_awaited event mask f)) [
  | inl hit ↦ rw hit (skip (unawaited-Within event mask fs))
  | inr miss ↦ rw miss (keep (unawaited-Within event mask fs))
]

module _ {V : Type 0} (D : Device V) where
  AllCommute-Within : {fs gs : List Flight} → Within fs gs → AllCommute D gs → AllCommute D fs
  AllCommute-Within stop h = tt
  AllCommute-Within (keep w) h = (Within-All _ w h.0, AllCommute-Within w h.1)
  AllCommute-Within (skip w) h = AllCommute-Within w h.1

  AllCommute-append :
      (fs : List Flight) (f : Flight)
      → AllCommute D fs
      → All (λ g. Commutes D g f) fs
      → AllCommute D (fs ++ (f ∷ []))
  AllCommute-append [] f h c = (tt, tt)
  AllCommute-append (g ∷ fs) f h c = (All-append fs f h.0 c.0, AllCommute-append fs f h.1 c.1)
    where
      All-append :
          (fs : List Flight) (f : Flight)
          → All (Commutes D g) fs
          → Commutes D g f
          → All (Commutes D g) (fs ++ (f ∷ []))
      All-append [] f h c = (c, tt)
      All-append (e ∷ fs) f h c = (h.0, All-append fs f h.1 c)

  perform_all-append :
      (fs gs : List Flight) (m : ℕ → V)
      → perform_all D (fs ++ gs) m ≡ perform_all D gs (perform_all D fs m)
  perform_all-append [] gs m = refl
  perform_all-append (f ∷ fs) gs m = perform_all-append fs gs (D.perform f.transfer m)

  -- A transfer in flight may land first.
  perform_all_early :
      (before : List Flight) (f : Flight) (after : List Flight) (m : ℕ → V)
      → AllCommute D (before ++ (f ∷ after))
      → perform_all D (before ++ (f ∷ after)) m
        ≡ perform_all D (before ++ after) (D.perform f.transfer m)
  perform_all_early [] f after m h = refl
  perform_all_early (g ∷ before) f after m h =
      perform_all_early before f after (D.perform g.transfer m) h.1
      ∙ ap (perform_all D (before ++ after)) (sym (pick before h.0 m))
    where
      pick : (before : List Flight) → All (Commutes D g) (before ++ (f ∷ after)) → Commutes D g f
      pick [] h = h.0
      pick (e ∷ before) h = pick before h.1

  IsRaceFree-control :
      (c : Call) (cs : List Call) (fs : List Flight)
      → is_control c ≡ true
      → IsRaceFree D (c ∷ cs) fs
      → IsRaceFree D cs fs
  IsRaceFree-control (load_arg _) cs fs e h = h
  IsRaceFree-control (write_variable _ _ _ _ _) cs fs e h = h
  IsRaceFree-control (notify_record _ _ _) cs fs e h = h
  IsRaceFree-control (notify_wait _ _ _) cs fs e h = h
  IsRaceFree-control (start _) cs fs e h = cc
  IsRaceFree-control (event_wait _ _) cs fs e h = cc

  flights-control :
      (c : Call) (cs : List Call) → is_control c ≡ true → flights (c ∷ cs) ≡ flights cs
  flights-control (load_arg _) cs e = refl
  flights-control (write_variable _ _ _ _ _) cs e = refl
  flights-control (notify_record _ _ _) cs e = refl
  flights-control (notify_wait _ _ _) cs e = refl
  flights-control (start _) cs e = cc
  flights-control (event_wait _ _) cs e = cc

  Run-eq_from :
      {cs : List Call} {m m' : ℕ → V} {fs : List Flight}
      → Run D cs m fs m'
      → (gs : List Flight) → Within fs gs
      → AllCommute D gs
      → IsRaceFree D cs gs
      → m' ≡ perform_all D (flights cs) (perform_all D fs m)
  Run-eq_from {m} (finish {fs}) gs w h r =
      sym (ap (λ k. perform_all D k m) (Within-nil (subst (Within fs) r w)))
  Run-eq_from {m} {fs} (control {c} {cs} k run) gs w h r =
      Run-eq_from run gs w h (IsRaceFree-control c cs gs k r)
      ∙ ap (λ k. perform_all D k (perform_all D fs m)) (sym (flights-control c cs k))
  Run-eq_from {m} {fs} (launch {f} {cs} run) gs w h r =
      Run-eq_from run (gs ++ (f ∷ [])) (Within-append f w) (AllCommute-append gs f h r.0) r.1
      ∙ ap (perform_all D (flights cs)) (perform_all-append fs (f ∷ []) m)
  Run-eq_from {cs} {m} {fs} (land before f after e run) gs w h r =
      let v : Within (before ++ (f ∷ after)) gs = subst (λ k. Within k gs) e w in
      Run-eq_from run gs (Within-trans v (Within-remove before f after)) h r
      ∙ ap (perform_all D (flights cs)) (
          sym (
            ap (λ k. perform_all D k m) e
            ∙ perform_all_early before f after m (AllCommute-Within v h)))
  Run-eq_from (pass {event} {mask} n run) gs w h r =
      Run-eq_from run (unawaited event mask gs) (Within-unawaited event mask n w)
        (AllCommute-Within (unawaited-Within event mask gs) h) r

  -- Every run of a race-free program ends in the memory that its transfers, performed one
  -- after the other in the order of the calls, leave.
  pub Run-eq :
      {cs : List Call} {m m' : ℕ → V}
      → IsRaceFree D cs []
      → Run D cs m [] m'
      → m' ≡ perform_all D (flights cs) m
  Run-eq r run = Run-eq_from run [] stop tt r

  -- Every program has a run: the one in which each transfer lands at once.
  pub Run_total : (cs : List Call) (m : ℕ → V) → Run D cs m [] (perform_all D (flights cs) m)
  Run_total [] m = finish
  Run_total (load_arg _ ∷ cs) m = control refl (Run_total cs m)
  Run_total (write_variable _ _ _ _ _ ∷ cs) m = control refl (Run_total cs m)
  Run_total (notify_record _ _ _ ∷ cs) m = control refl (Run_total cs m)
  Run_total (notify_wait _ _ _ ∷ cs) m = control refl (Run_total cs m)
  Run_total (start f ∷ cs) m = launch (land [] f [] refl (Run_total cs (D.perform f.transfer m)))
  Run_total (event_wait event mask ∷ cs) m = pass refl (Run_total cs m)
