-- ===== src/Ccu/Race/Parallel.antt =====
-- Two kernels at a time, on two threads of a rank: their calls and transfers interleave.
use mathlib.Core.Path.{subst}
use hccl_reduce_scatter.Prelude.{
  ℕ, ◌≡◌, ◌⊎◌, refl, sym, ◌∙◌, ap, true, false, List, [], ◌∷◌, ◌++◌, inl, inr, All, All-append,
}
use hccl_reduce_scatter.Ccu.{
  Mask, Flight, Call, start, event_wait, load_arg, write_variable, notify_record, notify_wait,
}
use hccl_reduce_scatter.Ccu.Device.{Device, perform_all, any_awaited, flights, is_control}
use hccl_reduce_scatter.Ccu.Race.{
  Commutes, AllCommute, IsRaceFree, unawaited, Within, stop, Within-append, Within-trans,
  Within-remove, Within-nil, Within-unawaited, unawaited-Within, AllCommute-Within,
  AllCommute-append, perform_all-append, perform_all_early, IsRaceFree-control, flights-control,
}

-- `Step D cs fs m cs' fs' m'`: a kernel makes its next call, or one of its transfers lands.
pub data Step {V : Type 0} (D : Device V)
    : List Call → List Flight → (ℕ → V) → List Call → List Flight → (ℕ → V) → Type 0 where
  control :
      {c : Call} {cs : List Call} {fs : List Flight} {m : ℕ → V}
      → is_control c ≡ true
      → Step D (c ∷ cs) fs m cs fs m
  launch :
      {f : Flight} {cs : List Call} {fs : List Flight} {m : ℕ → V}
      → Step D (start f ∷ cs) fs m cs (fs ++ (f ∷ [])) m
  land :
      {cs : List Call} {m : ℕ → V} (before : List Flight) (f : Flight) (after : List Flight)
      → Step D cs (before ++ (f ∷ after)) m cs (before ++ after) (D.perform f.transfer m)
  pass :
      {event : ℕ} {mask : Mask} {cs : List Call} {fs : List Flight} {m : ℕ → V}
      → any_awaited event mask fs ≡ false
      → Step D (event_wait event mask ∷ cs) fs m cs fs m

-- `RunBoth D cs fs ds gs m m'`: the calls `cs` and `ds`, with `fs` and `gs` in flight, can run to
-- their ends side by side and take the memory `m` to `m'`.
pub data RunBoth {V : Type 0} (D : Device V)
    : List Call → List Flight → List Call → List Flight → (ℕ → V) → (ℕ → V) → Type 0 where
  both_done : {fs gs : List Flight} {m : ℕ → V} → RunBoth D [] fs [] gs m m
  left :
      {cs cs' ds : List Call} {fs fs' gs : List Flight} {m m' m'' : ℕ → V}
      → Step D cs fs m cs' fs' m'
      → RunBoth D cs' fs' ds gs m' m''
      → RunBoth D cs fs ds gs m m''
  right :
      {cs ds ds' : List Call} {fs gs gs' : List Flight} {m m' m'' : ℕ → V}
      → Step D ds gs m ds' gs' m'
      → RunBoth D cs fs ds' gs' m' m''
      → RunBoth D cs fs ds gs m m''

module _ {V : Type 0} (D : Device V) where
  -- What the calls and the transfers in flight leave, in their order.
  abbrev total : List Call → List Flight → (ℕ → V) → ℕ → V
  total cs fs n = perform_all D (flights cs) (perform_all D fs n)

  -- The rest of a race-free kernel, whose transfers all satisfy `P`.
  record IsFine (P : Flight → Type 0) (cs : List Call) (fs : List Flight) : Type 0 where
    possible : List Flight
    within : Within fs possible
    commute : AllCommute D possible
    race_free : IsRaceFree D cs possible
    flying : All P fs
    coming : All P (flights cs)

  abbrev Effect :
      (Flight → Type 0)
      → List Call
      → List Flight
      → (ℕ → V)
      → List Call
      → List Flight
      → (ℕ → V)
      → Type 0
  Effect P cs fs m cs' fs' m' =
      ((m' ≡ m) × ((n : ℕ → V) → total cs' fs' n ≡ total cs fs n))
      ⊎ ((f : Flight) × P f
          × (m' ≡ D.perform f.transfer m)
          × ((n : ℕ → V) → total cs' fs' (D.perform f.transfer n) ≡ total cs fs n))

  All-front : (P : Flight → Type 0) (xs ys : List Flight) → All P (xs ++ ys) → All P xs × All P ys
  All-front P [] ys h = (tt, h)
  All-front P (x ∷ xs) ys h = let (a, b) = All-front P xs ys h.1 in ((h.0, a), b)

  step_lem :
      (P : Flight → Type 0) {cs cs' : List Call} {fs fs' : List Flight} {m m' : ℕ → V}
      → Step D cs fs m cs' fs' m'
      → IsFine P cs fs
      → IsFine P cs' fs' × Effect P cs fs m cs' fs' m'
  step_lem P (control {c} {cs} {fs} k) fine = (
    record {
      possible = fine.possible;
      within = fine.within;
      commute = fine.commute;
      race_free = IsRaceFree-control D c cs fine.possible k fine.race_free;
      flying = fine.flying;
      coming = subst (All P) (flights-control D c cs k) fine.coming;
    },
    inl (
      refl,
      λ n. ap (λ l. perform_all D l (perform_all D fs n)) (sym (flights-control D c cs k)),
    ),
  )
  step_lem P (launch {f} {cs} {fs}) fine = (
    record {
      possible = fine.possible ++ (f ∷ []);
      within = Within-append f fine.within;
      commute = AllCommute-append D fine.possible f fine.commute fine.race_free.0;
      race_free = fine.race_free.1;
      flying = All-append P fs (f ∷ []) fine.flying (fine.coming.0, tt);
      coming = fine.coming.1;
    },
    inl (refl, λ n. ap (perform_all D (flights cs)) (perform_all-append D fs (f ∷ []) n)),
  )
  step_lem P (land {cs} before f after) fine =
      let split = All-front P before (f ∷ after) fine.flying in
      (
        record {
          possible = fine.possible;
          within = Within-trans fine.within (Within-remove before f after);
          commute = fine.commute;
          race_free = fine.race_free;
          flying = All-append P before after split.0 split.1.1;
          coming = fine.coming;
        },
        inr (
          f,
          split.1.0,
          refl,
          λ n. ap (perform_all D (flights cs)) (
              sym (
                perform_all_early D before f after n
                  (AllCommute-Within D fine.within fine.commute))),
        ),
      )
  step_lem P (pass {event} {mask} none_left) fine = (
    record {
      possible = unawaited event mask fine.possible;
      within = Within-unawaited event mask none_left fine.within;
      commute = AllCommute-Within D (unawaited-Within event mask fine.possible) fine.commute;
      race_free = fine.race_free;
      flying = fine.flying;
      coming = fine.coming;
    },
    inl (refl, λ n. refl),
  )

  done_lem :
      (P : Flight → Type 0) (fs : List Flight) (n : ℕ → V) → IsFine P [] fs → total [] fs n ≡ n
  done_lem P fs n fine =
      ap (λ l. perform_all D l n) (Within-nil (subst (Within fs) fine.race_free fine.within))

  module _ (P Q : Flight → Type 0) (apart : (f g : Flight) → P f → Q g → Commutes D f g) where
    past_each :
        (f : Flight) (gs : List Flight) (n : ℕ → V)
        → P f
        → All Q gs
        → perform_all D gs (D.perform f.transfer n) ≡ D.perform f.transfer (perform_all D gs n)
    past_each f [] n p q = refl
    past_each f (g ∷ gs) n p q =
        ap (perform_all D gs) (sym (apart f g p q.0 n))
        ∙ past_each f gs (D.perform g.transfer n) p q.1

    past_total :
        (f : Flight) {ds : List Call} {gs : List Flight} (n : ℕ → V)
        → P f
        → IsFine Q ds gs
        → total ds gs (D.perform f.transfer n) ≡ D.perform f.transfer (total ds gs n)
    past_total f {ds} {gs} n p fine =
        ap (perform_all D (flights ds)) (past_each f gs n p fine.flying)
        ∙ past_each f (flights ds) (perform_all D gs n) p fine.coming

    RunBoth-eq_from :
        {cs ds : List Call} {fs gs : List Flight} {m m' : ℕ → V}
        → RunBoth D cs fs ds gs m m'
        → IsFine P cs fs
        → IsFine Q ds gs
        → m' ≡ total cs fs (total ds gs m)
    RunBoth-eq_from (both_done {fs} {gs} {m}) a b =
        sym (done_lem P fs (total [] gs m) a ∙ done_lem Q gs m b)
    RunBoth-eq_from {ds} {gs} {m} (left {cs'} {fs'} step run) a b =
        let (a', effect) = step_lem P step a in
        RunBoth-eq_from run a' b ∙ elim effect [
          | inl (same, value) ↦ ap (λ n. total cs' fs' (total ds gs n)) same ∙ value (total ds gs m)
          | inr (f, p, landed, value) ↦
              ap (λ n. total cs' fs' (total ds gs n)) landed
              ∙ ap (total cs' fs') (past_total f m p b)
              ∙ value (total ds gs m)
        ]
    RunBoth-eq_from {cs} {fs} {m} (right {ds'} {gs'} step run) a b =
        let (b', effect) = step_lem Q step b in
        RunBoth-eq_from run a b' ∙ elim effect [
          | inl (same, value) ↦
              ap (λ n. total cs fs (total ds' gs' n)) same ∙ ap (total cs fs) (value m)
          | inr (f, q, landed, value) ↦
              ap (λ n. total cs fs (total ds' gs' n)) landed ∙ ap (total cs fs) (value m)
        ]

    -- Two race-free kernels whose transfers commute with each other's leave what they leave one
    -- after the other.
    pub RunBoth-eq :
        (cs ds : List Call) {m m' : ℕ → V}
        → IsRaceFree D cs []
        → IsRaceFree D ds []
        → All P (flights cs)
        → All Q (flights ds)
        → RunBoth D cs [] ds [] m m'
        → m' ≡ perform_all D (flights cs) (perform_all D (flights ds) m)
    RunBoth-eq cs ds a b p q run =
        RunBoth-eq_from run
          (record {
            possible = [];
            within = stop;
            commute = tt;
            race_free = a;
            flying = tt;
            coming = p;
          })
          (record {
            possible = [];
            within = stop;
            commute = tt;
            race_free = b;
            flying = tt;
            coming = q;
          })

  second_alone :
      (ds : List Call) (m : ℕ → V) → RunBoth D [] [] ds [] m (perform_all D (flights ds) m)
  second_alone [] m = both_done
  second_alone (load_arg _ ∷ ds) m = right (control refl) (second_alone ds m)
  second_alone (write_variable _ _ _ _ _ ∷ ds) m = right (control refl) (second_alone ds m)
  second_alone (notify_record _ _ _ ∷ ds) m = right (control refl) (second_alone ds m)
  second_alone (notify_wait _ _ _ ∷ ds) m = right (control refl) (second_alone ds m)
  second_alone (start f ∷ ds) m =
      right launch (right (land [] f []) (second_alone ds (D.perform f.transfer m)))
  second_alone (event_wait event mask ∷ ds) m = right (pass refl) (second_alone ds m)

  -- The two kernels have a run: one after the other, each transfer landing at once.
  pub RunBoth-total :
      (cs ds : List Call) (m : ℕ → V)
      → RunBoth D cs [] ds [] m (perform_all D (flights ds) (perform_all D (flights cs) m))
  RunBoth-total [] ds m = second_alone ds m
  RunBoth-total (load_arg _ ∷ cs) ds m = left (control refl) (RunBoth-total cs ds m)
  RunBoth-total (write_variable _ _ _ _ _ ∷ cs) ds m = left (control refl) (RunBoth-total cs ds m)
  RunBoth-total (notify_record _ _ _ ∷ cs) ds m = left (control refl) (RunBoth-total cs ds m)
  RunBoth-total (notify_wait _ _ _ ∷ cs) ds m = left (control refl) (RunBoth-total cs ds m)
  RunBoth-total (start f ∷ cs) ds m =
      left launch (left (land [] f []) (RunBoth-total cs ds (D.perform f.transfer m)))
  RunBoth-total (event_wait event mask ∷ cs) ds m = left (pass refl) (RunBoth-total cs ds m)
