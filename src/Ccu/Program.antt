-- ===== src/Ccu/Program.antt =====
-- Programs put together from parts: control calls, synchronous transfers and sequences.
use hccl_reduce_scatter.Prelude.{ℕ, ◌≡◌, refl, ap, true, List, [], ◌∷◌, ◌++◌, map, All}
use hccl_reduce_scatter.Ccu.{
  Flight, Call, load_arg, write_variable, notify_record, notify_wait, start, event_wait,
}
use hccl_reduce_scatter.Ccu.Device.{Device, perform_all, is_control, flights}
use hccl_reduce_scatter.Ccu.Race.{IsRaceFree}

abbrev pub IsControl : Call → Type 0
IsControl c = is_control c ≡ true

pub flights-append : (cs ds : List Call) → flights (cs ++ ds) ≡ flights cs ++ flights ds
flights-append [] ds = refl
flights-append (start f ∷ cs) ds = ap (λ k. f ∷ k) (flights-append cs ds)
flights-append (load_arg _ ∷ cs) ds = flights-append cs ds
flights-append (write_variable _ _ _ _ _ ∷ cs) ds = flights-append cs ds
flights-append (notify_record _ _ _ ∷ cs) ds = flights-append cs ds
flights-append (notify_wait _ _ _ ∷ cs) ds = flights-append cs ds
flights-append (event_wait _ _ ∷ cs) ds = flights-append cs ds

-- Calls that move nothing in front of a program.
pub flights_after_control : (cs ds : List Call) → All IsControl cs → flights (cs ++ ds) ≡ flights ds
flights_after_control [] ds h = refl
flights_after_control (load_arg _ ∷ cs) ds h = flights_after_control cs ds h.1
flights_after_control (write_variable _ _ _ _ _ ∷ cs) ds h = flights_after_control cs ds h.1
flights_after_control (notify_record _ _ _ ∷ cs) ds h = flights_after_control cs ds h.1
flights_after_control (notify_wait _ _ _ ∷ cs) ds h = flights_after_control cs ds h.1
flights_after_control (start _ ∷ cs) ds h = cc (h.0)
flights_after_control (event_wait _ _ ∷ cs) ds h = cc (h.0)

pub map-IsControl {ℓ} :
    {A : Type ℓ} (f : A → Call)
    → ((a : A) → IsControl (f a))
    → (xs : List A) → All IsControl (map f xs)
map-IsControl f h [] = tt
map-IsControl f h (x ∷ xs) = (h x, map-IsControl f h xs)

module _ {V : Type 0} (D : Device V) where
  pub IsRaceFree-after_control :
      (cs ds : List Call) (fs : List Flight)
      → All IsControl cs
      → IsRaceFree D ds fs
      → IsRaceFree D (cs ++ ds) fs
  IsRaceFree-after_control [] ds fs h r = r
  IsRaceFree-after_control (load_arg _ ∷ cs) ds fs h r = IsRaceFree-after_control cs ds fs h.1 r
  IsRaceFree-after_control (write_variable _ _ _ _ _ ∷ cs) ds fs h r =
      IsRaceFree-after_control cs ds fs h.1 r
  IsRaceFree-after_control (notify_record _ _ _ ∷ cs) ds fs h r =
      IsRaceFree-after_control cs ds fs h.1 r
  IsRaceFree-after_control (notify_wait _ _ _ ∷ cs) ds fs h r =
      IsRaceFree-after_control cs ds fs h.1 r
  IsRaceFree-after_control (start _ ∷ cs) ds fs h r = cc (h.0)
  IsRaceFree-after_control (event_wait _ _ ∷ cs) ds fs h r = cc (h.0)

  pub perform_all_append :
      (fs gs : List Flight) (m : ℕ → V)
      → perform_all D (fs ++ gs) m ≡ perform_all D gs (perform_all D fs m)
  perform_all_append [] gs m = refl
  perform_all_append (f ∷ fs) gs m = perform_all_append fs gs (D.perform f.transfer m)
