-- ===== src/Stream/Laws.antt =====
-- What is written is read back.
use native.Mathlib.Nat.{pow-suc}
use hccl_reduce_scatter.Prelude.{
  ℕ, zero, suc, ◌/◌, ◌^◌, ◌<◌, ◌≡◌, refl, ap, some, List, [], ◌∷◌, ◌++◌, append_assoc, arith,
  length, flat_map, All, word64,
}
use hccl_reduce_scatter.Stream.{Codec, put_bytes, get_bytes, plain, size_codec, get_many, vector}

-- The values in `P` come back, and what follows them in the stream is left.
abbrev pub RoundTrips {κ} : {A : Type 0} → Codec A → (A → Type κ) → Type κ
RoundTrips {A} c P = (a : A) (rest : List ℕ) → P a → c.get (c.put a ++ rest) ≡ some (a, rest)

pub plain-RoundTrips : (w : ℕ) → RoundTrips (plain w) (λ x. x < 256 ^ w)
unfolding put_bytes get_bytes
plain-RoundTrips zero x rest h = ap (λ v. some (v, rest)) (omega arith)
plain-RoundTrips (suc w) x rest h =
    let below : x / 256 < 256 ^ w = omega (arith, pow-suc 256 w) in
    rw (plain-RoundTrips w (x / 256) rest below) (ap (λ v. some (v, rest)) (omega arith))

module _ {κ} {A : Type 0} (c : Codec A) (P : A → Type κ) (trips : RoundTrips c P) where
  get_many-put :
      (xs : List A) (rest : List ℕ)
      → All P xs
      → get_many c (length xs) (flat_map c.put xs ++ rest) ≡ some (xs, rest)
  unfolding get_many
  get_many-put [] rest h = refl
  get_many-put (x ∷ xs) rest h = rw (
    append_assoc (c.put x) (flat_map c.put xs) rest,
    trips x (flat_map c.put xs ++ rest) h.0,
    get_many-put xs rest h.1,
  )

  pub vector-RoundTrips : RoundTrips (vector c) (λ xs. All P xs × (length xs < word64))
  vector-RoundTrips xs rest h =
      rw
        (
          append_assoc (size_codec.put (length xs)) (flat_map c.put xs) rest,
          plain-RoundTrips 8 (length xs) (flat_map c.put xs ++ rest) h.1,
        )
        (get_many-put xs rest h.0)
