-- ===== src/Ccu/Disjoint.antt =====
-- Transfers on separate ranges of local memory commute.
use hccl_reduce_scatter.Prelude.{
  ◌+◌, ◌≤◌, ◌<◌, ◌⊎◌, ℕ, ◌≡◌, refl, ◌∙◌, sym, fun_ext, Bool, true, false, arith, inl, inr,
  Bool-cases,
}
use hccl_reduce_scatter.Ccu.{
  Address, Transfer, local_copy, local_reduce, read, read_reduce, write, Flight,
}
use hccl_reduce_scatter.Ccu.Device.{Device, IsLawful, inside, fills, across, incoming}
use hccl_reduce_scatter.Ccu.Race.{Commutes}

-- The local addresses that a transfer reads from its source.
abbrev pub reads : Transfer → ℕ → Bool
reads (local_copy dst src len) a = inside src len a
reads (local_reduce dst src len type op) a = inside src len a
reads (read channel dst src len) a = false
reads (read_reduce channel dst src len type op) a = false
reads (write channel dst src len) a = inside src len a

-- What the first fills the second neither fills nor reads.
abbrev pub Spares : Transfer → Transfer → Type 0
Spares t u =
    ((a : ℕ) → fills t a ≡ true → fills u a ≡ false)
    × ((a : ℕ) → fills t a ≡ true → reads u a ≡ false)

pub inside-across :
    (dst src : Address) (len a : ℕ)
    → inside dst len a ≡ true
    → inside src len (across dst src a) ≡ true
inside-across dst src len a h = ground arith

pub inside_bounds :
    (d : Address) (len a : ℕ) → inside d len a ≡ true → (d.addr ≤ a) × (a < d.addr + len)
inside_bounds d len a h = ground arith

pub outside : (d : Address) (len a : ℕ) → (a < d.addr) ⊎ (d.addr + len ≤ a) → inside d len a ≡ false
outside d len a h = ground arith

module _ {V : Type 0} (D : Device V) (lawful : IsLawful D) where
  pub perform_filled :
      (t : Transfer) (m : ℕ → V) (a : ℕ) → fills t a ≡ true → D.perform t m a ≡ incoming D t m a
  perform_filled t m a h = lawful t m a ∙ rw h

  pub perform_other : (t : Transfer) (m : ℕ → V) (a : ℕ) → fills t a ≡ false → D.perform t m a ≡ m a
  perform_other t m a h = lawful t m a ∙ rw h

  -- What lands is the same before and after a transfer that spares it.
  pub incoming-perform :
      (t u : Transfer) (m : ℕ → V) (a : ℕ)
      → fills t a ≡ true
      → fills u a ≡ false
      → ((b : ℕ) → reads t b ≡ true → fills u b ≡ false)
      → incoming D t (D.perform u m) a ≡ incoming D t m a
  incoming-perform (local_copy dst src len) u m a h k safe =
      perform_other u m (across dst src a) (safe (across dst src a) (inside-across dst src len a h))
  incoming-perform (local_reduce dst src len type op) u m a h k safe = cc (
    perform_other u m (across dst src a) (safe (across dst src a) (inside-across dst src len a h)),
    perform_other u m a k,
  )
  incoming-perform (read channel dst src len) u m a h k safe = refl
  incoming-perform (read_reduce channel dst src len type op) u m a h k safe =
      cc (perform_other u m a k)
  incoming-perform (write channel dst src len) u m a h k safe = perform_other u m a k

  pub contra : (t u : Transfer) → Spares t u → (a : ℕ) → reads u a ≡ true → fills t a ≡ false
  contra t u s a h = elim (Bool-cases (fills t a)) [ inl f ↦ absurd (cc (s.1 a f)) | inr n ↦ n ]

  -- Where `t` fills.
  commute_at :
      (t u : Transfer) (m : ℕ → V) (a : ℕ)
      → Spares t u
      → Spares u t
      → fills t a ≡ true
      → D.perform t (D.perform u m) a ≡ D.perform u (D.perform t m) a
  commute_at t u m a s r h =
      perform_filled t (D.perform u m) a h
      ∙ incoming-perform t u m a h (s.0 a h) (contra u t r)
      ∙ sym (perform_other u (D.perform t m) a (s.0 a h) ∙ perform_filled t m a h)

  pub Spares-Commutes :
      (f g : Flight) → Spares f.transfer g.transfer → Spares g.transfer f.transfer → Commutes D f g
  Spares-Commutes f g s r m = fun_ext λ a. elim (Bool-cases (fills f.transfer a)) [
    | inl h ↦ commute_at f.transfer g.transfer m a s r h
    | inr h ↦ elim (Bool-cases (fills g.transfer a)) [
      | inl k ↦ sym (commute_at g.transfer f.transfer m a r s k)
      | inr k ↦
          perform_other f.transfer _ a h
          ∙ perform_other g.transfer m a k
          ∙ sym (perform_other g.transfer _ a k ∙ perform_other f.transfer m a h)
    ]
  ]
