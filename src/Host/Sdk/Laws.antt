-- ===== src/Host/Sdk/Laws.antt =====
-- What holds of the value of a function that makes SDK calls, where it goes on.
use hccl_reduce_scatter.Prelude.{List}
use hccl_reduce_scatter.Host.Sdk.{
  Sdk, SdkCall, Step, go, stop, Act, continue, ◌>>=◌, ◌>>◌, pure, ask,
}

abbrev pub Outcome {ℓ κ} : {A : Type ℓ} → (A → Type κ) → Step A × List SdkCall → Type κ
Outcome P (go a, h) = P a
Outcome P (stop e, h) = Unit

-- Whenever the function goes on, its value has the property.
pub record Ensures {ℓ κ} {A : Type ℓ} (m : Act A) (P : A → Type κ) : Type (ℓ ⊔ κ) where
  pub holds : (api : Sdk) (h : List SdkCall) → Outcome P (m api h)

module _ {ℓ κ ν μ} {A : Type ℓ} {B : Type κ} where
  continue_lem :
      (Q : A → Type ν) (P : B → Type μ) (f : A → Act B)
      → ((a : A) → Q a → Ensures (f a) P)
      → (api : Sdk) (s : Step A × List SdkCall) → Outcome Q s
      → Outcome P (continue api f s)
  continue_lem Q P f next api (go a, h) q = (next a q).holds api h
  continue_lem Q P f next api (stop e, h) q = tt

  pub Ensures_bind :
      {m : Act A} {f : A → Act B} {Q : A → Type ν} {P : B → Type μ}
      → Ensures m Q
      → ((a : A) → Q a → Ensures (f a) P)
      → Ensures (m >>= f) P
  Ensures_bind {m} {f} {Q} {P} first next = record {
    holds = λ api h. continue_lem Q P f next api (m api h) (first.holds api h);
  }

pub Ensures_pure {ℓ κ} : {A : Type ℓ} {P : A → Type κ} (a : A) → P a → Ensures (pure a) P
Ensures_pure a p = record { holds = λ api h. p }

pub Ensures_ask {ℓ κ} :
    {A : Type ℓ} {P : A → Type κ} (f : Sdk → List SdkCall → A)
    → ((api : Sdk) (h : List SdkCall) → P (f api h))
    → Ensures (ask f) P
Ensures_ask f p = record { holds = λ api h. p api h }

trivially {ℓ} : {A : Type ℓ} (s : Step A × List SdkCall) → Outcome (λ _. Unit {0}) s
trivially (go a, h) = tt
trivially (stop e, h) = tt

pub Ensures_any {ℓ} : {A : Type ℓ} (m : Act A) → Ensures m (λ _. Unit {0})
Ensures_any m = record { holds = λ api h. trivially (m api h) }

module _ {ℓ κ ν} {A : Type ℓ} where
  weaken_lem :
      (P : A → Type κ) (Q : A → Type ν)
      → ((a : A) → P a → Q a)
      → (s : Step A × List SdkCall) → Outcome P s
      → Outcome Q s
  weaken_lem P Q f (go a, h) p = f a p
  weaken_lem P Q f (stop e, h) p = tt

  pub Ensures_weaken :
      (m : Act A) {P : A → Type κ} {Q : A → Type ν}
      → ((a : A) → P a → Q a)
      → Ensures m P
      → Ensures m Q
  Ensures_weaken m {P} {Q} f e = record {
    holds = λ api h. weaken_lem P Q f (m api h) (e.holds api h);
  }

pub Ensures_then {ℓ κ μ} :
    {A : Type ℓ} {B : Type κ} (m : Act B) {k : Act A} {P : A → Type μ}
    → Ensures k P
    → Ensures (m >> k) P
Ensures_then m {k} {P} e = record {
  holds = λ api h.
      continue_lem (λ _. Unit {0}) P (λ _. k) (λ _ _. e) api (m api h) (trivially (m api h));
}
