-- ===== src/Rpc/Acceptance.antt =====
-- When a chain of `?` ends well, in terms of when its steps do.
use andler.Base.{◌≡◌, ◌↔◌, refl, Option, none, some, List, [], ◌∷◌, Result, ok, err, ◌>>=◌, All}
use andler.Rpc.Errors.{ok_or, collect}

module _ {ℓ} {A : Type ℓ} where
  -- A message field that is there and satisfies `P`.
  abbrev pub Given : (A → Type 0) → Option A → Type 0
  Given P none = ⊥
  Given P (some x) = P x

  abbrev pub IsGiven : Option A → Type 0
  IsGiven = Given (λ _. Unit)

module _ {ℓ κ} {A : Type ℓ} {E : Type κ} where
  abbrev pub Accepts : Result A E → Type 0
  Accepts (ok x) = Unit
  Accepts (err e) = ⊥

  pub Accepts-iff : (r : Result A E) → Accepts r ↔ ((x : A) × (r ≡ ok x))
  Accepts-iff (ok x) = (λ _. (x, refl), λ _. tt)
  Accepts-iff (err e) = (λ h. absurd h, λ h. absurd cc)

module _ {ℓ κ μ} {A : Type ℓ} {B : Type κ} {E : Type μ} {P Q : Type 0} where
  pub >>=-Accepts :
      (r : Result A E) (next : A → Result B E)
      → Accepts r ↔ P
      → ((x : A) → Accepts (next x) ↔ Q)
      → Accepts (r >>= next) ↔ (P × Q)
  >>=-Accepts (ok x) next p q = (λ h. (p.0 tt, (q x).0 h), λ h. (q x).1 h.1)
  >>=-Accepts (err e) next p q = (λ h. absurd h, λ h. p.1 h.0)

module _ {ℓ κ μ ν} {A : Type ℓ} {B : Type κ} {C : Type μ} {E : Type ν} {Q : Type 0} where
  -- The two `?` of a required message: it is there, and its own conversion accepts it.
  pub required-Accepts :
      (reason : E) (o : Option A) (f : A → Result B E) (next : B → Result C E) {P : A → Type 0}
      → ((x : A) → Accepts (f x) ↔ P x)
      → ((y : B) → Accepts (next y) ↔ Q)
      → Accepts (ok_or reason o >>= λ x. f x >>= next) ↔ (Given P o × Q)
  unfolding ok_or
  required-Accepts reason none f next p q = (λ h. absurd h, λ h. absurd h.0)
  required-Accepts reason (some x) f next p q = >>=-Accepts (f x) next (p x) q

module _ {ℓ κ} {A : Type ℓ} {E : Type κ} where
  pub ok_or-Accepts : (reason : E) (o : Option A) → Accepts (ok_or reason o) ↔ IsGiven o
  unfolding ok_or
  ok_or-Accepts reason none = (λ h. h, λ h. h)
  ok_or-Accepts reason (some x) = (λ h. h, λ h. h)

module _ {ℓ κ μ} {A : Type ℓ} {B : Type κ} {E : Type μ} where
  -- The last `?` of a conversion.
  pub last-Accepts :
      (r : Result A E) (f : A → B) {P : Type 0} → Accepts r ↔ P → Accepts (r >>= λ x. ok (f x)) ↔ P
  last-Accepts (ok x) f p = p
  last-Accepts (err e) f p = p

module _ {ℓ κ μ} {A : Type ℓ} {B : Type κ} {E : Type μ} {P : A → Type 0} where
  pub collect-Accepts :
      (f : A → Result B E)
      → ((x : A) → Accepts (f x) ↔ P x)
      → (xs : List A) → Accepts (collect f xs) ↔ All P xs
  unfolding collect
  collect-Accepts f p [] = (λ h. h, λ h. h)
  collect-Accepts f p (x ∷ xs) =
      >>=-Accepts (f x) _ (p x) (λ y. last-Accepts (collect f xs) _ (collect-Accepts f p xs))

module _ {ℓ κ μ ν} {A : Type ℓ} {B : Type κ} {C : Type μ} {E : Type ν} where
  pub required_last-Accepts :
      (reason : E) (o : Option A) (f : A → Result B E) (g : B → C) {P : A → Type 0}
      → ((x : A) → Accepts (f x) ↔ P x)
      → Accepts (ok_or reason o >>= λ x. f x >>= λ y. ok (g y)) ↔ Given P o
  unfolding ok_or
  required_last-Accepts reason none f g p = (λ h. h, λ h. h)
  required_last-Accepts reason (some x) f g p = last-Accepts (f x) g (p x)

module _ {ℓ κ μ} {A : Type ℓ} {B : Type κ} {E : Type μ} where
  pub required_only-Accepts :
      (reason : E) (o : Option A) (f : A → Result B E) {P : A → Type 0}
      → ((x : A) → Accepts (f x) ↔ P x)
      → Accepts (ok_or reason o >>= f) ↔ Given P o
  unfolding ok_or
  required_only-Accepts reason none f p = (λ h. h, λ h. h)
  required_only-Accepts reason (some x) f p = p x

  -- A step that cannot fail asks nothing.
  pub >>=-Accepts_always :
      (r : Result A E) (next : A → Result B E) {P : Type 0}
      → Accepts r ↔ P
      → ((x : A) → Accepts (next x))
      → Accepts (r >>= next) ↔ P
  >>=-Accepts_always (ok x) next p q = (λ _. p.0 tt, λ _. q x)
  >>=-Accepts_always (err e) next p q = p
