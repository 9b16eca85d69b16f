-- ===== src/Prelude/Exec.antt =====
-- Methods that change a shared object and may fail. What was written before an error stays
-- written, so the state comes back beside the error too.
use mathlib.Core.Path.{◌≡◌, refl, ap, subst}
use mathlib.Core.Bool.{Bool, true, false}
use git_nfs.Prelude.Results.{Result, ok, err}

abbrev pub Exec {ℓ κ μ} : Type ℓ → Type κ → Type μ → Type (ℓ ⊔ κ ⊔ μ)
Exec S E A = S → Result E A × S

module _ {ℓ κ μ} {S : Type ℓ} {E : Type κ} {A : Type μ} where
  abbrev pub pure : A → Exec S E A
  pure a s = (ok a, s)

  abbrev pub raise : E → Exec S E A
  raise e s = (err e, s)

  -- A value or an error that changes nothing.
  abbrev pub lift : Result E A → Exec S E A
  lift r s = (r, s)

  -- `let _ = m;`
  abbrev pub discard : Exec S E A → Exec S E (Unit {0})
  discard m s = (ok tt, (m s).1)

  abbrev pub gets : (S → A) → Exec S E A
  gets f s = (ok (f s), s)

module _ {ℓ κ} {S : Type ℓ} {E : Type κ} where
  -- `if test { return Err(e) }`
  abbrev pub refuse : Bool → E → Exec S E (Unit {0})
  refuse true e s = (err e, s)
  refuse false e s = (ok tt, s)

  abbrev pub modify : (S → S) → Exec S E (Unit {0})
  modify f s = (ok tt, f s)

module _ {ℓ κ μ ν} {S : Type ℓ} {E : Type κ} {A : Type μ} {B : Type ν} where
  abbrev pub continue : Result E A → (A → Exec S E B) → Exec S E B
  continue (ok a) f s = f a s
  continue (err e) f s = (err e, s)

  infixl 5 ◌>>=◌ ◌>>◌
  abbrev pub ◌>>=◌ : Exec S E A → (A → Exec S E B) → Exec S E B
  ◌>>=◌ m f s = let (r, s') = m s in continue r f s'

  abbrev pub ◌>>◌ : Exec S E A → Exec S E B → Exec S E B
  m >> n = m >>= λ _. n

  -- `match r { Ok(a) => f(a), Err(_) => g }`.
  abbrev pub attempt : Exec S E A → (A → Exec S E B) → Exec S E B → Exec S E B
  attempt m f g s = let (r, s') = m s in elim r [ ok a ↦ f a s' | err e ↦ g s' ]

-- A property of the value and the state of a call that succeeds.
abbrev pub OnOk {ℓ κ μ ν} :
    {S : Type ℓ} {E : Type κ} {A : Type μ} → (A → S → Type ν) → Result E A × S → Type ν
OnOk P (ok a, s) = P a s
OnOk P (err e, s) = Unit

-- It holds of a chain if it holds of the rest, wherever the first part leads to.
pub OnOk-bind {ℓ κ μ ν ξ} :
    {S : Type ℓ} {E : Type κ} {A : Type μ} {B : Type ν} (P : B → S → Type ξ) (m : Exec S E A)
    (f : A → Exec S E B) (s : S)
    → ((a : A) (t : S) → m s ≡ (ok a, t) → OnOk P (f a t))
    → OnOk P ((m >>= f) s)
OnOk-bind {S = S} {E = E} {A = A} P m f s rest = go (m s) refl
  where
    go : (r : Result E A × S) → m s ≡ r → OnOk P (continue r.0 f r.1)
    go (ok a, t) e = rest a t e
    go (err x, t) e = tt

pub OnOk-holds {ℓ κ μ ν} :
    {S : Type ℓ} {E : Type κ} {A : Type μ} (P : A → S → Type ν) (r : Result E A × S) (a : A) (s : S)
    → OnOk P r
    → r ≡ (ok a, s)
    → P a s
OnOk-holds P r a s h e = subst (OnOk P) e h

pub OnOk-weaken {ℓ κ μ ν ξ} :
    {S : Type ℓ} {E : Type κ} {A : Type μ} (P : A → S → Type ν) (Q : A → S → Type ξ)
    (r : Result E A × S)
    → ((a : A) (s : S) → P a s → Q a s)
    → OnOk P r
    → OnOk Q r
OnOk-weaken P Q (ok a, s) f h = f a s h
OnOk-weaken P Q (err e, s) f h = tt

pub attempt-ok {ℓ κ μ ν} :
    {S : Type ℓ} {E : Type κ} {A : Type μ} {B : Type ν} (m : Exec S E A) (f : A → Exec S E B)
    (g : Exec S E B) (s t : S) (a : A)
    → m s ≡ (ok a, t)
    → attempt m f g s ≡ f a t
attempt-ok m f g s t a e = rw (attempt, e) (ap (λ r. f a r.1) e)
