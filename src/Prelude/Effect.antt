-- ===== src/Prelude/Effect.antt =====
-- Code that mutates a state through `&mut` and may return early with `?`. What was written before
-- the early return stays written, so the state comes back beside the error too.
use mathlib.Core.Path.{◌≡◌, refl, subst}
use mathlib.Core.Logic.{◌⊎◌, inl, inr}
use mathlib.Core.Option.{Option, none, some}

pub data Result {ℓ} (E A : Type ℓ) : Type ℓ where
  ok : A → Result E A
  err : E → Result E A

abbrev pub Exec {ℓ} : Type ℓ → Type ℓ → Type ℓ → Type ℓ
Exec S E A = S → S × Result E A

module _ {ℓ} {S E A : Type ℓ} where
  abbrev pub succeed : A → Exec S E A
  succeed a s = (s, ok a)

  abbrev pub fail : E → Exec S E A
  fail e s = (s, err e)

  abbrev pub reads : (S → A) → Exec S E A
  reads f s = (s, ok (f s))

  -- `o.ok_or(e)?`
  abbrev pub ok_or : Option A → E → Exec S E A
  ok_or none e s = (s, err e)
  ok_or (some a) e s = (s, ok a)

module _ {ℓ} {S E A B : Type ℓ} where
  abbrev pub proceed : Result E A → (A → Exec S E B) → Exec S E B
  proceed (ok a) f s = f a s
  proceed (err e) f s = (s, err e)

  infixl 5 ◌>>=◌ ◌>>◌
  abbrev pub ◌>>=◌ : Exec S E A → (A → Exec S E B) → Exec S E B
  ◌>>=◌ m f s = let r = m s in proceed r.1 f r.0

  abbrev pub ◌>>◌ : Exec S E A → Exec S E B → Exec S E B
  m >> n = m >>= λ _. n

  proceed-eq-ok :
      (r : Result E A) (f : A → Exec S E B) (s t : S) (b : B)
      → proceed r f s ≡ (t, ok b)
      → (a : A) × (r ≡ ok a) × (f a s ≡ (t, ok b))
  proceed-eq-ok (ok a) f s t b h = (a, refl, h)
  proceed-eq-ok (err e) f s t b h = absurd (ok-ne-err (λ i. (h i).1))
    where
      ok-ne-err : err e ≡ ok b → ⊥
      ok-ne-err p = cc

  -- A block that succeeds has a first step that succeeds.
  pub >>=-eq-ok :
      (m : Exec S E A) (f : A → Exec S E B) (s t : S) (b : B)
      → (m >>= f) s ≡ (t, ok b)
      → (a : A) × (m s ≡ ((m s).0, ok a)) × (f a (m s).0 ≡ (t, ok b))
  >>=-eq-ok m f s t b h =
      let (a, e, rest) = proceed-eq-ok (m s).1 f (m s).0 t b h in (a, λ i. ((m s).0, e i), rest)

-- The same for a first step that returns nothing, where a lemma tells its final state.
pub >>-eq-ok {ℓ} :
    {S E B P : Type ℓ} (m : Exec S E Unit) (n : Exec S E B) (s u t : S) (b : B)
    → ((v : S) → m s ≡ (v, ok tt) → P × (v ≡ u))
    → (m >> n) s ≡ (t, ok b)
    → P × (n u ≡ (t, ok b))
>>-eq-ok m n s u t b step h =
    let (_, e, rest) = >>=-eq-ok m (λ _. n) s t b h in
    let (p, at) = step (m s).0 e in (p, subst (λ v. n v ≡ (t, ok b)) at rest)

pub fail-ne-ok {ℓ} :
    {S E B : Type ℓ} (e : E) (s t : S) (b : B) → ◌≡◌ {A = S × Result E B} (s, err e) (t, ok b) → ⊥
fail-ne-ok e s t b h = cc

pub Exec-cases {ℓ} :
    {S E B : Type ℓ} (x : S × Result E B)
    → ((t : S) × (b : B) × (x ≡ (t, ok b))) ⊎ ((t : S) × (e : E) × (x ≡ (t, err e)))
Exec-cases (t, ok b) = inl (t, b, refl)
Exec-cases (t, err e) = inr (t, e, refl)

pub Result-cases {ℓ} :
    {E A : Type ℓ} (r : Result E A) → ((a : A) × (r ≡ ok a)) ⊎ ((e : E) × (r ≡ err e))
Result-cases (ok a) = inl (a, refl)
Result-cases (err e) = inr (e, refl)
