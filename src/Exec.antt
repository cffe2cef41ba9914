-- ===== src/Exec.antt =====
-- Code that reads and writes the state outside a function and may throw: what was written before an
-- exception stays written.
pub mod Keeps
use scitokens_cpp.Prelude.{
  Bool, true, false, if◌then◌else◌, ◌≡◌, ◌⊎◌, inl, inr, refl, ap, sym, Result, ok, throw, undefined,
  Exn, is_runtime_error, ok-ne-throw, ok-ne-undefined,
}

abbrev pub Exec {ℓ} : Type ℓ → Type ℓ → Type ℓ
Exec S A = S → Result A × S

module _ {ℓ} {S A : Type ℓ} where
  abbrev pub pure : A → Exec S A
  pure a s = (ok a, s)

  abbrev pub fail : Exn → Exec S A
  fail e s = (throw e, s)

  abbrev pub lift : Result A → Exec S A
  lift r s = (r, s)

  abbrev pub gets : (S → A) → Exec S A
  gets f s = (ok (f s), s)

  -- A call that cannot throw.
  abbrev pub call : (S → A × S) → Exec S A
  call f s = (ok (f s).0, (f s).1)

  abbrev recovered : Bool → Exec S A → Exn → Exec S A
  recovered true recover e = recover
  recovered false recover e = fail e

  abbrev handle : Exec S A → Result A → S → Result A × S
  handle recover (throw e) s = recovered (is_runtime_error e) recover e s
  handle recover r s = (r, s)

  -- `try { m } catch (std::runtime_error &) { recover }`
  abbrev pub catch_runtime_error : Exec S A → Exec S A → Exec S A
  catch_runtime_error m recover s = handle recover (m s).0 (m s).1

module _ {ℓ} {S A B : Type ℓ} where
  abbrev pub continue : Result A → (A → Exec S B) → Exec S B
  continue (ok a) f s = f a s
  continue (throw e) f s = (throw e, s)
  continue undefined f s = (undefined, s)

  infixl 5 ◌>>=◌ ◌>>◌
  abbrev pub ◌>>=◌ : Exec S A → (A → Exec S B) → Exec S B
  ◌>>=◌ m f s = continue (m s).0 f (m s).1

  abbrev pub ◌>>◌ : Exec S A → Exec S B → Exec S B
  m >> n = m >>= λ _. n

  continue-eq-ok :
      (r : Result A) (f : A → Exec S B) (s : S) {b : B} {t : S}
      → continue r f s ≡ (ok b, t)
      → (a : A) × (r ≡ ok a) × (f a s ≡ (ok b, t))
  continue-eq-ok (ok a) f s h = (a, refl, h)
  continue-eq-ok (throw e) f s h = absurd (ok-ne-throw (sym (ap (λ p. p.0) h)))
  continue-eq-ok undefined f s h = absurd (ok-ne-undefined (sym (ap (λ p. p.0) h)))

  -- A successful sequence has a successful first part.
  pub >>=-eq-ok :
      (m : Exec S A) (f : A → Exec S B) (s : S) {b : B} {t : S}
      → (m >>= f) s ≡ (ok b, t)
      → (a : A) × ((m s).0 ≡ ok a) × (f a (m s).1 ≡ (ok b, t))
  >>=-eq-ok m f s h = continue-eq-ok (m s).0 f (m s).1 h

  continue-cong :
      (r : Result A) (f g : A → Exec S B) (s : S)
      → ((a : A) (t : S) → f a t ≡ g a t)
      → continue r f s ≡ continue r g s
  continue-cong (ok a) f g s h = h a s
  continue-cong (throw e) f g s h = refl
  continue-cong undefined f g s h = refl

  -- Two sequences agree if what follows the first part agrees.
  pub >>=-cong :
      (m : Exec S A) (f g : A → Exec S B) (s : S)
      → ((a : A) (t : S) → f a t ≡ g a t)
      → (m >>= f) s ≡ (m >>= g) s
  >>=-cong m f g s h = continue-cong (m s).0 f g (m s).1 h

module _ {ℓ} {S A : Type ℓ} where
  recovered-eq-ok :
      (b : Bool) (recover : Exec S A) (e : Exn) (s : S) {a : A} {t : S}
      → recovered b recover e s ≡ (ok a, t)
      → recover s ≡ (ok a, t)
  recovered-eq-ok true recover e s h = h
  recovered-eq-ok false recover e s h = absurd (ok-ne-throw (sym (ap (λ p. p.0) h)))

  handle-eq-ok :
      (recover : Exec S A) (r : Result A) (s : S) {a : A} {t : S}
      → handle recover r s ≡ (ok a, t)
      → ((r ≡ ok a) × (s ≡ t)) ⊎ (recover s ≡ (ok a, t))
  handle-eq-ok recover (ok a) s h = inl (ap (λ p. p.0) h, ap (λ p. p.1) h)
  handle-eq-ok recover (throw e) s h = inr (recovered-eq-ok (is_runtime_error e) recover e s h)
  handle-eq-ok recover undefined s h = absurd (ok-ne-undefined (sym (ap (λ p. p.0) h)))

  -- What a block with a handler ends with is what one of the two ends with.
  pub catch-eq-ok :
      (m recover : Exec S A) (s : S) {a : A} {t : S}
      → catch_runtime_error m recover s ≡ (ok a, t)
      → (((m s).0 ≡ ok a) × ((m s).1 ≡ t)) ⊎ (recover (m s).1 ≡ (ok a, t))
  catch-eq-ok m recover s h = handle-eq-ok recover (m s).0 (m s).1 h

module _ {ℓ} {S B : Type ℓ} where
  -- A successful sequence whose first part changes nothing, and establishes `P`.
  pub >>-keeps {κ} :
      {P : Type κ} (m : Exec S (Unit {ℓ})) (n : Exec S B) (s : S) {b : B} {t : S}
      → ((u : Unit {ℓ}) → (m s).0 ≡ ok u → P × (m s ≡ (ok tt, s)))
      → (m >> n) s ≡ (ok b, t)
      → P × (n s ≡ (ok b, t))
  >>-keeps m n s keeps h =
      let (u, e, h₁) = >>=-eq-ok m (λ _. n) s h in let (p, kept) = keeps u e in (p, rw kept at h₁)

-- Which branch of a conditional ran.
pub if-cases {ℓ κ} :
    {A : Type ℓ} {B : Type κ} (b : Bool) (f g : A → B) (a : A) {x : B}
    → (if b then f else g) a ≡ x
    → ((b ≡ true) × (f a ≡ x)) ⊎ ((b ≡ false) × (g a ≡ x))
if-cases true f g a h = inl (refl, h)
if-cases false f g a h = inr (refl, h)
