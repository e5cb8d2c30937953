-- ===== src/Fault/Ensures.antt =====
-- What the Go functions that end in `error` ensure of their result: one rule for each way to build it.
use innoextract_go.Base.{◌≡◌, refl, subst, Bool, if◌then◌else◌, if-elim}
use innoextract_go.Fault.{Fault, Result, ok, err, ◌>>=◌, ok_injective}

-- What a result holds, if it is one, has the property.
pub record Ensures {A : Type 0} (P : A → Type 0) (m : Result A) : Type 0 where
  pub holds : (a : A) → m ≡ ok a → P a

module _ {A : Type 0} (P : A → Type 0) where
  pub Ensures-ok : (a : A) → P a → Ensures P (ok a)
  Ensures-ok a p = record { holds = λ b e. subst P (ok_injective e) p }

  pub Ensures-err : (e : Fault) → Ensures P (err e)
  Ensures-err f = record { holds = λ o e. absurd (cc) }

  pub Ensures-if :
      (b : Bool) (m n : Result A) → Ensures P m → Ensures P n → Ensures P (if b then m else n)
  Ensures-if b m n p q = if-elim (Ensures P) b m n (λ _. p) (λ _. q)

module _ {A B : Type 0} (P : B → Type 0) where
  -- The rest may use what the first part returned.
  pub Ensures-bind_eq :
      (m : Result A) (f : A → Result B)
      → ((a : A) → m ≡ ok a → Ensures P (f a))
      → Ensures P (m >>= f)
  Ensures-bind_eq (ok a) f p = p a refl
  Ensures-bind_eq (err e) f p = Ensures-err P e

  pub Ensures->>= :
      (m : Result A) (f : A → Result B) → ((a : A) → Ensures P (f a)) → Ensures P (m >>= f)
  Ensures->>= m f p = Ensures-bind_eq m f (λ a _. p a)
