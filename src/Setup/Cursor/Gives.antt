-- ===== src/Setup/Cursor/Gives.antt =====
-- What the parsers over a `cursor` of internal/setup/setup.go return where they succeed: one rule for
-- each way to build a parser.
use innoextract_go.Base.{ℕ, zero, suc, ◌≡◌, refl, subst, ap, [], ◌∷◌, length}
use innoextract_go.Fault.{Result, ok}
use innoextract_go.PathUtil.Split.{All}
use innoextract_go.Setup.Cursor.Inside.{and_then-eq-ok}
use innoextract_go.Setup.Cursor.{Cursor, Parser, ◌>>=◌, ◌>>◌, return, collect}

-- What a parser that succeeds returns has the property.
pub record Gives {A : Type 0} (P : A → Type 0) (m : Parser A) : Type 0 where
  pub gives : (c : Cursor) (a : A) (c' : Cursor) → m c ≡ ok (a, c') → P a

first_same :
    {A : Type 0} {a b : A} {c d : Cursor}
    → ◌≡◌ {A = Result (A × Cursor)} (ok (a, c)) (ok (b, d))
    → a ≡ b
first_same e = cc

pub Gives-return : {A : Type 0} (P : A → Type 0) (a : A) → P a → Gives P (return a)
unfolding return
Gives-return P a p = record { gives = λ c b c' e. subst P (first_same e) p }

module _ {A B : Type 0} (P : B → Type 0) where
  pub Gives->>=-with :
      (Q : A → Type 0) (m : Parser A) (f : A → Parser B)
      → Gives Q m
      → ((a : A) → Q a → Gives P (f a))
      → Gives P (m >>= f)
  unfolding ◌>>=◌
  Gives->>=-with Q m f p q = record {
    gives = λ c b c'' e.
        let (a, c', (h, t)) = and_then-eq-ok (m c) f e in (q a (p.gives c a c' h)).gives c' b c'' t;
  }

  pub Gives->>= : (m : Parser A) (f : A → Parser B) → ((a : A) → Gives P (f a)) → Gives P (m >>= f)
  Gives->>= m f q = Gives->>=-with (λ a. Unit) m f (record { gives = λ c a c' e. tt }) (λ a u. q a)

  pub Gives->> : (m : Parser A) (n : Parser B) → Gives P n → Gives P (m >> n)
  unfolding ◌>>◌
  Gives->> m n q = Gives->>= m (λ _. n) (λ _. q)

pub Gives-collect :
    {A : Type 0} (P : A → Type 0) (n : ℕ) (m : Parser A) → Gives P m → Gives (All P) (collect n m)
unfolding collect
Gives-collect P zero m p = Gives-return (All P) [] tt
Gives-collect P (suc n) m p = Gives->>=-with (All P) P m _ p λ a h.
    Gives->>=-with (All P) (All P) (collect n m) _ (Gives-collect P n m p)
      λ rest k. Gives-return (All P) (a ∷ rest) (h, k)

pub Gives-length : {A : Type 0} (n : ℕ) (m : Parser A) → Gives (λ xs. length xs ≡ n) (collect n m)
unfolding collect
Gives-length zero m = Gives-return _ [] refl
Gives-length (suc n) m = Gives->>= _ m _ λ a.
    Gives->>=-with _ (λ xs. length xs ≡ n) (collect n m) _ (Gives-length n m)
      λ rest k. Gives-return _ (a ∷ rest) (ap suc k)
