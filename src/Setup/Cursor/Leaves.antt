-- ===== src/Setup/Cursor/Leaves.antt =====
-- Where the parsers over a `cursor` of internal/setup/setup.go leave it: rules for what the last
-- parser of a chain says of its value and of the cursor.
use innoextract_go.Base.{◌≡◌, subst}
use innoextract_go.Fault.{Result, ok}
use innoextract_go.Setup.Cursor.Inside.{and_then-eq-ok}
use innoextract_go.Setup.Cursor.{Cursor, Parser, ◌>>=◌, ◌>>◌, return}

-- What a parser that succeeds returns and the cursor that it leaves are so related.
pub record Leaves {A : Type 0} (P : A → Cursor → Type 0) (m : Parser A) : Type 0 where
  pub leaves : (c : Cursor) (a : A) (c' : Cursor) → m c ≡ ok (a, c') → P a c'

returned :
    {A : Type 0} (P : A → Cursor → Type 0) {a b : A} {c d : Cursor}
    → ◌≡◌ {A = Result (A × Cursor)} (ok (a, c)) (ok (b, d))
    → P a c
    → P b d
returned {A = A} P {a} {b} {c} {d} e p =
    let pair : ◌≡◌ {A = A × Cursor} (a, c) (b, d) = cc in
    subst (λ (x : A × Cursor). P x.0 x.1) pair p

pub Leaves-weaken :
    {A : Type 0} (Q P : A → Cursor → Type 0) (m : Parser A)
    → ((a : A) (c : Cursor) → Q a c → P a c)
    → Leaves Q m
    → Leaves P m
Leaves-weaken Q P m f q = record { leaves = λ c a c' e. f a c' (q.leaves c a c' e) }

module _ {A B : Type 0} (P : B → Cursor → Type 0) where
  pub Leaves->>= :
      (m : Parser A) (f : A → Parser B) → ((a : A) → Leaves P (f a)) → Leaves P (m >>= f)
  unfolding ◌>>=◌
  Leaves->>= m f q = record {
    leaves = λ c b c'' e. let (a, c', (h, t)) = and_then-eq-ok (m c) f e in (q a).leaves c' b c'' t;
  }

  pub Leaves->> : (m : Parser A) (n : Parser B) → Leaves P n → Leaves P (m >> n)
  unfolding ◌>>◌
  Leaves->> m n q = Leaves->>= m (λ _. n) (λ _. q)

  -- The last parser, whose value enters the result.
  pub Leaves-last :
      (m : Parser A) (g : A → B) → Leaves (λ a. P (g a)) m → Leaves P (m >>= λ a. return (g a))
  unfolding ◌>>=◌ return
  Leaves-last m g p = record {
    leaves = λ c b c'' e.
        let (a, c', (h, t)) = and_then-eq-ok (m c) (λ a. return (g a)) e in
        returned P t (p.leaves c a c' h);
  }
