-- ===== src/Os/Triples/Derived.antt =====
-- Contracts for runs that end, and ways to put contracts together.
use retriever.Base.{◌≡◌, subst, sym}
use retriever.Os.World.{World, Message}
use retriever.Os.Program.{Run, M, ok, err, waits, fail, ◌>>=◌, ◌>>◌, say}
use retriever.Os.Triples.Basic.{Settles, Contract, Anything, Lands, Triple, Contract-bind}

-- The same for one run that does not wait.
abbrev pub Ends : {A : Type 0} → (A → World → Type 0) → (World → Type 0) → Run A → Type 0
Ends Q E (ok a w) = Q a w
Ends Q E (err w) = E w
Ends Q E (waits w) = ⊥

module _ {A B : Type 0} (Q : A → World → Type 0) (R : B → World → Type 0) (E : World → Type 0)
    (k : A → M B) where
  pub Ends-bind :
      (r : Run A)
      → Ends Q E r
      → ((a : A) (w : World) → Q a w → Ends R E (k a w))
      → (w : World) → Ends R E (((λ _. r) >>= k) w)
  Ends-bind (ok a w') l t w = t a w' l
  Ends-bind (err w') l t w = l
  Ends-bind (waits w') l t w = absurd l

-- A run that ends does not wait.
pub Settles-Ends :
    {A : Type 0} (W : World → Type 0) (Q R : A → World → Type 0) (E F : World → Type 0) (r : Run A)
    → Settles Anything Q E r
    → Ends R F r
    → Settles W Q E r
Settles-Ends W Q R E F (ok a w) l e = l
Settles-Ends W Q R E F (err w) l e = l
Settles-Ends W Q R E F (waits w) l e = absurd e

-- Of a wait nothing need be said.
Settles-loose :
    {A : Type 0} (W : World → Type 0) (Q : A → World → Type 0) (E : World → Type 0) (r : Run A)
    → Settles W Q E r
    → Lands Q E r
Settles-loose W Q E (ok a w) l = l
Settles-loose W Q E (err w) l = l
Settles-loose W Q E (waits w) l = tt

pub Contract-loose :
    {A : Type 0} {W P E : World → Type 0} {Q : A → World → Type 0} {m : M A}
    → Contract W P m Q E
    → Triple P m Q E
Contract-loose {W} {E} {Q} {m} t = record { runs = λ w p. Settles-loose W Q E (m w) (t.runs w p) }

-- What a contract says of a run that ends.
pub Ends-both :
    {A : Type 0} (Q R : A → World → Type 0) (E F : World → Type 0) (r : Run A)
    → Lands Q E r
    → Ends R F r
    → Ends (λ a w. Q a w × R a w) F r
Ends-both Q R E F (ok a w) l e = (l, e)
Ends-both Q R E F (err w) l e = e
Ends-both Q R E F (waits w) l e = absurd e

Lands-Anything : {A : Type 0} (r : Run A) → Lands (λ _. Anything) Anything r
Lands-Anything (ok a w) = tt
Lands-Anything (err w) = tt
Lands-Anything (waits w) = tt

pub Contract-Anything :
    {A : Type 0} {P : World → Type 0} (m : M A) → Triple P m (λ _. Anything) Anything
Contract-Anything m = record { runs = λ w p. Lands-Anything (m w) }

-- A refusal has any result.
pub Contract-refuse :
    {A : Type 0} {W P : World → Type 0} {Q : A → World → Type 0} {message : Message}
    → Contract W P (say message >> fail) Q Anything
Contract-refuse = record { runs = λ w p. tt }

-- What does not depend on the world may be assumed.
pub Contract-given :
    {A F : Type 0} {W P E : World → Type 0} {Q : A → World → Type 0} {m : M A}
    → (F → Contract W P m Q E)
    → Contract W (λ w. F × P w) m Q E
Contract-given t = record { runs = λ w p. (t p.0).runs w p.1 }

pub Contract-some :
    {A F : Type 0} {W : World → Type 0} {P : F → World → Type 0} {E : World → Type 0}
    {Q : A → World → Type 0} {m : M A}
    → ((x : F) → Contract W (P x) m Q E)
    → Contract W (λ w. (x : F) × P x w) m Q E
Contract-some t = record { runs = λ w p. (t p.0).runs w p.1 }

pub Contract-said :
    {W P E : World → Type 0} {message : Message} → Contract W P (say message) (λ _. Anything) E
Contract-said = record { runs = λ w p. tt }

Settles-weaken :
    {A : Type 0} (W : World → Type 0) (Q R : A → World → Type 0) (E : World → Type 0) (r : Run A)
    → Settles W Q E r
    → ((a : A) (w : World) → Q a w → R a w)
    → Settles W R E r
Settles-weaken W Q R E (ok a w) l t = t a w l
Settles-weaken W Q R E (err w) l t = l
Settles-weaken W Q R E (waits w) l t = l

pub Contract-weaken :
    {A : Type 0} {W P E : World → Type 0} {Q R : A → World → Type 0} {m : M A}
    → Contract W P m Q E
    → ((a : A) (w : World) → Q a w → R a w)
    → Contract W P m R E
Contract-weaken {W} {E} {Q} {R} {m} t u = record {
  runs = λ w p. Settles-weaken W Q R E (m w) (t.runs w p) u;
}

-- Two things said of one call.
Settles-both :
    {A : Type 0} (W : World → Type 0) (Q R : A → World → Type 0) (E F : World → Type 0) (r : Run A)
    → Settles W Q E r
    → Settles W R F r
    → Settles W (λ a w. Q a w × R a w) Anything r
Settles-both W Q R E F (ok a w) l l' = (l, l')
Settles-both W Q R E F (err w) l l' = tt
Settles-both W Q R E F (waits w) l l' = l

pub Contract-both :
    {A : Type 0} {W P O E F : World → Type 0} {Q R : A → World → Type 0} {m : M A}
    → Contract W P m Q E
    → Contract W O m R F
    → Contract W (λ w. P w × O w) m (λ a w. Q a w × R a w) Anything
Contract-both {W} {E} {F} {Q} {R} {m} t u = record {
  runs = λ w (p, o). Settles-both W Q R E F (m w) (t.runs w p) (u.runs w o);
}

-- What else holds of a call: a failure and a wait are as the second says.
Settles-also :
    {A : Type 0} (W V : World → Type 0) (Q R : A → World → Type 0) (E F : World → Type 0)
    (r : Run A)
    → Settles W Q E r
    → Settles V R F r
    → Settles V (λ a w. Q a w × R a w) F r
Settles-also W V Q R E F (ok a w) l l' = (l, l')
Settles-also W V Q R E F (err w) l l' = l'
Settles-also W V Q R E F (waits w) l l' = l'

pub Contract-also :
    {A : Type 0} {W V P O E F : World → Type 0} {Q R : A → World → Type 0} {m : M A}
    → Contract W P m Q E
    → Contract V O m R F
    → Contract V (λ w. P w × O w) m (λ a w. Q a w × R a w) F
Contract-also {W} {V} {E} {F} {Q} {R} {m} t u = record {
  runs = λ w (p, o). Settles-also W V Q R E F (m w) (t.runs w p) (u.runs w o);
}

-- What else holds of a failure.
Settles-failed :
    {A : Type 0} (W V : World → Type 0) (Q R : A → World → Type 0) (E F : World → Type 0)
    (r : Run A)
    → Settles W Q E r
    → Settles V R F r
    → Settles W Q (λ w. E w × F w) r
Settles-failed W V Q R E F (ok a w) l l' = l
Settles-failed W V Q R E F (err w) l l' = (l, l')
Settles-failed W V Q R E F (waits w) l l' = l

pub Contract-failed :
    {A : Type 0} {W V P O E F : World → Type 0} {Q R : A → World → Type 0} {m : M A}
    → Contract W P m Q E
    → Contract V O m R F
    → Contract W (λ w. P w × O w) m Q (λ w. E w × F w)
Contract-failed {W} {V} {E} {F} {Q} {R} {m} t u = record {
  runs = λ w (p, o). Settles-failed W V Q R E F (m w) (t.runs w p) (u.runs w o);
}

-- A result that is known is put in.
pub Contract-known :
    {A B : Type 0} {W P Q E : World → Type 0} {R : B → World → Type 0} {m : M A} {x : A}
    (k : A → M B)
    → Contract W P m (λ a w. (a ≡ x) × Q w) E
    → Contract W Q (k x) R E
    → Contract W P (m >>= k) R E
Contract-known {W} {Q} {E} {R} k t u =
    Contract-bind t (λ a. Contract-given (λ e. subst (λ y. Contract W Q (k y) R E) (sym e) u))

Settles-fails :
    {A : Type 0} (W : World → Type 0) (Q : A → World → Type 0) (E F : World → Type 0) (r : Run A)
    → Settles W Q E r
    → ((w : World) → E w → F w)
    → Settles W Q F r
Settles-fails W Q E F (ok a w) l t = l
Settles-fails W Q E F (err w) l t = t w l
Settles-fails W Q E F (waits w) l t = l

-- Less is said of a failure.
pub Contract-fails :
    {A : Type 0} {W P E F : World → Type 0} {Q : A → World → Type 0} {m : M A}
    → Contract W P m Q E
    → ((w : World) → E w → F w)
    → Contract W P m Q F
Contract-fails {W} {E} {F} {Q} {m} t u = record {
  runs = λ w p. Settles-fails W Q E F (m w) (t.runs w p) u;
}
