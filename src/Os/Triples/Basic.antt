-- ===== src/Os/Triples/Basic.antt =====
-- Contracts over the monad: from a world with `P`, a return leaves `Q` of the result, a failure
-- leaves `E`, and a call that waits for ever leaves `W`. A triple says nothing of the last.
use retriever.Base.{Bool, true, false, ◌≡◌, refl, Option, some, none, if◌then◌else◌}
use retriever.Os.World.{World}
use retriever.Os.Program.{Run, M, ok, err, waits, pure, fail, ◌>>=◌, ◌>>◌, ◌on_error◌, attempt}

abbrev pub Settles :
    {A : Type 0} → (World → Type 0) → (A → World → Type 0) → (World → Type 0) → Run A → Type 0
Settles W Q E (ok a w) = Q a w
Settles W Q E (err w) = E w
Settles W Q E (waits w) = W w

pub record Contract {A : Type 0} (W P : World → Type 0) (m : M A) (Q : A → World → Type 0)
    (E : World → Type 0) : Type 0 where
  pub runs : (w : World) → P w → Settles W Q E (m w)

-- Nothing is said of where a run ends.
abbrev pub Anything : World → Type 0
Anything w = Unit {0}

abbrev pub Lands : {A : Type 0} → (A → World → Type 0) → (World → Type 0) → Run A → Type 0
Lands Q E r = Settles Anything Q E r

abbrev pub Triple :
    {A : Type 0} → (World → Type 0) → M A → (A → World → Type 0) → (World → Type 0) → Type 0
Triple P m Q E = Contract Anything P m Q E

module _ {W : World → Type 0} {A B : Type 0} {Q : A → World → Type 0} {R : B → World → Type 0}
    {E : World → Type 0} {k : A → M B} where
  Settles-bind :
      (r : Run A)
      → Settles W Q E r
      → ((a : A) → Contract W (Q a) (k a) R E)
      → (w : World) → Settles W R E (((λ _. r) >>= k) w)
  Settles-bind (ok a w') l t w = (t a).runs w' l
  Settles-bind (err w') l t w = l
  Settles-bind (waits w') l t w = l

  pub Contract-bind :
      {P : World → Type 0} {m : M A}
      → Contract W P m Q E
      → ((a : A) → Contract W (Q a) (k a) R E)
      → Contract W P (m >>= k) R E
  Contract-bind {m = m} t u = record { runs = λ w p. Settles-bind (m w) (t.runs w p) u w }

pub Contract-then :
    {B : Type 0} {W P Q E : World → Type 0} {R : B → World → Type 0} {m : M (Unit {0})} {k : M B}
    → Contract W P m (λ _. Q) E
    → Contract W Q k R E
    → Contract W P (m >> k) R E
Contract-then t u = Contract-bind t (λ _. u)

abbrev pub Attempted :
    {A : Type 0} → (A → World → Type 0) → (World → Type 0) → Option A → World → Type 0
Attempted Q E none = E
Attempted Q E (some a) = Q a

module _ {A : Type 0} (W : World → Type 0) (Q : A → World → Type 0) (E F : World → Type 0) where
  Settles-cleanup :
      (r : Run (Unit {0}))
      → Settles W (λ _. F) F r
      → Settles W Q F
          (elim r as (λ _. Run A) [ ok _ w ↦ err w | err w ↦ err w | waits w ↦ waits w ])
  Settles-cleanup (ok _ w) l = l
  Settles-cleanup (err w) l = l
  Settles-cleanup (waits w) l = l

  Settles-on_error :
      (c : M (Unit {0})) (r : Run A)
      → Settles W Q E r
      → Contract W E c (λ _. F) F
      → (w : World) → Settles W Q F (((λ _. r) on_error c) w)
  Settles-on_error c (ok a w') l t w = l
  Settles-on_error c (err w') l t w = Settles-cleanup (c w') (t.runs w' l)
  Settles-on_error c (waits w') l t w = l

  Settles-attempt :
      (r : Run A) → Settles W Q E r → (w : World) → Settles W (Attempted Q E) F (attempt (λ _. r) w)
  Settles-attempt (ok a w') l w = l
  Settles-attempt (err w') l w = l
  Settles-attempt (waits w') l w = l

Settles-same :
    {A : Type 0} (W R F : World → Type 0) (r : Run A)
    → Settles W (λ _. R) R r
    → (w : World) → Settles W (λ _. R) F (attempt (λ _. r) w)
Settles-same W R F (ok a w') l w = l
Settles-same W R F (err w') l w = l
Settles-same W R F (waits w') l w = l

module _ {W : World → Type 0} {A : Type 0} {P : World → Type 0} {Q : A → World → Type 0}
    {E F : World → Type 0} {m : M A} where
  -- The cleanup starts from what the failure leaves.
  pub Contract-on_error :
      {c : M (Unit {0})}
      → Contract W P m Q E
      → Contract W E c (λ _. F) F
      → Contract W P (m on_error c) Q F
  Contract-on_error {c} t u = record {
    runs = λ w p. Settles-on_error W Q E F c (m w) (t.runs w p) u w;
  }

  pub Contract-attempt : Contract W P m Q E → Contract W P (attempt m) (Attempted Q E) F
  Contract-attempt t = record { runs = λ w p. Settles-attempt W Q E F (m w) (t.runs w p) w }

-- The same holds either way.
pub Contract-attempt_same :
    {A : Type 0} {W P R F : World → Type 0} {m : M A}
    → Contract W P m (λ _. R) R
    → Contract W P (attempt m) (λ _. R) F
Contract-attempt_same {W} {R} {F} {m} t = record {
  runs = λ w p. Settles-same W R F (m w) (t.runs w p) w;
}

module _ {W : World → Type 0} {A : Type 0} {Q : A → World → Type 0} {E : World → Type 0} where
  pub Contract-pure : {a : A} → Contract W (Q a) (pure a) Q E
  Contract-pure = record { runs = λ w p. p }

  pub Contract-fail : Contract W E fail Q E
  Contract-fail = record { runs = λ w p. p }

  -- Each branch may use what its test says.
  pub Contract-if :
      {P : World → Type 0} {m n : M A} (b : Bool)
      → (b ≡ true → Contract W P m Q E)
      → (b ≡ false → Contract W P n Q E)
      → Contract W P (if b then m else n) Q E
  Contract-if true t u = t refl
  Contract-if false t u = u refl
