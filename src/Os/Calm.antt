-- ===== src/Os/Calm.antt =====
-- A world where no call fails: no fault is to come, and the connection takes whatever is sent.
use retriever.Base.{ℕ, zero, suc, ◌-◌, ◌≡◌, refl, true, List, [], ◌∷◌, Bool}
use retriever.Os.World.{World, Room, takes}
use retriever.Os.Program.{M, Run, ok, err, waits, drawn, attempt}
use retriever.Os.Triples.{
  Settles, Contract, Anything, Contract-fails, Attempted, Contract-attempt, Contract-weaken,
}
use retriever.Base.{Option, none, some, ap}
use retriever.Os.Tracking.{Tracking}
use retriever.Socket.Write.{lasts, spend}

abbrev pub IsSound : List Room → Type 0
IsSound [] = Unit
IsSound (takes k ∷ rest) = IsSound rest
IsSound (Room.signal ∷ rest) = IsSound rest
IsSound (Room.broken ∷ rest) = ⊥

pub lasts-IsSound : (n : ℕ) (rooms : List Room) → IsSound rooms → lasts n rooms ≡ true
unfolding lasts
lasts-IsSound zero rooms h = refl
lasts-IsSound (suc n) [] h = refl
lasts-IsSound (suc n) (takes k ∷ rest) h = lasts-IsSound (n - k) rest h
lasts-IsSound (suc n) (Room.signal ∷ rest) h = lasts-IsSound (suc n) rest h
lasts-IsSound (suc n) (Room.broken ∷ rest) h = absurd h

pub spend-IsSound : (n : ℕ) (rooms : List Room) → IsSound rooms → IsSound (spend n rooms)
unfolding spend
spend-IsSound zero rooms h = h
spend-IsSound (suc n) [] h = tt
spend-IsSound (suc n) (takes k ∷ rest) h = spend-IsSound (n - k) rest h
spend-IsSound (suc n) (Room.signal ∷ rest) h = spend-IsSound (suc n) rest h
spend-IsSound (suc n) (Room.broken ∷ rest) h = absurd h

abbrev pub IsCalm : World → Type 0
IsCalm w = (w.faults ≡ []) × IsSound w.rooms

pub drawn-none : {faults : List Bool} → faults ≡ [] → drawn faults ≡ []
drawn-none e = rw e

-- A world that is calm stays so.
abbrev pub calming : Tracking Anything (λ b h s. IsCalm)
calming = record {
  Allowed = λ k. Unit {0};
  logs = λ b h s w log u. u;
  draws = λ b h s w u. (drawn-none u.0, u.1);
  allocates = λ b h s w u. u;
  frees = λ b h s w u. u;
  opens = λ b h s w u. u;
  shuts = λ b h s w u. u;
  connects = λ b h s w u. u;
  disconnects = λ b h s w u. u;
  reads = λ b h s w n u. u;
  idles = λ b h s w n e u. tt;
  writes = λ b h s w n sent u. (u.0, spend-IsSound n w.rooms u.1);
  stores = λ b h s w k node allowed u. u;
  erases = λ b h s w k allowed u. u;
}

abbrev pub Never : World → Type 0
Never w = ⊥

-- No cleanup is needed.
pub needless :
    {A : Type 0} {W E : World → Type 0} {Q : A → World → Type 0} (m : M A) → Contract W Never m Q E
needless m = record { runs = λ w p. absurd p }

Settles-patient :
    {A : Type 0} (W : World → Type 0) (Q : A → World → Type 0) (E : World → Type 0) (r : Run A)
    → Settles Never Q E r
    → Settles W Q E r
Settles-patient W Q E (ok a w) l = l
Settles-patient W Q E (err w) l = l
Settles-patient W Q E (waits w) l = absurd l

-- What never waits may be said to wait for anything.
pub Contract-patient :
    {A : Type 0} {W P E : World → Type 0} {Q : A → World → Type 0} {m : M A}
    → Contract Never P m Q E
    → Contract W P m Q E
Contract-patient {W} {E} {Q} {m} t = record {
  runs = λ w p. Settles-patient W Q E (m w) (t.runs w p);
}

-- What never fails may be said to leave anything where it fails.
pub Contract-sure :
    {A : Type 0} {W P E : World → Type 0} {Q : A → World → Type 0} {m : M A}
    → Contract W P m Q Never
    → Contract W P m Q E
Contract-sure t = Contract-fails t (λ w n. absurd n)

module _ {A : Type 0} (Q : World → Type 0) (x : A) where
  through :
      (o : Option A) (w : World) → Attempted (λ a v. (a ≡ x) × Q v) Never o w → (o ≡ some x) × Q w
  through none w p = absurd p
  through (some a) w (e, q) = (ap (λ y. some y) e, q)

-- A result that is known is known through `attempt`.
pub attempt-known :
    {A : Type 0} {P Q : World → Type 0} {m : M A} {x : A}
    → Contract Never P m (λ a w. (a ≡ x) × Q w) Never
    → Contract Never P (attempt m) (λ o w. (o ≡ some x) × Q w) Never
attempt-known {Q} {x} t = Contract-weaken (Contract-attempt t) (through Q x)
