-- ===== src/Os/Program.antt =====
-- Functions that return 0 or -1, as a state monad with failure.
use retriever.Base.{ℕ, Bool, false, List, [], ◌∷◌, ◌++◌, Option, some, none}
use retriever.Base.{take, replicate}
use retriever.Os.World.{World, Message, Bytes}

-- A call returns (0, or 1 from `rtrv_find_partial`), fails with -1, or waits for ever.
pub data Run (A : Type 0) : Type 0 where
  ok : A → World → Run A
  err : World → Run A
  waits : World → Run A

abbrev pub M : Type 0 → Type 0
M A = World → Run A

abbrev pub pure : {A : Type 0} → A → M A
pure a w = ok a w

-- `return -1`
abbrev pub fail : {A : Type 0} → M A
fail w = err w

infixl 5 ◌>>=◌ ◌>>◌
abbrev pub ◌>>=◌ : {A B : Type 0} → M A → (A → M B) → M B
◌>>=◌ m f w = elim (m w) [ ok a w' ↦ f a w' | err w' ↦ err w' | waits w' ↦ waits w' ]

abbrev pub ◌>>◌ : {B : Type 0} → M (Unit {0}) → M B → M B
m >> k = m >>= λ _. k

-- `if (m < 0) { cleanup; return -1; }`
infixl 6 ◌on_error◌
abbrev pub ◌on_error◌ : {A : Type 0} → M A → M (Unit {0}) → M A
◌on_error◌ m cleanup w = elim (m w) [
  | ok a w' ↦ ok a w'
  | err w' ↦ elim (cleanup w') [ ok _ w'' ↦ err w'' | err w'' ↦ err w'' | waits w'' ↦ waits w'' ]
  | waits w' ↦ waits w'
]

-- A call whose failure is looked at and does not end the caller.
abbrev pub attempt : {A : Type 0} → M A → M (Option A)
attempt m w = elim (m w) [ ok a w' ↦ ok (some a) w' | err w' ↦ ok none w' | waits w' ↦ waits w' ]

-- `printf` and `fprintf(stderr, …)`
abbrev pub say : Message → M (Unit {0})
say message w = ok tt (record w { log = w.log ++ (message ∷ []) })

-- Whether the next fallible call fails.
abbrev pub draw : List Bool → Bool
draw [] = false
draw (b ∷ bs) = b

abbrev pub drawn : List Bool → List Bool
drawn [] = []
drawn (b ∷ bs) = bs

-- A local array of `n` bytes, not initialised.
abbrev pub local_array : ℕ → World → Bytes
local_array n w = take n (w.stack ++ replicate n 0)
