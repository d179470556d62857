-- ===== src/Os/Steps.antt =====
-- Where a program ends.
use retriever.Os.World.{World}
use retriever.Os.Program.{Run, ok, err, waits}

abbrev pub world_of : {A : Type 0} → Run A → World
world_of (ok a w) = w
world_of (err w) = w
world_of (waits w) = w
