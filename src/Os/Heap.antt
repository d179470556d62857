-- ===== src/Os/Heap.antt =====
-- `malloc` and `free`, counted. A pointer is NULL or the bytes that it points to.
use retriever.Base.{ℕ, ◌+◌, ◌-◌, ◌≡◌, true, false, Option, some, none, if◌then◌else◌}
use retriever.Os.World.{World, Bytes}
use retriever.Os.Program.{M, ok, err, draw, drawn}

-- The world after a `malloc` that succeeds.
abbrev pub allocated : World → World
allocated w = record w { faults = drawn w.faults; heap = w.heap + 1 }

-- A block that is handed out counts until it is freed.
unfoldable pub malloc : M (Unit {0})
malloc w = if draw w.faults then err (record w { faults = drawn w.faults }) else ok tt (allocated w)

-- `free(NULL)` does nothing.
unfoldable pub free : Option Bytes → M (Unit {0})
free none w = ok tt w
free (some block) w = ok tt (record w { heap = w.heap - 1 })

pub malloc_ok : (w : World) → draw w.faults ≡ false → malloc w ≡ ok tt (allocated w)
unfolding malloc
malloc_ok w h = rw h

pub malloc_err :
    (w : World) → draw w.faults ≡ true → malloc w ≡ err (record w { faults = drawn w.faults })
unfolding malloc
malloc_err w h = rw h

-- What a pointer owns.
abbrev pub owned : Option Bytes → ℕ
owned none = 0
owned (some block) = 1
