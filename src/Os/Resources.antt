-- ===== src/Os/Resources.antt =====
-- The counts of blocks, open handles and sockets as an invariant.
use retriever.Base.{ℕ, ◌≡◌, sym, ◌∙◌, arith, List}
use retriever.Os.World.{World, Arrival}
use retriever.Os.Tracking.{Tracking}
use retriever.Socket.Stream.{Ending, open_ended, ending, ending-advance}

pub record Counted (e : Ending) (b h s : ℕ) (inbox : List Arrival) (heap handles sockets : ℕ)
    : Type 0 where
  pub ends : ending inbox ≡ e
  pub blocks : heap ≡ b
  pub opens : handles ≡ h
  pub connections : sockets ≡ s

-- A world with `b` blocks allocated, `h` handles and `s` sockets open, and a connection that ends
-- with `e`.
abbrev pub Uses : Ending → ℕ → ℕ → ℕ → World → Type 0
Uses e b h s w = Counted e b h s w.inbox w.heap w.handles w.sockets

-- A call waits for ever only where the connection stays open.
abbrev pub Waits : Ending → World → Type 0
Waits e w = e ≡ open_ended

-- The files are not counted, so every place may change.
abbrev pub counting : (e : Ending) → Tracking (Waits e) (Uses e)
counting e = record {
  Allowed = λ k. Unit {0};
  logs = λ b h s w log u. u;
  draws = λ b h s w u. u;
  allocates = λ b h s w u. record {
    ends = u.ends;
    blocks = omega (arith, u.blocks);
    opens = u.opens;
    connections = u.connections;
  };
  frees = λ b h s w u. record {
    ends = u.ends;
    blocks = omega (arith, u.blocks);
    opens = u.opens;
    connections = u.connections;
  };
  opens = λ b h s w u. record {
    ends = u.ends;
    blocks = u.blocks;
    opens = omega (arith, u.opens);
    connections = u.connections;
  };
  shuts = λ b h s w u. record {
    ends = u.ends;
    blocks = u.blocks;
    opens = omega (arith, u.opens);
    connections = u.connections;
  };
  connects = λ b h s w u. record {
    ends = u.ends;
    blocks = u.blocks;
    opens = u.opens;
    connections = omega (arith, u.connections);
  };
  disconnects = λ b h s w u. record {
    ends = u.ends;
    blocks = u.blocks;
    opens = u.opens;
    connections = omega (arith, u.connections);
  };
  reads = λ b h s w n u. record {
    ends = ending-advance n w.inbox ∙ u.ends;
    blocks = u.blocks;
    opens = u.opens;
    connections = u.connections;
  };
  idles = λ b h s w n e' u. sym u.ends ∙ e';
  writes = λ b h s w n sent u. u;
  stores = λ b h s w k node allowed u. u;
  erases = λ b h s w k allowed u. u;
}
