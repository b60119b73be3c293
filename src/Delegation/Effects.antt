-- ===== src/Delegation/Effects.antt =====
-- What a call of the engine changes: the tables of policies and requests, by a closed list of steps.
use soulmate.Prelude.{◌≡◌}
use soulmate.Delegation.Store.{Store}
use soulmate.Delegation.Trace.{Trace}

-- The tables that the engine only reads
pub record Untouched (s t : Store) : Type 0 where
  pub decisions : t.decisions ≡ s.decisions
  pub predictions : t.predictions ≡ s.predictions
  pub snapshots : t.snapshots ≡ s.snapshots
