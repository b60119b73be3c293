-- ===== src/Domain/Sources.antt =====
-- `Source` and `RawEvent`, and `AuditEvent`, whose metadata are JSON values.
use soulmate.Prelude.{ℕ, String, Bool, not, ◌&&◌, Option, is_none, is_some}
use soulmate.Json.{JsonFields}
use soulmate.DecisionIo.Provenance.{SourceProvenance, EventProvenance}

pub record Source : Type 0 where
  pub id : String
  pub profile_id : String
  pub source_type : String
  pub name : String
  pub created_at : ℕ
  pub provenance : SourceProvenance

pub record RawEvent : Type 0 where
  pub id : String
  pub profile_id : String
  pub source_id : Option String
  pub event_type : String
  pub content : JsonFields
  pub created_at : ℕ
  pub ingested_at : ℕ
  pub sensitivity : String
  pub provenance : EventProvenance

-- `RawEvent.__post_init__` raises unless this holds.
unfoldable pub raw_event_ok : RawEvent → Bool
raw_event_ok e = not (is_some e.provenance.external_event_id && is_none e.source_id)

pub record AuditEvent : Type 0 where
  pub id : String
  pub action : String
  pub actor_type : String
  pub created_at : ℕ
  pub profile_id : Option String
  pub actor_id : Option String
  pub metadata : Option JsonFields
