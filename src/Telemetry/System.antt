-- ===== src/Telemetry/System.antt =====
-- internal/telemetry/system.go: the metadata of a system record, and its emission. The record and what
-- a context holds of a correlation are the telemetry library's.
use geul_asset_optimizer.Base.{Option, none, some, List, [], ◌∷◌}
use geul_asset_optimizer.Base.Int.{ℤ, pos}
use geul_asset_optimizer.Errors.{Error}

-- An instant and the offset of the zone that it is shown in.
pub record Time : Type 0 where
  pub instant : ℤ
  pub zone_offset : ℤ

abbrev utc : Time → Time
utc t = record t { zone_offset = pos 0 }

pub record SystemMetadata (Correlation : Type 0) : Type 0 where
  pub occurred_at : Time
  pub correlation : Correlation

-- The first argument is `sharedtelemetry.CorrelationFromContext`.
unfoldable pub system_metadata :
    {Context Correlation : Type 0}
    → (Context → Correlation)
    → Context
    → Time
    → SystemMetadata Correlation
system_metadata correlation_of ctx occurred_at = record {
  occurred_at = utc occurred_at;
  correlation = correlation_of ctx;
}

-- The error, and the records that were emitted; the first argument is `sharedtelemetry.EmitSystem`.
unfoldable pub emit_system :
    {Record : Type 0} → (Record → Option Error) → Record → Option Error → Option Error × List Record
emit_system emit system_record (some build_error) = (some build_error, [])
emit_system emit system_record none = (emit system_record, system_record ∷ [])
