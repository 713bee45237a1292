-- ===== src/Jobs.antt =====
-- internal/jobs/types.go: the configuration of the consumer's queue. Durations are in nanoseconds.
use geul_asset_optimizer.Base.{ℕ, ◌*◌, String}
use geul_asset_optimizer.Base.Int.{ℤ, pos}

pub record QueueConfig : Type 0 where
  pub name : String
  pub message_type : String
  pub workers : ℤ
  pub timeout : ℤ
  pub retry_limit : ℤ

abbrev pub second : ℕ
second = 1_000_000_000

abbrev pub minute : ℕ
minute = 60 * second

-- The queue's name is a constant of the event contracts.
unfoldable pub default_mesh_queue_config : String → QueueConfig
default_mesh_queue_config queue_asset_optimizer_mesh = record {
  name = queue_asset_optimizer_mesh;
  message_type = "api.manage.v1.MeshOptimizationJob";
  workers = pos 1;
  timeout = pos (20 * minute);
  retry_limit = pos 3;
}
