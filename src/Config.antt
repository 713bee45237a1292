-- ===== src/Config.antt =====
-- internal/config/config.go: the checks after the environment was decoded, and the queue
-- configuration that cmd/asset-optimizer/main.go makes of the result. The decoding is the
-- `envconfig` library's; its answer and the fresh identifier are arguments.
use geul_asset_optimizer.Base.{
  ◌≡◌, ◌*◌, String, Bool, true, false, not, ◌||◌, some, str_eq, if◌then◌else◌, arith,
}
use geul_asset_optimizer.Base.Int.{ℤ, pos, negsuc, ltb_ℤ, leb_ℤ, eq_ℤ, wrap64_of_IsInt64}
use geul_asset_optimizer.Errors.{Result, ok, err, ◌>>=◌, ◌>>◌, refuse_if}
use geul_asset_optimizer.Jobs.{QueueConfig, default_mesh_queue_config, minute}
use geul_asset_optimizer.Handler.Processor.{default_max_input_bytes}
use geul_asset_optimizer.Mq.Consumer.{new_consumer, times}

-- The settings that the program reads after loading them.
pub record Config : Type 0 where
  pub port : ℤ
  pub instance_id : String
  pub s3_bucket : String
  pub s3_region : String
  pub s3_endpoint : String
  pub s3_access_key_id : String
  pub s3_secret_access_key : String
  pub s3_force_path_style : Bool
  pub database_dsn : String
  pub gltf_transform_path : String
  pub node_binary_path : String
  pub particle_mesh_script_path : String
  pub temp_dir : String
  pub max_input_bytes : ℤ
  pub worker_count : ℤ
  pub job_timeout_mins : ℤ
  pub log_level : String

abbrev identified : Config → String → Config
identified cfg fresh = if str_eq cfg.instance_id "" then record cfg { instance_id = fresh } else cfg

unfoldable pub load : Result Config → String → Result Config
load decoded fresh = do
  cfg ← decoded
  refuse_if (not (eq_ℤ cfg.worker_count (pos 1))) "WORKER_COUNT must be 1 for the MVP worker"
  refuse_if (leb_ℤ cfg.job_timeout_mins (pos 0)) "JOB_TIMEOUT_MINUTES must be positive"
  refuse_if (leb_ℤ cfg.max_input_bytes (pos 0) || ltb_ℤ default_max_input_bytes cfg.max_input_bytes)
      "MAX_INPUT_BYTES must be in range 1..52428800"
  ok (identified cfg fresh)

-- `queueConfig` of `run`; the timeout is a 64-bit product.
unfoldable pub mesh_queue_config : String → Config → QueueConfig
unfolding default_mesh_queue_config
mesh_queue_config queue cfg = record (default_mesh_queue_config queue) {
  workers = cfg.worker_count;
  timeout = times minute cfg.job_timeout_mins;
}

-- A configuration that was loaded is within its limits, and has an instance id if the fresh one is
-- not empty.
pub record IsLoaded (cfg : Config) : Type 0 where
  pub worker_count : eq_ℤ cfg.worker_count (pos 1) ≡ true
  pub job_timeout_mins : leb_ℤ cfg.job_timeout_mins (pos 0) ≡ false
  pub max_input_bytes : leb_ℤ cfg.max_input_bytes (pos 0) ≡ false
  pub max_input_limit : ltb_ℤ default_max_input_bytes cfg.max_input_bytes ≡ false
  pub instance_id : str_eq cfg.instance_id "" ≡ false

-- What the loading accepts has one worker, a positive timeout, an input limit of 1 byte to 50 MiB, and
-- an instance id, when the fresh identifier is not empty.
pub load-IsLoaded :
    (decoded : Result Config) (fresh : String) (cfg : Config)
    → str_eq fresh "" ≡ false
    → load decoded fresh ≡ ok cfg
    → IsLoaded cfg
unfolding load ◌>>=◌ refuse_if
load-IsLoaded (err e) fresh cfg named h = cc
load-IsLoaded (ok c) fresh cfg named h = ground arith

pub load-one_worker :
    (decoded : Result Config) (fresh : String) (cfg : Config)
    → load decoded fresh ≡ ok cfg
    → cfg.worker_count ≡ pos 1
unfolding load ◌>>=◌ refuse_if
load-one_worker (err e) fresh cfg h = cc
load-one_worker (ok c) fresh cfg h = ground arith

timeout_positive :
    (mins : ℤ)
    → leb_ℤ mins (pos 0) ≡ false
    → leb_ℤ mins (pos 153_722_867) ≡ true
    → leb_ℤ (times minute mins) (pos 0) ≡ false
unfolding times
timeout_positive (pos n) h le =
    rw (wrap64_of_IsInt64 (pos (minute * n)) (ground arith)) (ground arith)
timeout_positive (negsuc n) h le = ground arith

-- A loaded configuration is always accepted by the consumer, when its timeout is at most 153722867
-- minutes, the connection is open, and the queue has a name.
pub loaded_is_accepted :
    (queue : String) (cfg : Config)
    → str_eq queue "" ≡ false
    → IsLoaded cfg
    → leb_ℤ cfg.job_timeout_mins (pos 153_722_867) ≡ true
    → new_consumer (some false) (mesh_queue_config queue cfg) true
      ≡ ok (mesh_queue_config queue cfg)
unfolding new_consumer mesh_queue_config
loaded_is_accepted queue cfg named h le =
    ground (arith, h, named, timeout_positive cfg.job_timeout_mins h.job_timeout_mins le)
