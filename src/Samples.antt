-- ===== src/Samples.antt =====
-- Concrete data: a job, services that answer every call, and a queue that holds the job's message.
use geul_asset_optimizer.Base.{
  List, ℕ, Option, leb, String, ◌<>◌, false, none, some, [], ◌∷◌, str_eq, not,
}
use geul_asset_optimizer.Base.Int.{pos}
use geul_asset_optimizer.Errors.{error_of, Error, message, result_publish_error, ok}
use geul_asset_optimizer.Contracts.{
  draco, particle_mesh_v1, TranscodeEntityType, MediaObjectTarget, Identity, MeshOptimizationJob,
}
use geul_asset_optimizer.Optimizer.Inspection.{Inspection, empty_inspection}
use geul_asset_optimizer.Handler.World
use geul_asset_optimizer.Handler.World.{Libraries}
use geul_asset_optimizer.Handler.Processor.{handle_mesh_job}
use geul_asset_optimizer.Handler.Outcome.{PlainEnv}
use geul_asset_optimizer.Jobs.{QueueConfig}
use geul_asset_optimizer.Mq
use geul_asset_optimizer.Mq.World.{Message}
use geul_asset_optimizer.Mq.Consumer.Loop.{reads}

abbrev pub target_of : String → MediaObjectTarget
target_of id = record {
  file_id = id;
  extension = "glb";
  mime_type = "model/gltf-binary";
  object_key = "media/" <> id <> ".glb";
}

abbrev pub sample_identity : Identity
sample_identity = record {
  entity_type = TranscodeEntityType.other (pos 1);
  file_id = "f1";
  entity_id = "e1";
  source = some (target_of "f1");
}

abbrev pub sample_job : MeshOptimizationJob
sample_job = record {
  job_id = "j1";
  correlation_id = "c1";
  identity = some sample_identity;
  output = some (target_of "f2");
  options = some (record {
    compression_method = draco;
    target_ratio_percent = pos 50;
    profile = particle_mesh_v1;
  });
}

abbrev pub sample_libraries : Libraries
sample_libraries = record {
  unmarshal_job = λ body. ok sample_job;
  is_uuid = λ id. not (str_eq id "");
  media_object_key = λ id ext. ok ("media/" <> id <> "." <> ext);
  sha256 = λ bytes. bytes;
}

abbrev pub sample_inspection : Inspection
sample_inspection = record empty_inspection {
  upload_vertex_count = pos 300;
  gl_primitive_count = pos 120;
}

-- Services that answer every call; the source has 40 bytes.
abbrev pub sample_env : World.Env
sample_env = record {
  libraries = sample_libraries;
  create_job_work_dir = λ tr id. ok "/tmp/mesh-j1";
  cleanup_job_work_dir = λ tr dir. none;
  get_object_size = λ tr key. ok (pos 40);
  download = λ tr key path. none;
  upload = λ tr key path mime. none;
  inspect = λ tr path. ok sample_inspection;
  optimize = λ tr input output options. none;
  publish_progress = λ tr event. none;
  publish_complete = λ tr event. none;
  publish_fail = λ tr event. none;
  stat_file = λ tr path. ok (pos 40);
  open_file = λ tr path. none;
  copy_stream = λ tr path. ok (1 ∷ 2 ∷ []);
  now_ms = λ tr. pos 1000;
  since_ms = λ from to. pos 7;
  is_canceled = λ tr. false;
}

pub sample_env-PlainEnv : PlainEnv sample_env
sample_env-PlainEnv = record {
  unmarshal_job = λ body. tt;
  media_object_key = λ id ext. tt;
  create_job_work_dir = λ tr id. tt;
  get_object_size = λ tr key. tt;
  download = λ tr key path. tt;
  upload = λ tr key path mime. tt;
  inspect = λ tr path. tt;
  optimize = λ tr input output options. tt;
  publish_complete = λ tr e. tt;
  publish_fail = λ tr e. tt;
  stat_file = λ tr path. tt;
  open_file = λ tr path. tt;
  copy_stream = λ tr path. tt;
}

abbrev pub sample_config : QueueConfig
sample_config = record {
  name = "mesh";
  message_type = "job";
  workers = pos 1;
  timeout = pos 1000;
  retry_limit = pos 3;
}

abbrev pub sample_message : Message
sample_message = record {
  transport_id = pos 7;
  envelope = record {
    message_id = "m1";
    correlation_id = "c1";
    message_type = "job";
    payload_base64 = "";
  };
  headers = ("traceparent", "t1") ∷ [];
  contract_error = "";
  read_count = pos 1;
}

-- A queue that always holds the message; the consumer is closed after two reads. The argument is
-- the handler.
abbrev pub queue_with : (List ℕ → Option Error) → Mq.World.Env
queue_with handler = record {
  payload = λ e. ok [];
  handler = λ tr body. handler body;
  parent_done = λ tr. false;
  closed = λ tr. leb 2 (reads tr);
  read = λ tr. ok (sample_message ∷ []);
  complete = λ tr id. none;
  retry = λ tr id delay. none;
  dead_letter = λ tr id. none;
  since_ms = λ from to. pos 7;
}

abbrev pub sample_queue : Mq.World.Env
sample_queue = queue_with (λ body. error_of (handle_mesh_job sample_env (pos 50) body []).0)

-- The handler's result could not be announced.
abbrev pub sample_failing_queue : Mq.World.Env
sample_failing_queue = queue_with (λ body. some (result_publish_error (message "down")))
