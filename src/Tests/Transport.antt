-- ===== src/Tests/Transport.antt =====
-- The publisher on a queue that refuses one result and a notification that is too long, the
-- connection and the consumer on a run of their callers, the store on two requests, and a tool.
use geul_asset_optimizer.Base.{
  ℕ, ◌+◌, ◌≤◌, ◌<>◌, Bool, true, false, none, some, List, [], ◌∷◌, ◌≡◌, refl, if◌then◌else◌,
}
use geul_asset_optimizer.Base.Int.{pos}
use geul_asset_optimizer.Errors.{one_if_ok, message, ok, err, ◌>>=◌, refuse_if}
use geul_asset_optimizer.Contracts.{
  particle_mesh_v1, draco, rejected, downloading, FailEvent, ProgressEvent, MeshOptimizationOptions,
}
use geul_asset_optimizer.Optimizer.Options.{
  Options, options_from_event, profile_particle_mesh_v1, profile_from_event,
}
use geul_asset_optimizer.Optimizer.Cli.{Cli, optimize, IsOneRun, accepted_runs_once}
use geul_asset_optimizer.Optimizer
use geul_asset_optimizer.Storage
use geul_asset_optimizer.Storage.Handles.{
  download_to, upload_from, handles, serve_all, serve_all-closes,
}
use geul_asset_optimizer.Mq
use geul_asset_optimizer.Mq.Carrier.{Headers, Program, inject_message_correlation}
use geul_asset_optimizer.Mq.Publisher.Accounting.{
  progress, fail, Publication, publish_all, IsAccounted, publish_all-IsAccounted,
}
use geul_asset_optimizer.Mq.Connection.{
  State, close_swapped, close_refused, db_closed, Run, here, next, open_state, Run-closes_once,
  new_connection, open_databases, new_connection-open,
}
use geul_asset_optimizer.Mq.Consumer.Closing
use geul_asset_optimizer.Mq.Consumer.Closing.{close_once, start, IsOrderly, started-IsOrderly}
use geul_asset_optimizer.Samples.{sample_identity}

abbrev failure_event : FailEvent
failure_event = record {
  job_id = "j1";
  correlation_id = "c1";
  identity = some sample_identity;
  reason = rejected;
  error = "options are required";
  processing_time_ms = pos 5;
  timestamp_ms = pos 0;
}

abbrev progress_event : ProgressEvent
progress_event = record {
  job_id = "j1";
  correlation_id = "c1";
  identity = some sample_identity;
  sequence_number = pos 1;
  progress = pos 5;
  stage = downloading;
  timestamp_ms = pos 9;
}

-- The queue refuses a result while no event stands before it.
abbrev pub publisher_env : Mq.Publisher.Env
publisher_env = record {
  queue_mesh_optimization_result = "mesh_result";
  signal_mesh_optimization_progress = "mesh_progress";
  content_type_protobuf = "application/protobuf";
  marshal_progress = λ event. ok (1 ∷ []);
  marshal_result = λ event. ok (2 ∷ []);
  new_envelope = λ id type body.
      ok
        (record { message_id = id; correlation_id = ""; message_type = type; payload_base64 = "" });
  marshal_envelope = λ envelope. 1 ∷ 2 ∷ 3 ∷ [];
  inject_correlation = Program.sets "traceparent" "t1" (Program.returns tt);
  enqueue =
      λ tr queue envelope headers delay. elim tr [ [] ↦ some (message "busy") | e ∷ rest ↦ none ];
  exec_notify = λ tr signal payload. none;
  now_ms = λ tr. pos 100;
  since_ms = λ started tr. pos 1;
}

abbrev publications : List Publication
publications = fail failure_event ∷ progress progress_event ∷ fail failure_event ∷ []

publish_all-IsAccounted_example :
    IsAccounted
      (publish_all publisher_env publications []).0
      (publish_all publisher_env publications []).1
publish_all-IsAccounted_example = publish_all-IsAccounted publisher_env publications

-- One caller closes the connection, another comes too late.
abbrev closed_state : State
closed_state = record { closed = true; closing = 0; closes = 1; probing = 0 }

open_state-Run : Run open_state closed_state
open_state-Run =
    next (next (next (here _) (close_swapped _ refl)) (close_refused _ refl)) (db_closed _ 0 refl)

Run-closes_once_example : closed_state.closes ≤ (if closed_state.closed then 1 else 0)
Run-closes_once_example = Run-closes_once closed_state open_state-Run

-- The database is opened and does not answer.
abbrev silent_database : Mq.Connection.Env
silent_database = record {
  open_postgres = λ tr dsn. none;
  ping = λ tr. some (message "no answer");
  close_db = λ tr. none;
}

new_connection-open_test :
    open_databases (new_connection silent_database "postgres://db" []).1
    ≡ open_databases [] + one_if_ok (new_connection silent_database "postgres://db" []).0
new_connection-open_test = new_connection-open silent_database "postgres://db" []

abbrev pub consumer_state : ℕ → ℕ → Bool → ℕ → ℕ → ℕ → Closing.State
consumer_state idle busy once closes waiting returned = record {
  idle = idle;
  busy = busy;
  cancelled = false;
  once = once;
  closes = closes;
  waiting = waiting;
  returned = returned;
}

pub started_one : start (ok (pos 0)) (pos 1) ≡ ok (consumer_state 1 0 false 0 0 0)
unfolding start
started_one = refl

-- `Close` is called while the worker processes a message, and returns when the worker has.
started-Run : Closing.Run (consumer_state 1 0 false 0 0 0) (consumer_state 0 0 true 1 0 1)
unfolding close_once
started-Run =
    Closing.next
      (Closing.next
        (Closing.next
          (Closing.next (Closing.next (Closing.here _) (Closing.took_message _ 0 refl))
            (Closing.close_called _))
          (Closing.processed _ 0 refl))
        (Closing.worker_returned _ 0 refl refl))
      (Closing.close_returned _ 0 refl refl)

started-IsOrderly_example : IsOrderly (consumer_state 0 0 true 1 0 1)
started-IsOrderly_example =
    started-IsOrderly (ok (pos 0)) (pos 1) (consumer_state 1 0 false 0 0 0)
      (consumer_state 0 0 true 1 0 1) started_one started-Run

-- The copy of a download fails, and the upload's file cannot be measured.
abbrev pub failing_store : Storage.Env
failing_store = record {
  quote = λ s. "\"" <> s <> "\"";
  load_default_config = λ tr region id secret. none;
  mkdir_all = λ tr path. none;
  get_object = λ tr bucket key. none;
  create_file = λ tr path. none;
  copy_stream = λ tr. err (message "disk full");
  open_file = λ tr path. none;
  stat_file = λ tr. err (message "gone");
  put_object = λ tr bucket key content_type size. none;
  delete_object = λ tr bucket key. none;
  head_object = λ tr bucket key. ok none;
}

serve_all-closes_example :
    handles (
      serve_all failing_store "media"
        (download_to "k" "/tmp/k" ∷ upload_from "k" "/tmp/k" "model/gltf-binary" ∷ [])
        [])
    ≡ some []
serve_all-closes_example =
    serve_all-closes failing_store "media"
      (download_to "k" "/tmp/k" ∷ upload_from "k" "/tmp/k" "model/gltf-binary" ∷ [])

abbrev tools : Cli
tools = record {
  gltf_transform_path = "gltf-transform";
  node_path = "node";
  particle_mesh_script_path = "particle.mjs";
}

abbrev failing_tools : Optimizer.Cli.Env
failing_tools = record {
  run_program = λ tr binary_path args. record {
    stdout = "";
    stderr = " out of memory\n";
    failure = some (message "exit status 1");
  };
  quote = λ s. s;
  line_error = λ line. message line;
}

abbrev job_options : MeshOptimizationOptions
job_options = record {
  compression_method = draco;
  target_ratio_percent = pos 50;
  profile = particle_mesh_v1;
}

abbrev tool_options : Options
tool_options = record { target_ratio_percent = pos 50; profile = profile_particle_mesh_v1 }

job_options_accepted : options_from_event (some job_options) ≡ ok tool_options
unfolding options_from_event profile_from_event ◌>>=◌ refuse_if
job_options_accepted = refl

accepted_runs_once_example :
    IsOneRun tools tool_options [] (optimize failing_tools tools "in.glb" "out.glb" tool_options [])
accepted_runs_once_example =
    accepted_runs_once failing_tools tools "in.glb" "out.glb" job_options tool_options []
      job_options_accepted

-- A library that copies one header to another and then changes the first.
abbrev rewriting : Program (Unit {0})
rewriting = Program.gets "traceparent" (λ parent.
    Program.sets "previous" parent (Program.sets "traceparent" "t2" (Program.returns tt)))

abbrev traced : Headers
traced = ("content_type", "json") ∷ ("traceparent", "t1") ∷ []

rewriting_test :
    inject_message_correlation rewriting (some traced)
    ≡ ("content_type", "json") ∷ ("traceparent", "t2") ∷ ("previous", "t1") ∷ []
unfolding inject_message_correlation
rewriting_test = refl
