-- ===== src/Handler/Protocol.antt =====
-- The protocol that the processor of internal/handler keeps towards its services, as an automaton
-- over the trace of its calls. It forgets what is transferred, and keeps who owns the work
-- directory, whether the optimised object is stored, and whether the result is out.
pub mod Moves
pub mod Steps
pub mod Runs
use geul_asset_optimizer.Base.{
  String, Bool, true, false, Option, none, some, [], ◌∷◌, str_eq, if◌then◌else◌,
}
use geul_asset_optimizer.Errors.{ok, err}
use geul_asset_optimizer.Handler.World.{
  Event, span_started, span_failed, span_ended, emitted, warned, progress_published,
  complete_published, fail_published, work_dir_created, work_dir_cleaned, object_sized, downloaded,
  file_statted, inspected, optimized, file_opened, file_hashed, file_closed, uploaded, Trace,
}

-- `holding d stored`: the work directory `d` exists; `stored` once the upload has succeeded.
-- `ready`: the directory is gone and the object stored. `answered`: a result was announced.
pub data Phase : Type 0 where
  idle running ready answered : Phase
  holding : String → Bool → Phase

-- The call that a phase allows, and the phase after it; `none` is a breach of the protocol.
unfoldable pub advance : Phase → Event → Option Phase
advance idle (span_started id) = some running
advance running (emitted r) = some running
advance running (work_dir_created id (ok dir)) = some (holding dir false)
advance running (work_dir_created id (err e)) = some running
advance running (fail_published event outcome) = some answered
advance running (warned text) = some running
advance (holding dir stored) (warned text) = some (holding dir stored)
advance (holding dir stored) (progress_published event outcome) = some (holding dir stored)
advance (holding dir stored) (object_sized key r) = some (holding dir stored)
advance (holding dir false) (downloaded key path outcome) = some (holding dir false)
advance (holding dir stored) (file_statted path r) = some (holding dir stored)
advance (holding dir stored) (inspected path r) = some (holding dir stored)
advance (holding dir false) (optimized input output options outcome) = some (holding dir false)
advance (holding dir stored) (file_opened path outcome) = some (holding dir stored)
advance (holding dir stored) (file_hashed path r) = some (holding dir stored)
advance (holding dir stored) (file_closed path) = some (holding dir stored)
advance (holding dir false) (uploaded key path mime none) = some (holding dir true)
advance (holding dir false) (uploaded key path mime (some e)) = some (holding dir false)
advance (holding dir stored) (work_dir_cleaned dir' outcome) =
    if str_eq dir dir' then some (if stored then ready else running) else none
advance ready (warned text) = some ready
advance ready (complete_published event outcome) = some answered
advance answered (emitted r) = some answered
advance answered (progress_published event outcome) = some answered
advance answered (warned text) = some answered
advance answered (span_failed e) = some answered
advance answered span_ended = some idle
advance _ _ = none

unfoldable pub phase : Trace → Option Phase
unfolding advance
phase [] = some idle
phase (event ∷ tr) = elim (phase tr) [ none ↦ none | some p ↦ advance p event ]
