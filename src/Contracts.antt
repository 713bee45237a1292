-- ===== src/Contracts.antt =====
-- The messages of the event contracts, by the fields that the program reads and writes. A message
-- that may be absent is an `Option`, and a getter on an absent message returns the zero value. An
-- enumeration is open: `other` is a value that the program does not name.
use geul_asset_optimizer.Base.{ℕ, String, Option, none, some, List}
use geul_asset_optimizer.Base.Int.{ℤ}

pub data CompressionMethod : Type 0 where
  draco : CompressionMethod
  other : ℤ → CompressionMethod

pub data MeshOptimizationProfile : Type 0 where
  unspecified draco_webp_v1 particle_mesh_v1 : MeshOptimizationProfile
  other : ℤ → MeshOptimizationProfile

pub data TranscodeEntityType : Type 0 where
  unspecified : TranscodeEntityType
  other : ℤ → TranscodeEntityType

pub data FailureReason : Type 0 where
  rejected source_not_found download_failed optimization_failed upload_failed : FailureReason
  internal : FailureReason
  other : ℤ → FailureReason

pub data Stage : Type 0 where
  downloading analyzing optimizing uploading : Stage

pub record MediaObjectTarget : Type 0 where
  pub file_id : String
  pub extension : String
  pub mime_type : String
  pub object_key : String

pub record Identity : Type 0 where
  pub entity_type : TranscodeEntityType
  pub file_id : String
  pub entity_id : String
  pub source : Option MediaObjectTarget

pub record MeshOptimizationOptions : Type 0 where
  pub compression_method : CompressionMethod
  pub target_ratio_percent : ℤ
  pub profile : MeshOptimizationProfile

pub record MeshOptimizationJob : Type 0 where
  pub job_id : String
  pub correlation_id : String
  pub identity : Option Identity
  pub output : Option MediaObjectTarget
  pub options : Option MeshOptimizationOptions

-- The getters of an absent target.
abbrev pub nil_target : MediaObjectTarget
nil_target = record { file_id = ""; extension = ""; mime_type = ""; object_key = "" }

abbrev pub get_target : Option MediaObjectTarget → MediaObjectTarget
get_target none = nil_target
get_target (some target) = target

abbrev pub get_source : Option Identity → Option MediaObjectTarget
get_source none = none
get_source (some identity) = identity.source

abbrev pub get_identity_file_id : Option Identity → String
get_identity_file_id none = ""
get_identity_file_id (some identity) = identity.file_id

pub record ProgressEvent : Type 0 where
  pub job_id : String
  pub correlation_id : String
  pub identity : Option Identity
  pub sequence_number : ℤ
  pub progress : ℤ
  pub stage : Stage
  pub timestamp_ms : ℤ

pub record MediaObjectWriteResult : Type 0 where
  pub file_id : String
  pub file_size : ℤ
  pub sha256 : List ℕ

pub record MeshOptimizationOutput : Type 0 where
  pub written : MediaObjectWriteResult
  pub original_size_bytes : ℤ
  pub optimized_size_bytes : ℤ
  pub compression_method : CompressionMethod
  pub target_ratio_percent : ℤ
  pub profile : MeshOptimizationProfile
  pub original_vertex_count : ℤ
  pub optimized_vertex_count : ℤ
  pub original_triangle_count : ℤ
  pub optimized_triangle_count : ℤ

pub record CompleteEvent : Type 0 where
  pub job_id : String
  pub correlation_id : String
  pub identity : Option Identity
  pub output : MeshOptimizationOutput
  pub processing_time_ms : ℤ
  pub timestamp_ms : ℤ

pub record FailEvent : Type 0 where
  pub job_id : String
  pub correlation_id : String
  pub identity : Option Identity
  pub reason : FailureReason
  pub error : String
  pub processing_time_ms : ℤ
  pub timestamp_ms : ℤ
