-- ===== src/Deploy/Pipeline.antt =====
-- api/internal/deploy/pipeline.go: what one run of the pipeline reads, writes and calls. A step is a
-- function of the run's state that returns or fails, and keeps what it wrote before it failed. The
-- deploy's context may end at any moment: `left` counts the calls that it still lets through, and
-- every call or statement behind them fails. What the programs, the file system and the other packages answer
-- is the record World; log lines are left out.
pub mod Steps
pub mod Fetch
pub mod Stack
pub mod Gate
pub mod Deploy
pub mod Lifecycle
pub mod Stays
pub mod Stages
pub mod Ends
pub mod Closes
pub mod Settles
pub mod Rows
pub mod Terminal
pub mod Silent
pub mod Blocked
mod Tests
use vac.Prelude.{List, String, Text, ℕ, ℤ, Bool, Option}
use vac.Deploy.Schema.{Db}
use vac.Deploy.Status.{DeploymentStatus, ServiceStatus}
use vac.Deploy.Services.{Service}

pub data Source : Type 0 where
  from_git from_template from_image : Source

-- The columns of apps that the pipeline reads, and the fields of its build config.
pub record PipelineApp : Type 0 where
  pub id : ℕ
  pub source : Source
  pub template_id : Option Text
  pub git_url : Text
  pub mem_limit_mb : Option ℤ
  pub maintenance_auto : Bool

-- An error: that of the ended context, or its message.
pub data Failure : Type 0 where
  context_ended : Failure
  message : String → Failure

-- What a call answers; `missing` is ErrNotFound.
pub data Answer (A : Type 0) : Type 0 where
  answered : A → Answer A
  missing : Answer A
  refused : String → Answer A

pub record Publisher : Type 0 where
  pub target_port : ℤ
  pub published_port : ℤ

pub record PsService : Type 0 where
  pub id : Text
  pub service : Text
  pub state : String
  pub publishers : List Publisher

-- Caddy's router, where it is wired.
pub record Router : Type 0 where
  pub sync : Answer Text
  pub wait_healthy : Answer Text

pub record World : Type 0 where
  pub now : ℕ
  pub get_app : ℕ → Answer PipelineApp
  pub key_get : Answer Text
  pub key_mint : Answer Text
  pub key_open : Answer Text
  pub key_file : Answer Text
  pub templates : Option (Answer Text)
  pub template_paths : List (Text × Text)
  pub mkdir : Answer Text
  pub has_clone : Bool
  pub git_pull : Answer Text
  pub git_clone : Answer Text
  pub fetch_commit : String → Answer Text
  pub head_commit : Answer (String × String)
  -- ParseConfig, with AllowUnsafeCompose
  pub build_config : Answer Bool
  -- adapter.For and Prepare, with the path of the compose file
  pub adapter_for : Answer Text
  pub prepare : Answer Text
  pub hash_file : Answer String
  pub docker_config : Answer Text
  pub raw_compose : Answer Text
  pub has_box : Bool
  pub render_env : Answer Text
  pub docker_build : Answer Text
  pub registry_auth : Answer Text
  pub box_open : Answer Text
  pub parse_auth : Answer Text
  pub docker_login : Answer Text
  pub docker_pull : Answer Text
  pub cpu_limited : Bool
  pub resource_override : Answer Text
  pub docker_up : Answer Text
  pub docker_ps : Answer (List PsService)
  pub router : Option Router
  -- The HTTP status of the attempt, and whether the deadline lies before it.
  pub check : (port : ℤ) → (attempt : ℕ) → Answer ℕ
  pub is_late : (port : ℤ) → (attempt : ℕ) → Bool
  pub health_check_retries : ℤ
  pub maintainer : Bool

-- The calls that leave a trace outside the database.
pub data Call : Type 0 where
  cloned pulled fetched built logged_in images_pulled synced waited : Call
  -- `docker compose up`, with the resource override or without
  started_stack : (limited : Bool) → Call
  notified_success notified_failure maintenance_on maintenance_off : Call

-- `calls` and `history`, the statuses that the run gave its deployment, have the latest first.
pub record Run : Type 0 where
  pub db : Db
  pub services : List Service
  pub app_status : ServiceStatus
  pub suspended : Bool
  pub left : Option ℕ
  pub calls : List Call
  pub history : List DeploymentStatus
