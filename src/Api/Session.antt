-- ===== src/Api/Session.antt =====
-- api/v1alpha1/sandboxsession_types.go
use kubepark.Prelude.{Option}
use kubepark.Prelude.Text.{Text}
use kubepark.Api.Time.{Time, Duration}
use kubepark.Api.Meta.{ObjectMeta}

pub data SessionKind : Type 0 where
  ssh http : SessionKind

-- `unset` is the empty string of a session that was just created.
pub data SessionState : Type 0 where
  unset active closed : SessionState

pub data ExitReason : Type 0 where
  unset disconnected stale_heartbeat sandbox_deleted : ExitReason

pub record SandboxSessionSpec : Type 0 where
  pub sandbox_name : Text
  pub user : Text
  pub client_addr : Text
  pub kind : SessionKind
  pub cert_serial : Text
  pub heartbeat_interval : Option Duration

pub record SandboxSessionStatus : Type 0 where
  pub state : SessionState
  pub start_time : Option Time
  pub last_activity_time : Option Time
  pub end_time : Option Time
  pub exit_reason : ExitReason

pub record SandboxSession : Type 0 where
  pub meta : ObjectMeta
  pub spec : SandboxSessionSpec
  pub status : SandboxSessionStatus
