-- ===== src/Store/Records.antt =====
-- The records of internal/storage/store/{store,auth,proposals,parity_records}.go.
-- A map that the code never tests for nil is a `GoMap`; one that it does is an `Option` of it.
use osg_gateway.Base.{ℕ, ◌-◌, ◌/◌, String, Bool, Option, List, eqb}
use osg_gateway.Base.Int.{ℤ}
use osg_gateway.Base.GoMap.{GoMap}

-- time.Time: nanoseconds since Go's zero time, the first of January of the year 1.
abbrev pub Time : Type 0
Time = ℕ

-- t.IsZero()
abbrev pub is_zero_time : Time → Bool
is_zero_time t = eqb t 0

-- t.UnixMilli(), for a time after 1970.
abbrev pub unix_milli : Time → ℕ
unix_milli t = t / 1_000_000 - 62_135_596_800_000

pub record PolicyRevision : Type 0 where
  pub rev : ℤ
  pub updated_at : Time
  pub bytes : ℤ
  pub status : String
  pub yaml : String

pub record Sandbox : Type 0 where
  pub name : String
  pub id : String
  pub image : String
  pub network : String
  pub status : String
  pub labels : GoMap String
  pub base_policy_yaml : String
  pub attached_providers : List String
  pub policy_rev : ℤ
  pub policy_revisions : List PolicyRevision
  pub updated_at : Time

pub record InferenceRoute : Type 0 where
  pub provider : String
  pub model : String
  pub timeout_sec : ℤ
  pub version : ℤ

-- `cpu` is the bit pattern of the float64, which the gateway only carries.
pub record TemplateRecord : Type 0 where
  pub name : String
  pub image : String
  pub «from» : String
  pub policy : String
  pub cpu : ℕ
  pub memory : String
  pub env : GoMap String
  pub providers : List String
  pub forwards : List ℤ
  pub labels : GoMap String
  pub yaml : String

pub record ProfileRecord : Type 0 where
  pub id : String
  pub yaml : String

pub record ProviderRefreshConfig : Type 0 where
  pub credential_key : String
  pub strategy : String
  pub material : Option (GoMap String)
  pub expires_at_ms : ℤ

pub record ProviderRecord : Type 0 where
  pub name : String
  pub type : String
  pub env_vars : List String
  pub credential_expires_at_ms : Option (GoMap ℤ)
  pub runtime_credentials : Bool
  pub config : GoMap String
  pub refresh : Option (GoMap ProviderRefreshConfig)

pub record SandboxToken : Type 0 where
  pub hash : String
  pub issued_at_ms : ℤ

pub record SshSession : Type 0 where
  pub id : String
  pub sandbox : String
  pub token_hash : String
  pub subject : String
  pub created_at_ms : ℤ
  pub expires_at_ms : ℤ
  pub revoked : Bool

pub record Proposal : Type 0 where
  pub id : String
  pub sandbox : String
  pub status : String
  pub intent_summary : String
  pub rule_name : String
  pub rule_yaml : String
  pub hosts : List String
  pub rejection_reason : String
  pub validation_result : String
  pub created_at : Time
  pub decided_at : Time

pub record ServiceRecord : Type 0 where
  pub name : String
  pub sandbox : String
  pub port : ℤ
  pub backend_host : String
  pub backend_port : ℤ
  pub updated_at : Time

pub record WorkspaceMember : Type 0 where
  pub subject : String
  pub role : String

pub record WorkspaceRecord : Type 0 where
  pub name : String
  pub members : List WorkspaceMember
  pub created_at : Time
  pub updated_at : Time

pub record State : Type 0 where
  pub gateway_id : String
  pub updated_at : Time
  pub sandboxes : GoMap Sandbox
  pub labels : GoMap String
  pub global_policy_yaml : String
  pub profiles : GoMap ProfileRecord
  pub providers : GoMap ProviderRecord
  pub inference : Option InferenceRoute
  pub settings : GoMap String
  pub auth_token : String
  pub templates : GoMap TemplateRecord
  pub services : GoMap ServiceRecord
  pub workspaces : GoMap WorkspaceRecord
  pub proposals : GoMap Proposal
  pub sandbox_tokens : GoMap SandboxToken
  pub ssh_sessions : GoMap SshSession
