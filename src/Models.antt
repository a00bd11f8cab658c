-- ===== src/Models.antt =====
-- internal/models: the rows of the four tables, and the status constants. Statuses are texts, as in
-- the structs. A `uuid.UUID` is its 128-bit number, a `time.Time` its count of microseconds (0 is the
-- zero time), and a pointer is an `Option`.
pub mod ClusterStatus
pub mod DeploymentStatus
pub mod JobStatus
use tark.Common.{ℕ, String, Option, List}

abbrev pub Uuid : Type 0
Uuid = ℕ

-- uuid.Nil
abbrev pub nil_uuid : Uuid
nil_uuid = 0

abbrev pub Time : Type 0
Time = ℕ

-- A Go string or byte slice whose bytes the program looks at.
abbrev pub Bytes : Type 0
Bytes = List ℕ

-- A signed machine integer; `negsuc n` is -(n + 1).
pub data ℤ : Type 0 where
  pos : ℕ → ℤ
  negsuc : ℕ → ℤ

pub record Organization : Type 0 where
  pub id : Uuid
  pub name : String
  pub created_at : Time

pub record Cluster : Type 0 where
  pub id : Uuid
  pub org_id : Uuid
  pub name : String
  pub region : String
  pub status : String
  pub kubeconfig : Bytes
  pub public_ip : String
  pub created_at : Time
  pub updated_at : Time

pub record Deployment : Type 0 where
  pub id : Uuid
  pub cluster_id : Uuid
  pub model_name : String
  pub namespace : String
  pub node_port : ℤ
  pub model_url : String
  pub replicas : ℕ
  pub status : String
  pub service_url : String
  pub created_at : Time
  pub updated_at : Time

pub record Job : Type 0 where
  pub id : Uuid
  pub job_id : String
  pub task_type : String
  pub status : String
  pub payload : String
  pub cluster_id : Option String
  pub deployment_id : Option String
  pub error : Option String
  pub created_at : Time
  pub updated_at : Time
  pub started_at : Option Time
  pub completed_at : Option Time
