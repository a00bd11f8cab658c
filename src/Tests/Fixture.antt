-- ===== src/Tests/Fixture.antt =====
-- An environment in which every call succeeds, and the rows, payloads and tasks of one model on one
-- cluster.
use mathlib.Core.Path.{subst}
use tark.Common.{
  Bool, ℕ, zero, suc, String, none, some, [], ◌∷◌, ◌≡◌, refl, ap, Result, ok, err, ◌==◌,
  if◌then◌else◌, ltb, length, All, arith,
}
use tark.Models.{Uuid, Bytes, pos, Cluster, Deployment, Job}
use tark.Models.ClusterStatus
use tark.Models.DeploymentStatus
use tark.Models.JobStatus
use tark.Text.{show_int}
use tark.Store.{Database}
use tark.Queue.{
  Task, ProvisionClusterPayload, DeployModelPayload, DeleteModelPayload, DestroyClusterPayload,
  task_type_provision_cluster, task_type_deploy_model, task_type_delete_model,
  task_type_destroy_cluster,
}
use tark.Http.Provision.{ProvisionRequest}
use tark.Worker.Shared.{Server}
use tark.Crypto.{Cipher}
use tark.Crypto.Base64.{IsByte}
use tark.Crypto.RoundTrip.{IsSound}
use tark.System.Env.{Env, Aead, RedisReply}
use tark.System.Act.{World}
use tark.System.Ensures.{IsUp}

-- The uuids of the tests, and their texts.
abbrev pub cluster_uuid : Uuid
cluster_uuid = 5

abbrev pub deployment_uuid : Uuid
deployment_uuid = 7

abbrev read_uuid : String → Result Uuid
read_uuid text =
    if text == "5" then ok cluster_uuid else if text == "7" then ok deployment_uuid else err "uuid"

abbrev nines : ℕ → Bytes
nines zero = []
nines (suc n) = 9 ∷ nines n

length-nines : (n : ℕ) → length (nines n) ≡ n
length-nines zero = refl
length-nines (suc n) = ap suc (length-nines n)

nines-All : (n : ℕ) → All IsByte (nines n)
nines-All zero = tt
nines-All (suc n) = (omega arith, nines-All n)

abbrev plain : Aead
plain = record { nonce_size = 12; seal = λ nonce text. text; unseal = λ nonce text. some text }

abbrev pub provision_payload : ProvisionClusterPayload
provision_payload = record {
  job_id = "job";
  cluster_id = "5";
  organization_id = "1";
  stack_name = "demo";
  infra_dir = "infra";
  ssh_key_path = "key";
  config = ("location", "southindia") ∷ [];
}

abbrev pub deploy_payload : DeployModelPayload
deploy_payload = record {
  job_id = "job";
  deployment_id = "7";
  cluster_id = "5";
  namespace = "default";
  name = "vllm";
  model_url = "http://models/a.gguf";
  node_port = pos 30000;
}

abbrev pub delete_payload : DeleteModelPayload
delete_payload = record {
  job_id = "job";
  deployment_id = "7";
  cluster_id = "5";
  namespace = "default";
  name = "vllm";
}

abbrev pub destroy_payload : DestroyClusterPayload
destroy_payload = record {
  job_id = "job";
  cluster_id = "5";
  stack_name = "demo";
  infra_dir = "infra";
}

abbrev pub calm : Env
calm = record {
  now = λ n. n;
  new_uuid = λ n. suc n;
  parse_uuid = read_uuid;
  show_uuid = λ id. if show_int (pos id) == "7" then "7" else "5";
  cancelled = λ n. none;
  db_fault = λ n. none;
  rows_cut = λ n. none;
  postgres = record {
    show_uuid = λ id. "5";
    read_uuid = λ text. some cluster_uuid;
    read_jsonb = λ text. some text;
    violation = λ v. "violation";
  };
  redis_fault = λ n. none;
  redis_get = λ n key. RedisReply.nil;
  redis_incr = λ n key. ok (pos 1);
  redis_ping = λ n. none;
  enqueue_fault = λ n task options. none;
  marshal = λ p. ok "payload";
  unmarshal_provision = λ text. ok provision_payload;
  unmarshal_deploy = λ text. ok deploy_payload;
  unmarshal_delete = λ text. ok delete_payload;
  unmarshal_destroy = λ text. ok destroy_payload;
  marshal_targets = λ targets. ok "targets";
  unmarshal_targets = λ text. ok ("http://10.0.0.4:30000" ∷ "http://10.0.0.6:30000" ∷ []);
  unmarshal_chat = λ text. ok "vllm";
  parse_url = λ text. ok (record { scheme = "http"; host = text; path = ""; raw_query = "" });
  quote = λ text. text;
  unix_nano = λ n. pos n;
  getenv = λ name. "/bin";
  getwd = "/srv";
  join_path = λ a b. a;
  dir = λ path. path;
  abs_path = λ path. ok path;
  chmod = λ n path. none;
  read_file = λ n path. ok (1 ∷ []);
  upsert_stack = λ n stack work_dir path. none;
  set_config = λ n key value. none;
  stack_up = λ n. ok (some "10.0.0.4");
  stack_destroy = λ n. none;
  parse_private_key = λ key. none;
  ssh_dial = λ n address user. none;
  ssh_session = λ n. none;
  ssh_output = λ n command. ok (97 ∷ 98 ∷ []);
  ssh_stderr = λ n. "";
  kube_client_config = λ config. none;
  kube_rest_config = λ config. none;
  kube_clientset = λ config. none;
  kube_get = λ n kind namespace name. none;
  kube_create = λ n object. none;
  kube_delete = λ n kind namespace name. none;
  lower_rune = λ c. c;
  name_rune = λ c. Bool.false;
  dial = λ n address. none;
  random = λ n count. ok (nines count);
  aead = λ key. plain;
  base64_error = λ text. "illegal base64 data";
}

-- The first dials of a node port fail.
abbrev pub late : Env
late = record calm { dial = λ n address. if ltb n 12 then some "refused" else none }

-- No dial is ever answered.
abbrev pub deaf : Env
deaf = record calm { dial = λ n address. some "refused" }

-- The context ends while no dial has been answered.
abbrev pub ending : Env
ending = record deaf { cancelled = λ n. if ltb n 20 then none else some "context canceled" }

pub calm-IsUp : IsUp calm
calm-IsUp = record { reachable = λ n. refl; live = λ n. refl }

abbrev pub cipher : Cipher
cipher = record { key = nines 32 }

pub calm-IsSound : IsSound calm (calm.aead cipher.key)
calm-IsSound = record {
  opens = λ nonce text n. refl;
  seals_bytes = λ nonce text hn ht. ht;
  draws = λ moment count bs e. drawn count bs e;
}
  where
    drawn :
        (count : ℕ) (bs : Bytes) → ok (nines count) ≡ ok bs → (length bs ≡ count) × All IsByte bs
    drawn count bs e =
        let same : nines count ≡ bs = cc in
        subst (λ zs. (length zs ≡ count) × All IsByte zs) same (length-nines count, nines-All count)

abbrev pub server : Server
server = record { has_rdb = Bool.true; cipher = none }

abbrev job_row : Job
job_row = record {
  id = 3;
  job_id = "job";
  task_type = task_type_deploy_model;
  status = JobStatus.queued;
  payload = "payload";
  cluster_id = some "5";
  deployment_id = some "7";
  error = none;
  created_at = 0;
  updated_at = 0;
  started_at = none;
  completed_at = none;
}

abbrev cluster_row : Cluster
cluster_row = record {
  id = cluster_uuid;
  org_id = 1;
  name = "demo";
  region = "southindia";
  status = ClusterStatus.active;
  kubeconfig = 97 ∷ [];
  public_ip = "10.0.0.4";
  created_at = 1;
  updated_at = 1;
}

abbrev deployment_row : Deployment
deployment_row = record {
  id = deployment_uuid;
  cluster_id = cluster_uuid;
  model_name = "vllm";
  namespace = "default";
  node_port = pos 30000;
  model_url = "http://models/a.gguf";
  replicas = 1;
  status = DeploymentStatus.pending;
  service_url = "";
  created_at = 2;
  updated_at = 2;
}

abbrev pub tables : Database
tables = record {
  organizations = record { id = 1; name = "default"; created_at = 0 } ∷ [];
  clusters = cluster_row ∷ [];
  deployments = deployment_row ∷ [];
  jobs = job_row ∷ [];
}

abbrev pub world : World
world = record { db = tables; trace = []; proxies = []; moment = 10 }

-- A second cluster, with a deployment that is served.
abbrev pub two_clusters : World
two_clusters = record world {
  db = record tables {
    clusters = cluster_row ∷ record cluster_row { id = 6; name = "other" } ∷ [];
    deployments =
        deployment_row
        ∷ record deployment_row {
          id = 8;
          cluster_id = 6;
          status = DeploymentStatus.active;
          service_url = "http://10.0.0.6:30000";
        }
        ∷ [];
  };
}

abbrev pub deploy_task : Task
deploy_task = record { task_type = task_type_deploy_model; payload = "payload" }

abbrev pub delete_task : Task
delete_task = record { task_type = task_type_delete_model; payload = "payload" }

abbrev pub provision_task : Task
provision_task = record { task_type = task_type_provision_cluster; payload = "payload" }

abbrev pub destroy_task : Task
destroy_task = record { task_type = task_type_destroy_cluster; payload = "payload" }

abbrev pub provision_request : ProvisionRequest
provision_request = record { stack_name = "demo"; region = ""; vm_size = ""; subscription_id = "" }
