-- ===== src/System/Env.antt =====
-- What the handlers call and the repository does not contain. Every answer may depend on the
-- moment of the call, a count of the calls made so far, so failures, clocks, random numbers and
-- other processes are covered. Nothing is assumed of the answers here; a theorem that relies on
-- documented behaviour says so in a hypothesis.
use Prim.Native.Char.{Char}
use tark.Common.{ℕ, String, Option, Bool, List, Error, Result}
use tark.Models.{Uuid, Time, Bytes, ℤ}
use tark.Store.{Postgres}
use tark.Kube.Objects.{KubeKind, KubeObject}
use tark.Queue.{Task, Payload, ProvisionClusterPayload, DeployModelPayload}
use tark.Queue.{DeleteModelPayload, DestroyClusterPayload, EnqueueOptions}

-- The reply of a Redis GET: no such key is redis.Nil.
pub data RedisReply : Type 0 where
  nil : RedisReply
  value : String → RedisReply
  failed : Error → RedisReply

-- What the proxy reads of a parsed URL, and what the standard reverse proxy takes of it.
pub record Url : Type 0 where
  pub scheme : String
  pub host : String
  pub path : String
  pub raw_query : String

-- The error of a call to the Kubernetes API server: apierrors.IsNotFound tells the first apart.
pub data KubeError : Type 0 where
  not_found other : Error → KubeError

-- crypto/cipher's AES-GCM under a key: Seal of a nonce and a plaintext, and Open of a nonce and what
-- Seal gave.
pub record Aead : Type 0 where
  pub nonce_size : ℕ
  pub seal : Bytes → Bytes → Bytes
  pub unseal : Bytes → Bytes → Option Bytes

pub record Env : Type 0 where
  -- time.Now
  pub now : ℕ → Time
  -- uuid.New, uuid.Parse and String
  pub new_uuid : ℕ → Uuid
  pub parse_uuid : String → Result Uuid
  pub show_uuid : Uuid → String
  -- ctx.Done: the error of the caller's context, once it has ended
  pub cancelled : ℕ → Option Error
  -- the connection to the database, and the number of rows that a listing gets if it breaks off
  pub db_fault : ℕ → Option Error
  pub rows_cut : ℕ → Option ℕ
  pub postgres : Postgres
  -- the connection to Redis
  pub redis_fault : ℕ → Option Error
  pub redis_get : ℕ → String → RedisReply
  pub redis_incr : ℕ → String → Result ℤ
  pub redis_ping : ℕ → Option Error
  -- asynq.Client.Enqueue
  pub enqueue_fault : ℕ → Task → EnqueueOptions → Option Error
  -- encoding/json on the task payloads
  pub marshal : Payload → Result String
  pub unmarshal_provision : String → Result ProvisionClusterPayload
  pub unmarshal_deploy : String → Result DeployModelPayload
  pub unmarshal_delete : String → Result DeleteModelPayload
  pub unmarshal_destroy : String → Result DestroyClusterPayload
  -- encoding/json on a list of targets, and on the field `model` of a chat request
  pub marshal_targets : List String → Result String
  pub unmarshal_targets : String → Result (List String)
  pub unmarshal_chat : String → Result String
  -- url.Parse, strconv.Quote, and time.Now().UnixNano()
  pub parse_url : String → Result Url
  pub quote : String → String
  pub unix_nano : ℕ → ℤ
  -- os and path/filepath
  pub getenv : String → String
  pub getwd : String
  pub join_path : String → String → String
  pub dir : String → String
  pub abs_path : String → Result String
  pub chmod : ℕ → String → Option Error
  pub read_file : ℕ → String → Result Bytes
  -- the Pulumi automation API: the output `publicIp` is there if it is a text
  pub upsert_stack : ℕ → String → String → String → Option Error
  pub set_config : ℕ → String → String → Option Error
  pub stack_up : ℕ → Result (Option String)
  pub stack_destroy : ℕ → Option Error
  -- golang.org/x/crypto/ssh; a failed command also has what it wrote to stderr, quoted
  pub parse_private_key : Bytes → Option Error
  pub ssh_dial : ℕ → String → String → Option Error
  pub ssh_session : ℕ → Option Error
  pub ssh_output : ℕ → String → Result Bytes
  pub ssh_stderr : ℕ → String
  -- the Kubernetes client: what it refuses of a kubeconfig, and the API server's answers
  pub kube_client_config : Bytes → Option Error
  pub kube_rest_config : Bytes → Option Error
  pub kube_clientset : Bytes → Option Error
  pub kube_get : ℕ → KubeKind → String → String → Option KubeError
  pub kube_create : ℕ → KubeObject → Option KubeError
  pub kube_delete : ℕ → KubeKind → String → String → Option KubeError
  -- of a character outside ASCII: its lower case, and whether it is a letter or a digit
  pub lower_rune : Char → Char
  pub name_rune : Char → Bool
  -- net.DialTimeout and crypto/rand
  pub dial : ℕ → String → Option Error
  pub random : ℕ → ℕ → Result Bytes
  -- AES-GCM by its key, and the error text of a base64 text that is refused
  pub aead : Bytes → Aead
  pub base64_error : Bytes → Error
