-- ===== src/Worker/Provisioner.antt =====
-- internal/worker/provisioner.go and ssh.go: the Pulumi stack of a cluster, and its kubeconfig.
pub mod Keep
pub mod Answers
use tark.Common.{String, Option, none, some, List, [], ◌∷◌, Error, Result, ok, err, wrap, ◌<>◌}
use tark.Models.{Bytes}
use tark.System.Env.{Env}
use tark.System.Act.{Act, Event, ◌>>=◌, pure, asks, call, request, from_fault, check}

-- the PATH that the Pulumi program runs with
search_path : String → Env → String
search_path work_dir e = e.join_path (e.dir (e.dir work_dir)) "fake-go" <> ":" <> e.getenv "PATH"

-- `for k, v := range configMap`; the list is the order in which Go visits the map
set_config_all : List (String × String) → Act (Result (Unit {0}))
set_config_all [] = pure (ok tt)
set_config_all (entry ∷ rest) =
    check (call (λ e n. from_fault (e.set_config n entry.0 entry.1))) (λ x. pure (err x))
      λ _. set_config_all rest

public_ip_output : Option String → Result String
public_ip_output none = err "failed to get publicIp from stack outputs"
public_ip_output (some ip) = ok ip

unfoldable pub upsert : String → String → Act (Result (Unit {0}))
unfolding search_path
upsert stack_name work_dir = do
  path ← asks (search_path work_dir)
  check (call (λ e n. from_fault (e.upsert_stack n stack_name work_dir path)))
      (λ x. pure (wrap "failed to initialize stack" x)) (λ _. pure (ok tt))

-- The cluster's public IP.
pub provision_cluster : String → String → List (String × String) → Act (Result String)
unfolding set_config_all public_ip_output upsert
provision_cluster stack_name work_dir config =
    check (asks (λ e. e.abs_path work_dir)) (λ x. pure (err x))
      λ abs_work_dir.
        check (upsert stack_name abs_work_dir) (λ x. pure (err x))
          λ _.
            check (set_config_all config) (λ x. pure (err x))
              λ _.
                check (request (Event.stack_up stack_name) (λ e n. e.stack_up n))
                  (λ x. pure (wrap "infra update failed" x))
                  λ output. pure (public_ip_output output)

unfoldable pub destroy_cluster : String → String → Act (Result (Unit {0}))
unfolding upsert
destroy_cluster stack_name work_dir =
    check (asks (λ e. e.abs_path work_dir)) (λ x. pure (err x))
      λ abs_work_dir.
        check (upsert stack_name abs_work_dir) (λ x. pure (err x))
          λ _.
            check (request (Event.stack_destroy stack_name) (λ e n. from_fault (e.stack_destroy n)))
              (λ x. pure (wrap "infra destroy failed" x)) λ _. pure (ok tt)

-- ssh.go, with the user, the command and the texts of its errors
pub fetch_remote_kubeconfig : String → String → Act (Result Bytes)
fetch_remote_kubeconfig host_ip key_path =
    check (call (λ e n. from_fault (e.chmod n key_path)))
      (λ x. pure (wrap "failed to set private key permissions" x))
      λ _.
        check (call (λ e n. e.read_file n key_path))
          (λ x. pure (wrap "failed to read private key" x))
          λ key.
            check (asks (λ e. from_fault (e.parse_private_key key)))
              (λ x. pure (wrap "failed to parse private key" x))
              λ _.
                check (call (λ e n. from_fault (e.ssh_dial n (host_ip <> ":22") "azureuser")))
                  (λ x. pure (wrap "failed to dial SSH" x))
                  λ _.
                    check (call (λ e n. from_fault (e.ssh_session n)))
                      (λ x. pure (wrap "failed to create SSH session" x))
                      λ _.
                        check
                          (request (Event.ssh_output host_ip "cat /home/azureuser/client.config")
                            (λ e n. e.ssh_output n "cat /home/azureuser/client.config"))
                          (λ x. do
                            stderr ← call (λ e n. e.ssh_stderr n)
                            pure (
                                err (
                                  "failed to run command to fetch kubeconfig: " <> x <> ", stderr: "
                                  <> stderr)))
                          λ output. pure (ok output)
