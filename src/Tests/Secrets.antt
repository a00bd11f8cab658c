-- ===== src/Tests/Secrets.antt =====
-- The theorems on a cluster's kubeconfig and its objects, each at a concrete input.
use tark.Common.{[], ◌∷◌, some, ◌≡◌, refl, ok, arith}
use tark.Text.{to_bytes}
use tark.Crypto.Base64.{encode}
use tark.Crypto.{encrypt}
use tark.Models.{Bytes, pos}
use tark.Worker.Shared.{Server, decrypt_kubeconfig}
use tark.Worker.Kubeconfig.{replace_server}
use tark.Worker.Kubeconfig.Rewritten.{Rewritten, replace_server-Rewritten}
use tark.Worker.Provision.{protect}
use tark.Worker.Provision.RoundTrip.{decrypt_kubeconfig-protect}
use tark.Kube.Objects.{deployments, services, workload, service}
use tark.Kube.Client.{
  ModelConfig, deploy_model, ensure, unless_found, create, from_kube, delete_model, remove,
  unless_failed, default_name, model_workload, model_service,
}
use tark.Kube.Client.Ensured.{IsThere, IsGone, deploy_model-IsThere, delete_model-IsGone}
use tark.System.Act.{◌>>=◌, pure, asks, call, request, check, branch}
use tark.Tests.Fixture.{calm, cipher, calm-IsSound, server, world}

abbrev keyed : Server
keyed = record server { cipher = some cipher }

abbrev sealed : Bytes
sealed = encode (9 ∷ 9 ∷ 9 ∷ 9 ∷ 9 ∷ 9 ∷ 9 ∷ 9 ∷ 9 ∷ 9 ∷ 9 ∷ 9 ∷ 97 ∷ [])

protected : (protect keyed.cipher (97 ∷ []) calm world).0 ≡ ok sealed
unfolding protect encrypt ◌>>=◌ pure asks call check branch
protected = refl

decrypt_kubeconfig-protect_example :
    decrypt_kubeconfig keyed sealed calm world ≡ (ok (97 ∷ []), world)
decrypt_kubeconfig-protect_example =
    decrypt_kubeconfig-protect calm world world keyed keyed (97 ∷ []) sealed refl calm-IsSound
      (omega arith, tt) protected

replace_server-Rewritten_example :
    Rewritten
      (to_bytes "server: https://20.1.2.3:16443")
      (to_bytes "server: https://127.0.0.1:16443")
      (replace_server calm.name_rune "20.1.2.3" (to_bytes "server: https://127.0.0.1:16443"))
replace_server-Rewritten_example =
    replace_server-Rewritten calm.name_rune "20.1.2.3" (to_bytes "server: https://127.0.0.1:16443")
      refl

abbrev model : ModelConfig
model = record { name = ""; model_url = "http://models/a.gguf"; node_port = pos 30000 }

deployed : (deploy_model "default" model calm world).0 ≡ ok tt
unfolding deploy_model ensure unless_found create from_kube ◌>>=◌ pure request check branch
deployed = refl

deploy_model-IsThere_example :
    IsThere calm 10 deployments "default" "vllm" (workload (model_workload "default" "vllm" model))
    × IsThere calm 10 services "default" "vllm" (service (model_service "default" "vllm" model))
unfolding default_name
deploy_model-IsThere_example = deploy_model-IsThere "default" model calm world deployed

removed : (delete_model "default" "phi" calm world).0 ≡ ok tt
unfolding delete_model remove unless_failed ◌>>=◌ pure request check branch
removed = refl

delete_model-IsGone_example :
    IsGone calm 10 services "default" "phi" × IsGone calm 10 deployments "default" "phi"
unfolding default_name
delete_model-IsGone_example = delete_model-IsGone "default" "phi" calm world removed
