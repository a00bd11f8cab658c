-- ===== src/Kube.antt =====
-- internal/kube/vllm.go and client.go: the objects of a model, and the calls that make and remove
-- them on the cluster of a kubeconfig.
pub mod Objects
pub mod Client
