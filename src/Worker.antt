-- ===== src/Worker.antt =====
-- internal/worker: the background worker's server, what its handlers share, and its task handlers.
pub mod Shared
pub mod Provisioner
pub mod Kubeconfig
pub mod Provision
pub mod Deploy
pub mod Destroy
pub mod Delete
