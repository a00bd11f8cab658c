-- ===== src/Models/ClusterStatus.antt =====
-- internal/models/status.go: the constants of `ClusterStatus`, and the texts that are one of them.
use tark.Common.{String, Bool, ◌==◌, ◌||◌, ◌≡◌, true}

abbrev pub provisioning : String
provisioning = "provisioning"

abbrev pub installing : String
installing = "installing"

abbrev pub active : String
active = "active"

abbrev pub failed : String
failed = "failed"

abbrev pub destroying : String
destroying = "destroying"

abbrev pub destroyed : String
destroyed = "destroyed"

abbrev is_known : String → Bool
is_known s =
    s == provisioning
    || s == installing
    || s == active
    || s == failed
    || s == destroying
    || s == destroyed

-- A cluster status of the lifecycle.
abbrev pub IsKnown : String → Type 0
IsKnown s = is_known s ≡ true
