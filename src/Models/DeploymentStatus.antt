-- ===== src/Models/DeploymentStatus.antt =====
-- internal/models/status.go: the constants of `DeploymentStatus`, and the texts that are one of them.
use tark.Common.{String, Bool, ◌==◌, ◌||◌, ◌≡◌, true}

abbrev pub pending : String
pending = "pending"

abbrev pub building : String
building = "building"

abbrev pub deploying : String
deploying = "deploying"

abbrev pub active : String
active = "active"

abbrev pub failed : String
failed = "failed"

abbrev pub deleting : String
deleting = "deleting"

abbrev pub deleted : String
deleted = "deleted"

abbrev pub orphaned : String
orphaned = "orphaned"

abbrev is_known : String → Bool
is_known s =
    s == pending
    || s == building
    || s == deploying
    || s == active
    || s == failed
    || s == deleting
    || s == deleted
    || s == orphaned

-- A deployment status of the lifecycle.
abbrev pub IsKnown : String → Type 0
IsKnown s = is_known s ≡ true
