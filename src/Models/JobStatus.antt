-- ===== src/Models/JobStatus.antt =====
-- internal/models/status.go: the constants of `JobStatus`, and the texts that are one of them.
use tark.Common.{String, Bool, ◌==◌, ◌||◌, ◌≡◌, true}

abbrev pub queued : String
queued = "queued"

abbrev pub running : String
running = "running"

abbrev pub completed : String
completed = "completed"

abbrev pub failed : String
failed = "failed"

abbrev is_known : String → Bool
is_known s = s == queued || s == running || s == completed || s == failed

-- A job status of the lifecycle.
abbrev pub IsKnown : String → Type 0
IsKnown s = is_known s ≡ true
