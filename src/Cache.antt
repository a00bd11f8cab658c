-- ===== src/Cache.antt =====
-- internal/cache/keys.go: the Redis keys of a model.
use Prim.Native.Char.{Char}
use tark.Common.{String, ◌<>◌}
use tark.Text.{to_lower}

module _ (lower_rune : Char → Char) where
  unfoldable pub model_targets_key : String → String
  model_targets_key model = "proxy:model:targets:" <> to_lower lower_rune model

  unfoldable pub model_round_robin_key : String → String
  model_round_robin_key model = "proxy:model:rr:" <> to_lower lower_rune model
