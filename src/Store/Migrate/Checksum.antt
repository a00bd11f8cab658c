-- ===== src/Store/Migrate/Checksum.antt =====
-- computeChecksum of internal/store/migrate.go.
use Prim.Native.String.{String}
use tark.Common.{ℕ, ◌+◌, ◌*◌, ◌%◌, ◌^◌, [], ◌∷◌}
use tark.Models.{Bytes}
use tark.Text.Numbers.{show_hex}

-- `sum = sum*31 + uint32(b)`, on a uint32
unfoldable pub sum_bytes : ℕ → Bytes → ℕ
sum_bytes sum [] = sum
sum_bytes sum (b ∷ content) = sum_bytes ((sum * 31 + b) % 2 ^ 32) content

unfoldable pub compute_checksum : Bytes → String
unfolding sum_bytes
compute_checksum content = show_hex 8 (sum_bytes 0 content) ""

-- The polynomial in 31 with the bytes as its coefficients, without bound.
unfoldable pub polynomial : ℕ → Bytes → ℕ
polynomial p [] = p
polynomial p (b ∷ content) = polynomial (p * 31 + b) content
