-- ===== src/Prelude/Result.antt =====
-- What a Go function with a result and an error returns: one of the two.
use Prim.Native.String.{String}

pub data Result {ℓ} (A : Type ℓ) : Type ℓ where
  ok : A → Result A
  err : String → Result A  -- the `ErrorCode`
