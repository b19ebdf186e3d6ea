-- ===== src/Buffer/Samples.antt =====
-- A concrete `malloc` for tests: it gives one cell more than is asked for.
use concurrencylab.Common.{ℕ, ◌+◌, ◌/◌, refl, some, arith, replicate, length-replicate}
use concurrencylab.Buffer.{Malloc, pointer_bytes}
use concurrencylab.Buffer.Invariant.{Allocates}

abbrev pub generous : Malloc
generous k n = some (replicate (n / pointer_bytes + 1) 0)

pub generous-Allocates : Allocates generous
generous-Allocates k n = (
  replicate (n / pointer_bytes + 1) 0,
  refl,
  omega (arith, length-replicate {A = ℕ} (n / pointer_bytes + 1) 0),
)
