-- ===== src/Mempool/Arith.antt =====
-- The floating-point arithmetic of src/mempool/gate.rs, which the kernel has no numbers for: a type
-- with the operations that the code calls. `ratio`, `sub`, ... are those of `f64`; `one` and `z` are
-- the literals 1.0 and 1.645; `round_index` is `(n as f64 * q).round() as usize`.
use rust_uma.Prelude.{ℕ, Bool}

pub record Floats : Type 1 where
  pub F : Type 0
  pub of_u32 : ℕ → F
  pub add : F → F → F
  pub sub : F → F → F
  pub mul : F → F → F
  pub div : F → F → F
  pub sqrt : F → F
  pub ge : F → F → Bool
  pub round_index : ℕ → F → ℕ
  pub one : F
  pub two : F
  pub three : F
  pub z : F
