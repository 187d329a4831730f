-- ===== src/Prelude/Texts.antt =====
-- The order of texts.
use Prim.Native.Nat.{Ordering}
use Prim.Native.String.{String, compare}
use mathlib.Core.Bool.{Bool, true, false}

abbrev pub is_gt : Ordering → Bool
is_gt Ordering.gt = true
is_gt _ = false

abbrev pub text_gt : String → String → Bool
text_gt s t = is_gt (compare s t)
