-- ===== src/WrappingIntegers/Examples.antt =====
-- The conversions at concrete numbers.
use cs144_sponge.Base.{◌+◌, ◌*◌, ◌-◌, ◌^◌, ◌≤◌, ◌≡◌, refl, arith}
use cs144_sponge.WrappingIntegers.{wrap, unwrap, difference}
use cs144_sponge.WrappingIntegers.Absolute.{distance, unwrap_closest, unwrap-wrap, unwrap_zero}

wrap_test : wrap (3 * 2 ^ 32 + 17) 15 ≡ 32
unfolding wrap
wrap_test = refl

unwrap_test : unwrap (2 ^ 32 - 1) 0 (2 ^ 32) ≡ 2 ^ 32 - 1
unfolding unwrap
unwrap_test = refl

unwrap_closest_example :
    distance (unwrap 17 15 (2 ^ 32)) (2 ^ 32) ≤ distance (3 * 2 ^ 32 + 2) (2 ^ 32)
unwrap_closest_example =
    unwrap_closest 17 15 (2 ^ 32) (3 * 2 ^ 32 + 2) (omega arith) (omega arith) (omega arith)
      (unfold wrap in refl)

unwrap-wrap_example : unwrap (wrap (2 ^ 32 - 7) 15) 15 (2 ^ 32) ≡ 2 ^ 32 - 7
unwrap-wrap_example =
    unwrap-wrap (2 ^ 32 - 7) 15 (2 ^ 32) (omega arith) (omega arith) (omega arith) (omega arith)

unwrap_zero_example : unwrap 3 10 0 ≡ difference 3 10
unwrap_zero_example = unwrap_zero 3 10 (omega arith) (omega arith)
