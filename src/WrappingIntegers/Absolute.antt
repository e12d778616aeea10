-- ===== src/WrappingIntegers/Absolute.antt =====
-- What `wrap` and `unwrap` promise each other.
use cs144_sponge.Base.{ℕ, ◌+◌, ◌-◌, ◌^◌, ◌≤◌, ◌<◌, ◌≡◌, arith, IsU32, IsU64, add64}
use cs144_sponge.WrappingIntegers.{wrap, unwrap, difference}

-- The distance between two absolute sequence numbers.
abbrev pub distance : ℕ → ℕ → ℕ
distance a b = (a - b) + (b - a)

-- Unwrapping gives a number that wraps to the one given, whatever the checkpoint.
pub wrap-unwrap :
    (n isn checkpoint : ℕ)
    → IsU32 n
    → IsU32 isn
    → IsU64 checkpoint
    → wrap (unwrap n isn checkpoint) isn ≡ n
unfolding wrap unwrap
wrap-unwrap n isn checkpoint hn hi hc = ground arith

-- No number that wraps to the one given lies closer to the checkpoint, below the last period of 2^64.
pub unwrap_closest :
    (n isn checkpoint m : ℕ)
    → IsU32 n
    → IsU32 isn
    → checkpoint + 2 ^ 32 < 2 ^ 64
    → wrap m isn ≡ n
    → distance (unwrap n isn checkpoint) checkpoint ≤ distance m checkpoint
unfolding wrap unwrap
unwrap_closest n isn checkpoint m hn hi hc e = ground arith

-- A number less than half a period away from the checkpoint comes back from its wrapped form.
pub unwrap-wrap :
    (n isn checkpoint : ℕ)
    → IsU32 isn
    → IsU64 n
    → checkpoint + 2 ^ 32 < 2 ^ 64
    → distance n checkpoint < 2 ^ 31
    → unwrap (wrap n isn) isn checkpoint ≡ n
unfolding wrap unwrap
unwrap-wrap n isn checkpoint hi hn hc d = ground arith

-- With the checkpoint 0 the result is the offset from the initial number, below 2^32.
pub unwrap_zero : (n isn : ℕ) → IsU32 n → IsU32 isn → unwrap n isn 0 ≡ difference n isn
unfolding unwrap
unwrap_zero n isn hn hi = ground arith

-- A number below 2^32 comes back at the checkpoint 0.
pub unwrap-wrap_young : (a isn : ℕ) → IsU32 isn → a < 2 ^ 32 → unwrap (wrap a isn) isn 0 ≡ a
unfolding wrap unwrap
unwrap-wrap_young a isn h k = ground arith

-- The 64-bit sums of `ackno` wrap to what the plain sum wraps to.
pub wrap-add64 : (n e isn : ℕ) → wrap (add64 (add64 n 1) e) isn ≡ wrap (n + 1 + e) isn
unfolding wrap
wrap-add64 n e isn = ground arith
