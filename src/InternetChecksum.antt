-- ===== src/InternetChecksum.antt =====
-- `InternetChecksum` of libsponge/util/util.{hh,cc}.
pub mod Sum
use cs144_sponge.Base.{
  ℕ, zero, suc, ◌+◌, ◌-◌, ◌*◌, ◌/◌, ◌%◌, ◌^◌, Bool, true, false, not, List, [], ◌∷◌, ltb,
  if◌then◌else◌, u32, Result, ok, err, out_of_fuel,
}

pub record InternetChecksum : Type 0 where
  pub sum : ℕ
  pub parity : Bool

-- `InternetChecksum(initial_sum)`
unfoldable pub new : ℕ → InternetChecksum
new initial_sum = record { sum = initial_sum; parity = false }

-- The first byte of each pair is the high one.
unfoldable pub add_byte : ℕ → InternetChecksum → InternetChecksum
add_byte x c = record {
  sum = u32 (c.sum + (if c.parity then x else x * 2 ^ 8));
  parity = not c.parity;
}

unfoldable pub add : List ℕ → InternetChecksum → InternetChecksum
unfolding add_byte
add [] c = c
add (x ∷ bytes) c = add bytes (add_byte x c)

-- The loop that adds the carries, on fuel.
pub fold_carries : ℕ → ℕ → Result ℕ
fold_carries zero ret = err out_of_fuel
fold_carries (suc fuel) ret =
    let rest = fold_carries fuel (ret / 2 ^ 16 + ret % 2 ^ 16) in
    if ltb 65535 ret then rest else ok ret

-- A sum of 32 bits is folded in two rounds at most. The result is the complement in 16 bits.
unfoldable pub value : InternetChecksum → Result ℕ
unfolding fold_carries
value c = elim (fold_carries 3 c.sum) [ ok ret ↦ ok (65535 - ret) | err e ↦ err e ]
