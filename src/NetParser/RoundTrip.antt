-- ===== src/NetParser/RoundTrip.antt =====
-- What is written is what is read.
use cs144_sponge.Base.{
  ℕ, ◌+◌, ◌*◌, ◌%◌, ◌^◌, ◌≤◌, ◌<◌, ◌≡◌, refl, ap, ◌∙◌, false, List, ◌∷◌, ◌++◌, arith, ok, length,
  drop, get_elem?, some,
}
use cs144_sponge.Buffer
use cs144_sponge.Buffer.{Buffer}
use cs144_sponge.Buffer.Laws.{remove_prefix_ok}
use cs144_sponge.NetParser.{
  is_error, NetParser, no_error, error, check_size, parse_from, parse_int, remove_prefix, u32, u16,
  u8, unparse_int,
}

-- The parser has met no error and has these bytes left.
pub record Has (p : NetParser) (bytes : List ℕ) : Type 0 where
  pub left : Buffer.str p.buffer ≡ bytes
  pub fine : p.parse_error ≡ no_error

at_ok : (b : Buffer) (i x : ℕ) → get_elem? (Buffer.str b) i ≡ some x → Buffer.at b i ≡ ok x
unfolding Buffer.at
at_ok b i x e = ground (arith, e)

parse_from_2 :
    (b : Buffer) (x y : ℕ) (rest : List ℕ)
    → Buffer.str b ≡ x ∷ y ∷ rest
    → parse_from 16 b 2 0 0 ≡ ok (((0 * 2 ^ 8 + x) % 2 ^ 16 * 2 ^ 8 + y) % 2 ^ 16)
unfolding parse_from
parse_from_2 b x y rest e =
    rw (at_ok b 0 x (ap (λ l. get_elem? l 0) e), at_ok b 1 y (ap (λ l. get_elem? l 1) e))

parse_from_4 :
    (b : Buffer) (x y z w : ℕ) (rest : List ℕ)
    → Buffer.str b ≡ x ∷ y ∷ z ∷ w ∷ rest
    → x < 2 ^ 8
    → y < 2 ^ 8
    → z < 2 ^ 8
    → w < 2 ^ 8
    → parse_from 32 b 4 0 0 ≡ ok (((x * 2 ^ 8 + y) * 2 ^ 8 + z) * 2 ^ 8 + w)
unfolding parse_from
parse_from_4 b x y z w rest e hx hy hz hw =
    rw
      (
        at_ok b 0 x (ap (λ l. get_elem? l 0) e),
        at_ok b 1 y (ap (λ l. get_elem? l 1) e),
        at_ok b 2 z (ap (λ l. get_elem? l 2) e),
        at_ok b 3 w (ap (λ l. get_elem? l 3) e),
      )
      (ap ok (omega arith))

check_size-enough :
    (len : ℕ) (p : NetParser) → len ≤ length (Buffer.str p.buffer) → check_size len p ≡ p
unfolding check_size Buffer.size
check_size-enough len p h = ground arith

pub error-fine : (p : NetParser) → p.parse_error ≡ no_error → error p ≡ false
unfolding error
error-fine p e = ap is_error e

parse_int_reads :
    (len val : ℕ) (bytes rest : List ℕ) (p : NetParser)
    → Has p (bytes ++ rest)
    → drop len (bytes ++ rest) ≡ rest
    → len ≤ length (bytes ++ rest)
    → parse_from (8 * len) p.buffer len 0 0 ≡ ok val
    → (p' : NetParser) × (parse_int len p ≡ ok (val, p')) × Has p' rest
unfolding parse_int
parse_int_reads len val bytes rest p h d l v =
    let (b, r, k) = remove_prefix_ok p.buffer len (omega (arith, l, ap length h.left)) in
    (
      record p { buffer = b },
      rw (check_size-enough len p (omega (arith, l, ap length h.left)), error-fine p h.fine, v, r),
      record { left = k ∙ ap (drop len) h.left ∙ d; fine = h.fine },
    )

-- An integer of 16 bits is read back from the bytes that were written for it, and those behind stay.
pub u16-unparse_int :
    (val : ℕ) (rest : List ℕ) (p : NetParser)
    → val < 2 ^ 16
    → Has p (unparse_int 2 val ++ rest)
    → (p' : NetParser) × (u16 p ≡ ok (val, p')) × Has p' rest
unfolding u16
u16-unparse_int val rest p lt h =
    parse_int_reads 2 val (unparse_int 2 val) rest p h refl (ground arith)
      (parse_from_2 p.buffer _ _ rest h.left ∙ ap ok (omega (arith, lt)))

-- Removing no more bytes than are left.
pub remove_prefix-Has :
    (n : ℕ) (bytes : List ℕ) (p : NetParser)
    → Has p bytes
    → n ≤ length bytes
    → (p' : NetParser) × (remove_prefix n p ≡ ok p') × Has p' (drop n bytes)
unfolding remove_prefix
remove_prefix-Has n bytes p h l =
    let (b, r, k) = remove_prefix_ok p.buffer n (omega (arith, l, ap length h.left)) in
    (
      record p { buffer = b },
      rw (check_size-enough n p (omega (arith, l, ap length h.left)), error-fine p h.fine, r),
      record { left = k ∙ ap (drop n) h.left; fine = h.fine },
    )

-- An integer of 8 bits is read back from the byte that was written for it.
pub u8-unparse_int :
    (val : ℕ) (rest : List ℕ) (p : NetParser)
    → val < 2 ^ 8
    → Has p (unparse_int 1 val ++ rest)
    → (p' : NetParser) × (u8 p ≡ ok (val, p')) × Has p' rest
unfolding u8 parse_from
u8-unparse_int val rest p lt h =
    parse_int_reads 1 val (unparse_int 1 val) rest p h refl (ground arith)
      (rw (at_ok p.buffer 0 _ (ap (λ l. get_elem? l 0) h.left)) (ap ok (omega (arith, lt))))

-- An integer of 32 bits is read back from the bytes that were written for it in network byte order,
-- without an error, and the bytes behind them stay.
pub u32-unparse_int :
    (val : ℕ) (rest : List ℕ) (p : NetParser)
    → val < 2 ^ 32
    → Has p (unparse_int 4 val ++ rest)
    → (p' : NetParser) × (u32 p ≡ ok (val, p')) × Has p' rest
unfolding u32
u32-unparse_int val rest p lt h =
    parse_int_reads 4 val (unparse_int 4 val) rest p h refl (ground arith) (
      parse_from_4 p.buffer _ _ _ _ rest h.left (omega arith) (omega arith) (omega arith)
        (omega arith)
      ∙ ap ok (omega (arith, lt)))
