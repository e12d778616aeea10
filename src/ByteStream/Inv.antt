-- ===== src/ByteStream/Inv.antt =====
-- The stream's representation invariant, and each operation through the bytes that are buffered.
use cs144_sponge.Base.{
  ℕ, ◌+◌, ◌-◌, ◌≤◌, ◌≡◌, sym, ap, subst, ◌∙◌, List, ◌++◌, arith, ok, min, length, take, drop,
  length-append, length-take, length-drop, drop_all, take_all, IsU64, u64, add64, sub64, Bool-cases,
  inl, inr, leb, if◌then◌else◌, append-nil, leb→le, leb→gt,
}
use cs144_sponge.BufferList
use cs144_sponge.BufferList.Laws.{concatenate-append, concatenate-of_string, remove_prefix-drop}
use cs144_sponge.ByteStream.{ByteStream, new, write, pop_output, read}

-- The bytes written and not yet read, oldest first.
unfoldable pub contents : ByteStream → List ℕ
contents s = BufferList.concatenate s.stream

pub record Inv (s : ByteStream) : Type 0 where
  pub sized : s.size ≡ length (contents s)
  pub bounded : s.size ≤ s.m_capacity
  pub capacity_fits : IsU64 s.m_capacity
  pub read_fits : IsU64 s.bytes_r
  pub counted : s.bytes_w ≡ u64 (s.bytes_r + s.size)

pub new-Inv : (capacity : ℕ) → IsU64 capacity → Inv (new capacity)
unfolding new contents BufferList.concatenate
new-Inv capacity h = omega arith

-- What a write of `d` takes.
abbrev pub accepted : ByteStream → List ℕ → ℕ
accepted s d = if s.end_flag then 0 else min (s.m_capacity - s.size) (length d)

pub write-count : (d : List ℕ) {s : ByteStream} → Inv s → (write d s).0 ≡ accepted s d
unfolding write
write-count d v = ground arith

pub write-contents :
    (d : List ℕ) {s : ByteStream}
    → Inv s
    → contents (write d s).1 ≡ contents s ++ take (accepted s d) d
unfolding write contents
write-contents d {s} v = ground (
  arith,
  concatenate-append s.stream (BufferList.of_string (take (accepted s d) d)),
  concatenate-of_string (take (accepted s d) d),
  append-nil (contents s),
)

pub length-contents-write :
    (d : List ℕ) {s : ByteStream}
    → Inv s
    → length (contents (write d s).1) ≡ length (contents s) + accepted s d
length-contents-write d {s} v = rw (write-contents d v, length-append, length-take) (ground arith)

pub write-Inv : (d : List ℕ) {s : ByteStream} → Inv s → Inv (write d s).1
unfolding write
write-Inv d {s} v = ground (arith, length-contents-write d v)

-- What the reader's side leaves: `rest` buffered, and the writer's side as it was.
pub record Left (s : ByteStream) (rest : List ℕ) (s' : ByteStream) : Type 0 where
  pub valid : Inv s'
  pub buffered : contents s' ≡ rest
  pub written : s'.bytes_w ≡ s.bytes_w
  pub ended : s'.end_flag ≡ s.end_flag
  pub capacity : s'.m_capacity ≡ s.m_capacity
  pub erred : s'.has_error ≡ s.has_error

pop_result :
    (m : ℕ) {s : ByteStream} (rest : BufferList.BufferList)
    → Inv s
    → m ≤ s.size
    → BufferList.remove_prefix s.stream m ≡ ok rest
    → BufferList.concatenate rest ≡ drop m (BufferList.concatenate s.stream)
    → (s' : ByteStream) × (pop_output s m ≡ ok s') × Left s (drop m (contents s)) s'
unfolding pop_output contents
pop_result m {s} rest v le p q = (
  record s { stream = rest; size = sub64 s.size m; bytes_r = add64 s.bytes_r m },
  rw p,
  ground (arith, length-drop m (contents s), ap length q, q),
)

-- Removing no more bytes than are buffered never throws and leaves the rest.
pub pop_output_ok :
    (m : ℕ) {s : ByteStream}
    → Inv s
    → m ≤ s.size
    → (s' : ByteStream) × (pop_output s m ≡ ok s') × Left s (drop m (contents s)) s'
pop_output_ok m {s} v le =
    let (rest, p, q) = remove_prefix-drop s.stream m (unfold contents in omega arith) in
    pop_result m rest v le p q

-- Reading never throws: it returns as many of the oldest bytes as were asked for and are there, and
-- leaves the rest.
pub read_ok :
    (n : ℕ) {s : ByteStream}
    → Inv s
    → (s' : ByteStream) × (read s n ≡ ok (take n (contents s), s'))
      × Left s (drop n (contents s)) s'
unfolding read contents
read_ok n {s} v = elim (Bool-cases (leb s.size n)) [
  | inl e ↦
      let (s', p, k) = pop_output_ok s.size v (omega arith) in
      let all : length (contents s) ≤ n = omega (arith, leb→le _ _ e) in
      let exact : length (contents s) ≤ s.size = omega arith in
      (
        s',
        rw (e, p, take_all n (contents s) all, take_all s.size (contents s) exact),
        subst (λ r. Left s r s')
            (drop_all s.size (contents s) exact ∙ sym (drop_all n (contents s) all)) k,
      )
  | inr e ↦ let (s', p, k) = pop_output_ok n v (omega (arith, leb→gt _ _ e)) in (s', rw (e, p), k)
]

pub end_flag-write : (d : List ℕ) (s : ByteStream) → (write d s).1.end_flag ≡ s.end_flag
unfolding write
end_flag-write d s = ground arith

pub m_capacity-write : (d : List ℕ) (s : ByteStream) → (write d s).1.m_capacity ≡ s.m_capacity
unfolding write
m_capacity-write d s = ground arith

pub bytes_w-write :
    (d : List ℕ) {s : ByteStream}
    → Inv s
    → (write d s).1.bytes_w ≡ add64 s.bytes_w (min (accepted s d) (length d))
unfolding write
bytes_w-write d v = ground arith
