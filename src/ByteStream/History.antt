-- ===== src/ByteStream/History.antt =====
-- A byte stream over any history of calls: it is a bounded queue of bytes.
use cs144_sponge.Base.{
  ℕ, ◌≤◌, ◌≡◌, refl, sym, ap, ◌∙◌, List, [], ◌∷◌, ◌++◌, arith, Result, ok, ◌>>=◌, length, take,
  drop, take-append-drop, append_assoc, IsU64,
}
use cs144_sponge.BufferList
use cs144_sponge.ByteStream.{ByteStream, new, write, read, end_input, set_error}
use cs144_sponge.ByteStream.Inv.{
  contents, Inv, write-count, write-contents, write-Inv, m_capacity-write, read_ok, new-Inv,
}

-- The calls of a writer and a reader.
pub data Op : Type 0 where
  writes : List ℕ → Op
  reads : ℕ → Op
  ends : Op
  fails : Op

-- The bytes that were taken in and handed out so far, and the stream.
pub record Run : Type 0 where
  pub taken : List ℕ
  pub given : List ℕ
  pub stream : ByteStream

-- `write` returns a count: the bytes taken are as many from the front.
pub step : Run → Op → Result Run
step r (writes d) =
    let (n, s) = write d r.stream in ok (record r { taken = r.taken ++ take n d; stream = s })
step r (reads n) = read r.stream n >>= λ p. ok (record r { given = r.given ++ p.0; stream = p.1 })
step r ends = ok (record r { stream = end_input r.stream })
step r fails = ok (record r { stream = set_error r.stream })

pub run : Run → List Op → Result Run
unfolding step
run r [] = ok r
run r (op ∷ ops) = step r op >>= λ r'. run r' ops

abbrev pub start : ℕ → Run
start capacity = record { taken = []; given = []; stream = new capacity }

-- No byte is lost, made up or reordered: what was taken is what was given and what is buffered.
pub record Conserves (capacity : ℕ) (r : Run) : Type 0 where
  pub valid : Inv r.stream
  pub fifo : r.taken ≡ r.given ++ contents r.stream
  pub room : r.stream.m_capacity ≡ capacity

start-Conserves : (capacity : ℕ) → IsU64 capacity → Conserves capacity (start capacity)
unfolding new contents BufferList.concatenate
start-Conserves capacity h = record { valid = new-Inv capacity h; fifo = refl; room = refl }

step-Conserves :
    (capacity : ℕ) (r : Run) (op : Op)
    → Conserves capacity r
    → (r' : Run) × (step r op ≡ ok r') × Conserves capacity r'
unfolding step
step-Conserves capacity r (writes d) c = (
  _,
  refl,
  record {
    valid = write-Inv d c.valid;
    fifo =
        rw (c.fifo, write-count d c.valid, write-contents d c.valid)
          (append_assoc r.given (contents r.stream) _);
    room = m_capacity-write d r.stream ∙ c.room;
  },
)
step-Conserves capacity r (reads n) c =
    let (s', p, k) = read_ok n c.valid in
    (
      record r { given = r.given ++ take n (contents r.stream); stream = s' },
      rw p,
      record {
        valid = k.valid;
        fifo =
            c.fifo
            ∙ ap (λ b. r.given ++ b) (sym (take-append-drop n (contents r.stream)))
            ∙ sym (append_assoc r.given (take n (contents r.stream)) (drop n (contents r.stream)))
            ∙ ap (λ b. (r.given ++ take n (contents r.stream)) ++ b) (sym k.buffered);
        room = k.capacity ∙ c.room;
      },
    )
step-Conserves capacity r ends c = (_, refl, unfold end_input contents in ground arith)
step-Conserves capacity r fails c = (_, refl, unfold set_error contents in ground arith)

run-Conserves :
    (capacity : ℕ) (ops : List Op) (r : Run)
    → Conserves capacity r
    → (r' : Run) × (run r ops ≡ ok r') × Conserves capacity r'
unfolding run
run-Conserves capacity [] r c = (r, refl, c)
run-Conserves capacity (op ∷ ops) r c =
    let (r', p, c') = step-Conserves capacity r op c in
    let (r'', p', c'') = run-Conserves capacity ops r' c' in (r'', rw p p', c'')

-- From a new stream every history of calls runs without an exception; the bytes taken from the
-- writer are those given to the reader followed by those buffered, which are at most `capacity`.
pub run_conserves :
    (capacity : ℕ) (ops : List Op)
    → IsU64 capacity
    → (r : Run) × (run (start capacity) ops ≡ ok r)
      × (r.taken ≡ r.given ++ contents r.stream)
      × (length (contents r.stream) ≤ capacity)
run_conserves capacity ops h =
    let (r, p, c) = run-Conserves capacity ops (start capacity) (start-Conserves capacity h) in
    (r, p, c.fifo, omega (arith, c.room, c.valid.sized, c.valid.bounded))
