-- ===== src/ByteStream/Examples.antt =====
-- The stream at concrete calls.
use cs144_sponge.Base.{◌≡◌, ◌≤◌, List, [], ◌∷◌, ◌++◌, arith, ok, length}
use cs144_sponge.ByteStream.{ByteStream, new, write}
use cs144_sponge.ByteStream.Inv.{contents}
use cs144_sponge.ByteStream.History.{Op, writes, reads, ends, Run, run, start, run_conserves}

-- A stream of four bytes that was offered five.
abbrev full : ByteStream
full = (write (1 ∷ 2 ∷ 3 ∷ 4 ∷ 5 ∷ []) (new 4)).1

abbrev calls : List Op
calls = writes (1 ∷ 2 ∷ 3 ∷ []) ∷ reads 2 ∷ writes (4 ∷ 5 ∷ 6 ∷ 7 ∷ []) ∷ ends ∷ reads 9 ∷ []

run_conserves_example :
    (r : Run) × (run (start 4) calls ≡ ok r)
    × (r.taken ≡ r.given ++ contents r.stream)
    × (length (contents r.stream) ≤ 4)
run_conserves_example = run_conserves 4 calls (omega arith)
