-- ===== src/StreamReassembler/Examples.antt =====
-- A text that arrives out of order.
use mathlib.Core.List.Permᴰ
use cs144_sponge.Base.{
  ℕ, suc, zero, ◌≡◌, refl, false, List, [], ◌∷◌, ◌++◌, arith, ok, length, get_or, All, min,
}
use cs144_sponge.ByteStream.Inv.{contents}
use cs144_sponge.StreamReassembler.{HashOrder, merge_substrings}
use cs144_sponge.StreamReassembler.Source.{Agrees}
use cs144_sponge.StreamReassembler.Merge.{merge_substrings-Agrees}
use cs144_sponge.StreamReassembler.Session.{
  Call, pushes, reads, Session, IsPart, run, start, run_faithful,
}

-- An order of iteration that the library might choose.
abbrev newest_first : HashOrder
newest_first = record { arrange = λ m. m; arranged = λ m. Permᴰ.refl m }

abbrev text : ℕ → ℕ
text i = get_or (10 ∷ 11 ∷ 12 ∷ 13 ∷ 14 ∷ []) i 0

part_2 : Agrees text 2 (12 ∷ 13 ∷ [])
part_2 zero h = refl
part_2 (suc zero) h = refl
part_2 (suc (suc i)) h = absurd (omega (arith, h))

part_1 : Agrees text 1 (11 ∷ 12 ∷ [])
part_1 zero h = refl
part_1 (suc zero) h = refl
part_1 (suc (suc i)) h = absurd (omega (arith, h))

part_0 : Agrees text 0 (10 ∷ 11 ∷ [])
part_0 zero h = refl
part_0 (suc zero) h = refl
part_0 (suc (suc i)) h = absurd (omega (arith, h))

abbrev calls : List Call
calls =
    pushes newest_first (12 ∷ 13 ∷ []) 2 false
    ∷ reads 1
    ∷ pushes newest_first (11 ∷ 12 ∷ []) 1 false
    ∷ pushes newest_first (10 ∷ 11 ∷ []) 0 false
    ∷ reads 3
    ∷ []

calls-IsPart : All (IsPart text) calls
calls-IsPart =
    ((part_2, omega arith), (tt, ((part_1, omega arith), ((part_0, omega arith), (tt, tt)))))

run_faithful_example :
    (t : Session) × (run (start 8) calls ≡ ok t)
    × Agrees text 0 (t.given ++ contents t.reassembler.output)
    × (length (t.given ++ contents t.reassembler.output) ≡ t.reassembler.willing)
run_faithful_example = run_faithful text 8 calls (omega arith) calls-IsPart

merge_substrings-Agrees_example :
    Agrees text (min 2 1) (merge_substrings (12 ∷ 13 ∷ []) 2 (11 ∷ 12 ∷ []) 1)
merge_substrings-Agrees_example =
    merge_substrings-Agrees text (12 ∷ 13 ∷ []) 2 (11 ∷ 12 ∷ []) 1 (omega arith) (omega arith)
      part_2 part_1
