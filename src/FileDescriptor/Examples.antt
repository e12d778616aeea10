-- ===== src/FileDescriptor/Examples.antt =====
-- A write of two views, of which the kernel takes two bytes at a time.
use cs144_sponge.Base.{ℕ, ◌≡◌, refl, true, false, [], ◌∷◌, arith, ok, length, min}
use cs144_sponge.BufferViewList.{BufferViewList}
use cs144_sponge.BufferViewList.Laws.{bytes}
use cs144_sponge.FileDescriptor.{Answer, returned, FdWrapper, write}
use cs144_sponge.FileDescriptor.Write.{Takes, write_all_sends}

abbrev two_by_two : ℕ → ℕ → Answer
two_by_two round size = returned (min 2 size)

two_by_two-Takes : (i s : ℕ) → Takes s (two_by_two i s)
two_by_two-Takes i s = record {
  taken = min 2 s;
  as_answer = refl;
  at_most = omega arith;
  progress = λ h. omega (arith, h);
}

abbrev two_views : BufferViewList
two_views = (1 ∷ 2 ∷ 3 ∷ []) ∷ (4 ∷ 5 ∷ []) ∷ []

abbrev some_file : FdWrapper
some_file = record { fd = 3; eof = false; closed = false; read_count = 0; write_count = 0 }

write_all_sends_example :
    (f : FdWrapper) × (write two_by_two some_file two_views true
      ≡ ok (length (bytes two_views), bytes two_views, f))
write_all_sends_example = write_all_sends two_by_two some_file two_views two_by_two-Takes
