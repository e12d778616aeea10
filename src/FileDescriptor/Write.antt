-- ===== src/FileDescriptor/Write.antt =====
-- A descriptor's `write`, with a kernel that takes some of what it is offered.
use cs144_sponge.Base.{
  ℕ, zero, suc, ◌+◌, ◌-◌, ◌≤◌, ◌<◌, ◌≡◌, refl, sym, ap, ap₂, ◌∙◌, Bool, true, false, not, ◌&&◌,
  Bool-cases, inl, inr, List, [], ◌∷◌, ◌++◌, arith, ok, length, take, drop, append_assoc,
  append-nil, take-append-drop, length-drop, ltb, ◌==◌, ==_iff, if◌then◌else◌,
}
use cs144_sponge.BufferViewList
use cs144_sponge.BufferViewList.{BufferViewList}
use cs144_sponge.BufferViewList.Laws.{bytes, size-bytes, remove_prefix-drop}
use cs144_sponge.FileDescriptor.{
  Answer, returned, system_call, FdWrapper, Written, write_from, write, register_write,
}

-- An answer to an offer of `s` bytes: some of them are taken, one at least if there is one.
pub record Takes (s : ℕ) (answer : Answer) : Type 0 where
  pub taken : ℕ
  pub as_answer : answer ≡ returned taken
  pub at_most : taken ≤ s
  pub progress : 0 < s → 0 < taken

-- One round: the bytes taken go out, the others are left.
pub one_round :
    (answer : Answer) (buffer : BufferViewList)
    → (t : Takes (BufferViewList.size buffer) answer)
    → (rest : BufferViewList) × (BufferViewList.remove_prefix buffer (Takes.taken t) ≡ ok rest)
      × (bytes rest ≡ drop (Takes.taken t) (bytes buffer))
      × (BufferViewList.size rest ≡ BufferViewList.size buffer - Takes.taken t)
one_round answer buffer t =
    let low : Takes.taken t ≤ length (bytes buffer) =
      omega (arith, Takes.at_most t, size-bytes buffer) in
    let (rest, p, q) = remove_prefix-drop buffer (Takes.taken t) low in
    (
      rest,
      p,
      q,
      size-bytes rest
          ∙ ap length q
          ∙ length-drop (Takes.taken t) (bytes buffer)
          ∙ ap (λ s. s - Takes.taken t) (sym (size-bytes buffer)),
    )

-- A round whose bytes are taken goes on with the others, or ends.
round_on :
    (writev : ℕ → ℕ → Answer) (write_all : Bool) (fuel i : ℕ) (buffer rest : BufferViewList)
    (w : Written) (n : ℕ)
    → writev i (BufferViewList.size buffer) ≡ returned n
    → n ≤ BufferViewList.size buffer
    → (0 < BufferViewList.size buffer → 0 < n)
    → BufferViewList.remove_prefix buffer n ≡ ok rest
    → write_from writev write_all (suc fuel) i buffer w ≡ (
        if write_all && not (BufferViewList.size rest == 0)
        then write_from writev write_all fuel
            (i + 1)
            rest
            (w.0 + n, w.1 ++ take n (bytes buffer), register_write w.2)
        else ok (w.0 + n, w.1 ++ take n (bytes buffer), register_write w.2))
unfolding write_from system_call
round_on writev write_all fuel i buffer rest w n e low some_taken removed =
    let some_go : (n == 0 && not (BufferViewList.size buffer == 0)) ≡ false =
      ground (arith, some_taken) in
    let not_more : ltb (BufferViewList.size buffer) n ≡ false = ground (arith, low) in
    rw (e, some_go, not_more, removed)

joined :
    (n : ℕ) (rest buffer out : List ℕ)
    → rest ≡ drop n buffer
    → (out ++ take n buffer) ++ rest ≡ out ++ buffer
joined n rest buffer out e =
    append_assoc out (take n buffer) rest
    ∙ ap (λ r. out ++ r) (ap (λ r. take n buffer ++ r) e ∙ take-append-drop n buffer)

counted :
    (n total : ℕ) (rest buffer : List ℕ)
    → n ≤ length buffer
    → rest ≡ drop n buffer
    → total + n + length rest ≡ total + length buffer
counted n total rest buffer low e = omega (arith, low, ap length e, length-drop n buffer)

ended : (rest out : List ℕ) → rest ≡ [] → out ≡ out ++ rest
ended rest out e = sym (ap (λ r. out ++ r) e ∙ append-nil out)

ended_count :
    (n total : ℕ) (rest buffer : List ℕ)
    → n ≤ length buffer
    → rest ≡ drop n buffer
    → rest ≡ []
    → total + n ≡ total + length buffer
ended_count n total rest buffer low e z =
    omega (arith, counted n total rest buffer low e, ap length z)

length-zero : (s : List ℕ) → length s ≡ 0 → s ≡ []
length-zero [] e = refl
length-zero (x ∷ s) e = ground (arith, e)

-- The rounds from any one on, when there is fuel for a byte each.
write_from_all :
    (writev : ℕ → ℕ → Answer)
    → ((i s : ℕ) → Takes s (writev i s))
    → (fuel i : ℕ) (buffer : BufferViewList) (w : Written) → BufferViewList.size buffer < fuel
    → (f' : FdWrapper) × (write_from writev true fuel i buffer w
        ≡ ok (w.0 + length (bytes buffer), w.1 ++ bytes buffer, f'))
write_from_all writev takes zero i buffer w h = elim h [ ]
write_from_all writev takes (suc fuel) i buffer w h =
    let t : Takes (BufferViewList.size buffer) (writev i (BufferViewList.size buffer)) =
      takes i (BufferViewList.size buffer) in
    let n : ℕ = Takes.taken t in
    let (rest, removed, left, smaller) = one_round _ buffer t in
    let low : n ≤ length (bytes buffer) = omega (arith, Takes.at_most t, size-bytes buffer) in
    let w' : Written = (w.0 + n, w.1 ++ take n (bytes buffer), register_write w.2) in
    let on =
      round_on writev true fuel i buffer rest w n (Takes.as_answer t) (Takes.at_most t)
        (Takes.progress t) removed in
    elim (Bool-cases (BufferViewList.size rest == 0)) [
      | inl done ↦
          let none_left : bytes rest ≡ [] =
            length-zero (bytes rest) (sym (size-bytes rest) ∙ (==_iff _ _).0 done) in
          (
            register_write w.2,
            on
                ∙ rw done (
                    ap₂ (λ k r. ok (k, r, register_write w.2))
                      (ended_count n w.0 (bytes rest) (bytes buffer) low left none_left)
                      (ended (bytes rest) (w.1 ++ take n (bytes buffer)) none_left
                        ∙ joined n (bytes rest) (bytes buffer) w.1 left)),
          )
      | inr more ↦
          let less : BufferViewList.size rest < fuel =
            ground (arith, h, smaller, more, Takes.progress t) in
          let (f', e) = write_from_all writev takes fuel (i + 1) rest w' less in
          (
            f',
            on
                ∙ rw more (
                    e
                    ∙ ap₂ (λ k r. ok (k, r, f'))
                        (counted n w.0 (bytes rest) (bytes buffer) low left)
                        (joined n (bytes rest) (bytes buffer) w.1 left)),
          )
    ]

-- When the kernel takes some of what it is offered in each call, one byte at least if there is one, a
-- `write` of everything ends: it returns the number of bytes of the views, and those bytes went out,
-- in order and each once, however the kernel divided them.
pub write_all_sends :
    (writev : ℕ → ℕ → Answer) (f : FdWrapper) (buffer : BufferViewList)
    → ((i s : ℕ) → Takes s (writev i s))
    → (f' : FdWrapper) × (write writev f buffer true ≡ ok (length (bytes buffer), bytes buffer, f'))
unfolding write
write_all_sends writev f buffer takes =
    let (f', e) =
      write_from_all writev takes (suc (BufferViewList.size buffer)) 0 buffer (0, [], f)
        (omega arith) in
    (f', e ∙ ap (λ k. ok (k, bytes buffer, f')) (omega arith))

-- A `write` that need not be complete makes one call: it returns how many bytes the kernel took, and
-- those are the first bytes of the views.
pub write_some_sends :
    (writev : ℕ → ℕ → Answer) (f : FdWrapper) (buffer : BufferViewList)
    → (t : Takes (BufferViewList.size buffer) (writev 0 (BufferViewList.size buffer)))
    → write writev f buffer false
      ≡ ok (Takes.taken t, take (Takes.taken t) (bytes buffer), register_write f)
unfolding write
write_some_sends writev f buffer t =
    let (rest, removed, _, _) = one_round _ buffer t in
    round_on writev false (BufferViewList.size buffer) 0 buffer rest (0, [], f) (Takes.taken t)
      (Takes.as_answer t) (Takes.at_most t) (Takes.progress t) removed
    ∙ ap (λ k. ok (k, take (Takes.taken t) (bytes buffer), register_write f)) (omega arith)
