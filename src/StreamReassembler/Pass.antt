-- ===== src/StreamReassembler/Pass.antt =====
-- The passes that write what has become contiguous.
use cs144_sponge.Base.{
  ℕ, zero, suc, ◌+◌, ◌-◌, ◌≤◌, ◌<◌, ◌^◌, ◌≡◌, refl, sym, ap, subst, ◌∙◌, true, false, List, [], ◌∷◌,
  ◌++◌, arith, length, Bool-cases, ◌==◌, ==_iff, ltb, ltb→lt, ltb→ge, inl, inr, ◌⊎◌, ok, take, drop,
  append_assoc, append-nil, length-append, length-take, length-drop, IsU64, add64, sub64,
}
use cs144_sponge.ByteStream.Inv.{
  Inv, contents, accepted, write-Inv, write-count, write-contents, end_flag-write, bytes_w-write,
  m_capacity-write,
}
use cs144_sponge.StreamReassembler.{Entries, Assembly, put, deliver, pass, passes}
use cs144_sponge.StreamReassembler.Source.{
  Agrees, Agrees-nil, Agrees-append, Agrees-take, Agrees-drop,
}
use cs144_sponge.StreamReassembler.Entries.{Every}

-- An entry that a pass may meet: part of the source, within 64-bit positions, and not the empty
-- value at position 0.
abbrev pub Fits : (ℕ → ℕ) → ℕ → List ℕ → Type 0
Fits s k v = (0 < k + length v) × (k + length v < 2 ^ 64) × Agrees s k v

-- What was written between two moments: the bytes `new`, which continue the source.
pub record Written (s : ℕ → ℕ) (a b : Assembly) : Type 0 where
  pub valid : Inv b.output
  pub new : List ℕ
  pub appended : contents b.output ≡ contents a.output ++ new
  pub agrees : Agrees s a.willing new
  pub moved : b.willing ≡ a.willing + length new
  pub counted : b.bytes_writed ≡ add64 a.bytes_writed (length new)
  pub totalled : b.output.bytes_w ≡ add64 a.output.bytes_w (length new)
  pub open_still : b.output.end_flag ≡ a.output.end_flag
  pub capacity : b.output.m_capacity ≡ a.output.m_capacity
  pub count_fits : IsU64 b.bytes_writed
  pub willing_fits : IsU64 b.willing

module _ (s : ℕ → ℕ) where
  Written-none :
      (a : Assembly) → Inv a.output → IsU64 a.bytes_writed → IsU64 a.willing → Written s a a
  Written-none a v f wf = record {
    valid = v;
    new = [];
    appended = sym (append-nil (contents a.output));
    agrees = Agrees-nil s a.willing;
    moved = omega arith;
    counted = omega arith;
    totalled = omega (arith, v.counted);
    open_still = refl;
    capacity = refl;
    count_fits = f;
    willing_fits = wf;
  }

  Written-trans : {a b c : Assembly} → Written s a b → Written s b c → Written s a c
  Written-trans {a} w x = record {
    valid = x.valid;
    new = w.new ++ x.new;
    appended =
        x.appended ∙ ap (λ r. r ++ x.new) w.appended ∙ append_assoc (contents a.output) w.new x.new;
    agrees =
        Agrees-append s a.willing w.new x.new w.agrees
          (subst (λ k. Agrees s k x.new) w.moved x.agrees);
    moved = omega (arith, length-append w.new x.new);
    counted = omega (arith, length-append w.new x.new);
    totalled = omega (arith, length-append w.new x.new);
    open_still = x.open_still ∙ w.open_still;
    capacity = x.capacity ∙ w.capacity;
    count_fits = x.count_fits;
    willing_fits = x.willing_fits;
  }

  put-Written :
      (d : List ℕ) (a : Assembly)
      → Agrees s a.willing d
      → a.willing + length d < 2 ^ 64
      → IsU64 a.bytes_writed
      → Inv a.output
      → Written s a (put d a)
  unfolding put
  put-Written d a f le bf inv = record {
    valid = write-Inv d inv;
    new = take (accepted a.output d) d;
    appended = write-contents d inv;
    agrees = Agrees-take s (accepted a.output d) a.willing d f;
    moved = rw (length-take, write-count d inv) (ground arith);
    counted = rw (length-take, write-count d inv) (ground arith);
    totalled = rw length-take (bytes_w-write d inv);
    open_still = end_flag-write d a.output;
    capacity = m_capacity-write d a.output;
    count_fits = omega arith;
    willing_fits = omega arith;
  }

  deliver-Written :
      (k : ℕ) (v : List ℕ) (a : Assembly)
      → Fits s k v
      → k ≤ a.willing
      → IsU64 a.willing
      → IsU64 a.bytes_writed
      → Inv a.output
      → (b : Assembly) × (deliver k v a ≡ ok b) × Written s a b
  unfolding deliver
  deliver-Written k v a f le wf bf inv =
      elim (Bool-cases (ltb (sub64 (add64 k (length v)) 1) a.willing)) [
        | inl e ↦ (a, rw e, Written-none a inv bf wf)
        | inr e ↦
            let ge : a.willing < k + length v = omega (arith, ltb→ge _ _ e) in
            let off : sub64 a.willing k ≡ a.willing - k = omega arith in
            let d : List ℕ = drop (a.willing - k) v in
            let at : k + (a.willing - k) ≡ a.willing = omega arith in
            (
              put d a,
              rw (e, off) (ground arith),
              put-Written d a (subst (λ j. Agrees s j d) at (Agrees-drop s (a.willing - k) k v f.2))
                  (omega (arith, length-drop (a.willing - k) v)) bf inv,
            )
      ]

-- What one pass does: it only writes the source on, and what stays lies beyond where it began.
pub record Passed (s : ℕ → ℕ) (m : Entries) (a : Assembly) (r : Entries × Assembly) : Type 0 where
  pub wrote : Written s a r.1
  pub kept : Every (Fits s) r.0
  pub beyond : Every (λ k v. a.willing < k) r.0
  pub fewer : (r.1.willing ≡ a.willing) × (length r.0 ≤ length m) ⊎ (length r.0 < length m)

Every-weaken : {a b : ℕ} (m : Entries) → a ≤ b → Every (λ k v. b < k) m → Every (λ k v. a < k) m
Every-weaken [] le e = tt
Every-weaken (x ∷ m) le e = (omega arith, Every-weaken m le e.1)

module _ (s : ℕ → ℕ) where
  keep-Passed :
      (k : ℕ) (v : List ℕ) (m : Entries) (a : Assembly) (r : Entries × Assembly)
      → Fits s k v
      → a.willing < k
      → Passed s m a r
      → Passed s ((k, v) ∷ m) a ((k, v) ∷ r.0, r.1)
  keep-Passed k v m a r f lt p = record {
    wrote = p.wrote;
    kept = (f, p.kept);
    beyond = (lt, p.beyond);
    fewer = grind (arith, p.fewer);
  }

  take-Passed :
      (k : ℕ) (v : List ℕ) (m : Entries) (a b : Assembly) (r : Entries × Assembly)
      → Written s a b
      → Passed s m b r
      → Passed s ((k, v) ∷ m) a r
  take-Passed k v m a b r w p = record {
    wrote = Written-trans s w p.wrote;
    kept = p.kept;
    beyond = Every-weaken r.0 (omega (arith, w.moved)) p.beyond;
    fewer = inr (grind (arith, p.fewer));
  }

  pass-keep :
      (k : ℕ) (v : List ℕ) (m : Entries) (a : Assembly) {r : Entries × Assembly}
      → ltb a.willing k ≡ true
      → pass m a ≡ ok r
      → pass ((k, v) ∷ m) a ≡ ok ((k, v) ∷ r.0, r.1)
  unfolding pass
  pass-keep k v m a e p = ground arith

  pass-take :
      (k : ℕ) (v : List ℕ) (m : Entries) (a : Assembly) {b : Assembly} {r : Entries × Assembly}
      → ltb a.willing k ≡ false
      → deliver k v a ≡ ok b
      → pass m b ≡ ok r
      → pass ((k, v) ∷ m) a ≡ ok r
  unfolding pass
  pass-take k v m a e d p = ground arith

  passes-last :
      (fuel : ℕ) (m : Entries) (a : Assembly) {r : Entries × Assembly}
      → pass m a ≡ ok r
      → (a.willing == r.1.willing) ≡ true
      → passes (suc fuel) m a ≡ ok r
  unfolding passes
  passes-last fuel m a p e = rw p (ground arith)

  passes-more :
      (fuel : ℕ) (m : Entries) (a : Assembly) {r r' : Entries × Assembly}
      → pass m a ≡ ok r
      → (a.willing == r.1.willing) ≡ false
      → passes fuel r.0 r.1 ≡ ok r'
      → passes (suc fuel) m a ≡ ok r'
  unfolding passes
  passes-more fuel m a p e q = rw p (ground arith)

  -- A pass never throws.
  pub pass-Passed :
      (m : Entries) (a : Assembly)
      → Every (Fits s) m
      → IsU64 a.willing
      → IsU64 a.bytes_writed
      → Inv a.output
      → (r : Entries × Assembly) × (pass m a ≡ ok r) × Passed s m a r
  unfolding pass
  pass-Passed [] a f wf bf inv = (
    ([], a),
    refl,
    record {
      wrote = Written-none s a inv bf wf;
      kept = tt;
      beyond = tt;
      fewer = inl (refl, omega arith);
    },
  )
  pass-Passed ((k, v) ∷ m) a f wf bf inv = elim (Bool-cases (ltb a.willing k)) [
    | inl e ↦
        let (r, p, q) = pass-Passed m a f.1 wf bf inv in
        (((k, v) ∷ r.0, r.1), pass-keep k v m a e p, keep-Passed k v m a r f.0 (ltb→lt _ _ e) q)
    | inr e ↦
        let (b, p, w) = deliver-Written s k v a f.0 (ltb→ge _ _ e) wf bf inv in
        let (r, p', q) = pass-Passed m b f.1 w.willing_fits w.count_fits w.valid in
        (r, pass-take k v m a e p p', take-Passed k v m a b r w q)
  ]

  moved_on :
      (m : Entries) (a : Assembly) (r : Entries × Assembly) {fuel : ℕ}
      → length m < suc fuel
      → (a.willing == r.1.willing) ≡ false
      → (r.1.willing ≡ a.willing) × (length r.0 ≤ length m) ⊎ (length r.0 < length m)
      → length r.0 < fuel
  moved_on m a r lt e f = ground arith

  -- The passes end, never throw, and leave only entries beyond the new `willing`.
  pub passes_ok :
      (fuel : ℕ) (m : Entries) (a : Assembly)
      → length m < fuel
      → Every (Fits s) m
      → IsU64 a.willing
      → IsU64 a.bytes_writed
      → Inv a.output
      → (r : Entries × Assembly) × (passes fuel m a ≡ ok r)
        × Written s a r.1
        × Every (Fits s) r.0
        × Every (λ k v. r.1.willing < k) r.0
  unfolding passes
  passes_ok zero m a lt f wf bf inv = absurd (omega arith)
  passes_ok (suc fuel) m a lt f wf bf inv =
      let (r, p, q) = pass-Passed m a f wf bf inv in
      elim (Bool-cases (a.willing == r.1.willing)) [
        | inl e ↦ (
          r,
          passes-last fuel m a p e,
          q.wrote,
          q.kept,
          Every-weaken r.0 (omega (arith, (==_iff _ _).0 e)) q.beyond,
        )
        | inr e ↦
            let (r', p', w, k, b) =
              passes_ok fuel r.0 r.1 (moved_on m a r lt e q.fewer) q.kept q.wrote.willing_fits
                q.wrote.count_fits q.wrote.valid in
            (r', passes-more fuel m a p e p', Written-trans s q.wrote w, k, b)
      ]
