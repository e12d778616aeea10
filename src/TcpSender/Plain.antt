-- ===== src/TcpSender/Plain.antt =====
-- The sender's calls and the data offsets of its segments.
use cs144_sponge.Base.{
  ℕ, zero, suc, ◌≡◌, refl, Bool, true, false, List, [], ◌∷◌, ◌++◌, arith, ok, Result, ◌>>=◌,
  bind_ok, if◌then◌else◌, All, subst, sub64, ◌==◌, Bool-cases, inl, inr, ltb, add64, not,
}
use cs144_sponge.ByteStream
use cs144_sponge.ByteStream.{ByteStream}
use cs144_sponge.WrappingIntegers.{WrappingInt32, unwrap}
use cs144_sponge.TcpSegment.{TcpSegment, length_in_sequence_space}
use cs144_sponge.TcpSender.{
  TcpSender, round, fill_rounds, fill_window, wants_more, to_read, emit, ack_received, set_window,
  advance, retransmit_front, count_retransmission, retransmit, tick, send_empty_segment,
  make_segment, drop_acked, state_after,
}

-- A header without options.
abbrev pub IsPlain : TcpSegment → Type 0
IsPlain seg = seg.header.doff ≡ 5

pub All-snoc :
    (q : List TcpSegment) (seg : TcpSegment)
    → All IsPlain q
    → IsPlain seg
    → All IsPlain (q ++ (seg ∷ []))
All-snoc [] seg v p = (p, tt)
All-snoc (x ∷ q) seg (y, v) p = (y, All-snoc q seg v p)

pub record Plain (s : TcpSender) : Type 0 where
  pub waiting : All IsPlain s.segments_out
  pub outstanding : All IsPlain s.retransmission_queue

emit-Plain : (seg : TcpSegment) (s : TcpSender) → IsPlain seg → Plain s → Plain (emit seg s)
unfolding emit
emit-Plain seg s p v = record {
  waiting = All-snoc s.segments_out seg v.waiting p;
  outstanding = All-snoc s.retransmission_queue seg v.outstanding p;
}

made : (s : TcpSender) (d : List ℕ) (out : ByteStream) → IsPlain (make_segment s d out)
unfolding make_segment
made s d out = refl

pub ok-injective {ℓ} : {T : Type ℓ} (x y : T) → ok x ≡ ok y → x ≡ y
ok-injective x y e = cc

-- Where a round ends: without a segment or with one.
ended_round :
    (b : Bool) (seg : TcpSegment) (s : TcpSender) (r : TcpSender × Bool)
    → IsPlain seg
    → Plain s
    → (if b then ok (s, false) else ok (emit seg s, true)) ≡ ok r
    → Plain r.0
ended_round true seg s r p v e = subst (λ (x : TcpSender × Bool). Plain x.0) (ok-injective _ _ e) v
ended_round false seg s r p v e =
    subst (λ (x : TcpSender × Bool). Plain x.0) (ok-injective _ _ e) (emit-Plain seg s p v)

round-Plain : (s : TcpSender) (r : TcpSender × Bool) → round s ≡ ok r → Plain s → Plain r.0
unfolding round
round-Plain s r e v =
    let (p, e1, e2) = bind_ok (ByteStream.read s.stream (to_read s)) _ e in
    let s' : TcpSender = record s { stream = p.1; state = state_after s p.0 p.1 } in
    ended_round (length_in_sequence_space (make_segment s p.0 p.1) == 0) _ s' r (made s p.0 p.1)
      (record { waiting = v.waiting; outstanding = v.outstanding }) e2

more_then :
    (b : Bool) (fuel : ℕ) (s s' : TcpSender)
    → ((q : TcpSender) → fill_rounds fuel q ≡ ok s' → Plain q → Plain s')
    → elim b as (λ x. Result TcpSender) [
      | false ↦ ok s
      | true ↦ round s >>= λ r. elim r.1 as (λ x. Result TcpSender) [
        | true ↦ fill_rounds fuel r.0
        | false ↦ ok r.0
      ]
    ]
      ≡ ok s'
    → Plain s
    → Plain s'
more_then false fuel s s' k e v = subst Plain (ok-injective _ _ e) v
more_then true fuel s s' k e v =
    let (r, e1, e2) =
      bind_ok (round s)
        (λ r. elim r.1 as (λ x. Result TcpSender) [ true ↦ fill_rounds fuel r.0 | false ↦ ok r.0 ])
        e in
    round_then r fuel s' (k r.0) e2 (round-Plain s r e1 v)
  where
    round_then :
        (r : TcpSender × Bool) (fuel : ℕ) (s' : TcpSender)
        → (fill_rounds fuel r.0 ≡ ok s' → Plain r.0 → Plain s')
        → elim r.1 as (λ x. Result TcpSender) [ true ↦ fill_rounds fuel r.0 | false ↦ ok r.0 ]
          ≡ ok s'
        → Plain r.0
        → Plain s'
    round_then (q, true) fuel s' k e h = k e h
    round_then (q, false) fuel s' k e h = subst Plain (ok-injective _ _ e) h

fill_rounds-Plain : (fuel : ℕ) (s s' : TcpSender) → fill_rounds fuel s ≡ ok s' → Plain s → Plain s'
unfolding fill_rounds
fill_rounds-Plain zero s s' e v = cc
fill_rounds-Plain (suc fuel) s s' e v =
    more_then (wants_more s) fuel s s' (λ q. fill_rounds-Plain fuel q s') e v

pub fill_window-Plain : (s s' : TcpSender) → fill_window s ≡ ok s' → Plain s → Plain s'
unfolding fill_window
fill_window-Plain s s' e v = fill_rounds-Plain _ s s' e v

drop_acked-All :
    (isn : WrappingInt32) (ackno : ℕ) (q : List TcpSegment)
    → All IsPlain q
    → All IsPlain (drop_acked isn ackno q)
unfolding drop_acked
drop_acked-All isn ackno [] v = tt
drop_acked-All isn ackno (seg ∷ q) (p, v) =
    elim (Bool-cases
      (ltb ackno (add64 (unwrap seg.header.seqno isn 0) (length_in_sequence_space seg)))) [
        | inl h ↦ rw h (p, v)
        | inr h ↦ rw h (drop_acked-All isn ackno q v)
      ]

pub ack_received-Plain :
    (ackno : WrappingInt32) (window : ℕ) (s : TcpSender)
    → Plain s
    → Plain (ack_received ackno window s)
unfolding ack_received set_window advance
ack_received-Plain ackno window s v = record {
  waiting = ground (arith, v.waiting);
  outstanding = ground (
    arith,
    v.outstanding,
    drop_acked-All s.isn (unwrap ackno s.isn 0) s.retransmission_queue v.outstanding,
  );
}

retransmit_front-Plain :
    (q : List TcpSegment) (s s' : TcpSender)
    → retransmit_front q s ≡ ok s'
    → All IsPlain q
    → Plain s
    → Plain s'
unfolding retransmit_front count_retransmission
retransmit_front-Plain [] s s' e p v = cc
retransmit_front-Plain (seg ∷ q) s s' e (p, _) v =
    let out : All IsPlain (s.segments_out ++ (seg ∷ [])) =
      All-snoc s.segments_out seg v.waiting p in
    subst Plain (ok-injective _ _ e)
      (record { waiting = ground (arith, out); outstanding = ground (arith, v.outstanding) })

-- The three ends of `tick`.
ended_tick :
    (stopped waits : Bool) (s timed s' : TcpSender) (r : Result TcpSender)
    → (r ≡ ok s' → Plain s')
    → (if stopped then ok s else if waits then ok timed else r) ≡ ok s'
    → Plain s
    → Plain timed
    → Plain s'
ended_tick true waits s timed s' r k e v w = subst Plain (ok-injective _ _ e) v
ended_tick false true s timed s' r k e v w = subst Plain (ok-injective _ _ e) w
ended_tick false false s timed s' r k e v w = k e

pub tick-Plain : (ms : ℕ) (s s' : TcpSender) → tick ms s ≡ ok s' → Plain s → Plain s'
unfolding tick retransmit
tick-Plain ms s s' e v =
    ended_tick (not s.timer.running) (ltb ms s.timer.rto) s
      (record s { timer = record (s.timer) { rto = sub64 s.timer.rto ms } }) s'
      (retransmit_front s.retransmission_queue s)
      (λ k. retransmit_front-Plain s.retransmission_queue s s' k v.outstanding v) e v
      (record { waiting = v.waiting; outstanding = v.outstanding })

pub send_empty_segment-Plain : (s : TcpSender) → Plain s → Plain (send_empty_segment s)
unfolding send_empty_segment
send_empty_segment-Plain s v = record {
  waiting = All-snoc s.segments_out _ v.waiting refl;
  outstanding = v.outstanding;
}
