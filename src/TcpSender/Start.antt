-- ===== src/TcpSender/Start.antt =====
-- What the first `fill_window` of a new sender does.
use cs144_sponge.Base.{ℕ, suc, ◌+◌, ◌≡◌, refl, ap, ◌∙◌, true, false, [], arith, ok, IsU32}
use cs144_sponge.WrappingIntegers.{WrappingInt32, unwrap}
use cs144_sponge.Buffer
use cs144_sponge.BufferList
use cs144_sponge.ByteStream
use cs144_sponge.ByteStream.{ByteStream}
use cs144_sponge.TcpSegment.{length_in_sequence_space}
use cs144_sponge.TcpSender.Fill.{fill_stops, fill_goes_on}
use cs144_sponge.TcpSender.{
  TcpSender, new, wants_more, space, bytes_in_flight, is_first, to_read, takes_fin, make_segment,
  state_after, emit, round, fill_rounds, fill_window,
}

zero_back : (isn : WrappingInt32) → IsU32 isn → unwrap isn isn 0 ≡ 0
unfolding unwrap
zero_back isn h = ground arith

first_wants :
    (capacity rto : ℕ) (isn : WrappingInt32) → IsU32 isn → wants_more (new capacity rto isn) ≡ true
unfolding wants_more space new bytes_in_flight
first_wants capacity rto isn h = ground (arith, zero_back isn h)

read_new :
    (capacity : ℕ) → ByteStream.read (ByteStream.new capacity) 0 ≡ ok ([], ByteStream.new capacity)
unfolding ByteStream.read ByteStream.new ByteStream.pop_output ByteStream.peek_output
    BufferList.remove_prefix
read_new capacity = refl

reads_none :
    (capacity rto : ℕ) (isn : WrappingInt32) → IsU32 isn → to_read (new capacity rto isn) ≡ 0
unfolding new to_read space bytes_in_flight is_first ByteStream.new ByteStream.bytes_read
reads_none capacity rto isn h = ground (arith, zero_back isn h)

syn_alone :
    (capacity rto : ℕ) (isn : WrappingInt32)
    → length_in_sequence_space (make_segment (new capacity rto isn) [] (ByteStream.new capacity))
      ≡ 1
unfolding new make_segment is_first takes_fin ByteStream.new ByteStream.bytes_read ByteStream.eof
    length_in_sequence_space Buffer.of_string Buffer.str
syn_alone capacity rto isn = refl

-- The sender that has sent its SYN.
abbrev after_syn : ℕ → ℕ → WrappingInt32 → TcpSender
after_syn capacity rto isn =
    emit (make_segment (new capacity rto isn) [] (ByteStream.new capacity))
      (record (new capacity rto isn) {
        stream = ByteStream.new capacity;
        state = state_after (new capacity rto isn) [] (ByteStream.new capacity);
      })

first_round :
    (capacity rto : ℕ) (isn : WrappingInt32)
    → IsU32 isn
    → round (new capacity rto isn) ≡ ok (after_syn capacity rto isn, true)
unfolding round
first_round capacity rto isn h =
    let e : ByteStream.read (new capacity rto isn).stream (to_read (new capacity rto isn))
        ≡ ok ([], ByteStream.new capacity) =
      ap (λ n. ByteStream.read (new capacity rto isn).stream n) (reads_none capacity rto isn h)
      ∙ unfold new in read_new capacity in
    rw (e, syn_alone)

second_wants :
    (capacity rto : ℕ) (isn : WrappingInt32)
    → IsU32 isn
    → wants_more (after_syn capacity rto isn) ≡ false
unfolding wants_more space new bytes_in_flight emit
second_wants capacity rto isn h = ground (arith, zero_back isn h, syn_alone capacity rto isn)

two_rounds :
    (n capacity rto : ℕ) (isn : WrappingInt32)
    → IsU32 isn
    → fill_rounds (suc (suc n)) (new capacity rto isn) ≡ ok (after_syn capacity rto isn)
two_rounds n capacity rto isn h =
    fill_goes_on (suc n) (new capacity rto isn) (first_wants capacity rto isn h)
      (first_round capacity rto isn h)
      (fill_stops n (after_syn capacity rto isn) (second_wants capacity rto isn h))

filled :
    (capacity rto : ℕ) (isn : WrappingInt32)
    → IsU32 isn
    → fill_window (new capacity rto isn) ≡ ok (after_syn capacity rto isn)
unfolding fill_window new ByteStream.new ByteStream.buffer_size
filled capacity rto isn h =
    let enough : 0 + 4 ≡ suc (suc 2) = omega arith in
    ap (λ n. fill_rounds n (new capacity rto isn)) enough ∙ two_rounds 2 capacity rto isn h

-- The first `fill_window` sends the SYN only, and one sequence number is in flight.
pub fill_window-new :
    (capacity rto : ℕ) (isn : WrappingInt32)
    → IsU32 isn
    → (s : TcpSender) × (fill_window (new capacity rto isn) ≡ ok s)
      × (s.next_seqno ≡ 1)
      × (bytes_in_flight s ≡ 1)
      × (s.stream.has_error ≡ false)
unfolding new emit bytes_in_flight ByteStream.new
fill_window-new capacity rto isn h = (
  after_syn capacity rto isn,
  filled capacity rto isn h,
  ground (arith, syn_alone capacity rto isn),
  ground (arith, syn_alone capacity rto isn, zero_back isn h),
  refl,
)
