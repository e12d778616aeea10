-- ===== src/TcpConnection/Start.antt =====
-- What `connect` does on a new connection.
use cs144_sponge.Base.{ℕ, ◌≡◌, refl, ap₂, true, false, arith, ok, IsU32}
use cs144_sponge.WrappingIntegers.{WrappingInt32}
use cs144_sponge.ByteStream
use cs144_sponge.StreamReassembler
use cs144_sponge.TcpReceiver
use cs144_sponge.TcpReceiver.{TcpReceiver}
use cs144_sponge.TcpState.{
  of_state, st_syn_sent, summarize, sender_summary, receiver_summary, syn_sent, listen,
}
use cs144_sponge.TcpSender as Sender
use cs144_sponge.TcpSender.{TcpSender}
use cs144_sponge.TcpSender.Start.{fill_window-new}
use cs144_sponge.TcpConnection.{
  TcpConnection, TcpConfig, new, connect, flush, state, active, send_segment, value_or,
}

sends_syn :
    (s : TcpSender)
    → s.next_seqno ≡ 1
    → Sender.bytes_in_flight s ≡ 1
    → s.stream.has_error ≡ false
    → sender_summary s ≡ syn_sent
unfolding sender_summary ByteStream.error
sends_syn s a b c = ground (arith, a, b, c)

listens : (capacity : ℕ) → receiver_summary (TcpReceiver.new capacity) ≡ listen
unfolding receiver_summary TcpReceiver.new TcpReceiver.stream_out TcpReceiver.ackno
    StreamReassembler.new ByteStream.new ByteStream.error
listens capacity = refl

-- `connect` on a new connection throws nothing, and the connection is in the state `SYN_SENT` after it.
pub connect-state :
    (cfg : TcpConfig) (random : WrappingInt32)
    → IsU32 (value_or cfg.fixed_isn random)
    → (c : TcpConnection) × (connect (new cfg random) ≡ ok c) × (state c ≡ of_state st_syn_sent)
unfolding connect new flush state send_segment active summarize of_state Sender.bytes_in_flight
connect-state cfg random h =
    let (s, e, a, b, d) =
      fill_window-new cfg.send_capacity cfg.rt_timeout (value_or cfg.fixed_isn random) h in
    let c : TcpConnection = send_segment (record (new cfg random) { sender = s }) in
    (
      c,
      rw e,
      ap₂
          (λ x y. record {
            sender = x;
            receiver = y;
            active = true;
            linger_after_streams_finish = true;
          })
          (sends_syn c.sender a b d) (listens cfg.recv_capacity),
    )
