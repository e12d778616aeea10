-- ===== src/TcpReceiver.antt =====
-- libsponge/tcp_receiver.{hh,cc}: the receiving half of a connection.
pub mod Index
pub mod Session
mod Examples
use cs144_sponge.Base.{ℕ, Bool, Option, none, some, if◌then◌else◌, add64, sub64, Result, ok, ◌>>=◌}
use cs144_sponge.WrappingIntegers.{WrappingInt32, wrap, unwrap}
use cs144_sponge.Buffer
use cs144_sponge.ByteStream
use cs144_sponge.ByteStream.{ByteStream}
use cs144_sponge.StreamReassembler
use cs144_sponge.StreamReassembler.{StreamReassembler, HashOrder}
use cs144_sponge.TcpSegment.{TcpSegment}

pub record TcpReceiver : Type 0 where
  pub reassembler : StreamReassembler
  pub capacity : ℕ
  pub isn : Option WrappingInt32

unfoldable pub new : ℕ → TcpReceiver
new capacity = record {
  reassembler = StreamReassembler.new capacity;
  capacity = capacity;
  isn = none;
}

unfoldable pub stream_out : TcpReceiver → ByteStream
stream_out r = r.reassembler.output

-- The stream index of a segment's first byte; a segment that is no SYN is unwrapped at the checkpoint 0.
pub stream_index : Bool → WrappingInt32 → WrappingInt32 → ℕ
stream_index syn seqno isn = if syn then 0 else sub64 (unwrap seqno isn 0) 1

-- The part under `if (isn.has_value())`.
pub accept : HashOrder → TcpSegment → Option WrappingInt32 → TcpReceiver → Result TcpReceiver
unfolding stream_index
accept h seg none r = ok r
accept h seg (some isn) r =
    StreamReassembler.push_substring h (Buffer.str seg.payload)
      (stream_index seg.header.syn seg.header.seqno isn) seg.header.fin r.reassembler
    >>= λ q. ok (record r { reassembler = q })

-- The flag `end_flag` is the segment's FIN wherever it is used: there `isn` has a value.
unfoldable pub segment_received : HashOrder → TcpSegment → TcpReceiver → Result TcpReceiver
unfolding accept
segment_received h seg r =
    let isn = if seg.header.syn then some seg.header.seqno else r.isn in
    accept h seg isn (record r { isn = isn })

pub ackno_from : Option WrappingInt32 → ByteStream → Option WrappingInt32
ackno_from none out = none
ackno_from (some isn) out =
    let end : ℕ = if ByteStream.input_ended out then 1 else 0 in
    some (wrap (add64 (add64 (ByteStream.bytes_written out) 1) end) isn)

unfoldable pub ackno : TcpReceiver → Option WrappingInt32
unfolding ackno_from
ackno r = ackno_from r.isn r.reassembler.output

unfoldable pub window_size : TcpReceiver → ℕ
window_size r = sub64 r.capacity (ByteStream.buffer_size r.reassembler.output)

unfoldable pub unassembled_bytes : TcpReceiver → ℕ
unassembled_bytes r = StreamReassembler.unassembled_bytes r.reassembler
