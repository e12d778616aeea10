-- ===== src/TcpSender/Examples.antt =====
-- A sender at concrete calls.
use cs144_sponge.Base.{◌<◌, ◌≤◌, ◌≡◌, ◌≢◌, refl, ap, true, List, [], ◌∷◌, arith, ok, length}
use cs144_sponge.Buffer
use cs144_sponge.ByteStream
use cs144_sponge.ByteStream.Inv.{contents}
use cs144_sponge.ByteStream.Inv as Stream
use cs144_sponge.WrappingIntegers.{unwrap, wrap}
use cs144_sponge.TcpHeader.{default_header}
use cs144_sponge.TcpSegment.{TcpSegment, length_in_sequence_space}
use cs144_sponge.TcpSender.{
  TcpSender, syn_sent, new, fill_window, ack_received, tick, bytes_in_flight,
}
use cs144_sponge.TcpSender.Outstanding.{Inv, fill_window-Inv, ack_received-Inv}
use cs144_sponge.TcpSender.Timer.{Expired, tick_expires, tick-Inv}
use cs144_sponge.TcpSender.Shrunk.{fill_window_overruns}

abbrev syn_segment : TcpSegment
syn_segment = record {
  header = record default_header { seqno = 7; syn = true };
  payload = Buffer.empty;
}

abbrev data_segment : TcpSegment
data_segment = record {
  header = record default_header { seqno = 8 };
  payload = Buffer.of_string (1 ∷ 2 ∷ []);
}

-- A sender that has sent a SYN and two bytes, with the window at one byte, and has three bytes left.
abbrev shrunk : TcpSender
shrunk = record (new 100 1000 7) {
  stream = (ByteStream.write (3 ∷ 4 ∷ 5 ∷ []) (ByteStream.new 100)).1;
  next_seqno = 3;
  segments_out = [];
  retransmission_queue = syn_segment ∷ data_segment ∷ [];
  state = syn_sent;
  timer = record { rto = 1000; running = true };
}

-- The same after an acknowledgement of the SYN with a window of four bytes.
abbrev opened : TcpSender
opened = record shrunk { ack = 8; window_size = 4; retransmission_queue = data_segment ∷ [] }

stream-Inv : Stream.Inv shrunk.stream
stream-Inv = Stream.write-Inv (3 ∷ 4 ∷ 5 ∷ []) (Stream.new-Inv 100 (omega arith))

shrunk-Inv : Inv shrunk
unfolding new unwrap wrap length_in_sequence_space Buffer.str Buffer.empty Buffer.of_string
shrunk-Inv = record {
  stream_valid = stream-Inv;
  isn_fits = omega arith;
  window_fits = omega arith;
  window_open = omega arith;
  young = omega arith;
  first = 0;
  covers = (refl, omega arith, (refl, omega arith, refl));
  points = (omega arith, omega arith);
  timed = refl;
}

opened-Inv : Inv opened
unfolding new unwrap wrap length_in_sequence_space Buffer.str Buffer.empty Buffer.of_string
opened-Inv = record {
  stream_valid = stream-Inv;
  isn_fits = omega arith;
  window_fits = omega arith;
  window_open = omega arith;
  young = omega arith;
  first = 1;
  covers = (refl, omega arith, refl);
  points = (omega arith, omega arith);
  timed = refl;
}

opened_within : bytes_in_flight opened ≤ 4
unfolding new unwrap bytes_in_flight
opened_within = omega arith

fill_window-Inv_example :
    (s' : TcpSender) × (fill_window opened ≡ ok s') × Inv s' × (bytes_in_flight s' ≤ s'.window_size)
fill_window-Inv_example = fill_window-Inv opened opened-Inv opened_within (omega arith)

ack_received-Inv_example : Inv (ack_received 8 4 shrunk)
ack_received-Inv_example = ack_received-Inv 8 4 shrunk (omega arith) shrunk-Inv

tick_expires_example :
    (seg : TcpSegment) × (q : List TcpSegment) × (s' : TcpSender) × (shrunk.retransmission_queue
      ≡ seg ∷ q)
    × (tick 1500 shrunk ≡ ok s')
    × Expired shrunk seg s'
tick_expires_example = tick_expires 1500 shrunk shrunk-Inv refl (omega arith)

tick-Inv_example : (s' : TcpSender) × (tick 999 shrunk ≡ ok s') × Inv s'
tick-Inv_example = tick-Inv 999 shrunk shrunk-Inv

shrunk_overrun : shrunk.window_size < bytes_in_flight shrunk
unfolding new unwrap bytes_in_flight
shrunk_overrun = omega arith

shrunk_size : shrunk.stream.size ≡ 3
unfolding ByteStream.write ByteStream.new
shrunk_size = refl

shrunk_nonempty : contents shrunk.stream ≢ []
shrunk_nonempty e = absurd (omega (arith, ap length e, stream-Inv.sized, shrunk_size))

fill_window_overruns_example :
    (s' : TcpSender) × (seg : TcpSegment) × (sent : List TcpSegment) × (fill_window shrunk ≡ ok s')
    × (s'.segments_out ≡ seg ∷ sent)
    × (0 < length_in_sequence_space seg)
fill_window_overruns_example =
    fill_window_overruns shrunk shrunk-Inv shrunk_overrun refl shrunk_nonempty
