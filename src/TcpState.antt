-- ===== src/TcpState.antt =====
-- libsponge/tcp_helpers/tcp_state.{hh,cc}: what a connection's state is called.
use cs144_sponge.Base.{ℕ, Bool, true, false, ◌&&◌, ltb, ◌==◌, if◌then◌else◌, has_value, not, add64}
use cs144_sponge.ByteStream
use cs144_sponge.TcpReceiver
use cs144_sponge.TcpReceiver.{TcpReceiver}
use cs144_sponge.TcpSender as Sender
use cs144_sponge.TcpSender.{TcpSender}

pub data ReceiverSummary : Type 0 where
  receiver_error listen syn_recv fin_recv : ReceiverSummary

pub data SenderSummary : Type 0 where
  sender_error closed syn_sent syn_acked fin_sent fin_acked : SenderSummary

-- The strings that name them are compared, and differ from each other.
abbrev receiver_code : ReceiverSummary → ℕ
receiver_code receiver_error = 0
receiver_code listen = 1
receiver_code syn_recv = 2
receiver_code fin_recv = 3

abbrev sender_code : SenderSummary → ℕ
sender_code sender_error = 0
sender_code closed = 1
sender_code syn_sent = 2
sender_code syn_acked = 3
sender_code fin_sent = 4
sender_code fin_acked = 5

pub data OfficialState : Type 0 where
  st_listen st_syn_rcvd st_syn_sent st_established st_close_wait st_last_ack : OfficialState
  st_fin_wait_1 st_fin_wait_2 st_closing st_time_wait st_closed st_reset : OfficialState

pub record TcpState : Type 0 where
  pub sender : SenderSummary
  pub receiver : ReceiverSummary
  pub active : Bool
  pub linger_after_streams_finish : Bool

abbrev same : Bool → Bool → Bool
same x y = if x then y else not y

unfoldable pub equals : TcpState → TcpState → Bool
equals a b =
    same a.active b.active
    && same a.linger_after_streams_finish b.linger_after_streams_finish
    && (sender_code a.sender == sender_code b.sender)
    && (receiver_code a.receiver == receiver_code b.receiver)

abbrev running : SenderSummary → ReceiverSummary → Bool → TcpState
running s r linger = record {
  sender = s;
  receiver = r;
  active = true;
  linger_after_streams_finish = linger;
}

abbrev stopped : SenderSummary → ReceiverSummary → TcpState
stopped s r = record {
  sender = s;
  receiver = r;
  active = false;
  linger_after_streams_finish = false;
}

unfoldable pub of_state : OfficialState → TcpState
of_state st_listen = running closed listen true
of_state st_syn_rcvd = running syn_sent syn_recv true
of_state st_syn_sent = running syn_sent listen true
of_state st_established = running syn_acked syn_recv true
of_state st_close_wait = running syn_acked fin_recv false
of_state st_last_ack = running fin_sent fin_recv false
of_state st_closing = running fin_sent fin_recv true
of_state st_fin_wait_1 = running fin_sent syn_recv true
of_state st_fin_wait_2 = running fin_acked syn_recv true
of_state st_time_wait = running fin_acked fin_recv true
of_state st_reset = stopped sender_error receiver_error
of_state st_closed = stopped fin_acked fin_recv

unfoldable pub receiver_summary : TcpReceiver → ReceiverSummary
receiver_summary r =
    if ByteStream.error (TcpReceiver.stream_out r)
    then receiver_error
    else if not (has_value (TcpReceiver.ackno r))
    then listen
    else if ByteStream.input_ended (TcpReceiver.stream_out r)
    then fin_recv
    else syn_recv

unfoldable pub sender_summary : TcpSender → SenderSummary
sender_summary s =
    if ByteStream.error s.stream
    then sender_error
    else if s.next_seqno == 0
    then closed
    else if s.next_seqno == Sender.bytes_in_flight s
    then syn_sent
    else if not (ByteStream.eof s.stream)
    then syn_acked
    else if ltb s.next_seqno (add64 (ByteStream.bytes_written s.stream) 2)
    then syn_acked
    else if not (Sender.bytes_in_flight s == 0)
    then fin_sent
    else fin_acked

-- `TCPState(sender, receiver, active, linger)`
unfoldable pub summarize : TcpSender → TcpReceiver → Bool → Bool → TcpState
summarize s r active linger = record {
  sender = sender_summary s;
  receiver = receiver_summary r;
  active = active;
  linger_after_streams_finish = if active then linger else false;
}
