-- ===== src/TcpConnection/Reply.antt =====
-- What a segment of the peer is answered with.
use cs144_sponge.Base.{List}
use cs144_sponge.TcpSegment.{TcpSegment}
use cs144_sponge.TcpReceiver
use cs144_sponge.TcpReceiver.{TcpReceiver}
use cs144_sponge.TcpSender as Sender
use cs144_sponge.TcpConnection.{TcpConnection}
use cs144_sponge.TcpConnection.Sound.{Sound}
