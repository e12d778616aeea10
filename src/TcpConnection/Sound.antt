-- ===== src/TcpConnection/Sound.antt =====
-- What every call of a connection keeps.
pub mod Arrival
pub mod Calls
use cs144_sponge.Base.{
  ℕ, ◌+◌, ◌*◌, ◌≤◌, ◌<◌, ◌≡◌, refl, sym, ap, subst, ◌∙◌, Bool, true, false, not, ◌&&◌, ◌||◌, ◌⊎◌,
  inl, inr, Option, none, some, List, [], ◌∷◌, ◌++◌, arith, ltb, leb, ◌==◌, ==_iff, Bool-cases,
  is_empty, add64, Result, ok, ◌>>=◌, IsU64, IsU32, IsU16, if◌then◌else◌,
}
use cs144_sponge.WrappingIntegers.{WrappingInt32}
use cs144_sponge.Buffer
use cs144_sponge.ByteStream
use cs144_sponge.ByteStream.Inv as Stream
use cs144_sponge.ByteStream.Inv.{contents}
use cs144_sponge.StreamReassembler.{HashOrder}
use cs144_sponge.StreamReassembler.Session.{Faithful}
use cs144_sponge.TcpSegment
use cs144_sponge.TcpSegment.{TcpSegment, length_in_sequence_space}
use cs144_sponge.TcpReceiver
use cs144_sponge.TcpReceiver.Session as Receiving
use cs144_sponge.TcpReceiver.Session.{Hears, Place, segment_received-Hears, start-Hears}
use cs144_sponge.TcpSender as Sender
use cs144_sponge.TcpSender.{TcpSender}
use cs144_sponge.TcpSender.Safe.{
  Safe, new-Safe, fill_window-Safe, ack_received-Safe, tick-Safe, send_empty_segment-Safe,
  sent_behind,
}
use cs144_sponge.TcpConnection.{
  TcpConnection, TcpConfig, new, send_segment, kill, reset_with, send_rst, note_flags, deliver,
  note_ack, answer, keep_alive, is_keep_alive, segment_received, flush, write, end_input_stream,
  connect, advance_time, tick_sender, give_up, close_if_done, tick, check_segment_in_window,
  is_done, max_retx_attempts,
}

set_error-Inv : {o : ByteStream.ByteStream} → Stream.Inv o → Stream.Inv (ByteStream.set_error o)
unfolding ByteStream.set_error contents
set_error-Inv v = record {
  sized = v.sized;
  bounded = v.bounded;
  capacity_fits = v.capacity_fits;
  read_fits = v.read_fits;
  counted = v.counted;
}

-- The sender with its stream or its queue replaced.
pub with_stream-Safe :
    (s : TcpSender) (o : ByteStream.ByteStream)
    → Stream.Inv o
    → Safe s
    → Safe (record s { stream = o })
with_stream-Safe s o h v = record {
  stream_valid = h;
  next_fits = v.next_fits;
  window_fits = v.window_fits;
  timed = v.timed;
}

with_segments-Safe :
    (s : TcpSender) (q : List TcpSegment) → Safe s → Safe (record s { segments_out = q })
with_segments-Safe s q v = record {
  stream_valid = v.stream_valid;
  next_fits = v.next_fits;
  window_fits = v.window_fits;
  timed = v.timed;
}

-- A segment of the peer whose bytes are `s`: its numbers are those of its place, its window has 16 bits.
abbrev pub IsGenuine : (ℕ → ℕ) → WrappingInt32 → TcpSegment → Type 0
IsGenuine s isn seg =
    Place s isn seg.header.syn seg.header.seqno (Buffer.str seg.payload) × IsU16 seg.header.win

abbrev pub receiving : List ℕ → TcpConnection → Receiving.Session
receiving g c = record { given = g; receiver = c.receiver }

-- The inbound stream goes on with `s`, no call of the sender can throw, and if `b` the connection is
-- closed; `g` is what the reader got.
pub record Sound (s : ℕ → ℕ) (isn : WrappingInt32) (capacity : ℕ) (g : List ℕ) (b : Bool)
    (c : TcpConnection) : Type 0 where
  pub seen : Bool
  pub hears : Hears s isn capacity seen (receiving g c)
  pub safe : Safe c.sender
  pub shut : (b ≡ false) ⊎ (c.close ≡ true)

pub sends_empty : (s : TcpSender) → is_empty (Sender.send_empty_segment s).segments_out ≡ false
unfolding Sender.send_empty_segment
sends_empty s = sent_behind s.segments_out _ refl

shut_on :
    {b x y : Bool} → (b ≡ false) ⊎ (x ≡ true) → (x ≡ true → y ≡ true) → (b ≡ false) ⊎ (y ≡ true)
shut_on (inl e) k = inl e
shut_on (inr e) k = inr (k e)

module _ (s : ℕ → ℕ) (isn : WrappingInt32) (capacity : ℕ) (small : IsU32 isn) (g : List ℕ)
    (b : Bool) where
  abbrev Is : TcpConnection → Type 0
  Is c = Sound s isn capacity g b c

  pub send_segment-Sound : (c : TcpConnection) → Is c → Is (send_segment c)
  unfolding send_segment
  send_segment-Sound c v = record {
    seen = v.seen;
    hears = v.hears;
    shut = v.shut;
    safe = with_segments-Safe c.sender [] v.safe;
  }

  -- The invariant is about the receiver and the sender only.
  pub same-Sound :
      (c c' : TcpConnection)
      → c'.receiver ≡ c.receiver
      → c'.sender ≡ c.sender
      → (c.close ≡ true → c'.close ≡ true)
      → Is c
      → Is c'
  same-Sound c c' r e k v = record {
    seen = v.seen;
    hears =
        subst (λ q. Hears s isn capacity v.seen (record { given = g; receiver = q })) (sym r)
          v.hears;
    safe = subst Safe (sym e) v.safe;
    shut = shut_on v.shut k;
  }

  pub kill-Sound : (b' : Bool) (c : TcpConnection) → Is c → Sound s isn capacity g b' (kill c)
  unfolding kill ByteStream.set_error contents
  kill-Sound b' c v = record {
    seen = v.seen;
    hears = record {
      faithful = record {
        valid = record {
          stream = set_error-Inv v.hears.faithful.valid.stream;
          stored = v.hears.faithful.valid.stored;
          ahead = v.hears.faithful.valid.ahead;
          willing_fits = v.hears.faithful.valid.willing_fits;
          count_fits = v.hears.faithful.valid.count_fits;
          total = v.hears.faithful.valid.total;
        };
        agrees = v.hears.faithful.agrees;
        counted = v.hears.faithful.counted;
        capacity_same = v.hears.faithful.capacity_same;
      };
      heard = v.hears.heard;
      size = v.hears.size;
    };
    shut = inr refl;
    safe = with_stream-Safe c.sender _ (set_error-Inv v.safe.stream_valid) v.safe;
  }

  reset_with-Sound :
      (q : List TcpSegment) (c : TcpConnection)
      → is_empty q ≡ false
      → Is c
      → (c' : TcpConnection) × (reset_with q c ≡ ok c') × Is c'
  unfolding reset_with
  reset_with-Sound [] c n v = ground (arith, n)
  reset_with-Sound (seg ∷ q) c n v =
      let c1 : TcpConnection = record c {
        sender = record (c.sender) { segments_out = TcpSegment.moved_from seg ∷ q };
        segments_out = record seg { header = record (seg.header) { rst = true } } ∷ [];
      } in
      (
        kill c1,
        refl,
        kill-Sound b c1 (record {
          seen = v.seen;
          hears = v.hears;
          shut = v.shut;
          safe = with_segments-Safe c.sender _ v.safe;
        }),
      )

  pub send_rst-Sound :
      (c : TcpConnection) → Is c → (c' : TcpConnection) × (send_rst c ≡ ok c') × Is c'
  unfolding send_rst
  send_rst-Sound c v =
      let q : TcpSender = Sender.send_empty_segment c.sender in
      let k : Is (record c { sender = q }) = record {
        seen = v.seen;
        hears = v.hears;
        shut = v.shut;
        safe = send_empty_segment-Safe c.sender v.safe;
      } in
      reset_with-Sound q.segments_out _ (sends_empty c.sender) k
