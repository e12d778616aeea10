-- ===== src/TcpReceiver/Examples.antt =====
-- A receiver at concrete segments.
use mathlib.Core.List.Permᴰ
use cs144_sponge.Base.{
  ℕ, zero, suc, ◌+◌, ◌-◌, ◌≡◌, refl, true, some, List, [], ◌∷◌, ◌++◌, arith, ok, length, get_or,
  All, if◌then◌else◌,
}
use cs144_sponge.Buffer
use cs144_sponge.ByteStream
use cs144_sponge.ByteStream.Inv.{contents}
use cs144_sponge.WrappingIntegers.{wrap}
use cs144_sponge.StreamReassembler.{HashOrder}
use cs144_sponge.StreamReassembler.Source.{Agrees}
use cs144_sponge.TcpHeader.{default_header}
use cs144_sponge.TcpSegment.{TcpSegment}
use cs144_sponge.TcpReceiver.{ackno, window_size}
use cs144_sponge.TcpReceiver.Session.{
  Event, arrives, reads, Session, IsGenuine, run, start, run_acknowledges,
}

abbrev newest_first : HashOrder
newest_first = record { arrange = λ m. m; arranged = λ m. Permᴰ.refl m }

abbrev text : ℕ → ℕ
text i = get_or (10 ∷ 11 ∷ []) i 0

-- The initial number is the last one, so that the first byte has the number 0.
abbrev syn_segment : TcpSegment
syn_segment = record {
  header = record default_header { seqno = 4294967295; syn = true };
  payload = Buffer.of_string [];
}

abbrev late_segment : TcpSegment
late_segment = record {
  header = record default_header { seqno = 1; fin = true };
  payload = Buffer.of_string (11 ∷ []);
}

abbrev first_segment : TcpSegment
first_segment = record {
  header = record default_header { seqno = 0 };
  payload = Buffer.of_string (10 ∷ 11 ∷ []);
}

abbrev events : List Event
events =
    arrives newest_first syn_segment
    ∷ arrives newest_first late_segment
    ∷ arrives newest_first first_segment
    ∷ reads 1
    ∷ []

part_0 : Agrees text 0 (10 ∷ 11 ∷ [])
part_0 zero h = refl
part_0 (suc zero) h = refl
part_0 (suc (suc i)) h = absurd (omega (arith, h))

part_1 : Agrees text 1 (11 ∷ [])
part_1 zero h = refl
part_1 (suc i) h = absurd (omega (arith, h))

part_none : Agrees text 0 []
part_none i h = absurd (omega (arith, h))

events-IsGenuine : All (IsGenuine text 4294967295) events
unfolding Buffer.str Buffer.of_string wrap
events-IsGenuine = (
  (refl, omega arith, part_none),
  ((1, refl, omega arith, part_1), ((0, refl, omega arith, part_0), (tt, tt))),
)

run_acknowledges_example :
    (t : Session) × (run (start 4) events ≡ ok t)
    × Agrees text 0 (t.given ++ contents t.receiver.reassembler.output)
    × (ackno t.receiver
        ≡ some (
            wrap
              (length (t.given ++ contents t.receiver.reassembler.output)
                + 1
                + (if ByteStream.input_ended t.receiver.reassembler.output then 1 else 0))
              4294967295))
    × (window_size t.receiver ≡ 4 - length (contents t.receiver.reassembler.output))
run_acknowledges_example =
    run_acknowledges text 4294967295 4 events (omega arith) (omega arith) events-IsGenuine
