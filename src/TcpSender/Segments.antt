-- ===== src/TcpSender/Segments.antt =====
-- Runs of segments: their numbers, their bytes and their length in sequence space.
use cs144_sponge.Base.{ℕ, ◌+◌, ◌≤◌, ◌≡◌, List, [], ◌∷◌, ◌++◌, length, add64}
use cs144_sponge.WrappingIntegers.{WrappingInt32, wrap}
use cs144_sponge.Buffer
use cs144_sponge.TcpSegment.{TcpSegment, length_in_sequence_space}
use cs144_sponge.TcpSender.{max_payload_size}

-- The payloads one after another.
abbrev pub payloads : List TcpSegment → List ℕ
payloads [] = []
payloads (seg ∷ q) = Buffer.str seg.payload ++ payloads q

abbrev pub total_length : List TcpSegment → ℕ
total_length [] = 0
total_length (seg ∷ q) = length_in_sequence_space seg + total_length q

-- Each segment carries the number at which it begins, the first the absolute number `n`, and the
-- next begins where it ends.
abbrev pub Numbered : WrappingInt32 → ℕ → List TcpSegment → Type 0
Numbered isn n [] = Unit {0}
Numbered isn n (seg ∷ q) =
    (seg.header.seqno ≡ wrap n isn) × Numbered isn (add64 n (length_in_sequence_space seg)) q

-- No payload is larger than the maximum.
abbrev pub IsSmall : TcpSegment → Type 0
IsSmall seg = length (Buffer.str seg.payload) ≤ max_payload_size
