-- ===== src/Capture/Pcap/Timestamp.antt =====
-- The timestamp of a packet, written as seconds and a fraction and read back.
use maja.Base.{ℕ, ◌-◌, ◌*◌, ◌%◌, ◌^◌, ◌<◌, ◌≡◌, ap, Bool, true, false, arith, if◌then◌else◌}
use maja.Protocol.{LinkType}
use maja.Capture.{pos, PacketRecord}
use maja.Capture.Pcap.{to_packet}
use maja.Capture.Pcap.Writer.{header_of}

-- A timestamp that is not negative and whose seconds fit a u32 comes back from the header that the
-- writer makes of it: as it was in a nanosecond capture, and cut to microseconds in the other one.
pub to_packet-header_of :
    (nanosecond : Bool) (packet : PacketRecord) (link_type : LinkType) (n : ℕ)
    → packet.timestamp ≡ pos n
    → n < 2 ^ 32 * 1000000000
    → (to_packet (header_of nanosecond packet) packet.bytes nanosecond link_type).timestamp
      ≡ pos (if nanosecond then n else n - n % 1000)
unfolding to_packet
to_packet-header_of true packet link_type n e h = rw e (ap pos (omega arith))
to_packet-header_of false packet link_type n e h = rw e (ap pos (omega arith))
