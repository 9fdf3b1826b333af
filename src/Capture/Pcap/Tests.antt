-- ===== src/Capture/Pcap/Tests.antt =====
-- A capture of two packets, the second one longer than the snapshot length.
use maja.Base.{ℕ, ◌≡◌, refl, true, false, List, [], ◌∷◌, arith}
use maja.Base.Words.{to_bytes, to_le}
use maja.Protocol.{ethernet}
use maja.Capture.{ok, PacketRecord, pos}
use maja.Capture.Pcap.{PcapPacketHeader, to_packet}
use maja.Capture.Pcap.Reader.{SliceReader, open_slice}
use maja.Capture.Pcap.Writer.{new_writer, write_packet_raw, header_of}
use maja.Capture.Pcap.Record.{Fits}
use maja.Capture.Pcap.Timestamp.{to_packet-header_of}
use maja.Capture.Pcap.RoundTrip.{Reads, write_packets, expected_all, open_slice-write_packets}

-- The test `pcap_writer`.
writes_the_layout :
    (write_packet_raw
      (new_writer true false 65535 ethernet)
      (record { ts_sec = 1136142245; ts_usec = 123456; incl_len = 4; orig_len = 4 })
      (1 ∷ 2 ∷ 3 ∷ 4 ∷ [])).written
    ≡ 0xA1 ∷ 0xB2 ∷ 0xC3 ∷ 0xD4 ∷ 0 ∷ 2 ∷ 0 ∷ 4 ∷ 0 ∷ 0 ∷ 0 ∷ 0 ∷ 0 ∷ 0 ∷ 0 ∷ 0 ∷ 0 ∷ 0 ∷ 0xff
      ∷ 0xff ∷ 0 ∷ 0 ∷ 0 ∷ 1 ∷ 0x43 ∷ 0xb8 ∷ 0x27 ∷ 0xa5 ∷ 0 ∷ 1 ∷ 0xe2 ∷ 0x40 ∷ 0 ∷ 0 ∷ 0 ∷ 4 ∷ 0
      ∷ 0 ∷ 0 ∷ 4 ∷ 1 ∷ 2 ∷ 3 ∷ 4 ∷ []
unfolding write_packet_raw new_writer to_bytes to_le
writes_the_layout = refl

abbrev first : PcapPacketHeader
first = record { ts_sec = 1; ts_usec = 2; incl_len = 3; orig_len = 3 }

abbrev second : PcapPacketHeader
second = record { ts_sec = 1; ts_usec = 3; incl_len = 9; orig_len = 9 }

abbrev packets : List (PcapPacketHeader × List ℕ)
packets = (first, 7 ∷ 8 ∷ 9 ∷ []) ∷ (second, 1 ∷ 2 ∷ 3 ∷ 4 ∷ 5 ∷ 6 ∷ 7 ∷ 8 ∷ 9 ∷ []) ∷ []

first-Fits : Fits first
first-Fits = record {
  ts_sec = omega arith;
  ts_usec = omega arith;
  incl_len = omega arith;
  orig_len = omega arith;
}

second-Fits : Fits second
second-Fits = record {
  ts_sec = omega arith;
  ts_usec = omega arith;
  incl_len = omega arith;
  orig_len = omega arith;
}

open_slice-write_packets_example :
    (reader : SliceReader) × (open_slice
        (write_packets (new_writer false false 4 ethernet) packets).written
      ≡ ok reader)
    × Reads reader (expected_all (new_writer false false 4 ethernet) packets)
open_slice-write_packets_example =
    open_slice-write_packets false false 4 ethernet packets (omega arith) (omega arith)
      (first-Fits, (second-Fits, tt))

abbrev packet : PacketRecord
packet = record {
  timestamp = pos 1500000123456789;
  original_length = 3;
  bytes = 7 ∷ 8 ∷ 9 ∷ [];
  link_type = ethernet;
}

to_packet-header_of_example :
    (to_packet (header_of false packet) packet.bytes false ethernet).timestamp
    ≡ pos 1500000123456000
to_packet-header_of_example =
    to_packet-header_of false packet ethernet 1500000123456789 refl (omega arith)
