-- ===== src/Craft/Tests.antt =====
-- The stacks of the tests of src/packet/craft.rs.
use maja.Base.{
  ℕ, ◌+◌, ◌≤◌, ◌≡◌, refl, true, false, ◌==◌, some, List, [], ◌∷◌, ◌++◌, arith, length, drop, map,
  get_elem?, replicate,
}
use maja.Protocol.{Protocol}
use maja.Context.{Layer}
use maja.Packet.{Packet, bytes_of}
use maja.Craft.{
  ok, err, CraftLayer, build, build_in, default_context, raw_must_be_terminal, invalid_field,
  measure, validate_plan, set_layer_offsets, on_slice, measure_layers, MeasuredLayer,
  write_measured, ◌>>=◌,
}
use maja.Validate.{
  store, stored, ipv4_validate_checksum, udp_validate_checksum_ipv4, ipv4_calculate_checksum,
  udp_calculate_checksum_ipv4,
}
use maja.Field.{set, raw}
use maja.Layers.{field}
use maja.Checksum.{
  internet_checksum_zeroing, ipv4_transport_checksum_zeroing, fold_checksum, add_words,
  add_words_zeroing,
}
use maja.Craft.Laws.{Lawful, All}
use maja.Craft.Measured.{Measures}
use maja.Craft.Nested.{nest, write_measured-nest}
use maja.Craft.Theorems.{Covers, Decides, build-Covers, build-Decides}
use maja.Craft.Compose.{Around, build_in-Around}
use maja.Craft.Setters.{
  new_eth, eth_src, eth_dst, new_ipv4, ipv4_src, ipv4_dst, ipv4_total_length, new_udp, udp_src_port,
  udp_dst_port, new_raw, copy_from,
}
use maja.Craft.Datagram.{build-datagram}
use maja.Craft.Options.{header_len}
use maja.Craft.Udp.Laws.{udp_layer-Lawful}
use maja.Craft.Ipv4.Laws.{ipv4_layer-Lawful, build_in-ipv4}
use maja.Craft.Raw.{
  RawBuilder, raw_layer, EthBuilder, eth_layer, raw_layer-Lawful, eth_layer-Lawful,
}
use maja.Craft.Udp.{UdpBuilder, udp_layer, gap, measure_udp, write_udp}
use maja.Craft.Ipv4.{Ipv4Builder, ipv4_layer, effective, measure_ipv4, write_ipv4}

abbrev eth_builder : EthBuilder
eth_builder = eth_dst (2 ∷ 0 ∷ 0 ∷ 0 ∷ 0 ∷ 2 ∷ []) (eth_src (2 ∷ 0 ∷ 0 ∷ 0 ∷ 0 ∷ 1 ∷ []) new_eth)

abbrev ipv4_builder : Ipv4Builder
ipv4_builder = ipv4_dst (192 ∷ 0 ∷ 2 ∷ 2 ∷ []) (ipv4_src (192 ∷ 0 ∷ 2 ∷ 1 ∷ []) new_ipv4)

abbrev udp_builder : UdpBuilder
udp_builder = udp_dst_port 53 (udp_src_port 12345 new_udp)

abbrev hi : RawBuilder
hi = copy_from (0x68 ∷ 0x69 ∷ []) new_raw

abbrev frame : List CraftLayer
frame = eth_layer eth_builder ∷ ipv4_layer ipv4_builder ∷ udp_layer udp_builder ∷ raw_layer hi ∷ []

abbrev crafted : Packet
crafted = record {
  bytes =
      (2 ∷ 0 ∷ 0 ∷ 0 ∷ 0 ∷ 2 ∷ 2 ∷ 0 ∷ 0 ∷ 0 ∷ 0 ∷ 1 ∷ 8 ∷ 0 ∷ [])
      ++ (69 ∷ 0 ∷ 0 ∷ 30 ∷ 0 ∷ 0 ∷ 0 ∷ 0 ∷ 64 ∷ 17 ∷ 246 ∷ 203 ∷ 192 ∷ 0 ∷ 2 ∷ 1 ∷ 192 ∷ 0 ∷ 2 ∷ 2
          ∷ [])
      ++ (48 ∷ 57 ∷ 0 ∷ 53 ∷ 0 ∷ 10 ∷ 226 ∷ 254 ∷ 104 ∷ 105 ∷ []);
  layers =
      record { protocol = Protocol.eth; offset = 0; len = 14 }
      ∷ record { protocol = Protocol.ipv4; offset = 14; len = 20 }
      ∷ record { protocol = Protocol.udp; offset = 34; len = 8 }
      ∷ record { protocol = Protocol.raw; offset = 42; len = 2 }
      ∷ [];
}

crafts_eth_ipv4_udp_raw_stack : build frame ≡ ok crafted
unfolding build_in measure measure_layers validate_plan set_layer_offsets write_measured on_slice
    header_len measure_udp write_udp measure_ipv4 write_ipv4 set store ipv4_calculate_checksum
    udp_calculate_checksum_ipv4 internet_checksum_zeroing ipv4_transport_checksum_zeroing
    fold_checksum add_words add_words_zeroing raw field
crafts_eth_ipv4_udp_raw_stack = refl

rejects_raw_with_child_layer :
    build (raw_layer hi ∷ udp_layer udp_builder ∷ []) ≡ err raw_must_be_terminal
unfolding build_in measure measure_layers validate_plan measure_udp
rejects_raw_with_child_layer = refl

rejects_implicit_ipv4_payload_gap :
    build (ipv4_layer (ipv4_total_length 29 ipv4_builder) ∷ udp_layer udp_builder ∷ [])
    ≡ err (invalid_field "ipv4" "total_length" 29 gap)
unfolding build_in measure measure_layers validate_plan measure_udp measure_ipv4 header_len
rejects_implicit_ipv4_payload_gap = refl

abbrev lawful_inner : All Lawful (udp_layer udp_builder ∷ raw_layer hi ∷ [])
lawful_inner = (udp_layer-Lawful udp_builder tt, (raw_layer-Lawful hi (omega arith), tt))

abbrev lawful : All Lawful frame
lawful = (eth_layer-Lawful eth_builder, (ipv4_layer-Lawful ipv4_builder tt, lawful_inner))

build-Covers_example :
    (map (λ (l : Layer). l.protocol) crafted.layers ≡ map (λ (l : CraftLayer). l.protocol) frame)
    × Covers 0 crafted.layers (length crafted.bytes)
build-Covers_example = build-Covers frame crafted lawful crafts_eth_ipv4_udp_raw_stack

build-Decides_example : Decides (measure_layers default_context frame) (build frame)
build-Decides_example =
    build-Decides (eth_layer eth_builder)
      (ipv4_layer ipv4_builder ∷ udp_layer udp_builder ∷ raw_layer hi ∷ []) lawful

build_in-Around_example :
    Around default_context
      (eth_layer eth_builder)
      (ipv4_layer ipv4_builder ∷ udp_layer udp_builder ∷ raw_layer hi ∷ [])
      crafted
build_in-Around_example =
    build_in-Around default_context (eth_layer eth_builder) (ipv4_layer ipv4_builder)
      (udp_layer udp_builder ∷ raw_layer hi ∷ []) crafted lawful crafts_eth_ipv4_udp_raw_stack

build-datagram_example :
    (l : Layer) × (get_elem? crafted.layers 2 ≡ some l)
    × (udp_validate_checksum_ipv4
          (effective ipv4_builder.src)
          (effective ipv4_builder.dst)
          (drop l.offset crafted.bytes)
        ≡ true)
    × ((stored 6 (drop l.offset crafted.bytes) == 0) ≡ false)
build-datagram_example =
    build-datagram eth_builder ipv4_builder udp_builder (raw_layer hi ∷ []) crafted tt tt refl
      (raw_layer-Lawful hi (omega arith), tt) crafts_eth_ipv4_udp_raw_stack

abbrev ipv4_packet : Packet
ipv4_packet = record {
  bytes = drop 14 crafted.bytes;
  layers =
      record { protocol = Protocol.ipv4; offset = 0; len = 20 }
      ∷ record { protocol = Protocol.udp; offset = 20; len = 8 }
      ∷ record { protocol = Protocol.raw; offset = 28; len = 2 }
      ∷ [];
}

crafts_ipv4 :
    build (ipv4_layer ipv4_builder ∷ udp_layer udp_builder ∷ raw_layer hi ∷ []) ≡ ok ipv4_packet
unfolding build_in measure measure_layers validate_plan set_layer_offsets write_measured on_slice
    header_len measure_udp write_udp measure_ipv4 write_ipv4 set store ipv4_calculate_checksum
    udp_calculate_checksum_ipv4 internet_checksum_zeroing ipv4_transport_checksum_zeroing
    fold_checksum add_words add_words_zeroing raw field
crafts_ipv4 = refl

build_in-ipv4_example :
    (first : Layer) × (header : List ℕ) × (get_elem? ipv4_packet.layers 0 ≡ some first)
    × (bytes_of first ipv4_packet.bytes ≡ some header)
    × (20 + length ipv4_builder.options ≤ length header)
    × (ipv4_validate_checksum header ≡ true)
build_in-ipv4_example =
    build_in-ipv4 ipv4_builder default_context (udp_layer udp_builder ∷ raw_layer hi ∷ [])
      ipv4_packet tt refl lawful_inner crafts_ipv4

abbrev seven : List ℕ
seven = replicate 7 1

abbrev inner_layers : List CraftLayer
inner_layers = udp_layer udp_builder ∷ raw_layer hi ∷ []

abbrev inner_measured : List MeasuredLayer
inner_measured =
    record {
      protocol = Protocol.udp;
      plan = record { layer_len = 8; total_len = 10 };
      context = default_context;
      offset = 3;
    }
    ∷ record {
      protocol = Protocol.raw;
      plan = record { layer_len = 2; total_len = 2 };
      context = default_context;
      offset = 11;
    }
    ∷ []

inner-Measures : Measures default_context inner_layers inner_measured
unfolding measure_udp
inner-Measures = ((refl, refl, refl, omega arith, (refl, refl, refl, omega arith, tt)))

write_measured-nest_example :
    write_measured inner_layers inner_measured ((1 ∷ 2 ∷ 3 ∷ []) ++ (replicate 10 0 ++ (9 ∷ [])))
    ≡ (nest inner_layers inner_measured (replicate 10 0) >>= λ written.
        ok ((1 ∷ 2 ∷ 3 ∷ []) ++ (written ++ (9 ∷ []))))
write_measured-nest_example =
    write_measured-nest default_context inner_layers inner_measured 3 (1 ∷ 2 ∷ 3 ∷ [])
      (replicate 10 0) (9 ∷ [])
      ((udp_layer-Lawful udp_builder tt).keeps, ((raw_layer-Lawful hi (omega arith)).keeps, tt))
      inner-Measures (refl, (refl, tt)) refl refl (omega arith)
