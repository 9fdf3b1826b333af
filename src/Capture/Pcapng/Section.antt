-- ===== src/Capture/Pcapng/Section.antt =====
-- `SectionHeader` and `InterfaceDescription` of src/capture/format/pcapng.rs.
use maja.Base.{
  ℕ, ◌-◌, Option, none, some, List, [], ◌∷◌, ◌++◌, ltb, ◌==◌, Bool, true, false, ◌&&◌,
  if◌then◌else◌, length,
}
use maja.Protocol.{LinkType}
use maja.Capture.{
  ℤ, Endian, big, little, read_u16, read_u32, truncated_capture, try_from_slice, link_type_from,
  Interface, power_of_ten, power_of_two,
}
use maja.Capture.Pcapng.{
  Result, ok, err, panic, ◌>>=◌, range, index, read_number, read_signed, text, all_options,
  check_block_total_length,
}

pub record SectionHeader : Type 0 where
  pub endian : Endian
  pub major_version : ℕ
  pub minor_version : ℕ
  pub section_length : ℤ
  pub hardware : Option (List ℕ)
  pub os : Option (List ℕ)
  pub user_appl : Option (List ℕ)

-- The byte-order magic that a section header carries.
abbrev same_bytes : List ℕ → List ℕ → Bool
same_bytes [] [] = true
same_bytes [] (y ∷ ys) = false
same_bytes (x ∷ xs) [] = false
same_bytes (x ∷ xs) (y ∷ ys) = x == y && same_bytes xs ys

abbrev pub magic_endian : List ℕ → Endian
magic_endian magic = if same_bytes magic (0x1A ∷ 0x2B ∷ 0x3C ∷ 0x4D ∷ []) then big else little

-- The arms of the options of a section header.
unfoldable pub section_option : ℕ → List ℕ → SectionHeader → Result SectionHeader
section_option code value s =
    if code == 2
    then (text value >>= λ t. ok (record s { hardware = some t }))
    else if code == 3
    then (text value >>= λ t. ok (record s { os = some t }))
    else if code == 4
    then (text value >>= λ t. ok (record s { user_appl = some t }))
    else ok s

-- The fixed fields.
unfoldable pub section_fields : List ℕ → Result SectionHeader
section_fields block = range block 8 12 >>= λ magic. range block 12 14 >>= λ major.
    range block 14 16 >>= λ minor. range block 16 24 >>= λ len.
    read_signed 8 (magic_endian magic) len >>= λ section_length. ok (record {
      endian = magic_endian magic;
      major_version = read_u16 (magic_endian magic) major;
      minor_version = read_u16 (magic_endian magic) minor;
      section_length = section_length;
      hardware = none;
      os = none;
      user_appl = none;
    })

-- `SectionHeader::parse`.
unfoldable pub parse_section : List ℕ → Result SectionHeader
parse_section block =
    if ltb (length block) 28
    then err (truncated_capture "pcapng section header block")
    else (section_fields block >>= λ fields.
        all_options section_option block fields.endian 24 fields >>= λ section.
        check_block_total_length block fields.endian "Section header" >>= λ done. ok section)

pub record InterfaceDescription : Type 0 where
  pub link_type : LinkType
  pub snap_len : ℕ
  pub if_name : Option (List ℕ)
  pub description : Option (List ℕ)
  pub ipv4_addr : List (List ℕ × List ℕ)
  pub ipv6_addr : List (List ℕ × ℕ)
  pub mac_addr : Option (List ℕ)
  pub eui_addr : Option (List ℕ)
  pub speed : Option ℕ
  pub tsresol : Option ℕ
  pub tzone : Option ℤ
  pub filter : List ℕ
  pub os : Option (List ℕ)
  pub fcs_len : Option ℕ
  pub tsoffset : Option ℤ
  pub hardware : Option (List ℕ)
  pub txspeed : Option ℕ
  pub rxspeed : Option ℕ
  pub iana_tzname : Option (List ℕ)

-- `InterfaceDescription::new`.
abbrev pub new_interface : LinkType → ℕ → InterfaceDescription
new_interface link_type snap_len = record {
  link_type = link_type;
  snap_len = snap_len;
  if_name = none;
  description = none;
  ipv4_addr = [];
  ipv6_addr = [];
  mac_addr = none;
  eui_addr = none;
  speed = none;
  tsresol = none;
  tzone = none;
  filter = [];
  os = none;
  fcs_len = none;
  tsoffset = none;
  hardware = none;
  txspeed = none;
  rxspeed = none;
  iana_tzname = none;
}

-- The arms of the options of an interface description.
unfoldable pub interface_option :
    Endian → ℕ → List ℕ → InterfaceDescription → Result InterfaceDescription
interface_option endian code value s =
    if code == 2
    then (text value >>= λ t. ok (record s { if_name = some t }))
    else if code == 3
    then (text value >>= λ t. ok (record s { description = some t }))
    else if code == 4
    then (range value 0 4 >>= λ addr. range value 4 8 >>= λ mask.
        ok (record s { ipv4_addr = s.ipv4_addr ++ ((addr, mask) ∷ []) }))
    else if code == 5
    then (range value 0 16 >>= λ addr. index value 16 >>= λ prefix_len.
        ok (record s { ipv6_addr = s.ipv6_addr ++ ((addr, prefix_len) ∷ []) }))
    else if code == 6
    then (if length value == 6 then ok (record s { mac_addr = some value }) else panic)
    else if code == 7
    then (if length value == 8 then ok (record s { eui_addr = some value }) else err try_from_slice)
    else if code == 8
    then (read_number 8 endian value >>= λ n. ok (record s { speed = some n }))
    else if code == 9
    then (index value 0 >>= λ n. ok (record s { tsresol = some n }))
    else if code == 10
    then (read_signed 4 endian value >>= λ n. ok (record s { tzone = some n }))
    else if code == 11
    then ok (record s { filter = value })
    else if code == 12
    then (text value >>= λ t. ok (record s { os = some t }))
    else if code == 13
    then (index value 0 >>= λ n. ok (record s { fcs_len = some n }))
    else if code == 14
    then (read_signed 8 endian value >>= λ n. ok (record s { tsoffset = some n }))
    else if code == 15
    then (text value >>= λ t. ok (record s { hardware = some t }))
    else if code == 16
    then (read_number 8 endian value >>= λ n. ok (record s { txspeed = some n }))
    else if code == 17
    then (read_number 8 endian value >>= λ n. ok (record s { rxspeed = some n }))
    else if code == 18
    then (text value >>= λ t. ok (record s { iana_tzname = some t }))
    else ok s

-- `InterfaceDescription::parse`.
unfoldable pub parse_interface : List ℕ → Endian → Result InterfaceDescription
parse_interface block endian =
    if ltb (length block) 20
    then err (truncated_capture "pcapng interface description block")
    else (range block 8 10 >>= λ link_type. range block 12 16 >>= λ snap_len.
        all_options (interface_option endian) block endian 16
          (new_interface (link_type_from (read_u16 endian link_type)) (read_u32 endian snap_len))
        >>= λ interface.
            check_block_total_length block endian "Interface description" >>= λ done. ok interface)

-- `unwrap_or`.
abbrev pub unwrap_or : {A : Type 0} → Option A → A → A
unwrap_or none d = d
unwrap_or (some a) d = a

-- `InterfaceDescription::to_interface`; `res ^ 0x80` clears the high bit of an octet that has it.
pub to_interface : InterfaceDescription → Interface
to_interface i = record {
  link_type = i.link_type;
  snap_len = i.snap_len;
  resolution =
      let res = unwrap_or i.tsresol 6 in
      if ltb res 128 then power_of_ten res else power_of_two (res - 128);
}
