-- ===== src/Avtp/Parser/Ethernet.antt =====
-- ParseEthernetPrefix of avtp_packet_parser.cpp: frames with up to two VLAN tags.
use video_pipeline.Base.{
  ℕ, zero, suc, ◌+◌, ◌*◌, ◌^◌, ◌≤◌, ◌<◌, ◌≡◌, ◌⊎◌, refl, ap, ◌∙◌, true, List, [], ◌∷◌, some, arith,
  length, drop,
}
use video_pipeline.Media.Wire.{bytes, be16, read_u16, read_u16-be16, All}
use video_pipeline.Avtp.Parser.{
  EthernetPrefix, ok, ether_type_avtp, is_vlan_ether_type, skip_vlan, parse_ethernet_prefix,
  parse_cvf_pdu, parse, parse_aaf_pdu, parse_aaf,
}

pub record Mac : Type 0 where
  pub m0 : ℕ
  pub m1 : ℕ
  pub m2 : ℕ
  pub m3 : ℕ
  pub m4 : ℕ
  pub m5 : ℕ

abbrev pub mac_bytes : Mac → List ℕ → List ℕ
mac_bytes m rest = m.m0 ∷ m.m1 ∷ m.m2 ∷ m.m3 ∷ m.m4 ∷ m.m5 ∷ rest

-- A tag: its type (802.1Q, 802.1ad or the old QinQ one) and its control word.
pub record VlanTag : Type 0 where
  pub tag_type : ℕ
  pub control : ℕ

abbrev pub IsVlanTag : VlanTag → Type 0
IsVlanTag t =
    ((t.tag_type ≡ 0x8100) ⊎ (t.tag_type ≡ 0x88a8) ⊎ (t.tag_type ≡ 0x9100)) × (t.control < 2 ^ 16)

abbrev pub tags_bytes : List VlanTag → List ℕ → List ℕ
tags_bytes [] rest = rest
tags_bytes (t ∷ ts) rest = be16 t.tag_type (be16 t.control (tags_bytes ts rest))

-- A frame: the addresses, the tags, the EtherType and the PDU.
abbrev pub frame_bytes : Mac → Mac → List VlanTag → ℕ → List ℕ → List ℕ
frame_bytes destination source tags ether_type pdu =
    mac_bytes destination (mac_bytes source (tags_bytes tags (be16 ether_type pdu)))

abbrev pub prefix_of : Mac → Mac → List VlanTag → EthernetPrefix
prefix_of destination source tags = record {
  has_ethernet_header = true;
  destination_mac = mac_bytes destination [];
  source_mac = mac_bytes source [];
  ether_type = ether_type_avtp;
  avtp_offset = 14 + 4 * length tags;
}

vlan_tag_type : (t : VlanTag) → IsVlanTag t → is_vlan_ether_type t.tag_type ≡ true
unfolding is_vlan_ether_type
vlan_tag_type t h = ground arith

vlan_tag_small : (t : VlanTag) → IsVlanTag t → t.tag_type < 2 ^ 16
vlan_tag_small t h = ground arith

skip_vlan-avtp :
    (n offset : ℕ) (p : List ℕ)
    → skip_vlan n p ether_type_avtp offset ≡ some (ether_type_avtp, offset)
unfolding skip_vlan is_vlan_ether_type
skip_vlan-avtp zero offset p = refl
skip_vlan-avtp (suc n) offset p = refl

skip_vlan-tag :
    (n offset : ℕ) (p : List ℕ) (t : VlanTag)
    → IsVlanTag t
    → offset + 4 ≤ length p
    → skip_vlan (suc n) p t.tag_type offset
      ≡ skip_vlan n p (read_u16 (drop (offset + 2) p)) (offset + 4)
unfolding skip_vlan
skip_vlan-tag n offset p t h l = rw (vlan_tag_type t h) (ground arith)

length-tags_bytes :
    (tags : List VlanTag) (a b : ℕ) (rest : List ℕ) → 2 ≤ length (tags_bytes tags (a ∷ b ∷ rest))
length-tags_bytes [] a b rest = omega arith
length-tags_bytes (t ∷ ts) a b rest = omega arith

module _ (destination source : Mac) (pdu : List ℕ) where
  abbrev frame : List VlanTag → List ℕ
  frame tags = frame_bytes destination source tags ether_type_avtp pdu

  skip_vlan-frame :
      (tags : List VlanTag)
      → All IsVlanTag tags
      → length tags ≤ 2
      → skip_vlan 2 (frame tags) (read_u16 (drop 12 (frame tags))) 14
        ≡ some (ether_type_avtp, 14 + 4 * length tags)
  skip_vlan-frame [] h l =
      rw (read_u16-be16 ether_type_avtp pdu (omega arith)) (skip_vlan-avtp 2 14 _)
  skip_vlan-frame (t ∷ []) (h, _) l = rw (read_u16-be16 t.tag_type _ (vlan_tag_small t h)) (
      skip_vlan-tag 1 14 (frame (t ∷ [])) t h (omega arith)
      ∙ rw (read_u16-be16 ether_type_avtp pdu (omega arith)) (skip_vlan-avtp 1 18 _))
  skip_vlan-frame (t ∷ t' ∷ []) (h, (h', _)) l =
      rw (read_u16-be16 t.tag_type _ (vlan_tag_small t h)) (
        skip_vlan-tag 1 14 (frame (t ∷ t' ∷ [])) t h (omega arith)
        ∙ rw (read_u16-be16 t'.tag_type _ (vlan_tag_small t' h')) (
            skip_vlan-tag 0 18 (frame (t ∷ t' ∷ [])) t' h' (omega arith)
            ∙ rw (read_u16-be16 ether_type_avtp pdu (omega arith)) (skip_vlan-avtp 0 22 _)))
  skip_vlan-frame (t ∷ t' ∷ t'' ∷ ts) h l = absurd (omega arith)

  parse_ethernet_prefix-frame :
      (tags : List VlanTag)
      → All IsVlanTag tags
      → length tags ≤ 2
      → parse_ethernet_prefix (frame tags) ≡ ok (prefix_of destination source tags)
  unfolding parse_ethernet_prefix
  parse_ethernet_prefix-frame tags h l =
      rw (skip_vlan-frame tags h l) (ground (arith, length-tags_bytes tags 0x22 0xf0 pdu))

  drop-frame :
      (tags : List VlanTag) → length tags ≤ 2 → drop (14 + 4 * length tags) (frame tags) ≡ pdu
  drop-frame [] l = refl
  drop-frame (t ∷ []) l = refl
  drop-frame (t ∷ t' ∷ []) l = refl
  drop-frame (t ∷ t' ∷ t'' ∷ ts) l = absurd (omega arith)

-- Behind an Ethernet header with at most two VLAN tags both parsers read exactly the PDU, with the
-- addresses and the offset of the frame in the result.
pub parse-frame :
    (destination source : Mac) (tags : List VlanTag) (pdu : List ℕ)
    → All IsVlanTag tags
    → length tags ≤ 2
    → (parse (bytes (frame_bytes destination source tags ether_type_avtp pdu))
        ≡ parse_cvf_pdu (prefix_of destination source tags) pdu)
      × (parse_aaf (bytes (frame_bytes destination source tags ether_type_avtp pdu))
          ≡ parse_aaf_pdu (prefix_of destination source tags) pdu)
unfolding parse parse_aaf
parse-frame destination source tags pdu h l =
    let found = parse_ethernet_prefix-frame destination source pdu tags h l in
    let at_pdu = drop-frame destination source pdu tags l in
    (
      rw (found, parse) (ap (parse_cvf_pdu (prefix_of destination source tags)) at_pdu),
      rw (found, parse_aaf) (ap (parse_aaf_pdu (prefix_of destination source tags)) at_pdu),
    )
