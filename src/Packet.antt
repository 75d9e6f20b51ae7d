-- ===== src/Packet.antt =====
-- packet.hpp and packet.cpp: the headers in the memory of an mbuf. A header is the offset at which
-- its struct lies, and a field is a load or a store at the field's place in the wire format.
pub mod Layout
pub mod Laws
pub mod Checksums
use violet_gw.Prelude.{
  ℕ, Bool, true, false, Option, none, some, List, ◌+◌, ◌-◌, ◌*◌, ◌/◌, ◌%◌, ◌^◌, ◌==◌, ◌&&◌, ◌||◌,
  not, ltb, leb, if◌then◌else◌, drop, bit_and, u16_mod, load8, load16, load32, store16, read,
}
use violet_gw.Dpdk.{Dpdk, Mbuf}
use violet_gw.Neighbor
use violet_gw.Neighbor.{NeighborTable}
use violet_gw.Packet.Layout.{
  eth_hdr_len, min_ip_hdr_len, udp_hdr_len, arp_hdr_len, ether_type_ipv4, ether_type_arp,
  arp_hrd_ether, ipproto_udp, eth_src, eth_type, ip_fragment, ip_proto, ip_cksum, ip_src, ip_dst,
  udp_dst, udp_len_field, udp_cksum, ParseStatus, too_short, not_ipv4, not_udp, fragmented,
  bad_ip_checksum, bad_udp_checksum, Parse, ok, fail, ◌>>◌, require, PacketView,
}

-- `need` is a `uint16_t`, so a larger sum loses its high bits in the call.
unfoldable pub headers_fit : Mbuf → ℕ → Bool
headers_fit m need = leb (need % u16_mod) m.data_len

-- The header length in bytes, from `version_ihl`.
unfoldable pub ihl_of : Mbuf → ℕ
ihl_of m = load8 m.bytes eth_hdr_len % 16 * 4

unfoldable pub src_ip : Mbuf → ℕ
src_ip m = load32 m.bytes ip_src

unfoldable pub dst_ip : Mbuf → ℕ
dst_ip m = load32 m.bytes ip_dst

module _ (dpdk : Dpdk) where
  unfoldable pub ethertype : Mbuf → ℕ
  unfolding headers_fit
  ethertype m = if headers_fit m eth_hdr_len then dpdk.be_to_cpu_16 (load16 m.bytes eth_type) else 0

  unfoldable pub parse_arp : Mbuf → Parse (Unit {0})
  unfolding headers_fit
  parse_arp m = do
    require (headers_fit m (eth_hdr_len + arp_hdr_len)) too_short
    require (dpdk.be_to_cpu_16 (load16 m.bytes eth_type) == ether_type_arp) not_ipv4
    require
        (dpdk.be_to_cpu_16 (load16 m.bytes 14) == arp_hrd_ether
          && dpdk.be_to_cpu_16 (load16 m.bytes 16) == ether_type_ipv4
          && load8 m.bytes 18 == 6
          && load8 m.bytes 19 == 4)
        too_short
    ok tt

  unfoldable pub first_octet : ℕ → ℕ
  first_octet ip_be = dpdk.be_to_cpu_32 ip_be / 2 ^ 24 % 256

  unfoldable pub passive_learn_ipv4 : Mbuf → ℕ → NeighborTable → NeighborTable
  unfolding headers_fit first_octet
  passive_learn_ipv4 m now_ms neighbors =
      if not (headers_fit m (eth_hdr_len + min_ip_hdr_len))
      then neighbors
      else if not (dpdk.be_to_cpu_16 (load16 m.bytes eth_type) == ether_type_ipv4)
      then neighbors
      else if load32 m.bytes ip_src == 0
      then neighbors
      else if leb 224 (first_octet (load32 m.bytes ip_src))
      then neighbors
      else Neighbor.learn (load32 m.bytes ip_src) (read m.bytes eth_src 6) now_ms neighbors

  -- The checksum is computed over the memory with a zero in its field, which is then restored.
  unfoldable pub udp_checksum_ok : List ℕ → ℕ → Bool
  udp_checksum_ok bytes udp =
      let saved = load16 bytes (udp + udp_cksum) in
      let zeroed = store16 bytes (udp + udp_cksum) 0 in
      let calc = dpdk.ipv4_udptcp_cksum (drop eth_hdr_len zeroed) (drop udp zeroed) in
      if saved == 0
      then true
      else if saved == calc
      then true
      else (saved == 0xffff && calc == 0) || (saved == 0 && calc == 0xffff)

  unfoldable pub ip_checksum_ok : List ℕ → Bool
  ip_checksum_ok bytes =
      load16 bytes ip_cksum == dpdk.ipv4_cksum (drop eth_hdr_len (store16 bytes ip_cksum 0))

  unfoldable pub verify_checksums : Bool → List ℕ → ℕ → Parse (Unit {0})
  unfolding ip_checksum_ok udp_checksum_ok
  verify_checksums false bytes udp = ok tt
  verify_checksums true bytes udp = do
    require (ip_checksum_ok bytes) bad_ip_checksum
    require (udp_checksum_ok bytes udp) bad_udp_checksum
    ok tt

  unfoldable pub is_fragment : Mbuf → Bool
  is_fragment m =
      let frag = dpdk.be_to_cpu_16 (load16 m.bytes ip_fragment) in
      not (bit_and frag 0x2000 == 0) || not (bit_and frag 0x1fff == 0)

  unfoldable pub udp_len_of : Mbuf → ℕ
  unfolding ihl_of
  udp_len_of m = dpdk.be_to_cpu_16 (load16 m.bytes (eth_hdr_len + ihl_of m + udp_len_field))

  unfoldable pub parse_udp_ipv4 : Bool → Mbuf → Parse PacketView
  unfolding headers_fit ihl_of is_fragment udp_len_of verify_checksums
  parse_udp_ipv4 verify_cksum m = do
    require (headers_fit m (eth_hdr_len + min_ip_hdr_len + udp_hdr_len)) too_short
    require (dpdk.be_to_cpu_16 (load16 m.bytes eth_type) == ether_type_ipv4) not_ipv4
    require (load8 m.bytes eth_hdr_len / 16 == 4 && not (ltb (ihl_of m) min_ip_hdr_len)) not_ipv4
    require (headers_fit m (eth_hdr_len + ihl_of m + udp_hdr_len)) too_short
    require (not (is_fragment m)) fragmented
    require (load8 m.bytes ip_proto == ipproto_udp) not_udp
    require (not (ltb (udp_len_of m) udp_hdr_len)) too_short
    require (headers_fit m (eth_hdr_len + ihl_of m + udp_len_of m)) too_short
    verify_checksums verify_cksum m.bytes (eth_hdr_len + ihl_of m)
    ok (record {
      udp = eth_hdr_len + ihl_of m;
      payload = eth_hdr_len + ihl_of m + udp_hdr_len;
      payload_len = udp_len_of m - udp_hdr_len;
    })

  unfoldable pub src_port : Mbuf → PacketView → ℕ
  src_port m v = dpdk.be_to_cpu_16 (load16 m.bytes v.udp)

  unfoldable pub dst_port : Mbuf → PacketView → ℕ
  dst_port m v = dpdk.be_to_cpu_16 (load16 m.bytes (v.udp + udp_dst))

  unfoldable pub refresh_ipv4_checksum : List ℕ → List ℕ
  refresh_ipv4_checksum bytes =
      let zeroed = store16 bytes ip_cksum 0 in
      store16 zeroed ip_cksum (dpdk.ipv4_cksum (drop eth_hdr_len zeroed))

  unfoldable pub refresh_udp_checksum : ℕ → List ℕ → List ℕ
  refresh_udp_checksum udp bytes =
      let zeroed = store16 bytes (udp + udp_cksum) 0 in
      let filled =
        store16 zeroed (udp + udp_cksum)
          (dpdk.ipv4_udptcp_cksum (drop eth_hdr_len zeroed) (drop udp zeroed)) in
      if load16 filled (udp + udp_cksum) == 0
      then store16 filled (udp + udp_cksum) 0xffff
      else filled

unfoldable pub clear_udp_checksum : ℕ → List ℕ → List ℕ
clear_udp_checksum udp bytes = store16 bytes (udp + udp_cksum) 0
