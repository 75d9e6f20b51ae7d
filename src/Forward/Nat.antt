-- ===== src/Forward/Nat.antt =====
-- The rewrites of a packet: `apply_forward_nat`, `apply_reverse_nat` and `set_l2`.
use violet_gw.Prelude.{ℕ, Bool, List, ◌+◌, if◌then◌else◌, take, write, store16, store32}
use violet_gw.Dpdk.{Dpdk, Mbuf}
use violet_gw.Neighbor.{MacAddr}
use violet_gw.Packet.{
  src_ip, dst_ip, src_port, dst_port, refresh_ipv4_checksum, refresh_udp_checksum,
  clear_udp_checksum,
}
use violet_gw.Packet.Layout.{PacketView, eth_src, ip_src, ip_dst, udp_dst, ipproto_udp}
use violet_gw.Session.{Session}
use violet_gw.Session.Key.{FlowKey}

-- `rte_ether_addr_copy` copies the six bytes of an address.
unfoldable pub set_l2 : MacAddr → MacAddr → List ℕ → List ℕ
set_l2 src dst bytes = write (write bytes eth_src (take 6 src)) 0 (take 6 dst)

module _ (dpdk : Dpdk) where
  unfoldable pub flow_key_from_view : Mbuf → PacketView → FlowKey
  unfolding src_ip dst_ip src_port dst_port
  flow_key_from_view m v = record {
    src_ip = src_ip m;
    dst_ip = dst_ip m;
    src_port = src_port dpdk m v;
    dst_port = dst_port dpdk m v;
    proto = ipproto_udp;
  }

  unfoldable pub finish_l4_checksum : ℕ → Bool → List ℕ → List ℕ
  finish_l4_checksum udp recompute_udp bytes =
      let refreshed = refresh_ipv4_checksum dpdk bytes in
      if recompute_udp
      then refresh_udp_checksum dpdk udp refreshed
      else clear_udp_checksum udp refreshed

  -- The two addresses and the two ports of a packet, then its checksums.
  unfoldable pub rewrite : ℕ → ℕ → ℕ → ℕ → ℕ → Bool → List ℕ → List ℕ
  rewrite udp src dst sport dport recompute_udp bytes =
      let bytes = store32 bytes ip_src src in
      let bytes = store32 bytes ip_dst dst in
      let bytes = store16 bytes udp (dpdk.cpu_to_be_16 sport) in
      let bytes = store16 bytes (udp + udp_dst) (dpdk.cpu_to_be_16 dport) in
      finish_l4_checksum udp recompute_udp bytes

  -- client:sport -> vip:vport becomes gw:snat -> upstream:uport
  unfoldable pub apply_forward_nat : ℕ → Session → ℕ → Bool → List ℕ → List ℕ
  apply_forward_nat udp s gateway_ip_be recompute_udp_checksum =
      rewrite udp gateway_ip_be s.upstream_ip s.snat_port s.upstream_port recompute_udp_checksum

  -- upstream:uport -> gw:snat becomes vip:vport -> client:sport
  unfoldable pub apply_reverse_nat : ℕ → Session → Bool → List ℕ → List ℕ
  apply_reverse_nat udp s recompute_udp_checksum =
      rewrite udp s.vip_ip s.client_ip s.vip_port s.client_port recompute_udp_checksum
