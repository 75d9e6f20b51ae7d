-- ===== src/Packet/Checksums.antt =====
-- The refreshed checksums of packet.cpp against the tests of a receiver that verifies them.
use violet_gw.Prelude.{
  ℕ, true, List, ◌≡◌, ◌≢◌, refl, arith, ◌+◌, ◌≤◌, length, load16, store16, drop, store16-store16,
  load16-store16, length-store16, ==_iff,
}
use violet_gw.Dpdk.{Dpdk, IsDpdk}
use violet_gw.Packet.{ip_checksum_ok, udp_checksum_ok, refresh_ipv4_checksum, refresh_udp_checksum}
use violet_gw.Packet.Layout.{eth_hdr_len, ip_cksum, udp_cksum}

module _ (dpdk : Dpdk) (laws : IsDpdk dpdk) (bytes : List ℕ) where
  -- After `refresh_ipv4_checksum` the IPv4 checksum is verified, if the field lies in the buffer.
  ip_checksum_ok-refresh :
      ip_cksum + 2 ≤ length bytes → ip_checksum_ok dpdk (refresh_ipv4_checksum dpdk bytes) ≡ true
  unfolding ip_checksum_ok refresh_ipv4_checksum
  ip_checksum_ok-refresh h =
      let zeroed = store16 bytes ip_cksum 0 in
      let sum = dpdk.ipv4_cksum (drop eth_hdr_len zeroed) in
      rw
        (
          load16-store16 zeroed ip_cksum sum (omega (arith, length-store16 bytes ip_cksum 0))
              (laws.ipv4_lt _),
          store16-store16 zeroed ip_cksum sum 0,
          store16-store16 bytes ip_cksum 0 0,
        )
        ((==_iff sum sum).1 refl)

  -- After `refresh_udp_checksum` the UDP checksum is verified and its field is not 0, the value that
  -- stands for no checksum, if the field lies in the buffer.
  pub udp_checksum_ok-refresh :
      (udp : ℕ)
      → udp + udp_cksum + 2 ≤ length bytes
      → (udp_checksum_ok dpdk (refresh_udp_checksum dpdk udp bytes) udp ≡ true)
        × (load16 (refresh_udp_checksum dpdk udp bytes) (udp + udp_cksum) ≢ 0)
  unfolding udp_checksum_ok refresh_udp_checksum
  udp_checksum_ok-refresh udp h =
      let field = udp + udp_cksum in
      let zeroed = store16 bytes field 0 in
      let sum = dpdk.ipv4_udptcp_cksum (drop eth_hdr_len zeroed) (drop udp zeroed) in
      let fits : field + 2 ≤ length zeroed = omega (arith, length-store16 bytes field 0) in
      let small = laws.udptcp_lt (drop eth_hdr_len zeroed) (drop udp zeroed) in
      ground (
        arith,
        load16-store16 zeroed field sum fits small,
        load16-store16 (store16 zeroed field sum) field 0xffff
            (omega (arith, length-store16 zeroed field sum)) (omega arith),
        store16-store16 zeroed field sum 0xffff,
        store16-store16 zeroed field 0xffff 0,
        store16-store16 zeroed field sum 0,
        store16-store16 bytes field 0 0,
      )
