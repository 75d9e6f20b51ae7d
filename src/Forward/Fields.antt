-- ===== src/Forward/Fields.antt =====
-- Which bytes the rewrites set, and that they leave all others.
use violet_gw.Prelude.{
  ℕ, Bool, true, false, List, ◌≡◌, inr, arith, ◌+◌, ◌≤◌, ◌∙◌, length, take, drop, length-take-le,
  length-write, Apart, read, store16, store32, bytes_of, read-write_other, read-store16_other,
  read-store32_other, read-store16_self, read-store32_self, length-store16, length-store32,
}
use violet_gw.Dpdk.{Dpdk}
use violet_gw.Neighbor.{MacAddr}
use violet_gw.Packet.{refresh_ipv4_checksum, refresh_udp_checksum, clear_udp_checksum}
use violet_gw.Packet.Layout.{
  eth_hdr_len, eth_src, eth_type, ip_cksum, ip_src, ip_dst, udp_dst, udp_cksum,
}
use violet_gw.Forward.Nat.{set_l2, finish_l4_checksum, rewrite}

length-take_six : (mac : MacAddr) → length (take 6 mac) ≤ 6
length-take_six mac = length-take-le 6 mac

-- `set_l2` leaves everything behind the two Ethernet addresses.
pub read-set_l2 :
    (src dst : MacAddr) (bytes : List ℕ) (o n : ℕ)
    → eth_type ≤ o
    → read (set_l2 src dst bytes) o n ≡ read bytes o n
unfolding set_l2
read-set_l2 src dst bytes o n h =
    read-write_other _ 0 (take 6 dst) o n (inr (omega (arith, length-take_six dst)))
    ∙ read-write_other bytes eth_src (take 6 src) o n (inr (omega (arith, length-take_six src)))

pub length-set_l2 :
    (src dst : MacAddr) (bytes : List ℕ) → length (set_l2 src dst bytes) ≡ length bytes
unfolding set_l2
length-set_l2 src dst bytes =
    length-write _ 0 (take 6 dst) ∙ length-write bytes eth_src (take 6 src)

module _ (dpdk : Dpdk) (udp : ℕ) where
  read-refresh_udp :
      (bytes : List ℕ) (o n : ℕ)
      → Apart o n (udp + udp_cksum) 2
      → read (refresh_udp_checksum dpdk udp bytes) o n ≡ read bytes o n
  unfolding refresh_udp_checksum
  read-refresh_udp bytes o n a =
      let zeroed = store16 bytes (udp + udp_cksum) 0 in
      let sum = dpdk.ipv4_udptcp_cksum (drop eth_hdr_len zeroed) (drop udp zeroed) in
      let filled = store16 zeroed (udp + udp_cksum) sum in
      ground (
        arith,
        read-store16_other bytes (udp + udp_cksum) 0 o n a,
        read-store16_other zeroed (udp + udp_cksum) sum o n a,
        read-store16_other filled (udp + udp_cksum) 0xffff o n a,
      )

  read-refresh_ipv4 :
      (bytes : List ℕ) (o n : ℕ)
      → Apart o n ip_cksum 2
      → read (refresh_ipv4_checksum dpdk bytes) o n ≡ read bytes o n
  unfolding refresh_ipv4_checksum
  read-refresh_ipv4 bytes o n a =
      read-store16_other _ ip_cksum _ o n a ∙ read-store16_other bytes ip_cksum 0 o n a

  read-finish :
      (recompute : Bool) (bytes : List ℕ) (o n : ℕ)
      → Apart o n ip_cksum 2
      → Apart o n (udp + udp_cksum) 2
      → read (finish_l4_checksum dpdk udp recompute bytes) o n ≡ read bytes o n
  unfolding finish_l4_checksum clear_udp_checksum
  read-finish true bytes o n a b = read-refresh_udp _ o n b ∙ read-refresh_ipv4 bytes o n a
  read-finish false bytes o n a b =
      read-store16_other _ (udp + udp_cksum) 0 o n b ∙ read-refresh_ipv4 bytes o n a

  module _ (src dst sport dport : ℕ) (recompute : Bool) (bytes : List ℕ) (low : 34 ≤ udp) where
    -- The bytes outside the fields that a rewrite sets.
    pub read-rewrite :
        (o n : ℕ)
        → Apart o n ip_cksum 10
        → Apart o n udp 4
        → Apart o n (udp + udp_cksum) 2
        → read (rewrite dpdk udp src dst sport dport recompute bytes) o n ≡ read bytes o n
    unfolding rewrite
    read-rewrite o n a b c =
        read-finish recompute _ o n (omega arith) c
        ∙ read-store16_other _ (udp + udp_dst) _ o n (omega arith)
        ∙ read-store16_other _ udp _ o n (omega arith)
        ∙ read-store32_other _ ip_dst _ o n (omega arith)
        ∙ read-store32_other bytes ip_src _ o n (omega arith)

    module _ (long : udp + 8 ≤ length bytes) where
      pub read-rewrite_src :
          read (rewrite dpdk udp src dst sport dport recompute bytes) ip_src 4 ≡ bytes_of 4 src
      unfolding rewrite
      read-rewrite_src =
          read-finish recompute _ ip_src 4 (omega arith) (omega arith)
          ∙ read-store16_other _ (udp + udp_dst) _ ip_src 4 (omega arith)
          ∙ read-store16_other _ udp _ ip_src 4 (omega arith)
          ∙ read-store32_other _ ip_dst _ ip_src 4 (omega arith)
          ∙ read-store32_self bytes ip_src src (omega arith)

      pub read-rewrite_dst :
          read (rewrite dpdk udp src dst sport dport recompute bytes) ip_dst 4 ≡ bytes_of 4 dst
      unfolding rewrite
      read-rewrite_dst =
          read-finish recompute _ ip_dst 4 (omega arith) (omega arith)
          ∙ read-store16_other _ (udp + udp_dst) _ ip_dst 4 (omega arith)
          ∙ read-store16_other _ udp _ ip_dst 4 (omega arith)
          ∙ read-store32_self _ ip_dst dst (omega (arith, length-store32 bytes ip_src src))

      pub read-rewrite_sport :
          read (rewrite dpdk udp src dst sport dport recompute bytes) udp 2
          ≡ bytes_of 2 (dpdk.cpu_to_be_16 sport)
      unfolding rewrite
      read-rewrite_sport =
          read-finish recompute _ udp 2 (omega arith) (omega arith)
          ∙ read-store16_other _ (udp + udp_dst) _ udp 2 (omega arith)
          ∙ read-store16_self _ udp _ (
              omega (
                arith,
                length-store32 (store32 bytes ip_src src) ip_dst dst,
                length-store32 bytes ip_src src,
              ))

      pub read-rewrite_dport :
          read (rewrite dpdk udp src dst sport dport recompute bytes) (udp + udp_dst) 2
          ≡ bytes_of 2 (dpdk.cpu_to_be_16 dport)
      unfolding rewrite
      read-rewrite_dport =
          let a = store32 bytes ip_src src in
          let b = store32 a ip_dst dst in
          read-finish recompute _ (udp + udp_dst) 2 (omega arith) (omega arith)
          ∙ read-store16_self _ (udp + udp_dst) _ (
              omega (
                arith,
                length-store16 b udp (dpdk.cpu_to_be_16 sport),
                length-store32 a ip_dst dst,
                length-store32 bytes ip_src src,
              ))
