-- ===== src/Forward/Flows.antt =====
-- The flow of a packet before and after its rewrite, and that a rewritten packet still parses.
use violet_gw.Prelude.{
  ℕ, Bool, false, List, ◌≡◌, refl, arith, ◌+◌, ◌*◌, ◌%◌, ◌<◌, ◌≤◌, length, load8, load16,
  load8-read, load16-read, load32-read, load16-eq, load32-eq, u16_mod, u32_mod,
}
use violet_gw.Dpdk.{Dpdk, IsDpdk, Mbuf}
use violet_gw.Neighbor.{MacAddr}
use violet_gw.Packet.{
  src_ip, dst_ip, src_port, dst_port, ihl_of, is_fragment, udp_len_of, parse_udp_ipv4,
  verify_checksums, headers_fit,
}
use violet_gw.Packet.Layout.{
  PacketView, ok, eth_hdr_len, eth_type, ip_fragment, ip_proto, ip_src, ip_dst, udp_dst,
  udp_len_field, ipproto_udp,
}
use violet_gw.Packet.Laws.{view_bounds}
use violet_gw.Forward.Nat.{set_l2, rewrite, flow_key_from_view}
use violet_gw.Forward.Fields.{
  read-set_l2, read-rewrite, read-rewrite_src, read-rewrite_dst, read-rewrite_sport,
  read-rewrite_dport,
}

-- The packet lies in the buffer.
abbrev pub IsMbuf : Mbuf → Type 0
IsMbuf m = m.data_len ≤ length m.bytes

-- Two buffers agree in what a parse without checksums looks at.
pub record SameShape (m : Mbuf) (bytes : List ℕ) : Type 0 where
  pub same_type : load16 bytes eth_type ≡ load16 m.bytes eth_type
  pub same_ihl : load8 bytes eth_hdr_len ≡ load8 m.bytes eth_hdr_len
  pub same_fragment : load16 bytes ip_fragment ≡ load16 m.bytes ip_fragment
  pub same_proto : load8 bytes ip_proto ≡ load8 m.bytes ip_proto
  pub same_udp_len :
      load16 bytes (eth_hdr_len + ihl_of m + udp_len_field)
      ≡ load16 m.bytes (eth_hdr_len + ihl_of m + udp_len_field)

module _ (dpdk : Dpdk) where
  -- Such buffers parse alike.
  pub parse_same :
      (m : Mbuf) (bytes : List ℕ)
      → SameShape m bytes
      → parse_udp_ipv4 dpdk false (record m { bytes = bytes }) ≡ parse_udp_ipv4 dpdk false m
  unfolding parse_udp_ipv4 ihl_of is_fragment udp_len_of headers_fit verify_checksums
  parse_same m bytes s =
      let at_udp : load16 bytes (eth_hdr_len + load8 m.bytes eth_hdr_len % 16 * 4 + udp_len_field)
          ≡ load16 m.bytes (eth_hdr_len + load8 m.bytes eth_hdr_len % 16 * 4 + udp_len_field) =
        s.same_udp_len in
      rw (s.same_type, s.same_ihl, s.same_fragment, s.same_proto, udp_len_of, at_udp) refl

  pub rewrite-SameShape :
      (m : Mbuf) (v : PacketView) (verify : Bool) (src dst sport dport : ℕ) (recompute : Bool)
      → parse_udp_ipv4 dpdk verify m ≡ ok v
      → SameShape m (rewrite dpdk v.udp src dst sport dport recompute m.bytes)
  rewrite-SameShape m v verify src dst sport dport recompute h =
      let (e, low, high) = view_bounds dpdk m verify v h in
      let keeps = read-rewrite dpdk v.udp src dst sport dport recompute m.bytes low in
      record {
        same_type = load16-read _ _ eth_type (keeps _ _ (omega arith) (omega arith) (omega arith));
        same_ihl = load8-read _ _ eth_hdr_len (keeps _ _ (omega arith) (omega arith) (omega arith));
        same_fragment =
            load16-read _ _ ip_fragment (keeps _ _ (omega arith) (omega arith) (omega arith));
        same_proto = load8-read _ _ ip_proto (keeps _ _ (omega arith) (omega arith) (omega arith));
        same_udp_len = load16-read _ _ _ (keeps _ _ (omega arith) (omega arith) (omega arith));
      }

  pub set_l2-SameShape : (m : Mbuf) (src dst : MacAddr) → SameShape m (set_l2 src dst m.bytes)
  set_l2-SameShape m src dst = record {
    same_type = load16-read _ _ eth_type (read-set_l2 src dst m.bytes _ _ (omega arith));
    same_ihl = load8-read _ _ eth_hdr_len (read-set_l2 src dst m.bytes _ _ (omega arith));
    same_fragment = load16-read _ _ ip_fragment (read-set_l2 src dst m.bytes _ _ (omega arith));
    same_proto = load8-read _ _ ip_proto (read-set_l2 src dst m.bytes _ _ (omega arith));
    same_udp_len = load16-read _ _ _ (read-set_l2 src dst m.bytes _ _ (omega arith));
  }

  module _ (laws : IsDpdk dpdk) where
    -- The flow of a rewritten packet is the one that the rewrite was given.
    pub flow_key-rewrite :
        (m : Mbuf) (v : PacketView) (verify : Bool) (src dst sport dport : ℕ) (recompute : Bool)
        → IsMbuf m
        → parse_udp_ipv4 dpdk verify m ≡ ok v
        → src < u32_mod
        → dst < u32_mod
        → sport < u16_mod
        → dport < u16_mod
        → flow_key_from_view dpdk
            (record m { bytes = rewrite dpdk v.udp src dst sport dport recompute m.bytes })
            v
          ≡ record {
            src_ip = src;
            dst_ip = dst;
            src_port = sport;
            dst_port = dport;
            proto = ipproto_udp;
          }
    unfolding flow_key_from_view src_ip dst_ip src_port dst_port
    flow_key-rewrite m v verify src dst sport dport recompute fits h a b c d =
        let (e, low, high) = view_bounds dpdk m verify v h in
        let long : v.udp + 8 ≤ length m.bytes = omega arith in
        rw
          (
            load32-eq _ ip_src src a
                (read-rewrite_src dpdk v.udp src dst sport dport recompute m.bytes low long),
            load32-eq _ ip_dst dst b
                (read-rewrite_dst dpdk v.udp src dst sport dport recompute m.bytes low long),
            src_port,
            dst_port,
            load16-eq _ v.udp _ (laws.be_lt sport c)
                (read-rewrite_sport dpdk v.udp src dst sport dport recompute m.bytes low long),
            load16-eq _ (v.udp + udp_dst) _ (laws.be_lt dport d)
                (read-rewrite_dport dpdk v.udp src dst sport dport recompute m.bytes low long),
            laws.be-cpu sport c,
            laws.be-cpu dport d,
          )
          refl

  -- `set_l2` does not change the flow.
  pub flow_key-set_l2 :
      (m : Mbuf) (v : PacketView) (src dst : MacAddr)
      → eth_type ≤ v.udp
      → flow_key_from_view dpdk (record m { bytes = set_l2 src dst m.bytes }) v
        ≡ flow_key_from_view dpdk m v
  unfolding flow_key_from_view src_ip dst_ip src_port dst_port
  flow_key-set_l2 m v src dst h =
      rw
        (
          load32-read _ m.bytes ip_src (read-set_l2 src dst m.bytes _ _ (omega arith)),
          load32-read _ m.bytes ip_dst (read-set_l2 src dst m.bytes _ _ (omega arith)),
          src_port,
          dst_port,
          load16-read _ m.bytes v.udp (read-set_l2 src dst m.bytes _ _ h),
          load16-read _ m.bytes (v.udp + udp_dst) (read-set_l2 src dst m.bytes _ _ (omega arith)),
        )
        refl
