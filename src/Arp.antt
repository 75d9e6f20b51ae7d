-- ===== src/Arp.antt =====
-- arp.hpp and arp.cpp: proxy ARP for the gateway and the VIP, and learning from replies. A frame is
-- changed in place, so each handler returns the memory it leaves.
pub mod Replies
use violet_gw.Prelude.{
  ℕ, Bool, true, false, Option, none, some, List, [], ◌∷◌, ◌+◌, ◌==◌, ◌||◌, not, if◌then◌else◌,
  take, read, write, load16, load32, store16, store32, replicate,
}
use violet_gw.Dpdk.{Dpdk, Mbuf}
use violet_gw.Neighbor
use violet_gw.Neighbor.{MacAddr, NeighborTable}
use violet_gw.Packet.{parse_arp}
use violet_gw.Packet.Layout.{
  Parse, eth_hdr_len, arp_hdr_len, eth_src, eth_type, ether_type_arp, ether_type_ipv4,
  arp_hrd_ether,
}
use violet_gw.Forward.Types.{HandleResult}

-- The fields of the ARP header behind the Ethernet header.
abbrev pub arp_opcode : ℕ
arp_opcode = 20

abbrev pub arp_sha : ℕ
arp_sha = 22

abbrev pub arp_sip : ℕ
arp_sip = 28

abbrev pub arp_tha : ℕ
arp_tha = 32

abbrev pub arp_tip : ℕ
arp_tip = 38

abbrev pub arp_op_request : ℕ
arp_op_request = 1

abbrev pub arp_op_reply : ℕ
arp_op_reply = 2

abbrev pub arp_frame_len : ℕ
arp_frame_len = 42

pub record ArpConfig : Type 0 where
  pub gateway_ip_be : ℕ
  pub vip_ip_be : ℕ
  pub gateway_mac : MacAddr

pub record ArpOutcome : Type 0 where
  pub result : HandleResult
  pub learned_ip_be : ℕ

pub record Handled : Type 0 where
  pub outcome : ArpOutcome
  pub mbuf : Mbuf
  pub neighbors : Option NeighborTable

abbrev pub ignored : Mbuf → Option NeighborTable → Handled
ignored m neighbors = record {
  outcome = record { result = HandleResult.drop; learned_ip_be = 0 };
  mbuf = m;
  neighbors = neighbors;
}

-- The loop looks at each byte and stops at the first that is not zero.
unfoldable pub is_zero_mac : MacAddr → Bool
is_zero_mac [] = true
is_zero_mac (b ∷ bs) = if b == 0 then is_zero_mac bs else false

unfoldable pub is_proxy_target : ArpConfig → ℕ → Bool
is_proxy_target cfg ip_be = ip_be == cfg.gateway_ip_be || ip_be == cfg.vip_ip_be

module _ (dpdk : Dpdk) (cfg : ArpConfig) where
  unfoldable pub reply_bytes : ℕ → List ℕ → List ℕ
  reply_bytes reply_ip_be bytes =
      let bytes = write bytes 0 (read bytes eth_src 6) in
      let bytes = write bytes eth_src (take 6 cfg.gateway_mac) in
      let bytes = store16 bytes arp_opcode (dpdk.cpu_to_be_16 arp_op_reply) in
      let bytes = write bytes arp_tha (read bytes arp_sha 6) in
      let bytes = write bytes arp_sha (take 6 cfg.gateway_mac) in
      let sender_ip = load32 bytes arp_sip in
      let bytes = store32 bytes arp_sip reply_ip_be in store32 bytes arp_tip sender_ip

  unfoldable pub make_reply : Mbuf → ℕ → Mbuf
  make_reply req reply_ip_be = record {
    bytes = reply_bytes reply_ip_be req.bytes;
    data_len = arp_frame_len;
    pkt_len = arp_frame_len;
  }

  unfoldable pub handle_request : Mbuf → Option NeighborTable → Handled
  unfolding make_reply is_proxy_target
  handle_request m neighbors =
      let target_ip_be = load32 m.bytes arp_tip in
      if not (is_proxy_target cfg target_ip_be) then ignored m neighbors else record {
        outcome = record { result = HandleResult.tx_arp; learned_ip_be = 0 };
        mbuf = make_reply m target_ip_be;
        neighbors = neighbors;
      }

  unfoldable pub handle_reply : Mbuf → ℕ → Option NeighborTable → Handled
  unfolding is_zero_mac
  handle_reply m now_ms none = ignored m none
  handle_reply m now_ms (some neighbors) =
      let ip_be = load32 m.bytes arp_sip in
      let sha = read m.bytes arp_sha 6 in
      if ip_be == 0 || is_zero_mac sha then ignored m (some neighbors) else record {
        outcome = record { result = HandleResult.drop; learned_ip_be = ip_be };
        mbuf = m;
        neighbors = some (Neighbor.learn ip_be sha now_ms neighbors);
      }

  unfoldable pub handle : Mbuf → ℕ → Option NeighborTable → Handled
  unfolding handle_request handle_reply
  handle m now_ms neighbors = elim (parse_arp dpdk m) [
    | Parse.fail e ↦ ignored m neighbors
    | Parse.ok _ ↦
        let opcode = dpdk.be_to_cpu_16 (load16 m.bytes arp_opcode) in
        if opcode == arp_op_request
        then handle_request m neighbors
        else if opcode == arp_op_reply
        then handle_reply m now_ms neighbors
        else ignored m neighbors
  ]

  -- The frame of an ARP request over the buffer of a new mbuf.
  unfoldable pub request_bytes : ℕ → List ℕ → List ℕ
  request_bytes target_ip_be bytes =
      let bytes = write bytes 0 (replicate eth_hdr_len 0) in
      let bytes = write bytes eth_src (take 6 cfg.gateway_mac) in
      let bytes = write bytes 0 (replicate 6 0xff) in
      let bytes = store16 bytes eth_type (dpdk.cpu_to_be_16 ether_type_arp) in
      let bytes = write bytes eth_hdr_len (replicate arp_hdr_len 0) in
      let bytes = store16 bytes 14 (dpdk.cpu_to_be_16 arp_hrd_ether) in
      let bytes = store16 bytes 16 (dpdk.cpu_to_be_16 ether_type_ipv4) in
      let bytes = write bytes 18 (6 ∷ 4 ∷ []) in
      let bytes = store16 bytes arp_opcode (dpdk.cpu_to_be_16 arp_op_request) in
      let bytes = write bytes arp_sha (take 6 cfg.gateway_mac) in
      let bytes = store32 bytes arp_sip cfg.gateway_ip_be in
      let bytes = write bytes arp_tha (replicate 6 0) in store32 bytes arp_tip target_ip_be

  -- `buffer` is the memory of the mbuf that the pool gives, if it gives one with room for the frame.
  unfoldable pub make_request : Option (List ℕ) → ℕ → Option Mbuf
  unfolding request_bytes
  make_request none target_ip_be = none
  make_request (some buffer) target_ip_be = some (record {
    bytes = request_bytes target_ip_be buffer;
    data_len = arp_frame_len;
    pkt_len = arp_frame_len;
  })
