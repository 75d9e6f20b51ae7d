-- ===== src/Tests/Packets.antt =====
-- Runs of the packet, filter and ARP code.
use violet_gw.Prelude
use violet_gw.Prelude.{
  load16, ◌≢◌, ◌+◌, ℕ, List, [], ◌∷◌, ◌++◌, ◌≡◌, ◌≢◌, ◌↔◌, refl, arith, ◌<◌, ◌≤◌, true, false, ◌+◌,
  ◌%◌, u16_mod, ◌⊎◌, replicate, load32, Option, none, some, length,
}
use violet_gw.Dpdk.{Mbuf}
use violet_gw.Packet.{
  ihl_of, udp_len_of, parse_udp_ipv4, verify_checksums, udp_checksum_ok, refresh_udp_checksum,
  is_fragment,
}
use violet_gw.Packet.Layout.{PacketView, ok, eth_hdr_len}
use violet_gw.Packet.Laws.{
  view_of, HasHeaders, parse_udp_ipv4_sound, parse_udp_ipv4_complete, parse_udp_ipv4_wraps,
}
use violet_gw.Packet.Checksums.{udp_checksum_ok-refresh}
use violet_gw.Filter.{PktFilter, Matches, pkt_filter_match, pkt_filter_match_iff}
use violet_gw.Forward.Types.{HandleResult}
use violet_gw.Arp.{ArpConfig, arp_frame_len, arp_tip, handle_request}
use violet_gw.Arp.Replies.{Answers, handle_request-cases}
use violet_gw.Tests.{machine, machine-IsDpdk, query, client_ip, gateway_ip, vip_ip}

query-HasHeaders : HasHeaders machine query
unfolding ihl_of udp_len_of is_fragment Prelude.load8 Prelude.load16
query-HasHeaders = record {
  long = omega arith;
  is_ip = refl;
  version = refl;
  ihl = omega arith;
  longer = omega arith;
  whole = refl;
  is_udp = refl;
  udp_len = omega arith;
}

query-fits : (eth_hdr_len + ihl_of query + udp_len_of machine query) % u16_mod ≤ 44
unfolding ihl_of udp_len_of Prelude.load8 Prelude.load16
query-fits = omega arith

parse_udp_ipv4_complete_example : parse_udp_ipv4 machine false query ≡ ok (view_of machine query)
unfolding verify_checksums
parse_udp_ipv4_complete_example =
    parse_udp_ipv4_complete machine query false query-HasHeaders query-fits refl

query-parses : parse_udp_ipv4 machine false query ≡ ok (view_of machine query)
unfolding verify_checksums
query-parses = parse_udp_ipv4_complete machine query false query-HasHeaders query-fits refl

parse_udp_ipv4_sound_example :
    HasHeaders machine query
    × ((eth_hdr_len + ihl_of query + udp_len_of machine query) % u16_mod ≤ 44)
    × (verify_checksums machine false query.bytes (eth_hdr_len + ihl_of query) ≡ ok tt)
    × (view_of machine query ≡ view_of machine query)
parse_udp_ipv4_sound_example =
    parse_udp_ipv4_sound machine query false (view_of machine query) query-parses

udp_checksum_ok-refresh_example :
    (udp_checksum_ok machine (refresh_udp_checksum machine 34 query.bytes) 34 ≡ true)
    × (load16 (refresh_udp_checksum machine 34 query.bytes) (34 + 6) ≢ 0)
udp_checksum_ok-refresh_example =
    udp_checksum_ok-refresh machine machine-IsDpdk query.bytes 34 (omega arith)

-- The same with a UDP length of 65510, which leads to 65544 and wraps to 8.
abbrev long_query : Mbuf
long_query = record {
  bytes =
      (replicate 12 0 ++ 8 ∷ 0 ∷ 0x45 ∷ 0 ∷ 0 ∷ 30 ∷ 0 ∷ 0 ∷ 0 ∷ 0 ∷ 64 ∷ 17 ∷ 0 ∷ 0 ∷ [])
      ++ replicate 12 0
      ++ 255 ∷ 230 ∷ 0 ∷ 0 ∷ 7 ∷ 8 ∷ [];
  data_len = 44;
  pkt_len = 44;
}

long_query-HasHeaders : HasHeaders machine long_query
unfolding ihl_of udp_len_of is_fragment Prelude.load8 Prelude.load16
long_query-HasHeaders = record {
  long = omega arith;
  is_ip = refl;
  version = refl;
  ihl = omega arith;
  longer = omega arith;
  whole = refl;
  is_udp = refl;
  udp_len = omega arith;
}

parse_udp_ipv4_wraps_example :
    (v : PacketView) × (parse_udp_ipv4 machine false long_query ≡ ok v)
    × (44 < v.payload + v.payload_len)
unfolding ihl_of udp_len_of Prelude.load8 Prelude.load16
parse_udp_ipv4_wraps_example =
    parse_udp_ipv4_wraps machine long_query long_query-HasHeaders (omega arith) (omega arith)
      (omega arith)

abbrev arp_cfg : ArpConfig
arp_cfg = record {
  gateway_ip_be = gateway_ip;
  vip_ip_be = vip_ip;
  gateway_mac = 2 ∷ 0 ∷ 0 ∷ 0 ∷ 0 ∷ 1 ∷ [];
}

-- Who has the address of the gateway?
abbrev who_has : Mbuf
who_has = record {
  bytes =
      (replicate 12 0 ++ 8 ∷ 6 ∷ 0 ∷ 1 ∷ 8 ∷ 0 ∷ 6 ∷ 4 ∷ 0 ∷ 1 ∷ [])
      ++ replicate 6 9
      ++ (10 ∷ 0 ∷ 0 ∷ 9 ∷ [])
      ++ replicate 6 0
      ++ 192 ∷ 168 ∷ 1 ∷ 10 ∷ [];
  data_len = 42;
  pkt_len = 42;
}

handle_request-cases_example :
    let target = load32 who_has.bytes arp_tip in
    let h = handle_request machine arp_cfg who_has none in
    (h.neighbors ≡ none)
    × ((((target ≡ arp_cfg.gateway_ip_be) ⊎ (target ≡ arp_cfg.vip_ip_be))
          × (h.outcome.result ≡ HandleResult.tx_arp)
          × (h.mbuf.data_len ≡ arp_frame_len)
          × Answers machine arp_cfg target who_has.bytes h.mbuf.bytes)
        ⊎ ((target ≢ arp_cfg.gateway_ip_be)
            × (target ≢ arp_cfg.vip_ip_be)
            × (h.outcome.result ≡ HandleResult.drop)
            × (h.mbuf ≡ who_has)))
unfolding Prelude.load32
handle_request-cases_example =
    handle_request-cases machine arp_cfg who_has none machine-IsDpdk refl (omega arith)
      (omega arith) (omega arith)

abbrev from_client : PktFilter
from_client = record {
  src_mac = none;
  dst_mac = none;
  src_ip_be = some client_ip;
  dst_ip_be = none;
}

pkt_filter_match_iff_example :
    (pkt_filter_match machine query from_client ≡ true) ↔ Matches machine query from_client
pkt_filter_match_iff_example = pkt_filter_match_iff machine query from_client
