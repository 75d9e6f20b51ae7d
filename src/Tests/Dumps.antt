-- ===== src/Tests/Dumps.antt =====
-- The dump of a query.
use violet_gw.Prelude.{
  false, some, ◌≡◌, refl, ◌+◌, ◌++◌, leb, if◌then◌else◌, load8, load16, load32, read,
}
use violet_gw.Prelude.Print.{text, decimal, hex04}
use violet_gw.Filter.Text.{mac_dump, digit}
use violet_gw.Packet.Laws.{view_of}
use violet_gw.Packet.Layout.{ok}
use violet_gw.Packet.{parse_udp_ipv4, ihl_of, udp_len_of}
use violet_gw.Dump.{
  dump_udp_mbuf, mbuf_line, eth_part, eth_line, ip_checks, ip_part, ip_line, udp_line, payload_part,
  payload_lines, ascii_preview, hex_preview,
}
use violet_gw.Dump.Reads.{clip, dump_udp_mbuf-clip}
use violet_gw.Dump.Views.{headers_then, dump_udp_mbuf-parsed}
use violet_gw.Tests.{machine, query}

-- With room for one of the two bytes of the payload.
dump_of_query :
    dump_udp_mbuf machine (some query) 1 1
    ≡ text "=== UDP packet ===\n  mbuf  data_len=44 pkt_len=44 nb_segs=1\n"
      ++ (text "  L2    src=00:00:00:00:00:00  dst=00:00:00:00:00:00  ethertype=IPv4(0x0800)\n"
          ++ (text "  L3    src=10.0.0.9  dst=192.168.1.100  ttl=64  ihl=20  total_len=30  id=0"
              ++ (text "  cksum=0x0000  proto=17\n  L4    UDP  sport=4096  dport=53  udp_len=10"
                  ++ text
                      "  cksum=0x0000\n  data  payload_len=2\n  ascii \".\"  (+1 bytes)\n  hex   07 ...\n")))
unfolding text dump_udp_mbuf mbuf_line eth_part eth_line ip_checks ip_part ip_line udp_line
    payload_part payload_lines decimal hex04 mac_dump ascii_preview hex_preview ihl_of udp_len_of
    read load8 load16 load32 digit
dump_of_query = refl

dump_udp_mbuf-clip_example :
    dump_udp_mbuf machine (some query) 1 16 ≡ dump_udp_mbuf machine (some (clip query)) 1 16
dump_udp_mbuf-clip_example = dump_udp_mbuf-clip query machine 1 16

query-parses : parse_udp_ipv4 machine false query ≡ ok (view_of machine query)
unfolding parse_udp_ipv4 view_of load16 load8
query-parses = refl

dump_udp_mbuf-parsed_example :
    dump_udp_mbuf machine (some query) 1 16
    ≡ headers_then machine query 1 (
        if leb ((view_of machine query).payload + (view_of machine query).payload_len) 44
        then payload_lines query.bytes
            (view_of machine query).payload
            (view_of machine query).payload_len
            16
        else text "  error: truncated UDP payload\n")
dump_udp_mbuf-parsed_example =
    dump_udp_mbuf-parsed machine query 16 false (view_of machine query) 1 query-parses
