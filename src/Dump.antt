-- ===== src/Dump.antt =====
-- `dump_udp_mbuf` of base/pkt_dump.cpp: the text about a packet, as far as its headers can be read.
-- Each part of the text is a function of its own, with the early return behind it.
pub mod Reads
pub mod Views
use violet_gw.Prelude.{
  ℕ, zero, suc, Bool, true, false, Option, none, some, List, [], ◌∷◌, ◌++◌, map, ◌+◌, ◌-◌, ◌/◌, ◌%◌,
  ◌^◌, ◌==◌, ◌&&◌, ◌||◌, not, ltb, leb, if◌then◌else◌, load8, load16, load32, read,
}
use violet_gw.Prelude.Print.{text, decimal, hex02, hex04}
use violet_gw.Dpdk.{Dpdk, Mbuf}
use violet_gw.Filter.Text.{mac_dump}
use violet_gw.Packet.{ihl_of, udp_len_of}
use violet_gw.Packet.Layout.{
  eth_hdr_len, min_ip_hdr_len, udp_hdr_len, ether_type_ipv4, ipproto_udp, eth_src, eth_type,
  ip_proto, ip_cksum, ip_src, ip_dst, udp_dst, udp_cksum,
}

-- `isprint` in the C locale.
abbrev pub printable : ℕ → ℕ
printable c = if leb 32 c && leb c 126 then c else b'.'

unfoldable pub ascii_preview : List ℕ → List ℕ
ascii_preview bytes = b'"' ∷ (map printable bytes ++ b'"' ∷ [])

abbrev pub hex_gap : ℕ → List ℕ
hex_gap i = if i == 0 then [] else if i % 16 == 0 then text "\n             " else text " "

unfoldable pub hex_from : ℕ → List ℕ → List ℕ
hex_from i [] = []
hex_from i (c ∷ bytes) = hex_gap i ++ (hex02 c ++ hex_from (i + 1) bytes)

unfoldable pub hex_preview : List ℕ → List ℕ
unfolding hex_from
hex_preview bytes = hex_from 0 bytes

-- The last lines: the payload is `payload_len` bytes at the offset.
unfoldable pub payload_lines : List ℕ → ℕ → ℕ → ℕ → List ℕ
payload_lines d payload payload_len max_payload =
    let shown = if ltb payload_len max_payload then payload_len else max_payload in
    text "  data  payload_len="
    ++ (decimal payload_len
        ++ (b'\n'
            ∷ (if payload_len == 0 || max_payload == 0
                then []
                else text "  ascii "
                  ++ (ascii_preview (read d payload shown)
                      ++ ((if ltb shown payload_len
                            then text "  (+" ++ (decimal (payload_len - shown) ++ text " bytes)")
                            else [])
                          ++ (b'\n'
                              ∷ (text "  hex   "
                                  ++ (hex_preview (read d payload shown)
                                      ++ ((if ltb shown payload_len then text " ..." else [])
                                          ++ b'\n' ∷ [])))))))))

-- The line about the mbuf itself.
unfoldable pub mbuf_line : Mbuf → ℕ → List ℕ
mbuf_line m nb_segs =
    text "=== UDP packet ===\n  mbuf  data_len="
    ++ (decimal m.data_len
        ++ (text " pkt_len="
            ++ (decimal m.pkt_len ++ (text " nb_segs=" ++ (decimal nb_segs ++ b'\n' ∷ [])))))

module _ (dpdk : Dpdk) where
  unfoldable pub append_ipv4 : ℕ → List ℕ
  append_ipv4 be_addr =
      let host = dpdk.be_to_cpu_32 be_addr in
      decimal (host / 2 ^ 24 % 256)
      ++ (b'.'
          ∷ (decimal (host / 2 ^ 16 % 256)
              ++ (b'.' ∷ (decimal (host / 2 ^ 8 % 256) ++ (b'.' ∷ decimal (host % 256))))))

  -- The words that the dump reads from a header, in host order.
  unfoldable pub word_at : Mbuf → ℕ → ℕ
  word_at m off = dpdk.be_to_cpu_16 (load16 m.bytes off)

  unfoldable pub eth_line : Mbuf → List ℕ
  eth_line m =
      text "  L2    src="
      ++ (mac_dump (read m.bytes eth_src 6)
          ++ (text "  dst=" ++ (mac_dump (read m.bytes 0 6) ++ text "  ethertype=")))

  unfoldable pub ip_line : Mbuf → List ℕ
  unfolding append_ipv4 word_at
  ip_line m =
      text "  L3    src="
      ++ (append_ipv4 (load32 m.bytes ip_src)
          ++ (text "  dst="
              ++ (append_ipv4 (load32 m.bytes ip_dst)
                  ++ (text "  ttl="
                      ++ (decimal (load8 m.bytes 22)
                          ++ (text "  ihl="
                              ++ (decimal (ihl_of m)
                                  ++ (text "  total_len="
                                      ++ (decimal (word_at m 16)
                                          ++ (text "  id="
                                              ++ (decimal (word_at m 18)
                                                  ++ (text "  cksum=0x"
                                                      ++ (hex04 (word_at m ip_cksum)
                                                          ++ (text "  proto="
                                                            ++ decimal
                                                            (load8 m.bytes ip_proto)))))))))))))))

  unfoldable pub udp_line : Mbuf → List ℕ
  unfolding word_at
  udp_line m =
      let udp = eth_hdr_len + ihl_of m in
      text "  L4    UDP  sport="
      ++ (decimal (word_at m udp)
          ++ (text "  dport="
              ++ (decimal (word_at m (udp + udp_dst))
                  ++ (text "  udp_len="
                      ++ (decimal (udp_len_of dpdk m)
                          ++ (text "  cksum=0x"
                              ++ (hex04 (word_at m (udp + udp_cksum)) ++ b'\n' ∷ [])))))))

  -- The tests on the UDP length; the sums are of type `int` and do not wrap.
  unfoldable pub payload_part : Mbuf → ℕ → List ℕ
  payload_part m max_payload =
      if ltb (udp_len_of dpdk m) udp_hdr_len
      then text "  error: UDP length < header\n"
      else if ltb m.data_len (eth_hdr_len + ihl_of m + udp_len_of dpdk m)
      then text "  error: truncated UDP payload\n"
      else payload_lines m.bytes (eth_hdr_len + ihl_of m + udp_hdr_len)
          (udp_len_of dpdk m - udp_hdr_len) max_payload

  unfoldable pub ip_part : Mbuf → ℕ → List ℕ
  ip_part m max_payload =
      ip_line m
      ++ (if load8 m.bytes ip_proto == ipproto_udp
          then b'\n' ∷ (udp_line m ++ payload_part m max_payload)
          else text "\n  error: not UDP (proto="
            ++ (decimal (load8 m.bytes ip_proto) ++ text ")\n"))

  unfoldable pub ip_checks : Mbuf → ℕ → List ℕ
  ip_checks m max_payload =
      if not (load8 m.bytes eth_hdr_len / 16 == 4) || ltb (ihl_of m) min_ip_hdr_len
      then text "  error: bad IPv4 header\n"
      else if ltb m.data_len (eth_hdr_len + ihl_of m + udp_hdr_len)
      then text "  error: truncated before UDP header\n"
      else ip_part m max_payload

  unfoldable pub eth_part : Mbuf → ℕ → List ℕ
  eth_part m max_payload =
      eth_line m
      ++ (if word_at m eth_type == ether_type_ipv4
          then text "IPv4(0x0800)\n" ++ ip_checks m max_payload
          else text "0x" ++ (hex04 (word_at m eth_type) ++ text "\n  error: not IPv4\n"))

  -- The second argument is `nb_segs` of the mbuf.
  unfoldable pub dump_udp_mbuf : Option Mbuf → ℕ → ℕ → List ℕ
  dump_udp_mbuf none nb_segs max_payload = text "UDP dump: <null mbuf>"
  dump_udp_mbuf (some m) nb_segs max_payload =
      mbuf_line m nb_segs
      ++ (if ltb m.data_len (eth_hdr_len + min_ip_hdr_len + udp_hdr_len)
          then text "  error: too short for Eth/IPv4/UDP headers\n"
          else eth_part m max_payload)
