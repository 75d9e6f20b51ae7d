-- ===== src/Dump/Views.antt =====
-- `dump_udp_mbuf` of base/pkt_dump.cpp beside `parse_udp_ipv4` of packet.cpp.
use violet_gw.Prelude.{
  ℕ, Bool, true, false, some, List, ◌∷◌, ◌≡◌, refl, ap, arith, ◌++◌, ◌+◌, ◌-◌, ◌/◌, ◌≤◌, ◌<◌, ◌==◌,
  ◌||◌, not, ltb, leb, if◌then◌else◌, Bool-cases, inl, inr, ==_iff, load8,
}
use violet_gw.Prelude.Print.{text}
use violet_gw.Dpdk.{Dpdk, Mbuf}
use violet_gw.Packet.{ihl_of, udp_len_of, parse_udp_ipv4}
use violet_gw.Packet.Layout.{
  eth_hdr_len, min_ip_hdr_len, udp_hdr_len, ether_type_ipv4, ipproto_udp, eth_type, ip_proto, ok,
  PacketView,
}
use violet_gw.Packet.Laws.{HasHeaders, view_of, parse_udp_ipv4_sound}
use violet_gw.Dump.{
  mbuf_line, eth_line, ip_line, udp_line, payload_lines, payload_part, ip_part, ip_checks, eth_part,
  dump_udp_mbuf, word_at,
}

-- The lines about the headers of a packet, and what follows them.
unfoldable pub headers_then : Dpdk → Mbuf → ℕ → List ℕ → List ℕ
headers_then dpdk m nb_segs rest =
    mbuf_line m nb_segs
    ++ (eth_line dpdk m
        ++ (text "IPv4(0x0800)\n" ++ (ip_line dpdk m ++ (b'\n' ∷ (udp_line dpdk m ++ rest)))))

leb→le : (a b : ℕ) → leb a b ≡ true → a ≤ b
leb→le a b h = ground arith

leb-false : (a b : ℕ) → leb a b ≡ false → b < a
leb-false a b h = ground arith

module _ (dpdk : Dpdk) (m : Mbuf) (k : ℕ) where
  checks_pass :
      HasHeaders dpdk m
      → (not (load8 m.bytes eth_hdr_len / 16 == 4) || ltb (ihl_of m) min_ip_hdr_len) ≡ false
  checks_pass w = ground (arith, w.version, w.ihl)

  -- A packet with all headers is shown with each of them.
  dump_udp_mbuf-headers :
      (nb_segs : ℕ)
      → HasHeaders dpdk m
      → dump_udp_mbuf dpdk (some m) nb_segs k ≡ headers_then dpdk m nb_segs (payload_part dpdk m k)
  dump_udp_mbuf-headers nb_segs w =
      let long : ltb m.data_len 42 ≡ false = ground (arith, w.long) in
      let is_ip : (word_at dpdk m eth_type == ether_type_ipv4) ≡ true =
        unfold word_at in (==_iff _ _).1 w.is_ip in
      let longer : ltb m.data_len (eth_hdr_len + ihl_of m + udp_hdr_len) ≡ false =
        ground (arith, w.longer) in
      let is_udp : (load8 m.bytes ip_proto == ipproto_udp) ≡ true = (==_iff _ _).1 w.is_udp in
      unfold dump_udp_mbuf eth_part ip_checks ip_part headers_then in
      rw (long, is_ip, checks_pass w, longer, is_udp) refl

  payload_part_fits :
      udp_hdr_len ≤ udp_len_of dpdk m
      → eth_hdr_len + ihl_of m + udp_len_of dpdk m ≤ m.data_len
      → payload_part dpdk m k
        ≡ payload_lines m.bytes (view_of dpdk m).payload (view_of dpdk m).payload_len k
  payload_part_fits w h =
      let whole : ltb (udp_len_of dpdk m) udp_hdr_len ≡ false = ground arith in
      let fits : ltb m.data_len (eth_hdr_len + ihl_of m + udp_len_of dpdk m) ≡ false =
        ground arith in
      unfold payload_part view_of in rw (whole, fits) refl

  payload_part_truncated :
      udp_hdr_len ≤ udp_len_of dpdk m
      → m.data_len < eth_hdr_len + ihl_of m + udp_len_of dpdk m
      → payload_part dpdk m k ≡ text "  error: truncated UDP payload\n"
  payload_part_truncated w h =
      let whole : ltb (udp_len_of dpdk m) udp_hdr_len ≡ false = ground arith in
      let cut : ltb m.data_len (eth_hdr_len + ihl_of m + udp_len_of dpdk m) ≡ true = ground arith in
      unfold payload_part in rw (whole, cut) refl

  -- A packet that `parse_udp_ipv4` accepts is shown with all its headers, and then, if the payload of
  -- the view lies in the packet, with that payload, and otherwise with the error of a truncated one.
  pub dump_udp_mbuf-parsed :
      (verify : Bool) (v : PacketView) (nb_segs : ℕ)
      → parse_udp_ipv4 dpdk verify m ≡ ok v
      → dump_udp_mbuf dpdk (some m) nb_segs k
        ≡ headers_then dpdk m nb_segs (
            if leb (v.payload + v.payload_len) m.data_len
            then payload_lines m.bytes v.payload v.payload_len k
            else text "  error: truncated UDP payload\n")
  dump_udp_mbuf-parsed verify v nb_segs h =
      let (w, _, _, e) = parse_udp_ipv4_sound dpdk m verify v h in
      let start : v.payload ≡ eth_hdr_len + ihl_of m + udp_hdr_len =
        unfold view_of in ap (λ (x : PacketView). x.payload) e in
      let len : v.payload_len ≡ udp_len_of dpdk m - udp_hdr_len =
        unfold view_of in ap (λ (x : PacketView). x.payload_len) e in
      elim (Bool-cases (leb (v.payload + v.payload_len) m.data_len)) [
        | inl fits ↦
            let inside = leb→le _ _ fits in
            rw fits (
              rw e (
                rw (dump_udp_mbuf-headers nb_segs w)
                  (rw (payload_part_fits w.udp_len (omega (arith, w.udp_len))) refl)))
        | inr cut ↦
            let outside = leb-false _ _ cut in
            rw cut (
              rw (dump_udp_mbuf-headers nb_segs w)
                (rw (payload_part_truncated w.udp_len (omega (arith, w.udp_len))) refl))
      ]
