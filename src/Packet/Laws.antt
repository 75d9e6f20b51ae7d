-- ===== src/Packet/Laws.antt =====
-- The tests of `parse_udp_ipv4` of packet.cpp.
use violet_gw.Prelude.{
  ℕ, Bool, true, false, ◌≡◌, refl, arith, ◌+◌, ◌-◌, ◌/◌, ◌%◌, ◌<◌, ◌≤◌, ◌↔◌, ◌==◌, ◌&&◌, ==_iff,
  ltb, not, u16_mod, load8, load16, ap, sym,
}
use violet_gw.Dpdk.{Dpdk, Mbuf}
use violet_gw.Packet.{
  headers_fit, ihl_of, is_fragment, udp_len_of, verify_checksums, parse_udp_ipv4,
}
use violet_gw.Packet.Layout.{
  eth_hdr_len, min_ip_hdr_len, udp_hdr_len, ether_type_ipv4, ipproto_udp, eth_type, ip_proto,
  too_short, not_ipv4, not_udp, fragmented, ok, PacketView, require-ok, >>-ok,
}

-- The view of the packet in an mbuf, by its two length fields.
unfoldable pub view_of : Dpdk → Mbuf → PacketView
view_of dpdk m = record {
  udp = eth_hdr_len + ihl_of m;
  payload = eth_hdr_len + ihl_of m + udp_hdr_len;
  payload_len = udp_len_of dpdk m - udp_hdr_len;
}

-- An unfragmented UDP packet over IPv4 whose headers lie within the packet.
pub record HasHeaders (dpdk : Dpdk) (m : Mbuf) : Type 0 where
  pub long : eth_hdr_len + min_ip_hdr_len + udp_hdr_len ≤ m.data_len
  pub is_ip : dpdk.be_to_cpu_16 (load16 m.bytes eth_type) ≡ ether_type_ipv4
  pub version : load8 m.bytes eth_hdr_len / 16 ≡ 4
  pub ihl : min_ip_hdr_len ≤ ihl_of m
  pub longer : eth_hdr_len + ihl_of m + udp_hdr_len ≤ m.data_len
  pub whole : is_fragment dpdk m ≡ false
  pub is_udp : load8 m.bytes ip_proto ≡ ipproto_udp
  pub udp_len : udp_hdr_len ≤ udp_len_of dpdk m

not-true : {b : Bool} → not b ≡ true → b ≡ false
not-true h = ground arith

ok-injective : {a b : PacketView} → ok a ≡ ok b → a ≡ b
ok-injective h = cc

module _ (dpdk : Dpdk) (m : Mbuf) where
  ihl_of-le : ihl_of m ≤ 60
  unfolding ihl_of
  ihl_of-le = omega arith

  headers_fit_iff : (need : ℕ) → (headers_fit m need ≡ true) ↔ (need % u16_mod ≤ m.data_len)
  unfolding headers_fit
  headers_fit_iff need = ground arith

  headers_fit_small : (need : ℕ) → headers_fit m need ≡ true → need < u16_mod → need ≤ m.data_len
  unfolding headers_fit
  headers_fit_small need h k = ground arith

  version_of :
      (load8 m.bytes eth_hdr_len / 16 == 4 && not (ltb (ihl_of m) min_ip_hdr_len)) ≡ true
      → load8 m.bytes eth_hdr_len / 16 ≡ 4
  version_of h = ground arith

  ihl_from :
      (load8 m.bytes eth_hdr_len / 16 == 4 && not (ltb (ihl_of m) min_ip_hdr_len)) ≡ true
      → min_ip_hdr_len ≤ ihl_of m
  ihl_from h = ground arith

  udp_len_from : not (ltb (udp_len_of dpdk m) udp_hdr_len) ≡ true → udp_hdr_len ≤ udp_len_of dpdk m
  udp_len_from h = ground arith

  version_ok :
      HasHeaders dpdk m
      → (load8 m.bytes eth_hdr_len / 16 == 4 && not (ltb (ihl_of m) min_ip_hdr_len)) ≡ true
  version_ok w = ground (arith, w.version, w.ihl)

  udp_len_ok : HasHeaders dpdk m → not (ltb (udp_len_of dpdk m) udp_hdr_len) ≡ true
  udp_len_ok w = ground (arith, w.udp_len)

  -- `parse_udp_ipv4` returns only for a packet with all its headers, whose end by the UDP length, as
  -- far as 16 bits show it, lies in the packet, and returns the view of that packet.
  pub parse_udp_ipv4_sound :
      (verify : Bool) (v : PacketView)
      → parse_udp_ipv4 dpdk verify m ≡ ok v
      → HasHeaders dpdk m
        × ((eth_hdr_len + ihl_of m + udp_len_of dpdk m) % u16_mod ≤ m.data_len)
        × (verify_checksums dpdk verify m.bytes (eth_hdr_len + ihl_of m) ≡ ok tt)
        × (v ≡ view_of dpdk m)
  unfolding parse_udp_ipv4 view_of
  parse_udp_ipv4_sound verify v h =
      let (a, ha) =
        require-ok (headers_fit m (eth_hdr_len + min_ip_hdr_len + udp_hdr_len)) too_short _ v h in
      let (b, hb) =
        require-ok (dpdk.be_to_cpu_16 (load16 m.bytes eth_type) == ether_type_ipv4) not_ipv4 _ v
          ha in
      let (c, hc) =
        require-ok (load8 m.bytes eth_hdr_len / 16 == 4 && not (ltb (ihl_of m) min_ip_hdr_len))
          not_ipv4 _ v hb in
      let (d, hd) =
        require-ok (headers_fit m (eth_hdr_len + ihl_of m + udp_hdr_len)) too_short _ v hc in
      let (e, he) = require-ok (not (is_fragment dpdk m)) fragmented _ v hd in
      let (f, hf) = require-ok (load8 m.bytes ip_proto == ipproto_udp) not_udp _ v he in
      let (g, hg) = require-ok (not (ltb (udp_len_of dpdk m) udp_hdr_len)) too_short _ v hf in
      let (i, hi) =
        require-ok (headers_fit m (eth_hdr_len + ihl_of m + udp_len_of dpdk m)) too_short _ v hg in
      let (j, hj) = >>-ok (verify_checksums dpdk verify m.bytes (eth_hdr_len + ihl_of m)) _ v hi in
      (
        record {
          long = headers_fit_small _ a (omega arith);
          is_ip = (==_iff _ _).0 b;
          version = version_of c;
          ihl = ihl_from c;
          longer = headers_fit_small _ d (omega (arith, ihl_of-le));
          whole = not-true e;
          is_udp = (==_iff _ _).0 f;
          udp_len = udp_len_from g;
        },
        (headers_fit_iff _).0 i,
        j,
        ok-injective (sym hj),
      )

  -- `parse_udp_ipv4` returns the view of every packet that has all its headers, whose end by the UDP
  -- length, as far as 16 bits show it, lies in the packet, and whose checksums pass.
  pub parse_udp_ipv4_complete :
      (verify : Bool)
      → HasHeaders dpdk m
      → (eth_hdr_len + ihl_of m + udp_len_of dpdk m) % u16_mod ≤ m.data_len
      → verify_checksums dpdk verify m.bytes (eth_hdr_len + ihl_of m) ≡ ok tt
      → parse_udp_ipv4 dpdk verify m ≡ ok (view_of dpdk m)
  unfolding parse_udp_ipv4 view_of
  parse_udp_ipv4_complete verify w fits checked =
      let small = ihl_of-le in
      rw
        (
          (headers_fit_iff (eth_hdr_len + min_ip_hdr_len + udp_hdr_len)).1 w.long,
          (==_iff _ ether_type_ipv4).1 w.is_ip,
          version_ok w,
          (headers_fit_iff (eth_hdr_len + ihl_of m + udp_hdr_len)).1 (omega (arith, w.longer)),
          w.whole,
          (==_iff _ ipproto_udp).1 w.is_udp,
          udp_len_ok w,
          (headers_fit_iff (eth_hdr_len + ihl_of m + udp_len_of dpdk m)).1 fits,
          checked,
        )
        refl

  -- The defect of the last test: where a packet of less than 65536 bytes that has all its headers
  -- would end past 65535 by its UDP length, the sum wraps to a small one, and without verification
  -- the view is accepted with a payload that runs past the packet.
  pub parse_udp_ipv4_wraps :
      HasHeaders dpdk m
      → m.data_len < u16_mod
      → udp_len_of dpdk m < u16_mod
      → u16_mod ≤ eth_hdr_len + ihl_of m + udp_len_of dpdk m
      → (v : PacketView) × (parse_udp_ipv4 dpdk false m ≡ ok v)
        × (m.data_len < v.payload + v.payload_len)
  parse_udp_ipv4_wraps w short word wraps = (
    view_of dpdk m,
    parse_udp_ipv4_complete false w (omega (arith, ihl_of-le, w.longer))
        (unfold verify_checksums in refl),
    unfold view_of in omega (arith, w.udp_len),
  )

  -- Where the UDP header of a parsed packet lies.
  pub view_bounds :
      (verify : Bool) (v : PacketView)
      → parse_udp_ipv4 dpdk verify m ≡ ok v
      → (v.udp ≡ eth_hdr_len + ihl_of m) × (34 ≤ v.udp) × (v.udp + udp_hdr_len ≤ m.data_len)
  unfolding view_of
  view_bounds verify v h =
      let (w, fits, checked, e) = parse_udp_ipv4_sound verify v h in
      let u : v.udp ≡ eth_hdr_len + ihl_of m = ap (λ (x : PacketView). x.udp) e in
      (u, omega (arith, w.ihl), omega (arith, w.longer))
