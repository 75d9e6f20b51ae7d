-- ===== src/Filter.antt =====
-- base/pkt_filter.hpp and base/pkt_filter.cpp: the match of a frame against a filter. Its child
-- has the parsers of addresses in text.
pub mod Text
use violet_gw.Prelude.{
  ℕ, Bool, true, false, Option, none, some, [], ◌∷◌, ◌≡◌, ◌↔◌, ◌⊎◌, inl, inr, refl, arith, ◌+◌, ◌/◌,
  ◌≤◌, ◌==◌, ◌||◌, not, ltb, if◌then◌else◌, read, load8, load16, load32, Bool-cases,
}
use violet_gw.Dpdk.{Dpdk, Mbuf}
use violet_gw.Neighbor.{MacAddr}
use violet_gw.Packet.Layout.{
  eth_hdr_len, min_ip_hdr_len, eth_src, eth_type, ether_type_ipv4, ip_src, ip_dst,
}

-- An unset field is a wildcard.
pub record PktFilter : Type 0 where
  pub src_mac : Option MacAddr
  pub dst_mac : Option MacAddr
  pub src_ip_be : Option ℕ
  pub dst_ip_be : Option ℕ

unfoldable pub mac_eq : MacAddr → MacAddr → Bool
mac_eq [] [] = true
mac_eq [] (b ∷ bs) = false
mac_eq (a ∷ l) [] = false
mac_eq (a ∷ l) (b ∷ bs) = if a == b then mac_eq l bs else false

abbrev pub mac_differs : Option MacAddr → MacAddr → Bool
mac_differs none mac = false
mac_differs (some wanted) mac = not (mac_eq mac wanted)

abbrev pub ip_differs : Option ℕ → ℕ → Bool
ip_differs none ip = false
ip_differs (some wanted) ip = not (ip == wanted)

abbrev pub is_set : Option ℕ → Bool
is_set none = false
is_set (some ip) = true

module _ (dpdk : Dpdk) where
  -- The tests of the IPv4 header.
  unfoldable pub ip_match : Mbuf → PktFilter → Bool
  ip_match m f =
      if ltb m.data_len (eth_hdr_len + min_ip_hdr_len)
      then false
      else if not (dpdk.be_to_cpu_16 (load16 m.bytes eth_type) == ether_type_ipv4)
      then false
      else if not (load8 m.bytes eth_hdr_len / 16 == 4)
      then false
      else if ip_differs f.src_ip_be (load32 m.bytes ip_src)
      then false
      else not (ip_differs f.dst_ip_be (load32 m.bytes ip_dst))

  unfoldable pub pkt_filter_match : Mbuf → PktFilter → Bool
  unfolding ip_match
  pkt_filter_match m f =
      if ltb m.data_len eth_hdr_len
      then false
      else if mac_differs f.src_mac (read m.bytes eth_src 6)
      then false
      else if mac_differs f.dst_mac (read m.bytes 0 6)
      then false
      else if not (is_set f.src_ip_be || is_set f.dst_ip_be)
      then true
      else ip_match m f

  -- The value agrees with the field, if that is set.
  abbrev pub Agrees {ℓ} : {A : Type ℓ} → Option A → A → Type ℓ
  Agrees none a = Unit
  Agrees (some b) a = a ≡ b

  -- An IPv4 frame with the addresses that are set.
  pub record IpMatches (m : Mbuf) (f : PktFilter) : Type 0 where
    pub long : eth_hdr_len + min_ip_hdr_len ≤ m.data_len
    pub is_ip : dpdk.be_to_cpu_16 (load16 m.bytes eth_type) ≡ ether_type_ipv4
    pub version : load8 m.bytes eth_hdr_len / 16 ≡ 4
    pub src : Agrees f.src_ip_be (load32 m.bytes ip_src)
    pub dst : Agrees f.dst_ip_be (load32 m.bytes ip_dst)

  pub record Matches (m : Mbuf) (f : PktFilter) : Type 0 where
    pub long : eth_hdr_len ≤ m.data_len
    pub src : Agrees f.src_mac (read m.bytes eth_src 6)
    pub dst : Agrees f.dst_mac (read m.bytes 0 6)
    pub ip : ((is_set f.src_ip_be || is_set f.dst_ip_be) ≡ false) ⊎ IpMatches m f

  mac_eq_iff : (a b : MacAddr) → (mac_eq a b ≡ true) ↔ (a ≡ b)
  unfolding mac_eq
  mac_eq_iff [] [] = ground arith
  mac_eq_iff [] (b ∷ bs) = ground arith
  mac_eq_iff (a ∷ l) [] = ground arith
  mac_eq_iff (a ∷ l) (b ∷ bs) = ground (arith, mac_eq_iff l bs)

  mac_differs_iff : (o : Option MacAddr) (a : MacAddr) → (mac_differs o a ≡ false) ↔ Agrees o a
  mac_differs_iff none a = ((λ _. tt), λ _. refl)
  mac_differs_iff (some b) a = ground (arith, mac_eq_iff a b)

  ip_differs_iff : (o : Option ℕ) (a : ℕ) → (ip_differs o a ≡ false) ↔ Agrees o a
  ip_differs_iff none a = ((λ _. tt), λ _. refl)
  ip_differs_iff (some b) a = ground arith

  ip_match_iff : (m : Mbuf) (f : PktFilter) → (ip_match m f ≡ true) ↔ IpMatches m f
  unfolding ip_match
  ip_match_iff m f =
      let s = ip_differs_iff f.src_ip_be (load32 m.bytes ip_src) in
      let d = ip_differs_iff f.dst_ip_be (load32 m.bytes ip_dst) in
      (
        (λ h. record {
          long = ground arith;
          is_ip = ground arith;
          version = ground arith;
          src = s.0 (ground arith);
          dst = d.0 (ground arith);
        }),
        λ x. ground (arith, x.long, x.is_ip, x.version, s.1 x.src, d.1 x.dst),
      )

  -- A frame matches a filter exactly if it is a whole Ethernet header with the MAC addresses that are
  -- set and, where an IPv4 address is set, an IPv4 header with those addresses.
  pub pkt_filter_match_iff :
      (m : Mbuf) (f : PktFilter) → (pkt_filter_match m f ≡ true) ↔ Matches m f
  unfolding pkt_filter_match
  pkt_filter_match_iff m f =
      let s = mac_differs_iff f.src_mac (read m.bytes eth_src 6) in
      let d = mac_differs_iff f.dst_mac (read m.bytes 0 6) in
      let i = ip_match_iff m f in
      (
        (λ h. record {
          long = ground arith;
          src = s.0 (ground arith);
          dst = d.0 (ground arith);
          ip = elim (Bool-cases (is_set f.src_ip_be || is_set f.dst_ip_be)) [
            | inl wanted ↦ inr (i.0 (ground arith))
            | inr unset ↦ inl unset
          ];
        }),
        λ x. elim x.ip [
          | inl unset ↦ ground (arith, x.long, s.1 x.src, d.1 x.dst)
          | inr y ↦ ground (arith, x.long, s.1 x.src, d.1 x.dst, i.1 y)
        ],
      )
