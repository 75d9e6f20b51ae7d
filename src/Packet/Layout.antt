-- ===== src/Packet/Layout.antt =====
-- The constants of packet.cpp and the places of the fields in Ethernet, IPv4, UDP and ARP headers;
-- the outcome of a parse.
use violet_gw.Prelude.{ℕ, Bool, true, false, ◌≡◌, refl}

abbrev pub eth_hdr_len : ℕ
eth_hdr_len = 14

abbrev pub min_ip_hdr_len : ℕ
min_ip_hdr_len = 20

abbrev pub udp_hdr_len : ℕ
udp_hdr_len = 8

abbrev pub arp_hdr_len : ℕ
arp_hdr_len = 28

abbrev pub ether_type_ipv4 : ℕ
ether_type_ipv4 = 0x0800

abbrev pub ether_type_arp : ℕ
ether_type_arp = 0x0806

abbrev pub arp_hrd_ether : ℕ
arp_hrd_ether = 1

abbrev pub ipproto_udp : ℕ
ipproto_udp = 17

-- Ethernet, from the start of the frame; the destination is at 0.
abbrev pub eth_src : ℕ
eth_src = 6

abbrev pub eth_type : ℕ
eth_type = 12

-- IPv4, from the start of the frame; `version_ihl` is at 14.
abbrev pub ip_fragment : ℕ
ip_fragment = 20

abbrev pub ip_proto : ℕ
ip_proto = 23

abbrev pub ip_cksum : ℕ
ip_cksum = 24

abbrev pub ip_src : ℕ
ip_src = 26

abbrev pub ip_dst : ℕ
ip_dst = 30

-- UDP, from the start of its header; the source port is at 0.
abbrev pub udp_dst : ℕ
udp_dst = 2

abbrev pub udp_len_field : ℕ
udp_len_field = 4

abbrev pub udp_cksum : ℕ
udp_cksum = 6

-- The failures of `enum class ParseStatus`; its `ok` is a parse that returns.
pub data ParseStatus : Type 0 where
  too_short not_ipv4 not_udp fragmented bad_ip_checksum bad_udp_checksum : ParseStatus

pub data Parse {ℓ} (A : Type ℓ) : Type ℓ where
  ok : A → Parse A
  fail : ParseStatus → Parse A

infixl 5 ◌>>◌
abbrev pub ◌>>◌ {ℓ} : {A : Type ℓ} → Parse (Unit {0}) → Parse A → Parse A
ok _ >> k = k
fail e >> k = fail e

-- An early return with a status, unless the test passes.
abbrev pub require : Bool → ParseStatus → Parse (Unit {0})
require true e = ok tt
require false e = fail e

-- The offsets of the UDP header and of the payload; the Ethernet and IPv4 headers are at 0 and 14.
pub record PacketView : Type 0 where
  pub udp : ℕ
  pub payload : ℕ
  pub payload_len : ℕ

-- A parse that returns has passed each of its tests.
pub require-ok {ℓ} :
    {A : Type ℓ} (b : Bool) (e : ParseStatus) (k : Parse A) (a : A)
    → (require b e >> k) ≡ ok a
    → (b ≡ true) × (k ≡ ok a)
require-ok true e k a h = (refl, h)
require-ok false e k a h = cc

pub >>-ok {ℓ} :
    {A : Type ℓ} (p : Parse (Unit {0})) (k : Parse A) (a : A)
    → (p >> k) ≡ ok a
    → (p ≡ ok tt) × (k ≡ ok a)
>>-ok (ok tt) k a h = (refl, h)
>>-ok (fail e) k a h = cc
