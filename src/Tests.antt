-- ===== src/Tests.antt =====
-- Concrete runs: the data that the runs share is here, and the children hold a run of each theorem.
pub mod Dumps
pub mod Observers
pub mod Rounds
pub mod Programs
pub mod Segments
pub mod Sessions
pub mod Tables
pub mod Packets
pub mod Forwards
pub mod Gateways
pub mod Loops
pub mod Options
pub mod Ports
pub mod Starts
use violet_gw.Prelude.{
  ℕ, List, [], ◌∷◌, ◌++◌, Option, none, some, true, false, ◌+◌, ◌-◌, ◌*◌, ◌/◌, ◌%◌, arith, take,
  replicate,
}
use violet_gw.Dpdk.{Dpdk, IsDpdk, Mbuf}
use violet_gw.Session.Key.{FlowKey}

abbrev swap16 : ℕ → ℕ
swap16 x = x % 256 * 256 + x / 256 % 256

abbrev swap32 : ℕ → ℕ
swap32 x = swap16 (x % 65536) * 65536 + swap16 (x / 65536)

-- The sum of the 16-bit words, the first byte of each low.
abbrev word_sum : List ℕ → ℕ
word_sum [] = 0
word_sum (a ∷ []) = a
word_sum (a ∷ b ∷ rest) = a + b * 256 + word_sum rest

abbrev complement : ℕ → ℕ
complement x = 65535 - x % 65535

-- A little-endian machine.
abbrev pub machine : Dpdk
machine = record {
  be_to_cpu_16 = swap16;
  cpu_to_be_16 = swap16;
  be_to_cpu_32 = swap32;
  cpu_to_be_32 = swap32;
  ipv4_cksum = λ ip. complement (word_sum (take 20 ip));
  ipv4_udptcp_cksum = λ ip l4. complement (word_sum (take 8 l4));
}

pub machine-IsDpdk : IsDpdk machine
machine-IsDpdk = record {
  be-cpu = λ x h. omega arith;
  cpu-be = λ x h. omega arith;
  be_lt = λ x h. omega arith;
  cpu_lt = λ x h. omega arith;
  ipv4_lt = λ ip. omega arith;
  udptcp_lt = λ ip l4. omega arith;
}

-- 10.0.0.9, 10.0.0.1, 192.168.1.100 and 192.168.1.10 as words of that machine.
abbrev pub client_ip : ℕ
client_ip = 0x0900_000a

abbrev pub upstream_ip : ℕ
upstream_ip = 0x0100_000a

abbrev pub vip_ip : ℕ
vip_ip = 0x6401_a8c0

abbrev pub gateway_ip : ℕ
gateway_ip = 0x0a01_a8c0

-- The frame of a UDP packet with a payload of two bytes, from its addresses and ports as bytes.
abbrev frame : List ℕ → List ℕ → List ℕ → List ℕ → List ℕ
frame src dst sport dport =
    (replicate 12 0 ++ 8 ∷ 0 ∷ 0x45 ∷ 0 ∷ 0 ∷ 30 ∷ 0 ∷ 0 ∷ 0 ∷ 0 ∷ 64 ∷ 17 ∷ 0 ∷ 0 ∷ [])
    ++ src
    ++ dst
    ++ sport
    ++ dport
    ++ 0 ∷ 10 ∷ 0 ∷ 0 ∷ 7 ∷ 8 ∷ []

abbrev packet : List ℕ → Mbuf
packet bytes = record { bytes = bytes; data_len = 44; pkt_len = 44 }

-- From the client, port 4096, to the VIP, port 53.
abbrev pub query : Mbuf
query = packet (frame (10 ∷ 0 ∷ 0 ∷ 9 ∷ []) (192 ∷ 168 ∷ 1 ∷ 100 ∷ []) (16 ∷ 0 ∷ []) (0 ∷ 53 ∷ []))

-- From the upstream, port 53, to the gateway, port 20000.
abbrev pub answer : Mbuf
answer = packet (frame (10 ∷ 0 ∷ 0 ∷ 1 ∷ []) (192 ∷ 168 ∷ 1 ∷ 10 ∷ []) (0 ∷ 53 ∷ []) (78 ∷ 32 ∷ []))

abbrev pub flow : FlowKey
flow = record { src_ip = client_ip; dst_ip = vip_ip; src_port = 4096; dst_port = 53; proto = 17 }
