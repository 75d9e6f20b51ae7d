-- ===== src/Dpdk.antt =====
-- What the gateway uses of DPDK: the memory of an mbuf, the byte order functions and the checksums.
-- The functions are not in the repository: they are parameters, with their documented behaviour.
use violet_gw.Prelude.{ℕ, List, ◌≡◌, ◌<◌, u16_mod}

-- `data` is the buffer from the data offset on; `data_len` of it is the packet.
pub record Mbuf : Type 0 where
  pub bytes : List ℕ
  pub data_len : ℕ
  pub pkt_len : ℕ

-- A checksum is given the memory from each of its pointers on.
pub record Dpdk : Type 0 where
  pub be_to_cpu_16 : ℕ → ℕ
  pub cpu_to_be_16 : ℕ → ℕ
  pub be_to_cpu_32 : ℕ → ℕ
  pub cpu_to_be_32 : ℕ → ℕ
  pub ipv4_cksum : List ℕ → ℕ
  pub ipv4_udptcp_cksum : List ℕ → List ℕ → ℕ

-- The conversions undo one another, and the results are 16-bit words.
pub record IsDpdk (d : Dpdk) : Type 0 where
  pub be-cpu : (x : ℕ) → x < u16_mod → d.be_to_cpu_16 (d.cpu_to_be_16 x) ≡ x
  pub cpu-be : (x : ℕ) → x < u16_mod → d.cpu_to_be_16 (d.be_to_cpu_16 x) ≡ x
  pub be_lt : (x : ℕ) → x < u16_mod → d.cpu_to_be_16 x < u16_mod
  pub cpu_lt : (x : ℕ) → x < u16_mod → d.be_to_cpu_16 x < u16_mod
  pub ipv4_lt : (ip : List ℕ) → d.ipv4_cksum ip < u16_mod
  pub udptcp_lt : (ip l4 : List ℕ) → d.ipv4_udptcp_cksum ip l4 < u16_mod
