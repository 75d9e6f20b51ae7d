-- ===== src/Session/Key.antt =====
-- `FlowKey` of session.hpp, the key of both session maps.
use violet_gw.Prelude.{ℕ, Bool, true, ◌&&◌, ◌==◌, ◌≡◌, ◌↔◌, Eq, arith}

-- Addresses are in network order, ports in host order.
pub record FlowKey : Type 0 where
  pub src_ip : ℕ
  pub dst_ip : ℕ
  pub src_port : ℕ
  pub dst_port : ℕ
  pub proto : ℕ

unfoldable pub flow_key_beq : FlowKey → FlowKey → Bool
flow_key_beq k o =
    k.src_ip == o.src_ip
    && k.dst_ip == o.dst_ip
    && k.src_port == o.src_port
    && k.dst_port == o.dst_port
    && k.proto == o.proto

-- The comparison of keys decides their equality.
pub flow_key_beq_iff : (k o : FlowKey) → (flow_key_beq k o ≡ true) ↔ (k ≡ o)
unfolding flow_key_beq
flow_key_beq_iff k o = ground arith

instance abbrev pub flow_key_eq : Eq FlowKey
flow_key_eq = record { beq = flow_key_beq; beq_iff = flow_key_beq_iff }
