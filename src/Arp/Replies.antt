-- ===== src/Arp/Replies.antt =====
-- The frame of an ARP reply, field by field: `make_reply` and `handle_request` of arp.cpp.
use violet_gw.Prelude.{
  ℕ, true, Option, List, ◌≡◌, ◌≢◌, ◌⊎◌, inl, inr, refl, arith, ◌∙◌, ap, subst, take_all, ◌+◌, ◌<◌,
  ◌≤◌, ◌==◌, ◌||◌, length, take, read, write, load16, load32, store16, store32, Apart,
  read-write_other, read-write_self, read-store16_other, read-store32_other, read-store16_self,
  read-store32_self, length-write, length-store16, length-store32, length-read, load16-eq,
  load32-eq, load32-read, u32_mod, Bool-cases,
}
use violet_gw.Dpdk.{Dpdk, IsDpdk, Mbuf}
use violet_gw.Neighbor.{MacAddr, NeighborTable}
use violet_gw.Packet.Layout.{eth_src}
use violet_gw.Forward.Types.{HandleResult}
use violet_gw.Arp.{
  ArpConfig, arp_opcode, arp_sha, arp_sip, arp_tha, arp_tip, arp_op_reply, arp_frame_len,
  reply_bytes, handle_request, is_proxy_target,
}

-- The reply that answers the request in `bytes` for the address `ip`.
pub record Answers (dpdk : Dpdk) (cfg : ArpConfig) (ip : ℕ) (bytes reply : List ℕ) : Type 0 where
  pub to_sender : read reply 0 6 ≡ read bytes eth_src 6
  pub from_gateway : read reply eth_src 6 ≡ cfg.gateway_mac
  pub is_reply : dpdk.be_to_cpu_16 (load16 reply arp_opcode) ≡ arp_op_reply
  pub sha : read reply arp_sha 6 ≡ cfg.gateway_mac
  pub sip : load32 reply arp_sip ≡ ip
  pub tha : read reply arp_tha 6 ≡ read bytes arp_sha 6
  pub tip : load32 reply arp_tip ≡ load32 bytes arp_sip

proxied : (ip a b : ℕ) → (ip == a || ip == b) ≡ true → (ip ≡ a) ⊎ (ip ≡ b)
proxied ip a b h = ground arith

-- A six-byte address is copied whole.
take_six : (mac : MacAddr) → length mac ≡ 6 → take 6 mac ≡ mac
take_six mac h = take_all mac 6 (omega arith)

read-write_mac :
    (d mac : List ℕ) (off : ℕ)
    → length mac ≡ 6
    → off + 6 ≤ length d
    → read (write d off mac) off 6 ≡ mac
read-write_mac d mac off h k =
    subst (λ n. read (write d off mac) off n ≡ mac) h (read-write_self d off mac (omega arith))

module _ (dpdk : Dpdk) (laws : IsDpdk dpdk) (cfg : ArpConfig) (mac : length cfg.gateway_mac ≡ 6)
    (ip : ℕ) (bytes : List ℕ) (long : arp_frame_len ≤ length bytes) where
  -- Each write of `make_reply` in turn.
  b1 : List ℕ
  b1 = write bytes 0 (read bytes eth_src 6)

  b2 : List ℕ
  b2 = write b1 eth_src (take 6 cfg.gateway_mac)

  b3 : List ℕ
  b3 = store16 b2 arp_opcode (dpdk.cpu_to_be_16 arp_op_reply)

  b4 : List ℕ
  b4 = write b3 arp_tha (read b3 arp_sha 6)

  b5 : List ℕ
  b5 = write b4 arp_sha (take 6 cfg.gateway_mac)

  b6 : List ℕ
  b6 = store32 b5 arp_sip ip

  reply_bytes_lem : reply_bytes dpdk cfg ip bytes ≡ store32 b6 arp_tip (load32 b5 arp_sip)
  unfolding reply_bytes b1 b2 b3 b4 b5 b6
  reply_bytes_lem = refl

  mac_take : take 6 cfg.gateway_mac ≡ cfg.gateway_mac
  mac_take = take_six cfg.gateway_mac mac

  copied : length (read bytes eth_src 6) ≡ 6
  copied = length-read bytes eth_src 6 (omega arith)

  len_b3 : length b3 ≡ length bytes
  unfolding b1 b2 b3
  len_b3 = length-store16 _ arp_opcode _ ∙ length-write _ eth_src _ ∙ length-write bytes 0 _

  sender : length (read b3 arp_sha 6) ≡ 6
  sender = length-read b3 arp_sha 6 (omega (arith, len_b3))

  len_b5 : length b5 ≡ length bytes
  unfolding b4 b5
  len_b5 = length-write _ arp_sha _ ∙ length-write b3 arp_tha _ ∙ len_b3

  len_b6 : length b6 ≡ length bytes
  unfolding b6
  len_b6 = length-store32 b5 arp_sip ip ∙ len_b5

  past_mac :
      (d : List ℕ) (off o n : ℕ)
      → Apart o n off 6
      → read (write d off (take 6 cfg.gateway_mac)) o n ≡ read d o n
  past_mac d off o n a = rw mac_take (read-write_other d off cfg.gateway_mac o n (rw mac a))

  -- The first three writes leave the ARP header behind the opcode.
  read-b3 : (o n : ℕ) → 22 ≤ o → read b3 o n ≡ read bytes o n
  unfolding b1 b2 b3
  read-b3 o n h =
      read-store16_other _ arp_opcode _ o n (omega arith)
      ∙ past_mac _ eth_src o n (omega arith)
      ∙ read-write_other bytes 0 _ o n (omega (arith, copied))

  -- The last five leave everything up to the opcode.
  read-end :
      (o n : ℕ) → o + n ≤ 22 → read (store32 b6 arp_tip (load32 b5 arp_sip)) o n ≡ read b3 o n
  unfolding b4 b5 b6
  read-end o n h =
      read-store32_other _ arp_tip _ o n (omega arith)
      ∙ read-store32_other _ arp_sip ip o n (omega arith)
      ∙ past_mac _ arp_sha o n (omega arith)
      ∙ read-write_other b3 arp_tha _ o n (omega (arith, sender))

  sip_kept : read b5 arp_sip 4 ≡ read bytes arp_sip 4
  unfolding b4 b5
  sip_kept =
      past_mac _ arp_sha arp_sip 4 (omega arith)
      ∙ read-write_other b3 arp_tha _ arp_sip 4 (omega (arith, sender))
      ∙ read-b3 arp_sip 4 (omega arith)

  end : List ℕ
  end = store32 b6 arp_tip (load32 b5 arp_sip)

  end-eth_dst : read end 0 6 ≡ read bytes eth_src 6
  unfolding end b1 b2 b3
  end-eth_dst =
      read-end 0 6 (omega arith)
      ∙ read-store16_other _ arp_opcode _ 0 6 (omega arith)
      ∙ past_mac _ eth_src 0 6 (omega arith)
      ∙ read-write_mac bytes (read bytes eth_src 6) 0 copied (omega arith)

  end-eth_src : read end eth_src 6 ≡ cfg.gateway_mac
  unfolding end b1 b2 b3
  end-eth_src =
      read-end eth_src 6 (omega arith)
      ∙ read-store16_other _ arp_opcode _ eth_src 6 (omega arith)
      ∙ rw mac_take (
          read-write_mac _ cfg.gateway_mac eth_src mac
            (omega (arith, length-write bytes 0 (read bytes eth_src 6))))

  end-opcode : load16 end arp_opcode ≡ dpdk.cpu_to_be_16 arp_op_reply
  unfolding end b1 b2 b3
  end-opcode = load16-eq _ arp_opcode _ (laws.be_lt arp_op_reply (omega arith)) (
      read-end arp_opcode 2 (omega arith)
      ∙ read-store16_self _ arp_opcode _ (
          omega (
            arith,
            length-write (write bytes 0 (read bytes eth_src 6)) eth_src (take 6 cfg.gateway_mac),
            length-write bytes 0 (read bytes eth_src 6),
          )))

  end-sha : read end arp_sha 6 ≡ cfg.gateway_mac
  unfolding end b4 b5 b6
  end-sha =
      read-store32_other _ arp_tip _ arp_sha 6 (omega arith)
      ∙ read-store32_other _ arp_sip ip arp_sha 6 (omega arith)
      ∙ rw mac_take (
          read-write_mac _ cfg.gateway_mac arp_sha mac
            (omega (arith, length-write b3 arp_tha (read b3 arp_sha 6), len_b3)))

  end-tha : read end arp_tha 6 ≡ read bytes arp_sha 6
  unfolding end b4 b5 b6
  end-tha =
      read-store32_other _ arp_tip _ arp_tha 6 (omega arith)
      ∙ read-store32_other _ arp_sip ip arp_tha 6 (omega arith)
      ∙ past_mac _ arp_sha arp_tha 6 (omega arith)
      ∙ read-write_mac b3 (read b3 arp_sha 6) arp_tha sender (omega (arith, len_b3))
      ∙ read-b3 arp_sha 6 (omega arith)

  -- `make_reply` answers the request: it goes from the gateway to the sender, and says that the
  -- address asked for is at the gateway's MAC. The two addresses are 32-bit words.
  pub reply_bytes-Answers :
      ip < u32_mod
      → load32 bytes arp_sip < u32_mod
      → Answers dpdk cfg ip bytes (reply_bytes dpdk cfg ip bytes)
  unfolding end b6
  reply_bytes-Answers small sip =
      let kept : load32 b5 arp_sip ≡ load32 bytes arp_sip = load32-read b5 bytes arp_sip sip_kept in
      rw reply_bytes_lem (record {
        to_sender = end-eth_dst;
        from_gateway = end-eth_src;
        is_reply = ap dpdk.be_to_cpu_16 end-opcode ∙ laws.be-cpu arp_op_reply (omega arith);
        sha = end-sha;
        sip = load32-eq _ arp_sip ip small (
            read-store32_other _ arp_tip _ arp_sip 4 (omega arith)
            ∙ read-store32_self b5 arp_sip ip (omega (arith, len_b5)));
        tha = end-tha;
        tip =
            load32-eq _ arp_tip _ (rw kept sip)
              (read-store32_self b6 arp_tip _ (omega (arith, len_b6)))
            ∙ kept;
      })

-- A request for the gateway's or the VIP's address is answered, and sent back as an ARP frame; one
-- for any other address is dropped as it is. Neither changes the neighbors. The frame lies in the
-- buffer, and its addresses are words.
pub handle_request-cases :
    (dpdk : Dpdk) (cfg : ArpConfig) (m : Mbuf) (neighbors : Option NeighborTable)
    → IsDpdk dpdk
    → length cfg.gateway_mac ≡ 6
    → arp_frame_len ≤ length m.bytes
    → load32 m.bytes arp_tip < u32_mod
    → load32 m.bytes arp_sip < u32_mod
    → let target = load32 m.bytes arp_tip in
      let h = handle_request dpdk cfg m neighbors in
      (h.neighbors ≡ neighbors)
      × ((((target ≡ cfg.gateway_ip_be) ⊎ (target ≡ cfg.vip_ip_be))
            × (h.outcome.result ≡ HandleResult.tx_arp)
            × (h.mbuf.data_len ≡ arp_frame_len)
            × Answers dpdk cfg target m.bytes h.mbuf.bytes)
          ⊎ ((target ≢ cfg.gateway_ip_be)
              × (target ≢ cfg.vip_ip_be)
              × (h.outcome.result ≡ HandleResult.drop)
              × (h.mbuf ≡ m)))
unfolding handle_request is_proxy_target
handle_request-cases dpdk cfg m neighbors laws mac long tip sip =
    elim (Bool-cases (is_proxy_target cfg (load32 m.bytes arp_tip))) [
      | inl ours ↦ rw ours (
        refl,
        inl (
          proxied _ _ _ ours,
          refl,
          refl,
          reply_bytes-Answers dpdk laws cfg mac (load32 m.bytes arp_tip) m.bytes long tip sip,
        ),
      )
      | inr other ↦ rw other (refl, inr (ground arith, ground arith, refl, refl))
    ]
