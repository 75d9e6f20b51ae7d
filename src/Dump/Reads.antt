-- ===== src/Dump/Reads.antt =====
-- What `dump_udp_mbuf` of base/pkt_dump.cpp reads of the memory of an mbuf.
use violet_gw.Prelude.{
  ℕ, zero, suc, some, List, [], ◌∷◌, ◌≡◌, refl, arith, ap, ◌+◌, ◌-◌, ◌/◌, ◌≤◌, ◌==◌, ◌||◌, not, ltb,
  if◌then◌else◌, Bool-cases, inl, inr, take, read, load8, load16, load32, load8-read, load16-read,
  load32-read,
}
use violet_gw.Dpdk.{Dpdk, Mbuf}
use violet_gw.Packet.{ihl_of, udp_len_of}
use violet_gw.Packet.Layout.{
  eth_hdr_len, min_ip_hdr_len, udp_hdr_len, eth_src, eth_type, ip_proto, ip_cksum, ip_src, ip_dst,
  udp_dst, udp_cksum, udp_len_field,
}
use violet_gw.Dump.{
  mbuf_line, eth_line, ip_line, udp_line, payload_lines, payload_part, ip_part, ip_checks, eth_part,
  dump_udp_mbuf, word_at,
}

take-take : (n k : ℕ) (d : List ℕ) → n ≤ k → take n (take k d) ≡ take n d
take-take zero k d h = refl
take-take (suc n) zero d h = absurd (omega arith)
take-take (suc n) (suc k) [] h = refl
take-take (suc n) (suc k) (x ∷ d) h = ap (◌∷◌ x) (take-take n k d (omega arith))

read-take : (k : ℕ) (d : List ℕ) (o n : ℕ) → o + n ≤ k → read (take k d) o n ≡ read d o n
unfolding read
read-take k d zero n h = take-take n k d (omega arith)
read-take zero d (suc o) n h = absurd (omega arith)
read-take (suc k) [] (suc o) n h = refl
read-take (suc k) (x ∷ d) (suc o) n h = read-take k d o n (omega arith)

-- The mbuf with the bytes of its packet and none behind them.
abbrev pub clip : Mbuf → Mbuf
clip m = record m { bytes = take m.data_len m.bytes }

module _ (m : Mbuf) where
  byte : (o : ℕ) → o + 1 ≤ m.data_len → load8 (take m.data_len m.bytes) o ≡ load8 m.bytes o
  byte o h = load8-read _ _ o (read-take m.data_len m.bytes o 1 h)

  half : (o : ℕ) → o + 2 ≤ m.data_len → load16 (take m.data_len m.bytes) o ≡ load16 m.bytes o
  half o h = load16-read _ _ o (read-take m.data_len m.bytes o 2 h)

  word : (o : ℕ) → o + 4 ≤ m.data_len → load32 (take m.data_len m.bytes) o ≡ load32 m.bytes o
  word o h = load32-read _ _ o (read-take m.data_len m.bytes o 4 h)

  ihl_of-clip : 15 ≤ m.data_len → ihl_of (clip m) ≡ ihl_of m
  unfolding ihl_of
  ihl_of-clip h = rw (byte eth_hdr_len h)

  module _ (dpdk : Dpdk) where
    word_at-clip : (o : ℕ) → o + 2 ≤ m.data_len → word_at dpdk (clip m) o ≡ word_at dpdk m o
    unfolding word_at
    word_at-clip o h = ap dpdk.be_to_cpu_16 (half o h)

    udp_len_of-clip :
        eth_hdr_len + ihl_of m + udp_hdr_len ≤ m.data_len
        → udp_len_of dpdk (clip m) ≡ udp_len_of dpdk m
    unfolding udp_len_of
    udp_len_of-clip h =
        rw (ihl_of-clip (omega arith), udp_len_of)
          (rw (half (eth_hdr_len + ihl_of m + udp_len_field) (omega arith)) refl)

    udp_line-clip :
        eth_hdr_len + ihl_of m + udp_hdr_len ≤ m.data_len → udp_line dpdk (clip m) ≡ udp_line dpdk m
    udp_line-clip h =
        unfold udp_line in
        rw (udp_len_of-clip h) (
          rw (ihl_of-clip (omega arith)) (
            rw (
              word_at-clip (eth_hdr_len + ihl_of m) (omega arith),
              word_at-clip (eth_hdr_len + ihl_of m + udp_dst) (omega arith),
              word_at-clip (eth_hdr_len + ihl_of m + udp_cksum) (omega arith),
            )))

    eth_line-clip : 42 ≤ m.data_len → eth_line dpdk (clip m) ≡ eth_line dpdk m
    unfolding eth_line
    eth_line-clip h = rw (
      read-take m.data_len m.bytes eth_src 6 (omega arith),
      read-take m.data_len m.bytes 0 6 (omega arith),
    )

    ip_line-clip : 42 ≤ m.data_len → ip_line dpdk (clip m) ≡ ip_line dpdk m
    ip_line-clip h =
        unfold ip_line in
        rw (ihl_of-clip (omega arith)) (
          rw (
            word ip_src (omega arith),
            word ip_dst (omega arith),
            byte 22 (omega arith),
            word_at-clip 16 (omega arith),
            word_at-clip 18 (omega arith),
            word_at-clip ip_cksum (omega arith),
            byte ip_proto (omega arith),
          ))

  -- The shown bytes are among those of the payload.
  payload_lines-take :
      (off len k : ℕ)
      → off + len ≤ m.data_len
      → payload_lines (take m.data_len m.bytes) off len k ≡ payload_lines m.bytes off len k
  unfolding payload_lines
  payload_lines-take off len k h =
      rw (read-take m.data_len m.bytes off (if ltb len k then len else k) (ground arith))

  module _ (dpdk : Dpdk) where
    payload_part-clip :
        (k : ℕ)
        → eth_hdr_len + ihl_of m + udp_hdr_len ≤ m.data_len
        → payload_part dpdk (clip m) k ≡ payload_part dpdk m k
    payload_part-clip k h =
        unfold payload_part in
        rw (udp_len_of-clip dpdk h) (
          rw (ihl_of-clip (omega arith)) (elim (Bool-cases (ltb (udp_len_of dpdk m) udp_hdr_len)) [
            | inl small ↦ rw small
            | inr whole ↦
                elim (Bool-cases (ltb m.data_len (eth_hdr_len + ihl_of m + udp_len_of dpdk m))) [
                  | inl cut ↦ rw (whole, cut)
                  | inr fits ↦ rw (
                    whole,
                    fits,
                    payload_lines-take (eth_hdr_len + ihl_of m + udp_hdr_len)
                        (udp_len_of dpdk m - udp_hdr_len) k (ground arith),
                  )
                ]
          ]))

    ip_part-clip :
        (k : ℕ)
        → 42 ≤ m.data_len
        → eth_hdr_len + ihl_of m + udp_hdr_len ≤ m.data_len
        → ip_part dpdk (clip m) k ≡ ip_part dpdk m k
    ip_part-clip k h g =
        unfold ip_part in
        rw (
          ip_line-clip dpdk h,
          udp_line-clip dpdk g,
          payload_part-clip k g,
          byte ip_proto (omega arith),
        )

    ip_checks-clip : (k : ℕ) → 42 ≤ m.data_len → ip_checks dpdk (clip m) k ≡ ip_checks dpdk m k
    ip_checks-clip k h =
        unfold ip_checks in
        rw (byte eth_hdr_len (omega arith), ihl_of-clip (omega arith))
          (elim (Bool-cases
            (not (load8 m.bytes eth_hdr_len / 16 == 4) || ltb (ihl_of m) min_ip_hdr_len)) [
              | inl bad ↦ rw bad
              | inr good ↦
                  elim (Bool-cases (ltb m.data_len (eth_hdr_len + ihl_of m + udp_hdr_len))) [
                    | inl cut ↦ rw (good, cut)
                    | inr fits ↦ rw (good, fits, ip_part-clip k h (ground arith))
                  ]
            ])

    eth_part-clip : (k : ℕ) → 42 ≤ m.data_len → eth_part dpdk (clip m) k ≡ eth_part dpdk m k
    eth_part-clip k h =
        unfold eth_part in
        rw (eth_line-clip dpdk h, word_at-clip dpdk eth_type (omega arith), ip_checks-clip k h)

    -- The dump reads nothing behind the `data_len` bytes of the packet: the text about an mbuf is the
    -- one about its packet with no memory behind it.
    pub dump_udp_mbuf-clip :
        (nb_segs k : ℕ)
        → dump_udp_mbuf dpdk (some m) nb_segs k ≡ dump_udp_mbuf dpdk (some (clip m)) nb_segs k
    dump_udp_mbuf-clip nb_segs k = elim (Bool-cases (ltb m.data_len 42)) [
      | inl short ↦ unfold dump_udp_mbuf mbuf_line in rw short refl
      | inr long ↦ unfold dump_udp_mbuf mbuf_line in rw (long, eth_part-clip k (ground arith))
    ]
