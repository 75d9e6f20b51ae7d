-- ===== src/Filter/Text.antt =====
-- Addresses as text: `mac_dump` of base/util.cpp, `parse_mac` and `parse_ipv4_be` of
-- base/pkt_filter.cpp. A text is the list of its bytes; `sscanf` is a parameter.
use violet_gw.Prelude.{
  ℕ, zero, suc, Bool, true, false, Option, none, some, List, [], ◌∷◌, ◌≡◌, refl, arith, ap, subst,
  length, ◌+◌, ◌-◌, ◌*◌, ◌/◌, ◌%◌, ◌<◌, ◌==◌, ◌&&◌, ◌||◌, leb, ltb, if◌then◌else◌,
}
use violet_gw.Dpdk.{Dpdk}
use violet_gw.Neighbor.{MacAddr}

-- A digit of `%02X`.
unfoldable pub digit : ℕ → ℕ
digit n = if ltb n 10 then b'0' + n else b'A' + (n - 10)

abbrev pub hex2 : ℕ → List ℕ → List ℕ
hex2 b rest = digit (b / 16) ∷ digit (b % 16) ∷ rest

-- The bytes with a colon before each.
abbrev pub dump_rest : List ℕ → List ℕ
dump_rest [] = []
dump_rest (b ∷ bs) = b':' ∷ hex2 b (dump_rest bs)

unfoldable pub mac_dump : MacAddr → List ℕ
mac_dump [] = []
mac_dump (b ∷ bs) = hex2 b (dump_rest bs)

-- `none` is the -1 of the code.
unfoldable pub hex_nibble : ℕ → Option ℕ
hex_nibble c =
    if leb b'0' c && leb c b'9'
    then some (c - b'0')
    else if leb b'a' c && leb c b'f'
    then some (c - b'a' + 10)
    else if leb b'A' c && leb c b'F'
    then some (c - b'A' + 10)
    else none

unfoldable pub is_separator : ℕ → Bool
is_separator c = c == b':' || c == b'-' || c == b' '

abbrev pub skip : List ℕ → List ℕ
skip [] = []
skip (c ∷ s) = if is_separator c then skip s else c ∷ s

-- `isspace` in the C locale.
abbrev pub is_space : ℕ → Bool
is_space c = c == b' ' || (leb 9 c && leb c 13)

abbrev pub all_space : List ℕ → Bool
all_space [] = true
all_space (c ∷ s) = is_space c && all_space s

abbrev pub nibbles : Option ℕ → Option ℕ → Option ℕ
nibbles (some hi) (some lo) = some (hi * 16 + lo)
nibbles _ _ = none

-- The byte at the front of a text, and what is behind it.
unfoldable pub parse_byte : List ℕ → Option (ℕ × List ℕ)
parse_byte [] = none
parse_byte (c ∷ []) = none
parse_byte (hi ∷ lo ∷ rest) = elim (nibbles (hex_nibble hi) (hex_nibble lo)) [
  | none ↦ none
  | some b ↦ some (b, rest)
]

abbrev pub push : ℕ → Option (List ℕ × List ℕ) → Option (List ℕ × List ℕ)
push b none = none
push b (some (bs, s)) = some (b ∷ bs, s)

-- The rounds of the loop for the last `n` bytes of the address.
unfoldable pub parse_bytes : ℕ → List ℕ → Option (List ℕ × List ℕ)
unfolding parse_byte
parse_bytes zero s = some ([], s)
parse_bytes (suc n) s = elim (parse_byte (skip s)) [
  | none ↦ none
  | some r ↦ push r.0 (parse_bytes n r.1)
]

unfoldable pub parse_mac : List ℕ → Option MacAddr
unfolding parse_bytes
parse_mac s = elim (parse_bytes 6 s) [
  | none ↦ none
  | some r ↦ if all_space r.1 then some r.0 else none
]

-- `scan` is what `sscanf` reads by "%u.%u.%u.%u", where it reads all four.
unfoldable pub parse_ipv4_be : Dpdk → (List ℕ → Option (ℕ × ℕ × ℕ × ℕ)) → List ℕ → Option ℕ
parse_ipv4_be dpdk scan s = if length s == 0 || ltb 15 (length s) then none else elim (scan s) [
  | none ↦ none
  | some r ↦
      let (a, b, c, d) = r in
      if ltb 255 a || ltb 255 b || ltb 255 c || ltb 255 d
      then none
      else some (dpdk.cpu_to_be_32 (a * 0x100_0000 + b * 0x1_0000 + c * 0x100 + d))
]

hex_nibble-digit : (n : ℕ) → n < 16 → hex_nibble (digit n) ≡ some n
unfolding hex_nibble digit
hex_nibble-digit n low = ground arith

is_separator-digit : (n : ℕ) → n < 16 → is_separator (digit n) ≡ false
unfolding is_separator digit
is_separator-digit n low = ground arith

-- All entries of an address are bytes.
abbrev pub Bytes : List ℕ → Type 0
Bytes [] = Unit
Bytes (b ∷ bs) = (b < 256) × Bytes bs

parse_byte-hex2 : (b : ℕ) (rest : List ℕ) → b < 256 → parse_byte (hex2 b rest) ≡ some (b, rest)
unfolding parse_byte
parse_byte-hex2 b rest low =
    let hi = hex_nibble-digit (b / 16) (omega arith) in
    let lo = hex_nibble-digit (b % 16) (omega arith) in
    let whole : b / 16 * 16 + b % 16 ≡ b = omega arith in
    rw (hi, lo, parse_byte) (ap (λ x. some (x, rest)) whole)

skip-hex2 : (b : ℕ) (rest : List ℕ) → b < 256 → skip (hex2 b rest) ≡ hex2 b rest
skip-hex2 b rest low = rw (is_separator-digit (b / 16) (omega arith), skip) refl

skip-colon : (b : ℕ) (rest : List ℕ) → b < 256 → skip (b':' ∷ hex2 b rest) ≡ hex2 b rest
unfolding is_separator
skip-colon b rest low = skip-hex2 b rest low

parse_bytes-dump_rest :
    (bs : List ℕ) → Bytes bs → parse_bytes (length bs) (dump_rest bs) ≡ some (bs, [])
unfolding parse_bytes
parse_bytes-dump_rest [] ok = refl
parse_bytes-dump_rest (b ∷ bs) ok =
    rw (skip-colon b (dump_rest bs) ok.0, parse_bytes)
      (rw (parse_byte-hex2 b (dump_rest bs) ok.0) (rw (parse_bytes-dump_rest bs ok.1) refl))

-- A MAC address of six bytes is read back from its dump.
pub parse_mac-mac_dump :
    (mac : MacAddr) → length mac ≡ 6 → Bytes mac → parse_mac (mac_dump mac) ≡ some mac
unfolding parse_mac mac_dump
parse_mac-mac_dump [] six ok = absurd (omega (arith, six))
parse_mac-mac_dump (b ∷ bs) six ok =
    let five : length bs ≡ 5 = omega (arith, six) in
    let more =
      subst (λ n. parse_bytes n (dump_rest bs) ≡ some (bs, [])) five
        (parse_bytes-dump_rest bs ok.1) in
    let first : parse_bytes 6 (hex2 b (dump_rest bs)) ≡ some (b ∷ bs, []) =
      unfold parse_bytes in
      rw (skip-hex2 b (dump_rest bs) ok.0, parse_bytes)
        (rw (parse_byte-hex2 b (dump_rest bs) ok.0) (rw more refl)) in
    rw (first, parse_mac) refl
