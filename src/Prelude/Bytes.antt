-- ===== src/Prelude/Bytes.antt =====
-- Runs of bytes in a buffer. A word is stored with its low byte first, as on the x86-64 and arm64
-- hosts of the gateway. A read past the end is short, and a write there is lost.
use Prim.Native.Nat.{ℕ, zero, suc, ◌+◌, ◌*◌, ◌/◌, ◌%◌, ◌≤◌, ◌<◌}
use mathlib.Core.Path.{◌≡◌, refl, ap, ◌∙◌}
use mathlib.Core.Logic.{◌⊎◌, inl, inr}
use mathlib.Core.List.{List, [], ◌∷◌}
use native.Mathlib.Omega.{arith}
use violet_gw.Prelude.Lists.{length, take, drop}

unfoldable pub read : List ℕ → ℕ → ℕ → List ℕ
read d off n = take n (drop off d)

-- A write of the bytes to the front of a buffer.
unfoldable pub overlay : List ℕ → List ℕ → List ℕ
overlay [] d = d
overlay (b ∷ bs) [] = []
overlay (b ∷ bs) (x ∷ d) = b ∷ overlay bs d

unfoldable pub write : List ℕ → ℕ → List ℕ → List ℕ
unfolding overlay
write d zero bs = overlay bs d
write [] (suc off) bs = []
write (x ∷ d) (suc off) bs = x ∷ write d off bs

length-overlay : (bs d : List ℕ) → length (overlay bs d) ≡ length d
unfolding overlay
length-overlay [] d = refl
length-overlay (b ∷ bs) [] = refl
length-overlay (b ∷ bs) (x ∷ d) = ap suc (length-overlay bs d)

pub length-write : (d : List ℕ) (off : ℕ) (bs : List ℕ) → length (write d off bs) ≡ length d
unfolding write
length-write d zero bs = length-overlay bs d
length-write [] (suc off) bs = refl
length-write (x ∷ d) (suc off) bs = ap suc (length-write d off bs)

take-overlay : (bs d : List ℕ) → length bs ≤ length d → take (length bs) (overlay bs d) ≡ bs
unfolding overlay
take-overlay [] d h = refl
take-overlay (b ∷ bs) [] h = absurd (omega arith)
take-overlay (b ∷ bs) (x ∷ d) h = ap (◌∷◌ b) (take-overlay bs d (omega arith))

drop-overlay : (bs d : List ℕ) (o : ℕ) → length bs ≤ o → drop o (overlay bs d) ≡ drop o d
unfolding overlay
drop-overlay [] d o h = refl
drop-overlay (b ∷ bs) [] o h = refl
drop-overlay (b ∷ bs) (x ∷ d) zero h = absurd (omega arith)
drop-overlay (b ∷ bs) (x ∷ d) (suc o) h = drop-overlay bs d o (omega arith)

-- What was written is read back.
pub read-write_self :
    (d : List ℕ) (off : ℕ) (bs : List ℕ)
    → off + length bs ≤ length d
    → read (write d off bs) off (length bs) ≡ bs
unfolding read write
read-write_self d zero bs h = take-overlay bs d (omega arith)
read-write_self [] (suc off) [] h = refl
read-write_self [] (suc off) (b ∷ bs) h = absurd (omega arith)
read-write_self (x ∷ d) (suc off) bs h = read-write_self d off bs (omega arith)

read-nil : (o n : ℕ) → read [] o n ≡ []
unfolding read
read-nil zero zero = refl
read-nil zero (suc n) = refl
read-nil (suc o) zero = refl
read-nil (suc o) (suc n) = refl

read-zero : (d : List ℕ) (o : ℕ) → read d o 0 ≡ []
unfolding read
read-zero d o = refl

-- A write leaves what stands before it.
pub read-write_before :
    (d : List ℕ) (off : ℕ) (bs : List ℕ) (o n : ℕ)
    → o + n ≤ off
    → read (write d off bs) o n ≡ read d o n
unfolding read write
read-write_before d zero bs o zero h = refl
read-write_before d zero bs o (suc n) h = absurd (omega arith)
read-write_before [] (suc off) bs o n h = refl
read-write_before (x ∷ d) (suc off) bs zero zero h = refl
read-write_before (x ∷ d) (suc off) bs zero (suc n) h =
    ap (◌∷◌ x) (read-write_before d off bs zero n (omega arith))
read-write_before (x ∷ d) (suc off) bs (suc o) n h = read-write_before d off bs o n (omega arith)

drop-write_after :
    (d : List ℕ) (off : ℕ) (bs : List ℕ) (o : ℕ)
    → off + length bs ≤ o
    → drop o (write d off bs) ≡ drop o d
unfolding write
drop-write_after d zero bs o h = drop-overlay bs d o (omega arith)
drop-write_after [] (suc off) bs o h = refl
drop-write_after (x ∷ d) (suc off) bs zero h = absurd (omega arith)
drop-write_after (x ∷ d) (suc off) bs (suc o) h = drop-write_after d off bs o (omega arith)

-- A write leaves what stands behind it.
pub read-write_after :
    (d : List ℕ) (off : ℕ) (bs : List ℕ) (o n : ℕ)
    → off + length bs ≤ o
    → read (write d off bs) o n ≡ read d o n
unfolding read
read-write_after d off bs o n h = ap (take n) (drop-write_after d off bs o h)

pub length-read : (d : List ℕ) (o n : ℕ) → o + n ≤ length d → length (read d o n) ≡ n
unfolding read
length-read d zero zero h = refl
length-read [] zero (suc n) h = absurd (omega arith)
length-read (x ∷ d) zero (suc n) h = ap suc (length-read d zero n (omega arith))
length-read [] (suc o) n h = absurd (omega arith)
length-read (x ∷ d) (suc o) n h = length-read d o n (omega arith)

unfoldable pub word_of : List ℕ → ℕ
word_of [] = 0
word_of (b ∷ bs) = b + 256 * word_of bs

unfoldable pub bytes_of : ℕ → ℕ → List ℕ
bytes_of zero x = []
bytes_of (suc n) x = (x % 256) ∷ bytes_of n (x / 256)

pub length-bytes_of : (n x : ℕ) → length (bytes_of n x) ≡ n
unfolding bytes_of
length-bytes_of zero x = refl
length-bytes_of (suc n) x = ap suc (length-bytes_of n (x / 256))

pub word_of-bytes_of_two : (x : ℕ) → x < 0x10000 → word_of (bytes_of 2 x) ≡ x
unfolding word_of bytes_of
word_of-bytes_of_two x h = omega arith

pub word_of-bytes_of_four : (x : ℕ) → x < 0x1_0000_0000 → word_of (bytes_of 4 x) ≡ x
unfolding word_of bytes_of
word_of-bytes_of_four x h = omega arith

-- Loads and stores of unsigned integers.
unfoldable pub load8 : List ℕ → ℕ → ℕ
unfolding word_of read
load8 d o = word_of (read d o 1)

unfoldable pub load16 : List ℕ → ℕ → ℕ
unfolding word_of read
load16 d o = word_of (read d o 2)

unfoldable pub load32 : List ℕ → ℕ → ℕ
unfolding word_of read
load32 d o = word_of (read d o 4)

unfoldable pub store16 : List ℕ → ℕ → ℕ → List ℕ
unfolding write bytes_of
store16 d o x = write d o (bytes_of 2 x)

unfoldable pub store32 : List ℕ → ℕ → ℕ → List ℕ
unfolding write bytes_of
store32 d o x = write d o (bytes_of 4 x)

overlay-overlay :
    (bs cs d : List ℕ) → length bs ≡ length cs → overlay cs (overlay bs d) ≡ overlay cs d
unfolding overlay
overlay-overlay [] [] d h = refl
overlay-overlay [] (c ∷ cs) d h = absurd (omega arith)
overlay-overlay (b ∷ bs) [] d h = absurd (omega arith)
overlay-overlay (b ∷ bs) (c ∷ cs) [] h = refl
overlay-overlay (b ∷ bs) (c ∷ cs) (x ∷ d) h = ap (◌∷◌ c) (overlay-overlay bs cs d (omega arith))

-- The later of two writes to one place counts.
pub write-write :
    (d : List ℕ) (off : ℕ) (bs cs : List ℕ)
    → length bs ≡ length cs
    → write (write d off bs) off cs ≡ write d off cs
unfolding write
write-write d zero bs cs h = overlay-overlay bs cs d h
write-write [] (suc off) bs cs h = refl
write-write (x ∷ d) (suc off) bs cs h = ap (◌∷◌ x) (write-write d off bs cs h)

-- Two runs of bytes do not overlap.
abbrev pub Apart : ℕ → ℕ → ℕ → ℕ → Type 0
Apart o n off k = (o + n ≤ off) ⊎ (off + k ≤ o)

pub read-write_other :
    (d : List ℕ) (off : ℕ) (bs : List ℕ) (o n : ℕ)
    → Apart o n off (length bs)
    → read (write d off bs) o n ≡ read d o n
read-write_other d off bs o n (inl h) = read-write_before d off bs o n h
read-write_other d off bs o n (inr h) = read-write_after d off bs o n h

pub read-store16_other :
    (d : List ℕ) (off x o n : ℕ) → Apart o n off 2 → read (store16 d off x) o n ≡ read d o n
unfolding store16
read-store16_other d off x o n h = read-write_other d off (bytes_of 2 x) o n h

pub read-store32_other :
    (d : List ℕ) (off x o n : ℕ) → Apart o n off 4 → read (store32 d off x) o n ≡ read d o n
unfolding store32
read-store32_other d off x o n h = read-write_other d off (bytes_of 4 x) o n h

pub read-store16_self :
    (d : List ℕ) (off x : ℕ) → off + 2 ≤ length d → read (store16 d off x) off 2 ≡ bytes_of 2 x
unfolding store16
read-store16_self d off x h = read-write_self d off (bytes_of 2 x) h

pub read-store32_self :
    (d : List ℕ) (off x : ℕ) → off + 4 ≤ length d → read (store32 d off x) off 4 ≡ bytes_of 4 x
unfolding store32
read-store32_self d off x h = read-write_self d off (bytes_of 4 x) h

pub store16-store16 : (d : List ℕ) (off x y : ℕ) → store16 (store16 d off x) off y ≡ store16 d off y
unfolding store16
store16-store16 d off x y = write-write d off (bytes_of 2 x) (bytes_of 2 y) refl

pub length-store16 : (d : List ℕ) (off x : ℕ) → length (store16 d off x) ≡ length d
unfolding store16
length-store16 d off x = length-write d off (bytes_of 2 x)

pub length-store32 : (d : List ℕ) (off x : ℕ) → length (store32 d off x) ≡ length d
unfolding store32
length-store32 d off x = length-write d off (bytes_of 4 x)

-- A load is decided by the bytes that it reads.
pub load8-read : (d e : List ℕ) (o : ℕ) → read d o 1 ≡ read e o 1 → load8 d o ≡ load8 e o
unfolding load8
load8-read d e o h = ap word_of h

pub load16-read : (d e : List ℕ) (o : ℕ) → read d o 2 ≡ read e o 2 → load16 d o ≡ load16 e o
unfolding load16
load16-read d e o h = ap word_of h

pub load32-read : (d e : List ℕ) (o : ℕ) → read d o 4 ≡ read e o 4 → load32 d o ≡ load32 e o
unfolding load32
load32-read d e o h = ap word_of h

pub load16-eq : (d : List ℕ) (o x : ℕ) → x < 0x10000 → read d o 2 ≡ bytes_of 2 x → load16 d o ≡ x
unfolding load16
load16-eq d o x h e = ap word_of e ∙ word_of-bytes_of_two x h

pub load32-eq :
    (d : List ℕ) (o x : ℕ) → x < 0x1_0000_0000 → read d o 4 ≡ bytes_of 4 x → load32 d o ≡ x
unfolding load32
load32-eq d o x h e = ap word_of e ∙ word_of-bytes_of_four x h

pub load16-store16 :
    (d : List ℕ) (off x : ℕ) → off + 2 ≤ length d → x < 0x10000 → load16 (store16 d off x) off ≡ x
load16-store16 d off x h k = load16-eq (store16 d off x) off x k (read-store16_self d off x h)
