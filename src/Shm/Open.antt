-- ===== src/Shm/Open.antt =====
-- `CpShm::open`, the destructor and `unlink_name` of cp_shm.cpp. The POSIX calls are a parameter:
-- they act on a world, of which the documented behaviour names the open descriptors, the mappings
-- of the process, and the names of the segments.
use violet_gw.Prelude.{
  ℕ, Bool, true, false, Option, none, some, List, ◌∷◌, ◌≡◌, ◌==◌, ◌&&◌, if◌then◌else◌,
}
use violet_gw.Shm.{CpShmBlock, CpShmSeed, shm_magic, create_block}

abbrev pub ShmName : Type 0
ShmName = List ℕ

-- `sizeof(vgw_cp_shm)`: a header of 12 bytes and 64 endpoints of 8.
abbrev pub shm_bytes : ℕ
shm_bytes = 524

-- `O_RDWR`, and `O_RDWR | O_CREAT | O_EXCL`.
pub data OpenMode : Type 0 where
  existing exclusive : OpenMode

pub data Errno : Type 0 where
  enoent other_errno : Errno

pub data Opened : Type 0 where
  opened : ℕ → Opened
  refused : Errno → Opened

abbrev pub is_enoent : Errno → Bool
is_enoent enoent = true
is_enoent other_errno = false

pub record Posix : Type 1 where
  pub World : Type 0
  pub shm_open : ShmName → OpenMode → World → Opened × World
  pub ftruncate : ℕ → ℕ → World → Bool × World
  pub mmap : ℕ → World → Option ℕ × World
  pub munmap : ℕ → World → World
  pub close : ℕ → World → World
  pub shm_unlink : ShmName → World → World
  -- The block at the address of a mapping, read and written.
  pub load : ℕ → World → CpShmBlock
  pub store : ℕ → CpShmBlock → World → World
  -- What the calls change.
  pub fds : World → List ℕ
  pub mappings : World → List ℕ
  pub names : World → List ShmName

-- The descriptors, mappings and names of a world.
abbrev pub Holds : (p : Posix) → p.World → List ℕ → List ℕ → List ShmName → Type 0
Holds p w fs ms ns = (p.fds w ≡ fs) × (p.mappings w ≡ ms) × (p.names w ≡ ns)

-- A call that fails changes nothing; a call that succeeds adds or takes away its one entry.
pub record IsPosix (p : Posix) : Type 0 where
  pub refuses :
      (n : ShmName) (m : OpenMode) (e : Errno) (w w' : p.World) (fs ms : List ℕ) (ns : List ShmName)
      → p.shm_open n m w ≡ (refused e, w')
      → Holds p w fs ms ns
      → Holds p w' fs ms ns
  pub opens :
      (n : ShmName) (fd : ℕ) (w w' : p.World) (fs ms : List ℕ) (ns : List ShmName)
      → p.shm_open n existing w ≡ (opened fd, w')
      → Holds p w fs ms ns
      → Holds p w' (fd ∷ fs) ms ns
  pub creates :
      (n : ShmName) (fd : ℕ) (w w' : p.World) (fs ms : List ℕ) (ns : List ShmName)
      → p.shm_open n exclusive w ≡ (opened fd, w')
      → Holds p w fs ms ns
      → Holds p w' (fd ∷ fs) ms (n ∷ ns)
  pub truncates :
      (fd size : ℕ) (w : p.World) (fs ms : List ℕ) (ns : List ShmName)
      → Holds p w fs ms ns
      → Holds p (p.ftruncate fd size w).1 fs ms ns
  pub maps :
      (fd a : ℕ) (w w' : p.World) (fs ms : List ℕ) (ns : List ShmName)
      → p.mmap fd w ≡ (some a, w')
      → Holds p w fs ms ns
      → Holds p w' fs (a ∷ ms) ns
  pub fails_to_map :
      (fd : ℕ) (w w' : p.World) (fs ms : List ℕ) (ns : List ShmName)
      → p.mmap fd w ≡ (none, w')
      → Holds p w fs ms ns
      → Holds p w' fs ms ns
  pub unmaps :
      (a : ℕ) (w : p.World) (fs ms : List ℕ) (ns : List ShmName)
      → Holds p w fs (a ∷ ms) ns
      → Holds p (p.munmap a w) fs ms ns
  pub closes :
      (fd : ℕ) (w : p.World) (fs ms : List ℕ) (ns : List ShmName)
      → Holds p w (fd ∷ fs) ms ns
      → Holds p (p.close fd w) fs ms ns
  pub unlinks :
      (n : ShmName) (w : p.World) (fs ms : List ℕ) (ns : List ShmName)
      → Holds p w fs ms (n ∷ ns)
      → Holds p (p.shm_unlink n w) fs ms ns
  pub stores :
      (a : ℕ) (b : CpShmBlock) (w : p.World) (fs ms : List ℕ) (ns : List ShmName)
      → Holds p w fs ms ns
      → Holds p (p.store a b w) fs ms ns
  pub load-store : (a : ℕ) (b : CpShmBlock) (w : p.World) → p.load a (p.store a b w) ≡ b

-- The members `name_`, `fd_` and `hdr_`; the pointer is an address.
pub record ShmHandle : Type 0 where
  pub name : ShmName
  pub fd : ℕ
  pub hdr : ℕ

module _ (p : Posix) where
  -- The destructor; the segment itself stays.
  unfoldable pub destroy : ShmHandle → p.World → p.World
  destroy shm w = p.close shm.fd (p.munmap shm.hdr w)

  unfoldable pub unlink_name : ShmName → p.World → p.World
  unlink_name name w = p.shm_unlink name w

  -- What `open` does: the parts of the code behind each of its calls.
  module _ (name : ShmName) (seed : Option CpShmSeed) where
    -- The last part, over a mapping: `created` or not.
    unfoldable pub finish : Bool → ShmHandle → p.World → Option ShmHandle × p.World
    unfolding destroy
    finish true shm w = (some shm, p.store shm.hdr (create_block seed) w)
    finish false shm w =
        if (p.load shm.hdr w).magic == shm_magic then (some shm, w) else (none, destroy shm w)

    unfoldable pub mapped : Bool → ℕ → Option ℕ × p.World → Option ShmHandle × p.World
    unfolding finish
    mapped created fd (none, w) =
        (none, if created then p.shm_unlink name (p.close fd w) else p.close fd w)
    mapped created fd (some a, w) = finish created (record { name = name; fd = fd; hdr = a }) w

    unfoldable pub attach : Bool → ℕ → p.World → Option ShmHandle × p.World
    unfolding mapped
    attach created fd w = mapped created fd (p.mmap fd w)

    unfoldable pub sized : ℕ → Bool × p.World → Option ShmHandle × p.World
    unfolding attach
    sized fd (true, w) = attach true fd w
    sized fd (false, w) = (none, p.shm_unlink name (p.close fd w))

    unfoldable pub created_as : Opened × p.World → Option ShmHandle × p.World
    unfolding sized
    created_as (refused e, w) = (none, w)
    created_as (opened fd, w) = sized fd (p.ftruncate fd shm_bytes w)

    unfoldable pub opened_as : Bool → Opened × p.World → Option ShmHandle × p.World
    unfolding attach created_as
    opened_as create_if_missing (opened fd, w) = attach false fd w
    opened_as create_if_missing (refused e, w) =
        if create_if_missing && is_enoent e
        then created_as (p.shm_open name exclusive w)
        else (none, w)

  unfoldable pub open_shm : ShmName → Bool → Option CpShmSeed → p.World → Option ShmHandle × p.World
  unfolding opened_as
  open_shm name create_if_missing seed w =
      opened_as name seed create_if_missing (p.shm_open name existing w)
