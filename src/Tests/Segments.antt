-- ===== src/Tests/Segments.antt =====
-- A host with at most one segment of shared memory, and `CpShm::open` on it.
use violet_gw.Prelude.{
  ℕ, Bool, true, false, Option, none, some, List, [], ◌∷◌, ◌≡◌, refl, ap, arith, drop,
}
use violet_gw.Neighbor
use violet_gw.Neighbor.Laws.{expires}
use violet_gw.Session.Invariant.{IsValid}
use violet_gw.Shm.{CpShmBlock, create_block}
use violet_gw.Shm.Open.{
  ShmName, existing, exclusive, Errno, enoent, other_errno, OpenMode, Opened, opened, refused,
  Posix, IsPosix, open_shm, opened_as, created_as, sized, attach, mapped,
}
use violet_gw.Shm.Leaks.{Leaves, open-Leaves}
use violet_gw.Gateway.Services.{lab_upstreams, Services, upstream0_ip, next_hop_mac}
use violet_gw.Gateway.Attach.{attach_services, attach_services_fresh, cp_shm_name, CanCreate}
use violet_gw.Tests.{machine}

pub record Host : Type 0 where
  pub open_fds : List ℕ
  pub mapped_at : List ℕ
  pub segments : List ShmName
  pub block : CpShmBlock
  pub memory_left : Bool

abbrev host_open : ShmName → OpenMode → List ShmName → Host → Opened × Host
host_open n existing [] h = (refused enoent, h)
host_open n existing (_ ∷ _) h = (opened 7, record h { open_fds = 7 ∷ h.open_fds })
host_open n exclusive [] h =
    (opened 7, record h { open_fds = 7 ∷ h.open_fds; segments = n ∷ h.segments })
host_open n exclusive (_ ∷ _) h = (refused other_errno, h)

abbrev host_map : Bool → Host → Option ℕ × Host
host_map true h = (some 0x1000, record h { mapped_at = 0x1000 ∷ h.mapped_at })
host_map false h = (none, h)

abbrev pub posix : Posix
posix = record {
  World = Host;
  shm_open = λ n m h. host_open n m h.segments h;
  ftruncate = λ fd size h. (true, h);
  mmap = λ fd h. host_map h.memory_left h;
  munmap = λ a h. record h { mapped_at = drop 1 h.mapped_at };
  close = λ fd h. record h { open_fds = drop 1 h.open_fds };
  shm_unlink = λ n h. record h { segments = drop 1 h.segments };
  load = λ a h. h.block;
  store = λ a b h. record h { block = b };
  fds = λ h. h.open_fds;
  mappings = λ h. h.mapped_at;
  names = λ h. h.segments;
}

host_refuses :
    (n : ShmName) (m : OpenMode) (e : Errno) (w w' : Host) (fs ms : List ℕ)
    (ns names : List ShmName)
    → host_open n m names w ≡ (refused e, w')
    → (w.open_fds ≡ fs) × (w.mapped_at ≡ ms) × (w.segments ≡ ns)
    → (w'.open_fds ≡ fs) × (w'.mapped_at ≡ ms) × (w'.segments ≡ ns)
host_refuses n existing e w w' fs ms ns [] q h = ground arith
host_refuses n existing e w w' fs ms ns (_ ∷ _) q h = ground arith
host_refuses n exclusive e w w' fs ms ns [] q h = ground arith
host_refuses n exclusive e w w' fs ms ns (_ ∷ _) q h = ground arith

host_opens :
    (n : ShmName) (fd : ℕ) (w w' : Host) (fs ms : List ℕ) (ns names : List ShmName)
    → host_open n existing names w ≡ (opened fd, w')
    → (w.open_fds ≡ fs) × (w.mapped_at ≡ ms) × (w.segments ≡ ns)
    → (w'.open_fds ≡ fd ∷ fs) × (w'.mapped_at ≡ ms) × (w'.segments ≡ ns)
host_opens n fd w w' fs ms ns [] q h = ground arith
host_opens n fd w w' fs ms ns (_ ∷ _) q h = ground arith

host_creates :
    (n : ShmName) (fd : ℕ) (w w' : Host) (fs ms : List ℕ) (ns names : List ShmName)
    → host_open n exclusive names w ≡ (opened fd, w')
    → (w.open_fds ≡ fs) × (w.mapped_at ≡ ms) × (w.segments ≡ ns)
    → (w'.open_fds ≡ fd ∷ fs) × (w'.mapped_at ≡ ms) × (w'.segments ≡ n ∷ ns)
host_creates n fd w w' fs ms ns [] q h = ground arith
host_creates n fd w w' fs ms ns (_ ∷ _) q h = ground arith

host_maps :
    (room : Bool) (a : ℕ) (w w' : Host) (fs ms : List ℕ) (ns : List ShmName)
    → host_map room w ≡ (some a, w')
    → (w.open_fds ≡ fs) × (w.mapped_at ≡ ms) × (w.segments ≡ ns)
    → (w'.open_fds ≡ fs) × (w'.mapped_at ≡ a ∷ ms) × (w'.segments ≡ ns)
host_maps true a w w' fs ms ns q h = ground arith
host_maps false a w w' fs ms ns q h = ground arith

host_fails_to_map :
    (room : Bool) (w w' : Host) (fs ms : List ℕ) (ns : List ShmName)
    → host_map room w ≡ (none, w')
    → (w.open_fds ≡ fs) × (w.mapped_at ≡ ms) × (w.segments ≡ ns)
    → (w'.open_fds ≡ fs) × (w'.mapped_at ≡ ms) × (w'.segments ≡ ns)
host_fails_to_map true w w' fs ms ns q h = ground arith
host_fails_to_map false w w' fs ms ns q h = ground arith

posix-IsPosix : IsPosix posix
posix-IsPosix = record {
  refuses = λ n m e w w' fs ms ns q h. host_refuses n m e w w' fs ms ns w.segments q h;
  opens = λ n fd w w' fs ms ns q h. host_opens n fd w w' fs ms ns w.segments q h;
  creates = λ n fd w w' fs ms ns q h. host_creates n fd w w' fs ms ns w.segments q h;
  truncates = λ fd size w fs ms ns h. h;
  maps = λ fd a w w' fs ms ns q h. host_maps w.memory_left a w w' fs ms ns q h;
  fails_to_map = λ fd w w' fs ms ns q h. host_fails_to_map w.memory_left w w' fs ms ns q h;
  unmaps = λ a w fs ms ns h. (h.0, ap (drop 1) h.1, h.2);
  closes = λ fd w fs ms ns h. (ap (drop 1) h.0, h.1, h.2);
  unlinks = λ n w fs ms ns h. (h.0, h.1, ap (drop 1) h.2);
  stores = λ a b w fs ms ns h. h;
  load-store = λ a b w. refl;
}

-- A host without a segment, with and without memory for a mapping.
abbrev pub host : Bool → Host
host memory = record {
  open_fds = 3 ∷ [];
  mapped_at = [];
  segments = [];
  block = create_block none;
  memory_left = memory;
}

-- Without memory the created segment is unlinked again.
open_without_memory : open_shm posix cp_shm_name true none (host false) ≡ (none, host false)
unfolding open_shm opened_as created_as sized attach mapped
open_without_memory = refl

open-Leaves_example :
    Leaves posix cp_shm_name none (3 ∷ []) [] [] (open_shm posix cp_shm_name true none (host false))
open-Leaves_example =
    open-Leaves posix cp_shm_name none (3 ∷ []) [] [] posix-IsPosix true (host false)
      (refl, refl, refl)

can_create : CanCreate posix cp_shm_name (host true)
can_create = record {
  fd = 7;
  hdr = 0x1000;
  w1 = host true;
  w2 = record (host true) { open_fds = 7 ∷ 3 ∷ []; segments = cp_shm_name ∷ [] };
  w3 = record (host true) { open_fds = 7 ∷ 3 ∷ []; segments = cp_shm_name ∷ [] };
  w4 = record (host true) {
    open_fds = 7 ∷ 3 ∷ [];
    segments = cp_shm_name ∷ [];
    mapped_at = 0x1000 ∷ [];
  };
  missing = refl;
  creates = refl;
  sizes = refl;
  maps = refl;
}

attach_services_fresh_example :
    (s : Services) × ((attach_services posix machine none (host true)).0 ≡ some s)
    × IsValid s.gw.world.sessions
    × (s.gw.world.upstreams ≡ lab_upstreams machine)
    × (s.gw.cp.last_applied ≡ 1)
    × (Neighbor.lookup (upstream0_ip machine) (
          Neighbor.Laws.run
            (Neighbor.seed (upstream0_ip machine) next_hop_mac (Neighbor.init 300000))
            (expires 9 ∷ []))
        ≡ some next_hop_mac)
    × (s.gw.world.neighbors
        ≡ some (Neighbor.seed (upstream0_ip machine) next_hop_mac (Neighbor.init 300000)))
attach_services_fresh_example =
    attach_services_fresh posix posix-IsPosix machine none (host true) (expires 9 ∷ []) can_create
