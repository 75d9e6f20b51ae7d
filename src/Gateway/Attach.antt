-- ===== src/Gateway/Attach.antt =====
-- `init_services` of vgw.cpp with its call of `CpShm::open`: the services over the shared block that
-- it finds or creates.
use violet_gw.Prelude.{ℕ, true, Option, none, some, List, [], ◌∷◌, ◌≡◌, refl}
use violet_gw.Dpdk.{Dpdk}
use violet_gw.Neighbor
use violet_gw.Neighbor.Laws.{Event}
use violet_gw.Session.Invariant.{IsValid}
use violet_gw.Shm.{CpShm, create_block}
use violet_gw.Shm.Open.{
  ShmName, shm_bytes, existing, exclusive, enoent, opened, refused, Posix, IsPosix, ShmHandle,
  finish, mapped, attach, sized, created_as, opened_as, open_shm,
}
use violet_gw.Gateway.Services.{
  Services, init_services, init_services_created, lab_seed, lab_upstreams, created_shm,
  upstream0_ip, next_hop_mac,
}

-- "/vgw_cp"
abbrev pub cp_shm_name : ShmName
cp_shm_name = b'/' ∷ b'v' ∷ b'g' ∷ b'w' ∷ b'_' ∷ b'c' ∷ b'p' ∷ []

abbrev pub name_or_default : Option ShmName → ShmName
name_or_default none = cp_shm_name
name_or_default (some name) = name

module _ (p : Posix) where
  -- What the reader sees through a new handle.
  abbrev pub view : Option ShmHandle × p.World → Option CpShm
  view (none, w) = none
  view (some shm, w) = some (record { hdr = p.load shm.hdr w; last_applied = 0 })

  unfoldable pub attach_services : Dpdk → Option ShmName → p.World → Option Services × p.World
  attach_services dpdk shm_name w =
      let found = open_shm p (name_or_default shm_name) true (some (lab_seed dpdk)) w in
      (init_services dpdk (view found), found.1)

  -- There is no segment of the name, and the calls that make one succeed.
  pub record CanCreate (name : ShmName) (w : p.World) : Type 0 where
    pub fd : ℕ
    pub hdr : ℕ
    pub w1 : p.World
    pub w2 : p.World
    pub w3 : p.World
    pub w4 : p.World
    pub missing : p.shm_open name existing w ≡ (refused enoent, w1)
    pub creates : p.shm_open name exclusive w1 ≡ (opened fd, w2)
    pub sizes : p.ftruncate fd shm_bytes w2 ≡ (true, w3)
    pub maps : p.mmap fd w3 ≡ (some hdr, w4)

  module _ (posix : IsPosix p) (dpdk : Dpdk) where
    view-open :
        (name : ShmName) (w : p.World)
        → CanCreate name w
        → view (open_shm p name true (some (lab_seed dpdk)) w) ≡ some (created_shm dpdk)
    unfolding open_shm opened_as created_as sized attach mapped finish
    view-open name w c = rw c.missing (
        rw c.creates (
          rw c.sizes (
            rw c.maps
              (rw (posix.load-store c.hdr (create_block (some (lab_seed dpdk))) c.w4) refl))))

    -- Where there is no block yet and the calls that make one succeed, the services start with a valid
    -- session table, with the one endpoint 10.0.0.1:53 under the policy that takes the hash of a flow,
    -- applied at version 1, and with an address for that endpoint that no learning and expiry takes
    -- away.
    pub attach_services_fresh :
        (shm_name : Option ShmName) (w : p.World) (es : List Event)
        → CanCreate (name_or_default shm_name) w
        → (s : Services) × ((attach_services dpdk shm_name w).0 ≡ some s)
          × IsValid s.gw.world.sessions
          × (s.gw.world.upstreams ≡ lab_upstreams dpdk)
          × (s.gw.cp.last_applied ≡ 1)
          × (Neighbor.lookup (upstream0_ip dpdk) (
                Neighbor.Laws.run
                  (Neighbor.seed (upstream0_ip dpdk) next_hop_mac (Neighbor.init 300000))
                  es)
              ≡ some next_hop_mac)
          × (s.gw.world.neighbors
              ≡ some (Neighbor.seed (upstream0_ip dpdk) next_hop_mac (Neighbor.init 300000)))
    unfolding attach_services
    attach_services_fresh shm_name w es c =
        rw (view-open (name_or_default shm_name) w c) (init_services_created dpdk es)
