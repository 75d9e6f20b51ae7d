-- ===== src/Shm/Leaks.antt =====
-- What `CpShm::open` of cp_shm.cpp leaves behind, on each of its paths.
use violet_gw.Prelude.{
  ℕ, Bool, true, false, Option, none, some, List, ◌∷◌, ◌≡◌, refl, ◌⊎◌, inl, inr, ◌==◌, ◌&&◌,
  Bool-cases, ==_iff,
}
use violet_gw.Shm.{CpShmSeed, shm_magic, create_block, write_seed_unlocked}
use violet_gw.Shm.Open.{
  ShmName, shm_bytes, existing, exclusive, Opened, opened, refused, is_enoent, Posix, IsPosix,
  Holds, ShmHandle, destroy, finish, mapped, attach, sized, created_as, opened_as, open_shm,
}

create_block_magic : (seed : Option CpShmSeed) → (create_block seed).magic ≡ shm_magic
unfolding create_block write_seed_unlocked
create_block_magic none = refl
create_block_magic (some s) = refl

module _ (p : Posix) (name : ShmName) (seed : Option CpShmSeed) (fs ms : List ℕ)
    (ns : List ShmName) where
  -- The block of a handle stands in a segment that was there, or in one that was made from the seed.
  abbrev pub Attached : ShmHandle → p.World → Type 0
  Attached shm w =
      ((p.load shm.hdr w).magic ≡ shm_magic)
      × (Holds p w (shm.fd ∷ fs) (shm.hdr ∷ ms) ns
          ⊎ (Holds p w (shm.fd ∷ fs) (shm.hdr ∷ ms) (name ∷ ns)
              × (p.load shm.hdr w ≡ create_block seed)))

  -- Without a handle all is as before.
  unfoldable pub Leaves : Option ShmHandle × p.World → Type 0
  Leaves (none, w) = Holds p w fs ms ns
  Leaves (some shm, w) = Attached shm w

  -- The names while `open` runs: with the one that it has created.
  abbrev names_with : Bool → List ShmName
  names_with true = name ∷ ns
  names_with false = ns

  module _ (posix : IsPosix p) where
    destroy-Holds :
        (shm : ShmHandle) (w : p.World) (ns' : List ShmName)
        → Holds p w (shm.fd ∷ fs) (shm.hdr ∷ ms) ns'
        → Holds p (destroy p shm w) fs ms ns'
    unfolding destroy
    destroy-Holds shm w ns' h =
        posix.closes shm.fd _ fs ms ns' (posix.unmaps shm.hdr w (shm.fd ∷ fs) ms ns' h)

    finish-Leaves :
        (created : Bool) (shm : ShmHandle) (w : p.World)
        → Holds p w (shm.fd ∷ fs) (shm.hdr ∷ ms) (names_with created)
        → Leaves (finish p name seed created shm w)
    unfolding finish Leaves
    finish-Leaves true shm w h =
        let same = posix.load-store shm.hdr (create_block seed) w in
        (
          rw same (create_block_magic seed),
          inr (
            posix.stores shm.hdr (create_block seed) w (shm.fd ∷ fs) (shm.hdr ∷ ms) (name ∷ ns) h,
            same,
          ),
        )
    finish-Leaves false shm w h = elim (Bool-cases ((p.load shm.hdr w).magic == shm_magic)) [
      | inl good ↦ rw good ((==_iff _ _).0 good, inl h)
      | inr bad ↦ rw bad (destroy-Holds shm w ns h)
    ]

    mapped-Leaves :
        (created : Bool) (fd : ℕ) (w : p.World) (r : Option ℕ × p.World)
        → p.mmap fd w ≡ r
        → Holds p w (fd ∷ fs) ms (names_with created)
        → Leaves (mapped p name seed created fd r)
    unfolding mapped Leaves
    mapped-Leaves true fd w (none, w') e h = posix.unlinks name _ fs ms ns (
        posix.closes fd w' fs ms (name ∷ ns)
          (posix.fails_to_map fd w w' (fd ∷ fs) ms (name ∷ ns) e h))
    mapped-Leaves false fd w (none, w') e h =
        posix.closes fd w' fs ms ns (posix.fails_to_map fd w w' (fd ∷ fs) ms ns e h)
    mapped-Leaves created fd w (some a, w') e h =
        finish-Leaves created (record { name = name; fd = fd; hdr = a }) w'
          (posix.maps fd a w w' (fd ∷ fs) ms (names_with created) e h)

    attach-Leaves :
        (created : Bool) (fd : ℕ) (w : p.World)
        → Holds p w (fd ∷ fs) ms (names_with created)
        → Leaves (attach p name seed created fd w)
    unfolding attach
    attach-Leaves created fd w h = mapped-Leaves created fd w (p.mmap fd w) refl h

    sized-Leaves :
        (fd : ℕ) (r : Bool × p.World)
        → Holds p r.1 (fd ∷ fs) ms (name ∷ ns)
        → Leaves (sized p name seed fd r)
    unfolding sized Leaves
    sized-Leaves fd (true, w) h = attach-Leaves true fd w h
    sized-Leaves fd (false, w) h =
        posix.unlinks name _ fs ms ns (posix.closes fd w fs ms (name ∷ ns) h)

    created_as-Leaves :
        (w : p.World) (r : Opened × p.World)
        → p.shm_open name exclusive w ≡ r
        → Holds p w fs ms ns
        → Leaves (created_as p name seed r)
    unfolding created_as Leaves
    created_as-Leaves w (refused e, w') q h = posix.refuses name exclusive e w w' fs ms ns q h
    created_as-Leaves w (opened fd, w') q h = sized-Leaves fd (p.ftruncate fd shm_bytes w') (
        posix.truncates fd shm_bytes w' (fd ∷ fs) ms (name ∷ ns)
          (posix.creates name fd w w' fs ms ns q h))

    opened_as-Leaves :
        (create_if_missing : Bool) (w : p.World) (r : Opened × p.World)
        → p.shm_open name existing w ≡ r
        → Holds p w fs ms ns
        → Leaves (opened_as p name seed create_if_missing r)
    unfolding opened_as Leaves
    opened_as-Leaves create_if_missing w (opened fd, w') q h =
        attach-Leaves false fd w' (posix.opens name fd w w' fs ms ns q h)
    opened_as-Leaves create_if_missing w (refused e, w') q h =
        let after = posix.refuses name existing e w w' fs ms ns q h in
        elim (Bool-cases (create_if_missing && is_enoent e)) [
          | inl make ↦ rw make (created_as-Leaves w' (p.shm_open name exclusive w') refl after)
          | inr give_up ↦ rw give_up after
        ]

    -- `open` either gives a handle over a block with its magic number, with one descriptor and one
    -- mapping more than before, and in a segment that was there or in one that it has created and
    -- filled from the seed; or it gives none, and then no descriptor, mapping or segment is left of it.
    pub open-Leaves :
        (create_if_missing : Bool) (w : p.World)
        → Holds p w fs ms ns
        → Leaves (open_shm p name create_if_missing seed w)
    unfolding open_shm
    open-Leaves create_if_missing w h =
        opened_as-Leaves create_if_missing w (p.shm_open name existing w) refl h
