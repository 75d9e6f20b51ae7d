-- ===== src/Datapath/Arguments.antt =====
-- What becomes of the arguments of the command line.
use violet_gw.Prelude.{
  ℕ, Bool, true, false, List, [], ◌∷◌, ◌≡◌, refl, ap, ◌&&◌, Bool-cases, inl, inr,
}
use violet_gw.Datapath.{str_eq}
use violet_gw.Datapath.Flags.{is_vgw_flag, takes_next, end_mark, split_from, split_argv}

-- The third list has the entries of the first two, each of them in its order.
pub data Interleaves : List (List ℕ) → List (List ℕ) → List (List ℕ) → Type 0 where
  both_empty : Interleaves [] [] []
  from_left :
      {x : List ℕ} {xs ys zs : List (List ℕ)}
      → Interleaves xs ys zs
      → Interleaves (x ∷ xs) ys (x ∷ zs)
  from_right :
      {y : List ℕ} {xs ys zs : List (List ℕ)}
      → Interleaves xs ys zs
      → Interleaves xs (y ∷ ys) (y ∷ zs)

all_right : (ys : List (List ℕ)) → Interleaves [] ys ys
all_right [] = Interleaves.both_empty
all_right (y ∷ ys) = Interleaves.from_right (all_right ys)

split_from-Interleaves :
    (waits : Bool) (args : List (List ℕ))
    → Interleaves (split_from waits args).vgw_argv (split_from waits args).eal_argv args
unfolding split_from
split_from-Interleaves waits [] = Interleaves.both_empty
split_from-Interleaves true (arg ∷ rest) = Interleaves.from_left (split_from-Interleaves false rest)
split_from-Interleaves false (arg ∷ rest) = elim (Bool-cases (str_eq arg end_mark)) [
  | inl on ↦ rw on (Interleaves.from_right (all_right rest))
  | inr off ↦
      let r = split_from-Interleaves (is_vgw_flag arg && takes_next arg) rest in
      elim (Bool-cases (is_vgw_flag arg)) [
        | inl flag ↦ rw (off, flag) (Interleaves.from_left (rw flag at r))
        | inr other ↦ rw (off, other) (Interleaves.from_right (rw other at r))
      ]
]

split_from-twice :
    (waits : Bool) (args : List (List ℕ))
    → split_from false (split_from waits args).eal_argv
      ≡ record { vgw_argv = []; eal_argv = (split_from waits args).eal_argv }
unfolding split_from
split_from-twice waits [] = refl
split_from-twice true (arg ∷ rest) = split_from-twice false rest
split_from-twice false (arg ∷ rest) = elim (Bool-cases (str_eq arg end_mark)) [
  | inl on ↦ rw on (rw on refl)
  | inr off ↦
      let r = split_from-twice (is_vgw_flag arg && takes_next arg) rest in
      elim (Bool-cases (is_vgw_flag arg)) [
        | inl flag ↦ rw (off, flag) (rw flag at r)
        | inr other ↦
            rw (off, other)
              (rw (off, other)
                (ap (λ x. record { vgw_argv = x.vgw_argv; eal_argv = arg ∷ x.eal_argv })
                  (rw other at r)))
      ]
]

-- Each argument goes to the flags or to the EAL, after the name of the program and in its order; and
-- the arguments of the EAL, split once more, are all for the EAL again.
split_argv_lem :
    (program : List ℕ) (args : List (List ℕ))
    → (v : List (List ℕ)) × (e : List (List ℕ)) × (split_argv program args
        ≡ record { vgw_argv = program ∷ v; eal_argv = program ∷ e })
      × Interleaves v e args
      × (split_argv program e ≡ record { vgw_argv = program ∷ []; eal_argv = program ∷ e })
unfolding split_argv
split_argv_lem program args =
    let r = split_from false args in
    (
      r.vgw_argv,
      r.eal_argv,
      refl,
      split_from-Interleaves false args,
      ap (λ x. record { vgw_argv = program ∷ x.vgw_argv; eal_argv = program ∷ x.eal_argv })
          (split_from-twice false args),
    )
