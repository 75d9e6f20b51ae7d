-- ===== src/Observe/Probes.antt =====
-- `main` of tools/ebpf/rtc_io.c and of tools/ebpf/pipeline_io.c, which differ in their two symbols.
-- getopt, libbpf and the skeleton that is generated from the probes are a parameter.
use violet_gw.Prelude.{
  ℕ, Bool, true, false, List, [], ◌∷◌, ◌≡◌, refl, ◌⊎◌, inl, inr, Bool-cases, if◌then◌else◌, not,
}
use violet_gw.Prelude.Print.{text}

-- What getopt returns in a turn of the loop: `b` and `p` with their argument, `h`, or anything else.
pub data Choice : Type 0 where
  binary pid : List ℕ → Choice
  help unknown : Choice

-- The calls that act on the skeleton, in their order.
pub data Call : Type 0 where
  opens loads destroys observes : Call
  attaches : List ℕ → Call

-- The answers to the calls; a pid is what `atoi` makes of a text.
pub record Libbpf (P : Type 0) : Type 0 where
  pub atoi : List ℕ → P
  pub any_pid : P
  pub can_read : List ℕ → Bool
  pub can_open : Bool
  pub can_load : Bool
  pub can_attach : List ℕ → P → List ℕ → Bool
  pub observed : ℕ

module _ {P : Type 0} (bpf : Libbpf P) where
  pub record Settings : Type 0 where
    pub binary : List ℕ
    pub pid : P

  -- The loop over the options, or the result of the program.
  unfoldable pub choose : List Choice → Settings → Settings ⊎ ℕ
  choose [] s = inl s
  choose (Choice.binary b ∷ rest) s = choose rest (record s { binary = b })
  choose (Choice.pid p ∷ rest) s = choose rest (record s { pid = bpf.atoi p })
  choose (help ∷ rest) s = inr 0
  choose (unknown ∷ rest) s = inr 1

  -- From the loaded skeleton on: both probes are attached, or the skeleton is destroyed.
  unfoldable pub attach_both : List ℕ → List ℕ → Settings → List Call × ℕ
  attach_both first second s =
      if not (bpf.can_attach first s.pid s.binary)
      then (attaches first ∷ destroys ∷ [], 1)
      else if not (bpf.can_attach second s.pid s.binary)
      then (attaches first ∷ attaches second ∷ destroys ∷ [], 1)
      else (attaches first ∷ attaches second ∷ observes ∷ destroys ∷ [], bpf.observed)

  abbrev pub after : Call → List Call × ℕ → List Call × ℕ
  after c (cs, code) = (c ∷ cs, code)

  unfoldable pub with_settings : List ℕ → List ℕ → Settings → List Call × ℕ
  unfolding attach_both
  with_settings first second s =
      if not (bpf.can_read s.binary)
      then ([], 1)
      else if not bpf.can_open
      then (opens ∷ [], 1)
      else if not bpf.can_load
      then (opens ∷ loads ∷ destroys ∷ [], 1)
      else after opens (after loads (attach_both first second s))

  unfoldable pub main_with : List ℕ → List ℕ → List Choice → List Call × ℕ
  unfolding with_settings
  main_with first second choices =
      elim (choose choices (record { binary = text "build/bin/Src/vgw"; pid = bpf.any_pid })) [
        | inl s ↦ with_settings first second s
        | inr code ↦ ([], code)
      ]

  unfoldable pub rtc_main : List Choice → List Call × ℕ
  rtc_main choices =
      main_with (text "_ZN3vgw9DpdkNetif10recv_burstEPP8rte_mbufj")
        (text "_ZN3vgw9DpdkNetif10send_burstEPP8rte_mbufj") choices

  unfoldable pub pipeline_main : List Choice → List Call × ℕ
  pipeline_main choices =
      main_with (text "_ZN3vgw4dpdk8rx_burstEttPP8rte_mbuft")
        (text "_ZN3vgw4dpdk8tx_burstEttPP8rte_mbuft") choices

  -- The calls are in order: the skeleton is used while it is there, and destroyed in the end. The
  -- first argument is whether it is there.
  abbrev pub in_order : Bool → List Call → Bool
  in_order there [] = not there
  in_order false (opens ∷ cs) = in_order bpf.can_open cs
  in_order false (c ∷ cs) = false
  in_order true (opens ∷ cs) = false
  in_order true (loads ∷ cs) = in_order true cs
  in_order true (attaches p ∷ cs) = in_order true cs
  in_order true (observes ∷ cs) = in_order true cs
  in_order true (destroys ∷ cs) = in_order false cs

  abbrev pub observing : List Call → Bool
  observing [] = false
  observing (observes ∷ cs) = true
  observing (opens ∷ cs) = observing cs
  observing (loads ∷ cs) = observing cs
  observing (attaches p ∷ cs) = observing cs
  observing (destroys ∷ cs) = observing cs

  -- The result where nothing is observed: 0 where the first option that is not a setting asks for help.
  abbrev pub exit_code : List Choice → ℕ
  exit_code [] = 1
  exit_code (Choice.binary b ∷ rest) = exit_code rest
  exit_code (Choice.pid p ∷ rest) = exit_code rest
  exit_code (help ∷ rest) = 0
  exit_code (unknown ∷ rest) = 1

  -- Calls in order, with the result that they tell.
  abbrev pub Orderly : ℕ → List Call × ℕ → Type 0
  Orderly otherwise (cs, code) =
      (in_order false cs ≡ true) × (code ≡ (if observing cs then bpf.observed else otherwise))

  choose-cases :
      (choices : List Choice) (s : Settings)
      → ((s' : Settings) × (choose choices s ≡ inl s') × (exit_code choices ≡ 1))
        ⊎ (choose choices s ≡ inr (exit_code choices))
  unfolding choose
  choose-cases [] s = inl (s, refl, refl)
  choose-cases (Choice.binary b ∷ rest) s = choose-cases rest (record s { binary = b })
  choose-cases (Choice.pid p ∷ rest) s = choose-cases rest (record s { pid = bpf.atoi p })
  choose-cases (help ∷ rest) s = inr refl
  choose-cases (unknown ∷ rest) s = inr refl

  with_settings-Orderly :
      (first second : List ℕ) (s : Settings) → Orderly 1 (with_settings first second s)
  unfolding with_settings
  with_settings-Orderly first second s = elim (Bool-cases (bpf.can_read s.binary)) [
    | inr unreadable ↦ rw unreadable (refl, refl)
    | inl readable ↦ elim (Bool-cases bpf.can_open) [
      | inr closed ↦ rw readable (rw closed (refl, refl))
      | inl made ↦ elim (Bool-cases bpf.can_load) [
        | inr unloaded ↦ rw readable (rw made (rw unloaded (refl, refl)))
        | inl loaded ↦ elim (Bool-cases (bpf.can_attach first s.pid s.binary)) [
          | inr missing ↦ rw readable (rw made (rw loaded (rw missing (refl, refl))))
          | inl one ↦ elim (Bool-cases (bpf.can_attach second s.pid s.binary)) [
            | inr missing ↦ rw readable (rw made (rw loaded (rw one (rw missing (refl, refl)))))
            | inl two ↦ rw readable (rw made (rw loaded (rw one (rw two (refl, refl)))))
          ]
        ]
      ]
    ]
  ]

  -- For any options and answers, the program uses the skeleton only while it is there and destroys it
  -- before it ends. Its result is that of `observe_loop` where it observes, and else 0 where help was
  -- asked for, and 1.
  pub main_with-Orderly :
      (first second : List ℕ) (choices : List Choice)
      → Orderly (exit_code choices) (main_with first second choices)
  unfolding main_with
  main_with-Orderly first second choices =
      elim (choose-cases choices
        (record { binary = text "build/bin/Src/vgw"; pid = bpf.any_pid })) [
          | inl (s, chosen, one) ↦
              rw (chosen, main_with) (rw one (with_settings-Orderly first second s))
          | inr ended ↦ rw (ended, main_with) (refl, refl)
        ]
