-- ===== src/Netif/Eal/Links.antt =====
-- When `dpdk::init` returns: the devices that it starts, and the links that it waits for.
use violet_gw.Prelude.{
  ℕ, zero, suc, Bool, true, false, not, Option, none, some, List, [], ◌∷◌, ◌≡◌, ◌≢◌, ◌⊎◌, refl, ap,
  subst, arith, ◌+◌, ◌-◌, ◌==◌, ◌&&◌, ◌||◌, ◌<◌, if◌then◌else◌, keep, Bool-cases, inl, inr,
}
use violet_gw.Netif.Manager.{is_enabled}
use violet_gw.Netif.Eal.{
  Ethdev, Links, start_dev, start_devs, port_init, is_up, check_link_status, await_links,
  effective_port_mask, init, link_check_attempts,
}

-- One of the devices is enabled, and its link can be read and is up.
pub data LinkUp (links : Links) (mask : ℕ) : List ℕ → Type 0 where
  here :
      {port : ℕ} {rest : List ℕ}
      → is_enabled mask port ≡ true
      → links port ≡ some true
      → LinkUp links mask (port ∷ rest)
  there : {port : ℕ} {rest : List ℕ} → LinkUp links mask rest → LinkUp links mask (port ∷ rest)

link_is_up : (link : Option Bool) → is_up link ≡ true → link ≡ some true
link_is_up none e = cc e
link_is_up (some up) e = ap some e

check_link_status-finds :
    (links : Links) (mask : ℕ) (devices : List ℕ)
    → check_link_status devices links mask ≡ true
    → LinkUp links mask devices
unfolding check_link_status
check_link_status-finds links mask [] e = cc e
check_link_status-finds links mask (port ∷ rest) e = elim (Bool-cases (is_enabled mask port)) [
  | inl on ↦ elim (Bool-cases (is_up (links port))) [
    | inl up ↦ here on (link_is_up (links port) up)
    | inr down ↦ there (check_link_status-finds links mask rest (ground arith))
  ]
  | inr off ↦ there (check_link_status-finds links mask rest (ground arith))
]

check_link_status-eq-true :
    (links : Links) (mask : ℕ) (devices : List ℕ)
    → LinkUp links mask devices
    → check_link_status devices links mask ≡ true
unfolding check_link_status
check_link_status-eq-true links mask [] x = elim x [ ]
check_link_status-eq-true links mask (port ∷ rest) (here on up) = rw on (rw up refl)
check_link_status-eq-true links mask (port ∷ rest) (there later) =
    let e = check_link_status-eq-true links mask rest later in ground arith

module _ (devices : List ℕ) (links : ℕ → Links) (mask : ℕ) where
  up_at : ℕ → Bool
  up_at attempt = check_link_status devices (links attempt) mask

  -- At the attempt there is an enabled device whose link is up.
  abbrev pub LinkAt : ℕ → Type 0
  LinkAt attempt = LinkUp (links attempt) mask devices

  up_at-LinkAt : (attempt : ℕ) → up_at attempt ≡ true → LinkAt attempt
  unfolding up_at
  up_at-LinkAt attempt e = check_link_status-finds (links attempt) mask devices e

  down_at-LinkAt : (attempt : ℕ) → up_at attempt ≡ false → ¬ LinkAt attempt
  unfolding up_at
  down_at-LinkAt attempt e up = cc (e, check_link_status-eq-true (links attempt) mask devices up)

  -- The loop ends with the first attempt that finds a link, before which each one has slept.
  pub FirstUp : ℕ → ℕ → ℕ → Type 0
  FirstUp attempt n slept =
      (slept < n) × LinkAt (attempt + slept) × ((k : ℕ) → k < slept → ¬ LinkAt (attempt + k))

  await_links-FirstUp :
      (n attempt slept : ℕ)
      → await_links devices links mask attempt n ≡ (true, slept)
      → FirstUp attempt n slept
  unfolding await_links FirstUp up_at
  await_links-FirstUp zero attempt slept e = cc (ap (λ r. r.0) e)
  await_links-FirstUp (suc n) attempt slept e = elim (Bool-cases (up_at attempt)) [
    | inl up ↦
        let z : 0 ≡ slept = ap (λ r. r.1) (rw (up, await_links) at e) in
        let here : attempt ≡ attempt + slept = omega arith in
        (omega arith, subst LinkAt here (up_at-LinkAt attempt up), λ k h. absurd (omega arith))
    | inr down ↦ elim (Bool-cases (n == 0)) [
      | inl last ↦ cc (ap (λ r. r.0) (rw last at (rw (down, await_links) at e)))
      | inr more ↦
          let e' = rw more at (rw (down, await_links) at e) in
          let r = await_links devices links mask (attempt + 1) n in
          let ok : r.0 ≡ true = ap (λ x. x.0) e' in
          let count : r.1 + 1 ≡ slept = ap (λ x. x.1) e' in
          let (few, up, before) = await_links-FirstUp n (attempt + 1) r.1 (ap (λ b. (b, r.1)) ok) in
          let there : attempt + 1 + r.1 ≡ attempt + slept = omega (arith, count) in
          (
            omega (arith, few, count),
            subst LinkAt there up,
            λ k h. elim (Bool-cases (k == 0)) [
              | inl z ↦
                  let q : attempt ≡ attempt + k = ground arith in
                  subst (λ j. ¬ LinkAt j) q (down_at-LinkAt attempt down)
              | inr later ↦
                  let q : attempt + 1 + (k - 1) ≡ attempt + k = ground arith in
                  subst (λ j. ¬ LinkAt j) q (before (k - 1) (ground (arith, count)))
            ],
          )
    ]
  ]

  await_links-false :
      (n attempt k : ℕ)
      → (await_links devices links mask attempt n).0 ≡ false
      → k < n
      → ¬ LinkAt (attempt + k)
  unfolding await_links up_at
  await_links-false zero attempt k e h = absurd (omega arith)
  await_links-false (suc n) attempt k e h = elim (Bool-cases (up_at attempt)) [
    | inl up ↦ cc (rw (up, await_links) at e)
    | inr down ↦ elim (Bool-cases (k == 0)) [
      | inl z ↦
          let q : attempt ≡ attempt + k = ground arith in
          subst (λ j. ¬ LinkAt j) q (down_at-LinkAt attempt down)
      | inr later ↦
          let q : attempt + 1 + (k - 1) ≡ attempt + k = ground arith in
          let more : (n == 0) ≡ false = ground arith in
          subst (λ j. ¬ LinkAt j) q
            (await_links-false n (attempt + 1) (k - 1) (rw more at (rw (down, await_links) at e))
              (ground arith))
    ]
  ]

-- All enabled ones of the devices start.
abbrev pub all_start : Ethdev → ℕ → List ℕ → Bool
all_start eth mask [] = true
all_start eth mask (port ∷ rest) =
    (not (is_enabled mask port) || start_dev eth port) && all_start eth mask rest

start_devs_lem :
    (eth : Ethdev) (mask : ℕ) (devices : List ℕ)
    → start_devs eth mask devices
      ≡ (if all_start eth mask devices then some (keep (is_enabled mask) devices) else none)
unfolding start_devs
start_devs_lem eth mask [] = refl
start_devs_lem eth mask (port ∷ rest) = rw (start_devs_lem eth mask rest) (ground arith)

-- What a run of `dpdk::init` shows of the devices and their links.
pub Shows : Bool → Bool → Ethdev → List ℕ → (ℕ → Links) → ℕ → Option (List ℕ × ℕ) → Type 0
Shows eal pool eth devices links mask (some (ports, slept)) =
    (eal ≡ true)
    × (pool ≡ true)
    × (devices ≢ [])
    × (all_start eth mask devices ≡ true)
    × (ports ≡ keep (is_enabled mask) devices)
    × FirstUp devices links mask 1 link_check_attempts slept
Shows eal pool eth devices links mask none =
    (eal ≡ false)
    ⊎ ((pool ≡ false)
        ⊎ ((devices ≡ [])
            ⊎ ((all_start eth mask devices ≡ false)
                ⊎ ((k : ℕ) → k < link_check_attempts → ¬ LinkAt devices links mask (1 + k)))))

-- `dpdk::init` returns if and only if the EAL, the pool and all enabled devices start, there is a
-- device at all, and one of four attempts finds a link of an enabled device up; it exits otherwise.
-- Where it returns it has started the enabled devices in their order, and has slept a second after
-- each attempt before the first with a link.
pub init-Shows :
    (eal pool : Bool) (eth : Ethdev) (devices : List ℕ) (links : ℕ → Links) (port_mask : ℕ)
    → Shows eal pool eth devices links
        (effective_port_mask port_mask)
        (init eal pool eth devices links port_mask)
unfolding init Shows port_init
init-Shows false pool eth devices links port_mask = inl refl
init-Shows true false eth devices links port_mask = inr (inl refl)
init-Shows true true eth [] links port_mask = inr (inr (inl refl))
init-Shows true true eth (port ∷ rest) links port_mask =
    let devices = port ∷ rest in
    let mask = effective_port_mask port_mask in
    let r = await_links devices links mask 1 link_check_attempts in
    let s = start_devs_lem eth mask devices in
    elim (Bool-cases (all_start eth mask devices)) [
      | inr bad ↦ rw (rw bad at s, init, port_init) (inr (inr (inr (inl bad))))
      | inl good ↦ elim (Bool-cases r.0) [
        | inl ok ↦
            rw (rw good at s, init, port_init)
              (rw ok (
                refl,
                refl,
                λ e. cc e,
                good,
                refl,
                await_links-FirstUp devices links mask link_check_attempts 1 r.1
                    (ap (λ b. (b, r.1)) ok),
              ))
        | inr down ↦
            rw (rw good at s, init, port_init)
              (rw down (
                inr (
                  inr (
                    inr (
                      inr (λ k h.
                        await_links-false devices links mask link_check_attempts 1 k down h))))))
      ]
    ]
