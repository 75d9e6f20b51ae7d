-- ===== src/Upstream/Balance.antt =====
-- The choices of `pick` of upstream.cpp under its two policies.
use violet_gw.Prelude.{
  ℕ, zero, suc, Option, none, some, List, [], ◌∷◌, ◌≡◌, ◌⊎◌, inl, inr, refl, arith, ◌+◌, ◌-◌, ◌%◌,
  ◌<◌, length, get_elem?, get_elem?-lt, u64_mod, ap, sym, ◌∙◌,
}
use native.Mathlib.Nat.{mod-lt, add-zero, mod-add-mod, mod-eq_of_lt, add-mod_right}
use native.Mathlib.Decide.{dec_lt}
use violet_gw.Session.Key.{FlowKey}
use violet_gw.Upstream.{UpstreamEndpoint, BalancePolicy, UpstreamTable, pick_index, pick_from, pick}

pick_index-lt :
    (policy : BalancePolicy) (key : FlowKey) (t : UpstreamTable)
    → 0 < length t.nodes
    → (pick_index policy key t).0 < length t.nodes
unfolding pick_index
pick_index-lt BalancePolicy.rr key t h = mod-lt _ h
pick_index-lt BalancePolicy.mod' key t h = mod-lt _ h

pick_from-nodes :
    (ns : List UpstreamEndpoint) (key : FlowKey) (t : UpstreamTable)
    → t.nodes ≡ ns
    → 0 < length ns
    → pick_from ns key t
      ≡ (get_elem? t.nodes (pick_index t.policy key t).0, (pick_index t.policy key t).1)
unfolding pick_from
pick_from-nodes [] key t e h = absurd (omega arith)
pick_from-nodes (n ∷ ns) key t e h =
    let r = pick_index t.policy key t in ap (λ l. (get_elem? l r.0, r.1)) (sym e)

-- On a list with endpoints, `pick` looks up the index that the policy computes.
pub pick-nodes :
    (key : FlowKey) (t : UpstreamTable)
    → 0 < length t.nodes
    → pick key t ≡ (get_elem? t.nodes (pick_index t.policy key t).0, (pick_index t.policy key t).1)
unfolding pick
pick-nodes key t h = pick_from-nodes t.nodes key t refl h

pick_from-nil :
    (ns : List UpstreamEndpoint) (key : FlowKey) (t : UpstreamTable)
    → length ns ≡ 0
    → pick_from ns key t ≡ (none, t)
unfolding pick_from
pick_from-nil [] key t h = refl
pick_from-nil (n ∷ ns) key t h = absurd (omega arith)

pick-nil : (key : FlowKey) (t : UpstreamTable) → length t.nodes ≡ 0 → pick key t ≡ (none, t)
unfolding pick
pick-nil key t h = pick_from-nil t.nodes key t h

-- `pick` on an empty list picks nothing and does not count; on any other list it picks an endpoint
-- that stands in the list, at an index below its length.
pick-cases :
    (key : FlowKey) (t : UpstreamTable)
    → ((length t.nodes ≡ 0) × (pick key t ≡ (none, t)))
      ⊎ ((i : ℕ) × (ep : UpstreamEndpoint) × (i < length t.nodes)
          × (get_elem? t.nodes i ≡ some ep)
          × ((pick key t).0 ≡ some ep))
pick-cases key t = elim (dec_lt 0 (length t.nodes)) [
  | yes h ↦
      let lt = pick_index-lt t.policy key t h in
      let (ep, e) = get_elem?-lt t.nodes _ lt in
      inr (
        _,
        ep,
        lt,
        e,
        ap (λ (r : Option UpstreamEndpoint × UpstreamTable). r.0) (pick-nodes key t h) ∙ e,
      )
  | no h ↦ inl (omega arith, pick-nil key t (omega arith))
]

-- Under `mod` a flow goes to the same endpoint at every pick, until the control plane publishes.
pub pick-mod :
    (key : FlowKey) (t : UpstreamTable) → t.policy ≡ BalancePolicy.mod' → (pick key t).1 ≡ t
pick-mod key t e = elim (dec_lt 0 (length t.nodes)) [
  | yes h ↦ rw (pick-nodes key t h, e) (unfold pick_index in refl)
  | no h ↦ rw (pick-nil key t (omega arith)) refl
]

-- The results of picks in a row, and the table after them.
unfoldable pub picks : List FlowKey → UpstreamTable → List (Option UpstreamEndpoint)
picks [] t = []
picks (k ∷ ks) t = let (ep, t') = pick k t in ep ∷ picks ks t'

pick-rr :
    (key : FlowKey) (t : UpstreamTable)
    → t.policy ≡ BalancePolicy.rr
    → 0 < length t.nodes
    → t.rr_counter + 1 < u64_mod
    → pick key t ≡ (
      get_elem? t.nodes (t.rr_counter % length t.nodes),
      record t { rr_counter = t.rr_counter + 1 },
    )
pick-rr key t e h k = rw (pick-nodes key t h, e) (unfold pick_index in ground arith)

-- Under `rr`, while the counter does not wrap, the picks go round the list from the counter on.
pub picks-rr :
    (keys : List FlowKey) (t : UpstreamTable) (j : ℕ)
    → t.policy ≡ BalancePolicy.rr
    → 0 < length t.nodes
    → t.rr_counter + length keys < u64_mod
    → j < length keys
    → get_elem? (picks keys t) j ≡ some (get_elem? t.nodes ((t.rr_counter + j) % length t.nodes))
unfolding picks
picks-rr [] t j e h k l = absurd (omega arith)
picks-rr (key ∷ keys) t zero e h k l = rw (pick-rr key t e h (omega arith), add-zero) refl
picks-rr (key ∷ keys) t (suc j) e h k l = rw (pick-rr key t e h (omega arith)) (
    picks-rr keys (record t { rr_counter = t.rr_counter + 1 }) j e h (omega arith) (omega arith)
    ∙ ap (λ i. some (get_elem? t.nodes (i % length t.nodes))) (omega arith))

round_offset : (c n i : ℕ) → i < n → (j : ℕ) × (j < n) × ((c + j) % n ≡ i)
round_offset c n i h = elim (dec_lt i (c % n)) [
  | yes p ↦
      let r = mod-lt c {m = n} (omega arith) in
      let e : c % n + (i + n - c % n) ≡ i + n = omega arith in
      (
        i + n - c % n,
        omega arith,
        sym (mod-add-mod c n _) ∙ ap (λ x. x % n) e ∙ add-mod_right i n ∙ mod-eq_of_lt h,
      )
  | no p ↦
      let e : c % n + (i - c % n) ≡ i = omega arith in
      (i - c % n, omega arith, sym (mod-add-mod c n _) ∙ ap (λ x. x % n) e ∙ mod-eq_of_lt h)
]

-- Under `rr`, while the counter does not wrap, any round of as many picks as there are endpoints
-- picks every one of them.
pub picks-rr_fair :
    (keys : List FlowKey) (t : UpstreamTable) (i : ℕ)
    → t.policy ≡ BalancePolicy.rr
    → length keys ≡ length t.nodes
    → t.rr_counter + length keys < u64_mod
    → i < length t.nodes
    → (j : ℕ) × (j < length keys) × (get_elem? (picks keys t) j ≡ some (get_elem? t.nodes i))
picks-rr_fair keys t i e all k l =
    let (j, lt, hit) = round_offset t.rr_counter (length t.nodes) i l in
    (
      j,
      omega arith,
      picks-rr keys t j e (omega arith) k (omega arith) ∙ ap (λ x. some (get_elem? t.nodes x)) hit,
    )
