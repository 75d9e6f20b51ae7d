-- ===== src/Session/Expiry.antt =====
-- The loop of `expire` of session.cpp.
use violet_gw.Prelude.{
  ℕ, zero, suc, true, false, none, some, List, [], ◌∷◌, ◌≡◌, refl, arith, ◌==◌, ◌≤◌, ◌+◌,
  if◌then◌else◌, nat_eq, lookup, lookup-erase, Bool-cases, Option-cases, inl, inr, ◌⊎◌, length,
  when, not, take, get_elem?, contains, Once,
}
use native.Mathlib.Numerals.{add-one}
use violet_gw.Session.{
  Session, SessionTable, remove_first, erase_session, is_idle, expire_from, expire,
}
use violet_gw.Session.Key.{flow_key_eq}
use violet_gw.Session.Invariant.{Holds, IsValid}
use violet_gw.Session.Keeps.{erased, erase_session_lem, erase_session-IsValid}

-- What a run of the loop makes of the table `t`, `removed` being its count so far.
pub record Expires (now_ms removed : ℕ) (t : SessionTable) (r : ℕ × SessionTable) : Type 0 where
  pub valid : IsValid r.1
  pub kept : (a : ℕ) → lookup a r.1.heap ≡ when (λ o. not (is_idle t now_ms o)) (lookup a t.heap)
  pub counted : r.0 + length r.1.sessions ≡ removed + length t.sessions
  pub timeout : r.1.idle_timeout_ms ≡ t.idle_timeout_ms
  pub gateway : r.1.gateway_ip ≡ t.gateway_ip
  pub range : (r.1.snat_begin ≡ t.snat_begin) × (r.1.snat_end ≡ t.snat_end)

contains_of_get_elem? : (xs : List ℕ) (i s : ℕ) → get_elem? xs i ≡ some s → contains s xs ≡ true
contains_of_get_elem? [] i s h = cc
contains_of_get_elem? (x ∷ xs) zero s h = ground arith
contains_of_get_elem? (x ∷ xs) (suc i) s h = ground (arith, contains_of_get_elem? xs i s h)

length-remove_first :
    (xs : List ℕ) (s : ℕ) → contains s xs ≡ true → suc (length (remove_first s xs)) ≡ length xs
unfolding remove_first
length-remove_first [] s h = cc
length-remove_first (x ∷ xs) s h = ground (arith, length-remove_first xs s)

take-remove_first :
    (xs : List ℕ) (i s : ℕ)
    → Once xs
    → get_elem? xs i ≡ some s
    → take i (remove_first s xs) ≡ take i xs
unfolding remove_first
take-remove_first [] i s o h = cc
take-remove_first (x ∷ xs) zero s o h = refl
take-remove_first (x ∷ xs) (suc i) s o h =
    ground (arith, contains_of_get_elem? xs i s h, take-remove_first xs i s o.1 h)

contains-take-suc :
    (xs : List ℕ) (i s a : ℕ)
    → get_elem? xs i ≡ some s
    → contains a (take (suc i) xs) ≡ true
    → (contains a (take i xs) ≡ true) ⊎ (a ≡ s)
contains-take-suc [] i s a h c = cc
contains-take-suc (x ∷ xs) zero s a h c = ground arith
contains-take-suc (x ∷ xs) (suc i) s a h c = ground (arith, contains-take-suc xs i s a h)

take_past : (xs : List ℕ) (i : ℕ) → get_elem? xs i ≡ none → (take i xs ≡ xs) × (length xs ≤ i)
take_past [] zero h = (refl, omega arith)
take_past [] (suc i) h = (refl, omega arith)
take_past (x ∷ xs) zero h = cc
take_past (x ∷ xs) (suc i) h = ground (arith, take_past xs i h)

-- The sessions that the loop has passed are not idle.
Passed : ℕ → ℕ → SessionTable → Type 0
Passed now_ms i t =
    (a : ℕ) (o : Session)
    → Holds t a o
    → contains a (take i t.sessions) ≡ true
    → is_idle t now_ms o ≡ false

Expires-end :
    (now_ms i removed : ℕ) (t : SessionTable)
    → IsValid t
    → Passed now_ms i t
    → get_elem? t.sessions i ≡ none
    → Expires now_ms removed t (removed, t)
unfolding Passed
Expires-end now_ms i removed t v passed end = record {
  valid = v;
  kept = λ a. elim (Option-cases (lookup a t.heap)) [
    | inl e ↦ rw e refl
    | inr (o, e) ↦
        let c : contains a (take i t.sessions) ≡ true =
          rw ((take_past t.sessions i end).0) (v.vector.listed a o e) in
        rw (e, passed a o e c) refl
  ];
  counted = refl;
  timeout = refl;
  gateway = refl;
  range = (refl, refl);
}

Passed-stay :
    (now_ms i s : ℕ) (o : Session) (t : SessionTable)
    → Passed now_ms i t
    → get_elem? t.sessions i ≡ some s
    → Holds t s o
    → is_idle t now_ms o ≡ false
    → Passed now_ms (suc i) t
unfolding Passed
Passed-stay now_ms i s o t passed here held stays a p e c =
    elim (contains-take-suc t.sessions i s a here c) [
      | inl before ↦ passed a p e before
      | inr same ↦ ground arith
    ]

Passed-erased :
    (now_ms i s : ℕ) (o : Session) (t : SessionTable)
    → IsValid t
    → Passed now_ms i t
    → get_elem? t.sessions i ≡ some s
    → Passed now_ms i (erased s o t)
unfolding Passed is_idle
Passed-erased now_ms i s o t v passed here a p e c =
    passed a p (ground (arith, lookup-erase s a t.heap))
      (rw (take-remove_first t.sessions i s v.vector.once here) at c)

get_elem?_past : (xs : List ℕ) (i : ℕ) → length xs ≤ i → get_elem? xs i ≡ none
get_elem?_past [] i h = refl
get_elem?_past (x ∷ xs) zero h = absurd (omega arith)
get_elem?_past (x ∷ xs) (suc i) h = get_elem?_past xs i (omega arith)

expire_from-end :
    (fuel now_ms i removed : ℕ) (t : SessionTable)
    → get_elem? t.sessions i ≡ none
    → expire_from fuel now_ms i removed t ≡ (removed, t)
unfolding expire_from
expire_from-end zero now_ms i removed t e = refl
expire_from-end (suc fuel) now_ms i removed t e = rw (e, expire_from) refl

expire_from-suc :
    (fuel now_ms i removed s : ℕ) (o : Session) (t : SessionTable)
    → get_elem? t.sessions i ≡ some s
    → Holds t s o
    → expire_from (suc fuel) now_ms i removed t ≡ (
        if is_idle t now_ms o
        then expire_from fuel now_ms i (removed + 1) (erase_session s o t)
        else expire_from fuel now_ms (i + 1) removed t)
unfolding expire_from
expire_from-suc fuel now_ms i removed s o t e held =
    rw (e, expire_from) (rw (held, expire_from) refl)

-- A dropped session is not found again, and the others are as before.
Expires-drop :
    (now_ms removed s : ℕ) (o : Session) (t : SessionTable) (r : ℕ × SessionTable)
    → IsValid t
    → Holds t s o
    → is_idle t now_ms o ≡ true
    → Expires now_ms (removed + 1) (erased s o t) r
    → Expires now_ms removed t r
unfolding is_idle
Expires-drop now_ms removed s o t r v held idle x = record {
  valid = x.valid;
  kept = λ a. elim (Bool-cases (s == a)) [
    | inl same ↦ rw (x.kept a) (ground (arith, lookup-erase s a t.heap))
    | inr other ↦ rw (x.kept a, lookup-erase s a t.heap) (rw other refl)
  ];
  counted = omega (arith, x.counted, length-remove_first t.sessions s (v.vector.listed s o held));
  timeout = x.timeout;
  gateway = x.gateway;
  range = x.range;
}

expire_from-Expires :
    (fuel now_ms i removed : ℕ) (t : SessionTable)
    → IsValid t
    → Passed now_ms i t
    → length t.sessions ≤ i + fuel
    → Expires now_ms removed t (expire_from fuel now_ms i removed t)
expire_from-Expires zero now_ms i removed t v passed enough =
    let e = get_elem?_past t.sessions i (omega arith) in
    rw (expire_from-end zero now_ms i removed t e) (Expires-end now_ms i removed t v passed e)
expire_from-Expires (suc fuel) now_ms i removed t v passed enough =
    elim (Option-cases (get_elem? t.sessions i)) [
      | inl e ↦
          rw (expire_from-end (suc fuel) now_ms i removed t e)
            (Expires-end now_ms i removed t v passed e)
      | inr (s, e) ↦
          let inside = contains_of_get_elem? t.sessions i s e in
          let (o, held) = v.vector.stored s inside in
          rw (expire_from-suc fuel now_ms i removed s o t e held)
            (elim (Bool-cases (is_idle t now_ms o)) [
              | inl idle ↦
                  rw (idle, erase_session_lem s o t v held)
                    (Expires-drop now_ms removed s o t _ v held idle (
                      expire_from-Expires fuel now_ms i (removed + 1) (erased s o t)
                        (rw (erase_session_lem s o t v held) at
                          (erase_session-IsValid s o t v held))
                        (Passed-erased now_ms i s o t v passed e)
                        (omega (arith, length-remove_first t.sessions s inside))))
              | inr stays ↦ rw stays (
                  expire_from-Expires fuel now_ms (i + 1) removed t v
                    (rw add-one (Passed-stay now_ms i s o t passed e held stays)) (omega arith))
            ])
    ]

-- `expire` on a valid table looks at every session: it drops exactly the idle ones, counts them, and leaves the
-- table valid, with the other sessions and the settings as they were.
pub expire-Expires :
    (now_ms : ℕ) (t : SessionTable) → IsValid t → Expires now_ms 0 t (expire now_ms t)
unfolding expire
expire-Expires now_ms t v =
    expire_from-Expires (length t.sessions) now_ms 0 0 t v (unfold Passed in λ a o e c. cc)
      (omega arith)
