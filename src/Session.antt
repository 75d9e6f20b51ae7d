-- ===== src/Session.antt =====
-- session.hpp and session.cpp: the table of UDP sessions with its pool of SNAT ports.
-- Sessions are heap objects that the vector `sessions` and both maps point to, so the heap is part
-- of the state: a pointer is an address, the next of which `fresh` gives to `new`.
pub mod Key
pub mod Pool
pub mod Ports
pub mod Index
pub mod Invariant
pub mod Owners
pub mod Keeps
pub mod Expiry
pub mod Lookups
use violet_gw.Prelude.{
  ℕ, suc, zero, Bool, true, false, Option, none, some, List, [], ◌∷◌, ◌++◌, ◌+◌, ◌-◌, ◌%◌, length,
  if◌then◌else◌, Map, ◌||◌, not, timed_out, ◌==◌, leb, u16_mod, lookup, insert, erase, get_elem?,
  nat_eq,
}
use violet_gw.Session.Key.{FlowKey, flow_key_eq}

pub record Session : Type 0 where
  pub forward_key : FlowKey
  pub reverse_key : FlowKey
  pub client_ip : ℕ
  pub client_port : ℕ
  pub vip_ip : ℕ
  pub vip_port : ℕ
  pub upstream_ip : ℕ
  pub upstream_port : ℕ
  pub snat_port : ℕ
  pub last_active_ms : ℕ

-- `free_ports` is the vector, its back first. `port_in_use` is the vector of 65536 flags.
pub record SessionTable : Type 0 where
  pub gateway_ip : ℕ
  pub idle_timeout_ms : ℕ
  pub snat_begin : ℕ
  pub snat_end : ℕ
  pub snat_next : ℕ
  pub heap : Map ℕ Session
  pub fresh : ℕ
  pub sessions : List ℕ
  pub forward : Map FlowKey ℕ
  pub reverse : Map FlowKey ℕ
  pub free_ports : List ℕ
  pub port_in_use : ℕ → Bool

unfoldable pub init : ℕ → ℕ → ℕ → ℕ → SessionTable
init gateway_ip_be idle_timeout_ms snat_port_begin snat_port_end = record {
  gateway_ip = gateway_ip_be;
  idle_timeout_ms = idle_timeout_ms;
  snat_begin = snat_port_begin;
  snat_end =
      if leb snat_port_end snat_port_begin then (snat_port_begin + 1) % u16_mod else snat_port_end;
  snat_next = snat_port_begin;
  heap = [];
  fresh = 0;
  sessions = [];
  forward = [];
  reverse = [];
  free_ports = [];
  port_in_use = λ p. false;
}

unfoldable pub lookup_forward : FlowKey → SessionTable → Option ℕ
lookup_forward key t = lookup key t.forward

unfoldable pub lookup_reverse : FlowKey → SessionTable → Option ℕ
lookup_reverse key t = lookup key t.reverse

unfoldable pub deref : SessionTable → ℕ → Option Session
deref t s = lookup s t.heap

-- `s->last_active_ms = now_ms`. Nothing is written through a pointer to no object.
unfoldable pub touch : ℕ → ℕ → SessionTable → SessionTable
touch s now_ms t = elim (lookup s t.heap) [
  | none ↦ t
  | some o ↦ record t { heap = insert s (record o { last_active_ms = now_ms }) t.heap }
]

abbrev pub set_flag : ℕ → Bool → (ℕ → Bool) → ℕ → Bool
set_flag p b f q = if q == p then b else f q

-- The cursor after `++snat_next_` and its wrap at the end of the range.
unfoldable pub next_port : SessionTable → ℕ
next_port t =
    let bumped = (t.snat_next + 1) % u16_mod in
    if leb t.snat_end bumped then t.snat_begin else bumped

-- The rounds of the scan of `alloc_snat_port`; the result is 0 when the rounds run out.
unfoldable pub scan_ports : ℕ → SessionTable → ℕ × SessionTable
scan_ports zero t = (0, t)
scan_ports (suc tries) t =
    let p = t.snat_next in
    let t' = record t { snat_next = next_port t } in
    let rest = scan_ports tries t' in
    if t.port_in_use p then rest else (p, record t' { port_in_use = set_flag p true t.port_in_use })

-- `static_cast<uint32_t>(snat_end_ - snat_begin_)`: the difference is an `int`.
unfoldable pub snat_tries : SessionTable → ℕ
snat_tries t = (t.snat_end + 0x1_0000_0000 - t.snat_begin) % 0x1_0000_0000

unfoldable pub alloc_from : List ℕ → SessionTable → ℕ × SessionTable
alloc_from [] t = scan_ports (snat_tries t) t
alloc_from (p ∷ ps) t =
    (p, record t { free_ports = ps; port_in_use = set_flag p true t.port_in_use })

unfoldable pub alloc_snat_port : SessionTable → ℕ × SessionTable
alloc_snat_port t = alloc_from t.free_ports t

unfoldable pub free_snat_port : ℕ → SessionTable → SessionTable
free_snat_port port t =
    if port == 0 || leb u16_mod port
    then t
    else if t.port_in_use port
    then record t {
      port_in_use = set_flag port false t.port_in_use;
      free_ports = port ∷ t.free_ports;
    }
    else t

unfoldable pub new_session : SessionTable → FlowKey → ℕ → ℕ → ℕ → ℕ → Session
new_session t client_to_vip upstream_ip_be upstream_port now_ms snat = record {
  forward_key = client_to_vip;
  reverse_key = record {
    src_ip = upstream_ip_be;
    dst_ip = t.gateway_ip;
    src_port = upstream_port;
    dst_port = snat;
    proto = client_to_vip.proto;
  };
  client_ip = client_to_vip.src_ip;
  client_port = client_to_vip.src_port;
  vip_ip = client_to_vip.dst_ip;
  vip_port = client_to_vip.dst_port;
  upstream_ip = upstream_ip_be;
  upstream_port = upstream_port;
  snat_port = snat;
  last_active_ms = now_ms;
}

-- The part of `create` after the port is there.
unfoldable pub install : Session → SessionTable → SessionTable
install s t = record t {
  heap = insert t.fresh s t.heap;
  fresh = t.fresh + 1;
  sessions = t.sessions ++ t.fresh ∷ [];
  forward = insert s.forward_key t.fresh t.forward;
  reverse = insert s.reverse_key t.fresh t.reverse;
}

-- The result is the address of the session, or none for a null pointer.
unfoldable pub create : FlowKey → ℕ → ℕ → ℕ → SessionTable → Option ℕ × SessionTable
create client_to_vip upstream_ip_be upstream_port now_ms t =
    let (snat, t') = alloc_snat_port t in
    if snat == 0 then (none, t') else (
      some t'.fresh,
      install (new_session t' client_to_vip upstream_ip_be upstream_port now_ms snat) t',
    )

-- `std::find` and `sessions_.erase`: the first occurrence goes.
unfoldable pub remove_first : ℕ → List ℕ → List ℕ
remove_first s [] = []
remove_first s (x ∷ xs) = if x == s then xs else x ∷ remove_first s xs

unfoldable pub erase_session : ℕ → Session → SessionTable → SessionTable
erase_session s o t =
    let t' = free_snat_port o.snat_port (record t {
      forward = erase o.forward_key t.forward;
      reverse = erase o.reverse_key t.reverse;
    }) in
    record t' { sessions = remove_first s t.sessions; heap = erase s t.heap }

unfoldable pub is_idle : SessionTable → ℕ → Session → Bool
is_idle t now_ms o = timed_out t.idle_timeout_ms o.last_active_ms now_ms

-- The loop of `expire` at index `i`, with fuel for its rounds. It ends by its own test; a pointer
-- to no object, which `IsValid` excludes, ends it too.
unfoldable pub expire_from : ℕ → ℕ → ℕ → ℕ → SessionTable → ℕ × SessionTable
expire_from zero now_ms i removed t = (removed, t)
expire_from (suc fuel) now_ms i removed t = elim (get_elem? t.sessions i) [
  | none ↦ (removed, t)
  | some s ↦ elim (lookup s t.heap) [
    | none ↦ (removed, t)
    | some o ↦
        let gone = expire_from fuel now_ms i (removed + 1) (erase_session s o t) in
        let stays = expire_from fuel now_ms (i + 1) removed t in
        if is_idle t now_ms o then gone else stays
  ]
]

-- A round shortens the vector or advances the index, so its length is fuel enough.
unfoldable pub expire : ℕ → SessionTable → ℕ × SessionTable
expire now_ms t = expire_from (length t.sessions) now_ms 0 0 t

unfoldable pub size : SessionTable → ℕ
size t = length t.sessions
