-- ===== src/PortManager.antt =====
-- `PortManager` of src/common/common_port_manager.cpp: the UDP ports that the receivers bind. Each
-- method runs under one mutex, so a history is a list of calls.
pub mod Sets
pub mod Laws
use rtc_client.Common.{
  ℕ, zero, suc, ◌+◌, ◌-◌, Bool, true, false, not, List, [], ◌∷◌, ◌++◌, ltb, ◌==◌, if◌then◌else◌,
}
use Sets.{set_insert, set_erase, contains}

-- `m_ports_in_use` is a std::set: its list is in ascending order.
pub record PortManager : Type 0 where
  pub initialized : Bool
  pub available_ports : List ℕ
  pub ports_in_use : List ℕ

abbrev pub new : PortManager
new = record { initialized = false; available_ports = []; ports_in_use = [] }

-- The ports from `start` on, `n` of them.
unfoldable pub port_range : ℕ → ℕ → List ℕ
port_range start zero = []
port_range start (suc n) = start ∷ port_range (start + 1) n

unfoldable pub initialize_udp_ports : ℕ → ℕ → PortManager → PortManager
unfolding port_range
initialize_udp_ports start end m = if m.initialized then m else record {
  initialized = true;
  available_ports = port_range start (end - start);
  ports_in_use = [];
}

-- `if (m_available_ports.empty ()) …`: every port in use becomes available again.
unfoldable pub refill : List ℕ → List ℕ → List ℕ × List ℕ
refill [] used = (used, [])
refill (p ∷ ps) used = (p ∷ ps, used)

-- What a search leaves: the port that it found, if any, and both lists.
pub record Search : Type 0 where
  pub port : ℕ
  pub found : Bool
  pub available : List ℕ
  pub used : List ℕ

-- The loop over the available ports. `check` is `check_available (port, PORT_TYPE_UDP)`, whether a
-- UDP socket can be bound to the port now. `port` is the caller's variable, which keeps the last
-- port that was tried.
unfoldable pub search_loop : (ℕ → Bool) → ℕ → List ℕ → List ℕ → Search
unfolding set_insert
search_loop check port [] used = record { port = port; found = false; available = []; used = used }
search_loop check port (p ∷ ps) used =
    let next = search_loop check p ps (set_insert p used) in
    if check p
    then record { port = p; found = true; available = ps; used = set_insert p used }
    else next

unfoldable pub get_udp_port : (ℕ → Bool) → ℕ → PortManager → Search × PortManager
unfolding refill search_loop
get_udp_port check port m =
    let (ready, used) = refill m.available_ports m.ports_in_use in
    let s = search_loop check port ready used in
    let (available', used') = refill s.available s.used in
    if s.found
    then (s, record m { available_ports = s.available; ports_in_use = s.used })
    else (s, record m { available_ports = available'; ports_in_use = used' })

unfoldable pub release_port : ℕ → PortManager → Bool × PortManager
unfolding set_erase contains
release_port p m =
    if contains p m.ports_in_use
    then (
      true,
      record m {
        available_ports = m.available_ports ++ (p ∷ []);
        ports_in_use = set_erase p m.ports_in_use;
      },
    )
    else (false, m)

-- `socket_made` and `bound` are whether `socket` and `bind` succeed.
unfoldable pub check_available : Bool → Bool → Bool
check_available socket_made bound =
    if not socket_made then false else if not bound then false else true
