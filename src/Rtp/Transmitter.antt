-- ===== src/Rtp/Transmitter.antt =====
-- `RTPTransmitterV4` of src/rtp/rtp_transmitter_v4.cpp, with the addresses of
-- src/common/common_address_ipv4.cpp: a UDP socket and the destinations that it sends to. What the
-- system calls return is an argument of each operation.
pub mod Destinations
use rtc_client.Common.{
  ℕ, Bool, true, false, not, ◌&&◌, Option, none, some, List, [], ◌∷◌, ◌++◌, ltb, ◌==◌,
  if◌then◌else◌, length,
}

-- `IPAddrV4`, with the two fields of its `sockaddr_in` that are compared: `s_addr` is what
-- `inet_addr` makes of the text. The text itself is kept for the caller only.
pub record Address : Type 0 where
  pub s_addr : ℕ
  pub port : ℕ

-- `IPAddrV4::operator ==`; ports are equal as they are in network byte order.
abbrev pub same_address : Address → Address → Bool
same_address a b = a.s_addr == b.s_addr && a.port == b.port

-- `is_open` is whether `m_bind_socket` is a socket.
pub record Transmitter : Type 0 where
  pub initialize : Bool
  pub bind_ip : ℕ
  pub bind_port : ℕ
  pub is_open : Bool
  pub destinations : List Address

abbrev pub new : Transmitter
new = record { initialize = false; bind_ip = 0; bind_port = 0; is_open = false; destinations = [] }

-- The fields of `RTPTransParamsV4` that `init` keeps.
pub record Params : Type 0 where
  pub bind_ip : ℕ
  pub bind_port : ℕ

-- The address to bind: `free_port` is what `get_available_port` returns.
abbrev pub bind_to : Option Params → ℕ → Transmitter → Transmitter
bind_to none free_port t = record t { bind_ip = 0; bind_port = free_port }
bind_to (some p) free_port t = record t { bind_ip = p.bind_ip; bind_port = p.bind_port }

-- `socket_made` and `bound` are whether `socket` and
-- `bind` succeed.
unfoldable pub init : Option Params → ℕ → Bool → Bool → Transmitter → Bool × Transmitter
init params free_port socket_made bound t =
    let at = bind_to params free_port t in
    if t.initialize
    then (true, t)
    else if not socket_made
    then (false, record at { is_open = false })
    else if not bound
    then (false, record at { is_open = false })
    else (true, record at { is_open = true; initialize = true })

unfoldable pub add_destination : Address → Transmitter → Transmitter
add_destination a t = record t { destinations = t.destinations ++ (a ∷ []) }

-- The loop that erases every address that equals `a`.
unfoldable pub erase_address : Address → List Address → List Address
erase_address a [] = []
erase_address a (d ∷ ds) =
    let rest = erase_address a ds in if same_address a d then rest else d ∷ rest

unfoldable pub delete_destination : Address → Transmitter → Transmitter
unfolding erase_address
delete_destination a t = record t { destinations = erase_address a t.destinations }

unfoldable pub clear_destination : Transmitter → Transmitter
clear_destination t = record t { destinations = [] }

-- Neither `ret == -1` nor `ret < len`.
abbrev pub is_whole : Option ℕ → ℕ → Bool
is_whole none len = false
is_whole (some n) len = not (ltb n len)

-- The loop of `send_data`: `sendto` is the number of bytes that a call sends, or `none` for -1.
-- The result is what is returned, and the destinations that were called.
unfoldable pub send_loop :
    (Address → List ℕ → Option ℕ) → List ℕ → List Address → Bool × List Address
send_loop sendto bytes [] = (true, [])
send_loop sendto bytes (d ∷ ds) =
    let (ok, called) = send_loop sendto bytes ds in
    if is_whole (sendto d bytes) (length bytes) then (ok, d ∷ called) else (false, d ∷ [])

unfoldable pub send_data :
    (Address → List ℕ → Option ℕ) → List ℕ → Transmitter → Bool × List Address
unfolding send_loop
send_data sendto bytes t = send_loop sendto bytes t.destinations

-- `pending` is what `ioctl` stores where it succeeds, `ready` whether `select` finds the socket
-- readable without an error, and `received` the result of `recvfrom`, `none` for -1.
unfoldable pub receive_data : Option ℕ → Bool → Option ℕ → Transmitter → ℕ
receive_data pending ready received t =
    let arrived : Bool = elim pending [ none ↦ ready | some n ↦ if ltb 0 n then true else ready ] in
    if not t.initialize
    then 0
    else if not arrived
    then 0
    else elim received [ none ↦ 0 | some n ↦ n ]
