-- ===== src/Tests/Services.antt =====
-- The theorems on the receiver and the port manager at concrete inputs.
use rtc_client.Common.{
  ℕ, ◌<◌, ◌≤◌, ◌≡◌, ◌⊎◌, refl, true, false, Bool, none, some, List, [], ◌∷◌, arith, length, ◌==◌,
}
use rtc_client.Rtp.Packet.{RtpPacket, fresh}
use rtc_client.Rtp.Receiver.{Receiver, Datagram, enqueue, receive_reordered}
use rtc_client.Rtp.Receiver.Receive.{Inv, receive_reordered-Inv}
use rtc_client.Rtp.Receiver.Contents.{Serves, receive_reordered-Serves}
use rtc_client.PortManager.{PortManager, get_udp_port}
use rtc_client.PortManager.Sets.{count}
use rtc_client.PortManager.Laws.{held, IsExact, get_udp_port-held, get_udp_port-found}
use rtc_client.Tests.Data.{packet}

-- Two packets wait, and the datagram brings a third.
abbrev waiting_list : List RtpPacket
waiting_list = record fresh { sequence = 90000 } ∷ record fresh { sequence = 4 } ∷ []

abbrev receiver : Receiver
receiver = record {
  initialize = true;
  reorder = true;
  reorder_list = waiting_list;
  rtp_packet = fresh;
}

abbrev datagram : Datagram
datagram = record { len = 30; bytes = packet }

receiver-Inv : Inv 2 receiver
receiver-Inv = record { ordered = (omega arith, tt); bounded = omega arith }

receive_reordered-Inv_example : Inv 2 (receive_reordered receiver 2 datagram).1
receive_reordered-Inv_example = receive_reordered-Inv receiver 2 datagram receiver-Inv

receive_reordered-Serves_example :
    let l = enqueue waiting_list datagram in
    let (front, r') = receive_reordered receiver 2 datagram in
    ((length l ≤ 2) × (front ≡ none) × (r'.reorder_list ≡ l))
    ⊎ ((f : RtpPacket) × (2 < length l) × (front ≡ some f) × Serves l f r'.reorder_list)
receive_reordered-Serves_example =
    receive_reordered-Serves receiver 2 datagram refl (omega arith) (omega arith, tt)

-- Two ports are available and one is in use.
abbrev ports : PortManager
ports = record {
  initialized = true;
  available_ports = 10000 ∷ 10001 ∷ [];
  ports_in_use = 10002 ∷ [];
}

abbrev second_only : ℕ → Bool
second_only p = p == 10001

ports-IsExact : IsExact ports
unfolding count
ports-IsExact p = ground arith

get_udp_port-held_example : held 10000 (get_udp_port second_only 0 ports).1 ≡ held 10000 ports
get_udp_port-held_example = get_udp_port-held second_only 0 10000 ports ports-IsExact

second_found : (get_udp_port second_only 0 ports).0.found ≡ true
unfolding get_udp_port
second_found = refl

get_udp_port-found_example :
    let (s, m') = get_udp_port second_only 0 ports in
    (second_only s.port ≡ true)
    × (held s.port ports ≡ 1)
    × (count s.port m'.available_ports ≡ 0)
    × (count s.port m'.ports_in_use ≡ 1)
get_udp_port-found_example = get_udp_port-found second_only 0 ports ports-IsExact second_found

nothing_found : (get_udp_port (λ p. false) 0 ports).0.found ≡ false
unfolding get_udp_port
nothing_found = refl
