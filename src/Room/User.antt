-- ===== src/Room/User.antt =====
-- `RoomUser` of src/application/app_room_user.cpp: another user of the conference, whose streams
-- are received. The callbacks are the ones of the room, which are set before the user is used;
-- whether there is one is a field, and what it is called with is a result. `none` as the result of
-- an operation is no value of the code: the assembler's loop out of fuel, or a null pointer.
pub mod Media
pub mod Delivery
use rtc_client.Common.{
  ℕ, ◌+◌, ◌*◌, Bool, true, false, not, Option, none, some, List, [], ◌∷◌, ◌++◌, leb, ◌==◌, length,
  if◌then◌else◌,
}
use rtc_client.Common.Memory.{Memory}
use rtc_client.Common.Text.{Text}
use rtc_client.Rtp.Packet.{RtpPacket}
use rtc_client.Rtp.Receiver.{Receiver, Datagram, receive_reordered}
use rtc_client.Rtp.Receiver
use rtc_client.Rtp.Assembler.{Assembler, push_packet}
use rtc_client.Rtp.Assembler
use rtc_client.Utils.{ℤ, pos, to_int}
use rtc_client.PortManager.{PortManager, get_udp_port}

-- RTP_H264_RECV_BUFFER_SIZE
abbrev pub recv_buffer_size : ℕ
recv_buffer_size = 1024 * 1024

-- `rtp_buffer` is the first `m_h264_rtp_buffer_used_len` bytes of `m_h264_rtp_buffer`, and `none`
-- where that is null. `m_pinhole_msg` is made of `pinhole_uuid`.
pub record RoomUser : Type 0 where
  pub video_initialize : Bool
  pub audio_initialize : Bool
  pub bind_major_port : ℕ
  pub bind_audio_port : ℕ
  pub major_receiver : Option Receiver
  pub audio_receiver : Option Receiver
  pub assembler : Option Assembler
  pub rtp_buffer : Option (List ℕ)
  pub user_id : Text
  pub user_name : Text
  pub user_ip_addr : Text
  pub user_uuid : Text
  pub video_ssrc : ℕ
  pub audio_ssrc : ℕ
  pub pinhole_uuid : Text
  pub has_h264_callback : Bool
  pub has_aac_callback : Bool

-- What the constructor makes. It leaves the SSRCs as the memory has them, and 0 stands for them.
abbrev pub new : RoomUser
new = record {
  video_initialize = false;
  audio_initialize = false;
  bind_major_port = 0;
  bind_audio_port = 0;
  major_receiver = none;
  audio_receiver = none;
  assembler = none;
  rtp_buffer = none;
  user_id = [];
  user_name = [];
  user_ip_addr = [];
  user_uuid = [];
  video_ssrc = 0;
  audio_ssrc = 0;
  pinhole_uuid = [];
  has_h264_callback = false;
  has_aac_callback = false;
}

-- `allocated` is whether `new` finds memory; `none` is NULL.
unfoldable pub create_user : Bool → Option RoomUser
create_user allocated = if allocated then some new else none

-- The system during an `initialize`: `check` is whether a socket can be bound to a port,
-- `transmitter_ok` whether the receiver's transmitter can be set up on the port that is found.
pub record Network : Type 0 where
  pub check : ℕ → Bool
  pub transmitter_ok : ℕ → Bool

-- `get_available_port`; the variable that receives the port is not initialized, so its value
-- before does not matter.
unfoldable pub get_available_port : Network → PortManager → ℕ × PortManager
get_available_port n pm =
    let (s, pm') = get_udp_port n.check 0 pm in (if s.found then s.port else 0, pm')

-- What `initialize` leaves; the ports are those of the one port manager.
pub record Initialized : Type 0 where
  pub ok : Bool
  pub user : RoomUser
  pub ports : PortManager

unfoldable pub initialize_video : Network → PortManager → RoomUser → Initialized
unfolding get_available_port
initialize_video n pm u =
    let (port, pm') = get_available_port n pm in
    let bound = record u { bind_major_port = port } in
    let (ready, r) = Receiver.init (n.transmitter_ok port) true Receiver.new in
    if u.video_initialize
    then record { ok = true; user = u; ports = pm }
    else if port == 0
    then record { ok = false; user = u; ports = pm' }
    else if not ready
    then record {
      ok = false;
      user = record bound { major_receiver = none; assembler = none; rtp_buffer = none };
      ports = pm';
    }
    else record {
      ok = true;
      user = record bound {
        video_initialize = true;
        major_receiver = some r;
        assembler = some (Assembler.start Assembler.new);
        rtp_buffer = some [];
      };
      ports = pm';
    }

unfoldable pub initialize_audio : Network → PortManager → RoomUser → Initialized
unfolding get_available_port
initialize_audio n pm u =
    let (port, pm') = get_available_port n pm in
    let bound = record u { bind_audio_port = port } in
    let (ready, r) = Receiver.init (n.transmitter_ok port) true Receiver.new in
    if u.audio_initialize
    then record { ok = true; user = u; ports = pm }
    else if port == 0
    then record { ok = false; user = u; ports = pm' }
    else if not ready
    then record { ok = false; user = record bound { audio_receiver = none }; ports = pm' }
    else record {
      ok = true;
      user = record bound { audio_initialize = true; audio_receiver = some r };
      ports = pm';
    }

unfoldable pub initialize : Network → ℕ → PortManager → RoomUser → Initialized
unfolding initialize_video initialize_audio
initialize n ssrc pm u =
    if u.video_ssrc == ssrc
    then initialize_video n pm u
    else if u.audio_ssrc == ssrc
    then initialize_audio n pm u
    else record { ok = false; user = u; ports = pm }

-- What a callback is called with besides the user's uuid and the argument.
pub record Call : Type 0 where
  pub bytes : List ℕ
  pub ssrc : ℕ
  pub timestamp : ℕ

-- The copy of a complete frame behind the frames that wait in the receive buffer; a frame that
-- the buffer has no room for starts it anew.
unfoldable pub with_frame_data : List ℕ → List ℕ → List ℕ
with_frame_data used frame =
    (if leb recv_buffer_size (length used + length frame) then [] else used) ++ frame

-- The body of `receive_video` behind the receipt of a packet.
unfoldable pub handle_video : RtpPacket → RoomUser → Option (Option Call × RoomUser)
unfolding with_frame_data
handle_video rtp u = elim u.assembler [
  | none ↦ none
  | some a ↦ elim (push_packet a rtp) [
    | none ↦ none
    | some (complete, a') ↦
        let pushed = record u { assembler = some a' } in
        if not complete then some (none, pushed) else elim u.rtp_buffer [
          | none ↦ none
          | some used ↦
              let bytes = with_frame_data used a'.frame in
              let call : Call = record {
                bytes = bytes;
                ssrc = rtp.ssrc;
                timestamp = rtp.timestamp;
              } in
              some (
                if rtp.marker
                then (
                  if u.has_h264_callback then some call else none,
                  record pushed { rtp_buffer = some [] },
                )
                else (none, record pushed { rtp_buffer = some bytes }))
        ]
  ]
]

-- `d` is what arrives at the video port within the call.
unfoldable pub receive_video : Datagram → RoomUser → Option (Option Call × RoomUser)
unfolding handle_video
receive_video d u = elim u.major_receiver [
  | none ↦ some (none, u)
  | some r ↦
      let (rtp, r') = receive_reordered r 5 d in
      let received = record u { major_receiver = some r' } in
      elim rtp [ none ↦ some (none, received) | some p ↦ handle_video p received ]
]

-- A payload in memory with its length as an `int`, as the callback for AAC gets it.
pub record AacCall : Type 0 where
  pub payload : Option Memory
  pub payload_len : ℤ
  pub ssrc : ℕ
  pub timestamp : ℕ

unfoldable pub receive_audio : Datagram → RoomUser → Option AacCall × RoomUser
unfolding to_int
receive_audio d u = elim u.audio_receiver [
  | none ↦ (none, u)
  | some r ↦
      let (rtp, r') = receive_reordered r 5 d in
      let received = record u { audio_receiver = some r' } in
      let call : RtpPacket → AacCall = λ p. record {
        payload = p.payload;
        payload_len = to_int (pos p.payload_len);
        ssrc = p.ssrc;
        timestamp = p.timestamp;
      } in
      elim rtp [
        | none ↦ (none, received)
        | some p ↦ (if u.has_aac_callback then some (call p) else none, received)
      ]
]
