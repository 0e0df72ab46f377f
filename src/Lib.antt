-- ===== src/Lib.antt =====
-- The conference client rtc_client: the media path (RTP packets, the builders that make them, the
-- receiver that puts them in order, the assembler that turns them back into frames, the ports they
-- arrive on, the codec helpers that read elementary streams), and the signalling path (the meeting
-- room, its users, the requests and messages as JSON, and the WebSocket client).
--
-- How the parts work together. A captured H.264 frame enters RTPH264PacketBuilder::send_data, which
-- cuts it into NAL units at the start codes that avc_find_start_code finds, and leaves
-- receive_rtp_packets as RTP packets; AAC data goes through RTPAACPacketBuilder. On the other side
-- RTPSessionReceiver takes datagrams from a socket on a port of PortManager, parses them with
-- RTPPacket::parse and keeps them in sequence order, and RTPH264FrameAssembler::push_packet makes
-- frames of their payloads. RTPTransmitterV4 owns the sockets. RTPSessionVideo and RTPSessionAudio
-- join a builder and a transmitter, RoomUser joins receivers and an assembler and calls the callbacks.
-- LiveMeetingRoom sends its signals as texts that app_get_request makes through a WSClient, and each
-- text that the client receives goes to on_websocket_message, which reads it as JSON and changes the
-- room, its sessions and its users.
--
-- Files and code:
--   Common            shared names, Boolean tests, lists, masks, and memory as bytes with htons, ntohl
--   Rtp/Header        RTPHeader and RTPExtensionHeader of src/rtp/rtp_packet.h, as the builders fill
--                     them in
--   Rtp/Packet        RTPPacket of src/rtp/rtp_packet.cpp: parse, set_ssrc, get_csrc, reset
--   Rtp/H264Builder   RTPH264PacketBuilder of src/rtp/rtp_h264_packet_builder.cpp: init, send_data,
--                     build_packet, build_fua_packet, receive_rtp_packets
--   Rtp/AacBuilder    RTPAACPacketBuilder of src/rtp/rtp_aac_packet_builder.cpp
--   Rtp/Assembler     RTPH264FrameAssembler of src/rtp/rtp_h264_frame_assembler.cpp: push_packet,
--                     get_stapa_frame, get_fua_frame
--   Rtp/Receiver      RTPSessionReceiver of src/rtp/rtp_session_receiver.cpp: init and both
--                     receive_rtp_packet
--   Rtp/Transmitter   RTPTransmitterV4 of src/rtp/rtp_transmitter_v4.cpp and IPAddrV4 of
--                     src/common/common_address_ipv4.cpp
--   Rtp/Loopback      builder, parser and assembler joined
--   Rtp/VideoSession  RTPSessionVideo of src/rtp/rtp_session_video.cpp
--   Rtp/AudioSession  RTPSessionAudio of src/rtp/rtp_session_audio.cpp
--   Room/User         RoomUser of src/application/app_room_user.cpp
--   Room/Meeting      LiveMeetingRoom of src/application/app_meeting_room.cpp: state, initialize and
--                     the sessions; Signals has the signal_ functions, Handlers, Online and Leaving
--                     the on_ws_conference_ functions, Dispatch on_websocket_message,
--                     Receiving a round of receive_loop
--   Command           app_get_request and app_get_response of src/application/app_command.cpp
--   Json              JsonValue and JsonObject of src/common/common_json.cpp: Reader is
--                     read_from_string, Writer is write_to_string, Convert the as_ functions
--   Utils             the string functions of src/common/common_utils.cpp; Directory is
--                     create_directory_recursively, with stat and mkdir as arguments
--   WsClient          WSClient of src/websocket/ws_client.cpp
--   PortManager       PortManager of src/common/common_port_manager.cpp
--   MsgQueue          SimpleMessageQueue of src/common/common_msg_queue.cpp
--   Codec/StartCode   AVCFindStartCodeInternal and avc_find_start_code of src/codec/codec_utils.cpp
--   Codec/Units       the walks over the NAL units of a stream, of the same file
--   Codec/Adts        parse_adts_header, count_aac_frames and aac_find_frame, of the same file
--   Codec/Emulation   de_emulation_prevention, of the same file
--   Codec/BitReader   u, Ue and Se, of the same file
--   Codec/Sps         h264_decode_sps, of the same file; Syntax has a parameter set as H.264 writes it
--   Utf8              is_utf8_chars and is_utf8_str of src/common/common_utf8.cpp
--   Logger            AppLogger of src/common/common_logger.cpp
--   Tests             the theorems at concrete inputs
--
-- How the code is modelled. A pointer with a length is a memory, a function from offsets to bytes,
-- and the length; a buffer that is only appended to is the list of its bytes. A class is a record of
-- its members and a method a function that returns the new record. Integers are natural numbers with
-- the wrap-around of their width written out where the code can reach it: the 32-bit sequence and
-- timestamp, and the size_t payload length. Sockets and allocation are arguments: what arrived, and
-- whether the call succeeded. A std::string is the list of its bytes and a std::map the list of its
-- entries in the order of the keys. A callback is a field that says whether there is one, and its
-- calls are results. What mongoose delivers and returns is an argument; that a handshake cannot end
-- within the call that starts it is a hypothesis. A double of a JSON text is kept as what it is
-- printed as, which is an argument, as are the casts of a double.
--
-- Fuel. Seven kinds of loop run on fuel and have a value for running out of it that the code has
-- not: the FU-A loop (as many rounds as the unit has bytes), the STAP-A loop (one more than the
-- payload has bytes), the walks over a stream and send_data (one more than the stream has bytes),
-- and count_aac_frames (the same). A round of the first three takes at least a byte of what is
-- left, which is why so many are enough; a round of the last takes what the frame's header says,
-- which may be nothing. The JSON readers have twice the length of the text and two more, which is
-- enough. So have is_utf8_chars as many rounds as there are bytes, and the search of the logger
-- two more than there may be files, and create_directory_recursively one more than the path has
-- bytes.
--
-- Not modelled: what the JSON reader does with a text of 2 ^ 32 bytes or more, at which its position
-- wraps around; the waits of the room's threads and the pinhole datagrams; the conversions of
-- UTF-8, which only Windows has; threads and locks, since each method of the modelled classes is
-- one step; the ownership of buffers; the calls of the logger in the other parts, and the console
-- driver; and mongoose, which is another project's code.
pub mod Common
pub mod Rtp
pub mod PortManager
pub mod MsgQueue
pub mod Codec
pub mod Utils
pub mod Utf8
pub mod Logger
pub mod Json
pub mod Command
pub mod WsClient
pub mod Room
pub mod Tests
