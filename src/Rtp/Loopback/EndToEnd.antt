-- ===== src/Rtp/Loopback/EndToEnd.antt =====
-- From the NAL units in a builder to the frames that a receiver assembles.
use rtc_client.Common.{◌<◌, ◌≤◌, ◌≡◌, ap, ◌∙◌, true, some}
use rtc_client.Common.Memory.{IsU32}
use rtc_client.Rtp.Assembler.{Assembler, assembler_buffer_size}
use rtc_client.Rtp.H264Builder.{Builder, Work, built, receive_rtp_packets}
use rtc_client.Rtp.H264Builder.Room.{cost}
use rtc_client.Rtp.H264Builder.Complete.{receive_rtp_packets-built}
use rtc_client.Rtp.Loopback.Stream.{AllUnits, frames_size, sent_frames, Feeds-all}
use rtc_client.Rtp.Loopback.Transport.{play, play-numbered}
use rtc_client.Rtp.Loopback.Payloads.{payloads-AllPayloads}

-- A builder whose units fit its buffer and whose counters are 32-bit, and a started assembler: the
-- packets of `receive_rtp_packets`, parsed and pushed in order, make the assembler complete frames
-- that are, joined, all the units in order, each behind a start code. The units have at least two
-- bytes and a type below 24, and with four bytes more for each they fit the assembler's buffer.
pub receive_rtp_packets-play :
    (b : Builder) (a : Assembler)
    → cost b.nalu_vec < b.buffer_end
    → AllUnits b.nalu_vec
    → frames_size b.nalu_vec ≤ assembler_buffer_size
    → IsU32 b.sequence
    → IsU32 b.timestamp
    → IsU32 b.ssrc
    → a.initialize ≡ true
    → (w : Work) × (a' : Assembler) × (receive_rtp_packets b ≡ built w)
      × (play a w.packets ≡ some (a', sent_frames b.nalu_vec))
receive_rtp_packets-play b a room units fits hs ht hc i =
    let (w, e, within, d) = receive_rtp_packets-built b room in
    let (a', j, f) = Feeds-all a b.nalu_vec units fits in
    (
      w,
      a',
      e,
      ap (play a) d.packets
          ∙ play-numbered a b.sequence b.timestamp b.ssrc _ i hs ht hc
              (payloads-AllPayloads b.nalu_vec units fits)
          ∙ f,
    )
