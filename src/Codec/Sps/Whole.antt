-- ===== src/Codec/Sps/Whole.antt =====
-- `h264_decode_sps` on the escaped bytes of a set.
use rtc_client.Codec.Sps.Syntax
use rtc_client.Codec.Sps.Syntax.{Sps}
