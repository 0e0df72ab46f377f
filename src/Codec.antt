-- ===== src/Codec.antt =====
-- src/codec/codec_utils.cpp: Annex B start codes, the walks over NAL units, and ADTS frames.
pub mod StartCode
pub mod Adts
pub mod Units
pub mod Emulation
pub mod BitReader
pub mod Sps
