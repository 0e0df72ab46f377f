-- ===== src/Codec/Sps/Decoded.antt =====
-- `h264_decode_sps` reads a set that is written as the standard has it.
use rtc_client.Common.{
  ℕ, zero, suc, ◌+◌, ◌*◌, ◌/◌, ◌^◌, ◌<◌, ◌≡◌, refl, subst, Bool, true, false, Option, none, some,
  List, [], if◌then◌else◌, arith,
}
use rtc_client.Utils.{ℤ, pos, to_int, to_unsigned}
use rtc_client.Codec.BitReader.{◌>>◌, pure, ue}
use rtc_client.Codec.BitReader.Golomb.{Reads, Reads->>=, Reads-pure, u-Reads, ue-Reads}
use rtc_client.Codec.Sps.{
  when, is_high, quotient, read_timing, read_vui, read_fields, Picture, samples, read_picture,
  read_sps, read_unit, read_chroma,
}
use rtc_client.Codec.Sps.Syntax
use rtc_client.Codec.Sps.Syntax.{Sps, IsSps}
use rtc_client.Codec.Sps.Parts.{
  Reads-end, Reads-map, Reads-when, flag-Reads, optional-Reads, chroma-Reads, order-Reads,
  cropping-Reads, aspect-Reads, signal-Reads,
}

-- The frames in a second, for a caller that has `before` in `*fps`.
abbrev pub rate : Option Syntax.Timing → ℤ → ℤ
rate none before = before
rate (some t) before = pos (t.scale / (2 * t.units))

abbrev pub vui_rate : Option Syntax.Vui → ℤ → ℤ
vui_rate none before = before
vui_rate (some v) before = rate v.timing before

to_int-small : (n : ℕ) → n < 2 ^ 31 → to_int (pos n) ≡ pos n
unfolding to_int to_unsigned
to_int-small n h = ground arith

quotient-pos : (a b : ℕ) → 0 < b → quotient (pos a) (pos b) ≡ some (pos (a / b))
unfolding quotient
quotient-pos a zero h = absurd (omega arith)
quotient-pos a (suc b) h = refl

pub samples_lem : (n : ℕ) → n < 2 ^ 26 → samples n ≡ pos ((n + 1) * 16)
unfolding samples
samples_lem n h = to_int-small ((n + 1) * 16) (omega arith)

-- What the caller gets of a set.
abbrev pub decoded : Sps → Picture → Picture
decoded s before = record {
  width = pos ((s.pic_width_in_mbs_minus1 + 1) * 16);
  height = pos ((s.pic_height_in_map_units_minus1 + 1) * 16);
  fps = vui_rate s.vui before.fps;
}

module _ (buf : List ℕ) (size : ℕ) where
  divided :
      (t : Syntax.Timing)
      → Syntax.IsTiming t
      → Reads buf size
          (λ k. elim (quotient (to_int (pos t.scale)) (to_int (pos (2 * t.units)))) [
            | none ↦ none
            | some q ↦ some (q, k)
          ])
          []
          (pos (t.scale / (2 * t.units)))
  unfolding pure
  divided t h = rw (to_int-small t.scale h.2) (
      rw (to_int-small (2 * t.units) (omega arith)) (
        rw (quotient-pos t.scale (2 * t.units) (omega arith))
          (Reads-pure buf size (pos (t.scale / (2 * t.units))))))

  timing-Reads :
      (o : Option Syntax.Timing) (before : ℤ)
      → Syntax.Within Syntax.IsTiming o
      → Reads buf size
          (read_timing buf before)
          (Syntax.present Syntax.timing_bits o)
          (rate o before)
  unfolding read_timing
  timing-Reads none before h =
      Reads-end buf size _ (flag-Reads buf size false) (Reads-pure buf size before)
  timing-Reads (some t) before h = Reads->>= buf size _ (flag-Reads buf size true) (
      Reads->>= buf size _ (u-Reads buf size 32 t.units (omega arith) (omega arith)) (
        Reads-end buf size _ (u-Reads buf size 32 t.scale (omega arith) (omega arith))
          (divided t h)))

  vui-Reads :
      (o : Option Syntax.Vui) (before : ℤ)
      → Syntax.Within Syntax.IsVui o
      → Reads buf size
          (read_vui buf size before)
          (Syntax.present Syntax.vui_bits o)
          (vui_rate o before)
  unfolding read_vui
  vui-Reads none before h =
      Reads-end buf size _ (flag-Reads buf size false) (Reads-pure buf size before)
  vui-Reads (some v) before h = Reads->>= buf size _ (flag-Reads buf size true) (
      Reads->>= buf size _
        (optional-Reads buf size Syntax.IsAspect Syntax.aspect_bits (aspect-Reads buf size) v.aspect
          h.0)
        (Reads->>= buf size _
          (optional-Reads buf size (λ b. Unit {0}) Syntax.flag
            (λ b w. Reads-map buf size (λ x. tt) (flag-Reads buf size b)) v.overscan
            (any v.overscan))
          (Reads->>= buf size _
            (optional-Reads buf size Syntax.IsSignal Syntax.signal_bits (signal-Reads buf size)
              v.signal h.1)
            (Reads->>= buf size _
              (optional-Reads buf size Syntax.IsLocations Syntax.locations_bits located v.locations
                h.2)
              (timing-Reads v.timing before h.3)))))
    where
      any : (o : Option Bool) → Syntax.Within (λ b. Unit {0}) o
      any none = tt
      any (some b) = tt

      located :
          (l : ℕ × ℕ)
          → Syntax.IsLocations l
          → Reads buf size (ue buf size >> (ue buf size >> pure tt)) (Syntax.locations_bits l) tt
      located (t, b) w =
          Reads->>= buf size _ (ue-Reads buf size t w.0)
            (Reads-map buf size (λ x. tt) (ue-Reads buf size b w.1))

  fields-Reads : (o : Option Bool) → Reads buf size (read_fields buf) (Syntax.fields_bits o) tt
  unfolding read_fields
  fields-Reads none = Reads-end buf size _ (flag-Reads buf size true) (Reads-pure buf size tt)
  fields-Reads (some b) =
      Reads->>= buf size _ (flag-Reads buf size false)
        (Reads-map buf size (λ x. tt) (flag-Reads buf size b))

  module _ (s : Sps) (before : Picture) (is : IsSps s) where
    picture-Reads :
        Reads buf size (read_picture buf size before) (Syntax.picture_bits s) (decoded s before)
    unfolding read_picture
    picture-Reads =
        subst (λ p. Reads buf size (read_picture buf size before) (Syntax.picture_bits s) p)
          (λ i. record {
            width = samples_lem s.pic_width_in_mbs_minus1 is.wide i;
            height = samples_lem s.pic_height_in_map_units_minus1 is.high i;
            fps = vui_rate s.vui before.fps;
          })
          (Reads->>= buf size _ (ue-Reads buf size s.num_ref_frames is.refs) (
            Reads->>= buf size _ (flag-Reads buf size s.gaps_allowed) (
              Reads->>= buf size _
                (ue-Reads buf size s.pic_width_in_mbs_minus1 (omega (arith, is.wide)))
                (Reads->>= buf size _
                  (ue-Reads buf size s.pic_height_in_map_units_minus1 (omega (arith, is.high)))
                  (Reads->>= buf size _ (fields-Reads s.fields) (
                    Reads->>= buf size _ (flag-Reads buf size s.direct_8x8_inference) (
                      Reads->>= buf size _ (cropping-Reads buf size s.cropping is.crops)
                        (Reads-map buf size _ (vui-Reads s.vui before.fps is.usability)))))))))

    sps-Reads :
        is_high s.profile_idc ≡ Syntax.has_chroma s.profile_idc
        → Reads buf size (read_sps buf size before) (Syntax.sps_bits s) (decoded s before)
    unfolding read_sps
    sps-Reads profile =
        Reads->>= buf size _ (u-Reads buf size 8 s.profile_idc (omega arith) is.profile) (
          Reads->>= buf size _ (flag-Reads buf size s.constraint_0) (
            Reads->>= buf size _ (flag-Reads buf size s.constraint_1) (
              Reads->>= buf size _ (flag-Reads buf size s.constraint_2) (
                Reads->>= buf size _ (flag-Reads buf size s.constraint_3) (
                  Reads->>= buf size _ (u-Reads buf size 4 s.reserved (omega arith) is.spare) (
                    Reads->>= buf size _ (u-Reads buf size 8 s.level_idc (omega arith) is.level) (
                      Reads->>= buf size _ (ue-Reads buf size s.id is.number) (
                        Reads->>= buf size _ chroma (
                          Reads->>= buf size _
                            (ue-Reads buf size s.log2_max_frame_num_minus4 is.frame_num)
                            (Reads->>= buf size _ (order-Reads buf size s.order is.counts)
                              picture-Reads))))))))))
      where
        chroma :
            Reads buf size
              (when (is_high s.profile_idc) (read_chroma buf size))
              (if Syntax.has_chroma s.profile_idc then Syntax.chroma_bits s.chroma else [])
              tt
        chroma = rw profile (Reads-when buf size _ (chroma-Reads buf size s.chroma is.colour))

    pub unit-Reads :
        (ref_idc : ℕ)
        → ref_idc < 4
        → is_high s.profile_idc ≡ Syntax.has_chroma s.profile_idc
        → Reads buf size
            (read_unit buf size before)
            (Syntax.unit_bits ref_idc s)
            (true, decoded s before)
    unfolding read_unit
    unit-Reads ref_idc small profile =
        Reads->>= buf size _ (u-Reads buf size 1 0 (omega arith) (omega arith)) (
          Reads->>= buf size _ (u-Reads buf size 2 ref_idc (omega arith) (omega arith)) (
            Reads->>= buf size _ (u-Reads buf size 5 7 (omega arith) (omega arith))
              (Reads-map buf size (λ p. (true, p)) (sps-Reads profile))))
