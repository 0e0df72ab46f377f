-- ===== src/Codec/Sps/Parts.antt =====
-- The readers of the parts of a set read their bits.
use rtc_client.Common.{
  ℕ, subst, Bool, true, false, not, Option, none, some, List, [], ◌∷◌, ◌==◌, length, append-nil,
  if◌then◌else◌, arith, lt→ne, All,
}
use rtc_client.Codec.BitReader.{Reader, ◌>>=◌, ◌>>◌, pure, u, ue}
use rtc_client.Codec.BitReader.Golomb.{Reads, Reads->>=, Reads-pure, u-Reads, ue-Reads, se-Reads}
use rtc_client.Codec.Sps.{
  when, se_loop, read_chroma, read_cycle, read_order, read_cropping, read_aspect, read_signal_type,
  optional,
}
use rtc_client.Codec.Sps.Syntax

module _ (buf : List ℕ) (size : ℕ) where
  -- A reader behind which nothing is read.
  pub Reads-end :
      {A B : Type 0} {m : Reader A} (f : A → Reader B) {xs : List ℕ} {a : A} {b : B}
      → Reads buf size m xs a
      → Reads buf size (f a) [] b
      → Reads buf size (m >>= f) xs b
  Reads-end {m} f {xs} {b} hm hf =
      subst (λ ys. Reads buf size (m >>= f) ys b) (append-nil xs) (Reads->>= buf size f hm hf)

  -- A reader whose value is dropped or changed.
  pub Reads-map :
      {A B : Type 0} {m : Reader A} (g : A → B) {xs : List ℕ} {a : A}
      → Reads buf size m xs a
      → Reads buf size (m >>= λ x. pure (g x)) xs (g a)
  Reads-map g {a} h = Reads-end (λ x. pure (g x)) h (Reads-pure buf size (g a))

  pub Reads-when :
      (c : Bool) {m : Reader (Unit {0})} {xs : List ℕ}
      → Reads buf size m xs tt
      → Reads buf size (when c m) (if c then xs else []) tt
  Reads-when true h = h
  Reads-when false h = Reads-pure buf size tt

  pub flag-Reads : (b : Bool) → Reads buf size (u 1 buf) (Syntax.flag b) (if b then 1 else 0)
  flag-Reads true = u-Reads buf size 1 1 (omega arith) (omega arith)
  flag-Reads false = u-Reads buf size 1 0 (omega arith) (omega arith)

  -- A part behind its flag.
  pub optional-Reads :
      {A : Type 0} (P : A → Type 0) (bits : A → List ℕ) {m : Reader (Unit {0})}
      → ((x : A) → P x → Reads buf size m (bits x) tt)
      → (o : Option A) → Syntax.Within P o
      → Reads buf size (optional buf m) (Syntax.present bits o) tt
  unfolding optional
  optional-Reads P bits h none w = Reads-end _ (flag-Reads false) (Reads-pure buf size tt)
  optional-Reads P bits h (some x) w = Reads->>= buf size _ (flag-Reads true) (h x w)

  pub chroma-Reads :
      (c : Syntax.Chroma)
      → Syntax.IsChroma c
      → Reads buf size (read_chroma buf size) (Syntax.chroma_bits c) tt
  unfolding read_chroma
  chroma-Reads c h = Reads->>= buf size _ (ue-Reads buf size c.chroma_format_idc h.0) (
      Reads->>= buf size _
        (Reads-when (c.chroma_format_idc == 3)
          (Reads-map (λ _. tt) (flag-Reads c.separate_colour_plane)))
        (Reads->>= buf size _ (ue-Reads buf size c.bit_depth_luma_minus8 h.1) (
          Reads->>= buf size _ (ue-Reads buf size c.bit_depth_chroma_minus8 h.2) (
            Reads->>= buf size _ (flag-Reads c.transform_bypass)
              (Reads-end _ (flag-Reads false) (Reads-pure buf size tt))))))

  offsets-Reads :
      (vs : List ℕ)
      → All Syntax.IsCode vs
      → Reads buf size (se_loop buf size (length vs)) (Syntax.offsets_bits vs) tt
  unfolding se_loop
  offsets-Reads [] h = Reads-pure buf size tt
  offsets-Reads (v ∷ vs) h = Reads->>= buf size _ (se-Reads buf size v h.0) (offsets-Reads vs h.1)

  pub order-Reads :
      (o : Syntax.Order)
      → Syntax.IsOrder o
      → Reads buf size (read_order buf size) (Syntax.order_bits o) tt
  unfolding read_order read_cycle
  order-Reads (Syntax.lsb v) h =
      Reads->>= buf size _ (ue-Reads buf size 0 (omega arith))
        (Reads-map (λ _. tt) (ue-Reads buf size v h))
  order-Reads (Syntax.cycle fixed_order non_ref top vs) h =
      Reads->>= buf size _ (ue-Reads buf size 1 (omega arith)) (
        Reads->>= buf size _ (flag-Reads fixed_order) (
          Reads->>= buf size _ (se-Reads buf size non_ref h.0) (
            Reads->>= buf size _ (se-Reads buf size top h.1)
              (Reads->>= buf size _ (ue-Reads buf size (length vs) h.2) (offsets-Reads vs h.3)))))
  order-Reads Syntax.output h =
      Reads-end _ (ue-Reads buf size 2 (omega arith)) (Reads-pure buf size tt)

  cropped :
      (c : Syntax.Cropping)
      → Syntax.IsCropping c
      → Reads buf size
          (ue buf size >> (ue buf size >> (ue buf size >> (ue buf size >> pure tt))))
          (Syntax.cropping_bits c)
          tt
  cropped c h = Reads->>= buf size _ (ue-Reads buf size c.left h.0) (
      Reads->>= buf size _ (ue-Reads buf size c.right h.1) (
        Reads->>= buf size _ (ue-Reads buf size c.above h.2)
          (Reads-map (λ _. tt) (ue-Reads buf size c.below h.3))))

  pub cropping-Reads :
      (o : Option Syntax.Cropping)
      → Syntax.Within Syntax.IsCropping o
      → Reads buf size (read_cropping buf size) (Syntax.present Syntax.cropping_bits o) tt
  unfolding read_cropping
  cropping-Reads none h = Reads-end _ (flag-Reads false) (Reads-pure buf size tt)
  cropping-Reads (some c) h = Reads->>= buf size _ (flag-Reads true) (cropped c h)

  pub aspect-Reads :
      (a : Syntax.Aspect)
      → Syntax.IsAspect a
      → Reads buf size (read_aspect buf) (Syntax.aspect_bits a) tt
  unfolding read_aspect
  aspect-Reads (Syntax.listed idc) h =
      Reads-end _ (u-Reads buf size 8 idc (omega arith) (omega arith))
        (rw (lt→ne idc 255 h) (Reads-pure buf size tt))
  aspect-Reads (Syntax.extended w v) h =
      Reads->>= buf size _ (u-Reads buf size 8 255 (omega arith) (omega arith)) (
        Reads->>= buf size _ (u-Reads buf size 16 w (omega arith) h.0)
          (Reads-map (λ _. tt) (u-Reads buf size 16 v (omega arith) h.1)))

  pub signal-Reads :
      (s : Syntax.Signal)
      → Syntax.IsSignal s
      → Reads buf size (read_signal_type buf) (Syntax.signal_bits s) tt
  unfolding read_signal_type
  signal-Reads s h =
      Reads->>= buf size _ (u-Reads buf size 3 s.video_format (omega arith) h.0)
        (Reads->>= buf size _ (flag-Reads s.full_range) (colours s.colours h.1))
    where
      colours :
          (o : Option Syntax.Colours)
          → Syntax.Within Syntax.IsColours o
          → Reads buf size
              (u 1 buf >>= λ (f : ℕ).
                when (not (f == 0)) (u 8 buf >> (u 8 buf >> (u 8 buf >> pure tt))))
              (Syntax.present Syntax.colours_bits o)
              tt
      colours none w = Reads-end _ (flag-Reads false) (Reads-pure buf size tt)
      colours (some c) w = Reads->>= buf size _ (flag-Reads true) (
          Reads->>= buf size _ (u-Reads buf size 8 c.primaries (omega arith) w.0) (
            Reads->>= buf size _ (u-Reads buf size 8 c.transfer (omega arith) w.1)
              (Reads-map (λ _. tt) (u-Reads buf size 8 c.matrix (omega arith) w.2))))
