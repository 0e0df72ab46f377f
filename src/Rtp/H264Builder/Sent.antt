-- ===== src/Rtp/H264Builder/Sent.antt =====
-- What the builder's loops send: payloads, numbered one after the other.
use rtc_client.Common.{
  ℕ, ◌+◌, ◌%◌, ◌^◌, ◌≡◌, refl, ap, sym, subst, ◌∙◌, Bool, true, false, List, [], ◌∷◌, ◌++◌,
  append-nil, append_assoc, if◌then◌else◌,
}
use rtc_client.Rtp.Header.{headers}
use rtc_client.Rtp.H264Builder.{Work, Outcome, built, full, stuck, emit, ◌>>=◌}

-- The packets that carry the payloads, from a sequence number on.
module _ (timestamp ssrc : ℕ) where
  unfoldable pub numbered : ℕ → List (List ℕ) → List (List ℕ)
  numbered s [] = []
  numbered s (x ∷ xs) = (headers 96 s timestamp ssrc ++ x) ∷ numbered ((s + 1) % 2 ^ 32) xs

unfoldable pub next_sequence : ℕ → List (List ℕ) → ℕ
next_sequence s [] = s
next_sequence s (x ∷ xs) = next_sequence ((s + 1) % 2 ^ 32) xs

pub next_sequence-append :
    (s : ℕ) (xs ys : List (List ℕ))
    → next_sequence s (xs ++ ys) ≡ next_sequence (next_sequence s xs) ys
unfolding next_sequence
next_sequence-append s [] ys = refl
next_sequence-append s (x ∷ xs) ys = next_sequence-append ((s + 1) % 2 ^ 32) xs ys

pub numbered-append :
    (t c s : ℕ) (xs ys : List (List ℕ))
    → numbered t c s (xs ++ ys) ≡ numbered t c s xs ++ numbered t c (next_sequence s xs) ys
unfolding numbered next_sequence
numbered-append t c s [] ys = refl
numbered-append t c s (x ∷ xs) ys =
    ap (◌∷◌ (headers 96 s t c ++ x)) (numbered-append t c ((s + 1) % 2 ^ 32) xs ys)

-- `w'` is `w` after it has sent these payloads.
pub record Sent (w : Work) (payloads : List (List ℕ)) (w' : Work) : Type 0 where
  pub packets : w'.packets ≡ w.packets ++ numbered w.timestamp w.ssrc w.sequence payloads
  pub sequence : w'.sequence ≡ next_sequence w.sequence payloads
  pub timestamp : w'.timestamp ≡ w.timestamp
  pub ssrc : w'.ssrc ≡ w.ssrc
  pub buffer_end : w'.buffer_end ≡ w.buffer_end

pub Sent-nil : (w : Work) → Sent w [] w
unfolding numbered next_sequence
Sent-nil w = record {
  packets = sym (append-nil w.packets);
  sequence = refl;
  timestamp = refl;
  ssrc = refl;
  buffer_end = refl;
}

pub Sent-append :
    {u v w : Work} {xs ys : List (List ℕ)} → Sent u xs v → Sent v ys w → Sent u (xs ++ ys) w
Sent-append {u} {v} {w} {xs} {ys} f g = record {
  packets = rw (
    g.packets,
    f.packets,
    f.sequence,
    f.timestamp,
    f.ssrc,
    numbered-append u.timestamp u.ssrc u.sequence xs ys,
    append_assoc u.packets,
  );
  sequence = rw (g.sequence, f.sequence, next_sequence-append u.sequence xs ys);
  timestamp = g.timestamp ∙ f.timestamp;
  ssrc = g.ssrc ∙ f.ssrc;
  buffer_end = g.buffer_end ∙ f.buffer_end;
}

pub Sent-emit : (w : Work) (payload : List ℕ) (end : ℕ) → Sent w (payload ∷ []) (emit w payload end)
unfolding emit numbered next_sequence
Sent-emit w payload end = record {
  packets = refl;
  sequence = refl;
  timestamp = refl;
  ssrc = refl;
  buffer_end = refl;
}

-- Of a build that returns true the predicate holds; a build that returns false sends what it sent
-- before it met the end of the buffer; and no build runs out of fuel.
abbrev pub After : (Work → Type 0) → Outcome → Type 0
After P (built w) = P w
After P (full w) = Unit
After P stuck = ⊥

-- A test in front of a build, and a build behind another.
pub After-if :
    (P : Work → Type 0) (b : Bool) (x y : Outcome)
    → After P x
    → After P y
    → After P (if b then x else y)
After-if P true x y hx hy = hx
After-if P false x y hx hy = hy

pub After-bind :
    (P Q : Work → Type 0) (o : Outcome) (k : Work → Outcome)
    → After P o
    → ((w : Work) → P w → After Q (k w))
    → After Q (o >>= k)
After-bind P Q (built w) k h step = step w h
After-bind P Q (full w) k h step = tt
After-bind P Q stuck k h step = absurd h

pub After-mono :
    {P Q : Work → Type 0} (o : Outcome) → ((w : Work) → P w → Q w) → After P o → After Q o
After-mono (built w) f h = f w h
After-mono (full w) f h = tt
After-mono stuck f h = h

pub sends_as :
    (w : Work) {xs ys : List (List ℕ)} (o : Outcome)
    → xs ≡ ys
    → After (Sent w xs) o
    → After (Sent w ys) o
sends_as w o e h = subst (λ zs. After (Sent w zs) o) e h

pub Sent-After :
    {w v : Work} {xs : List (List ℕ)} (ys : List (List ℕ))
    → Sent w xs v
    → (o : Outcome) → After (Sent v ys) o
    → After (Sent w (xs ++ ys)) o
Sent-After ys sent (built u) rest = Sent-append sent rest
Sent-After ys sent (full u) rest = tt
Sent-After ys sent stuck rest = rest

-- What follows a build that has sent `xs` sends `ys`.
pub After-Sent :
    (w : Work) (xs ys : List (List ℕ)) (o : Outcome) (k : Work → Outcome)
    → After (Sent w xs) o
    → ((v : Work) → After (Sent v ys) (k v))
    → After (Sent w (xs ++ ys)) (o >>= k)
After-Sent w xs ys o k h step =
    After-bind (Sent w xs) (Sent w (xs ++ ys)) o k h λ v sent. Sent-After ys sent (k v) (step v)
