-- ===== src/Logger/Rotation.antt =====
-- What `write_log` keeps: the numbers of the files and their sizes.
use rtc_client.Common.{
  ◌^◌, length, length-take, ℕ, ◌+◌, ◌*◌, ◌≤◌, ◌<◌, ◌≡◌, ◌≢◌, refl, ap, sym, ◌∙◌, ◌⊎◌, inl, inr,
  Bool, Bool-cases, true, false, Option, Option-cases, none, some, List, [], ◌∷◌, ◌++◌, ltb, ◌==◌,
  ◌||◌, if◌then◌else◌, arith,
}
use rtc_client.Common.Text.{Text, is_empty}
use rtc_client.Logger.{
  create, initialize, Logger, System, Time, Effect, next_seq, next_file, file_name_of, needs_file,
  is_new_day, open_file, rotate, print_line, log_line, write_log, printed_to,
}
use rtc_client.Logger.Search.{IsFree, Fits, next_file-IsFree}
use rtc_client.Logger.Names.{IsTime, is_over_small, file_name_of-Fits}

pub record IsSound (l : Logger) : Type 0 where
  pub counted : 0 < l.max_file_count
  pub few : l.max_file_count < 2 ^ 31
  pub prefix : length l.prefix_name ≤ 128
  pub limited : l.max_size < 2 ^ 21
  pub fresh : l.log_file_path ≡ [] → l.seq ≡ 0
  pub numbered : l.seq ≤ l.max_file_count
  pub named : (p : Text) → l.file ≡ some p → p ≡ l.log_file_path
  pub shut : l.file ≡ none → l.printed_size ≡ 0

-- A logger begins sound, whatever prefix it is given.
pub initialize-IsSound :
    (created daily : Bool) (prefix directory : Text) (size count : ℕ)
    → 0 < count
    → count < 2 ^ 31
    → size < 2 ^ 21
    → IsSound (initialize created directory daily size count (create prefix)).1
unfolding initialize create
initialize-IsSound created daily prefix directory size count some_file few limited = record {
  counted = some_file;
  few = few;
  prefix = omega (arith, length-take 128 prefix);
  limited = limited;
  fresh = λ e. refl;
  numbered = omega arith;
  named = λ p e. cc;
  shut = λ e. refl;
}

abbrev pub size_of : Option ℕ → ℕ
size_of none = 0
size_of (some n) = n

next_seq_bounds :
    (count seq : ℕ) → 0 < count → (1 ≤ next_seq count seq) × (next_seq count seq ≤ count)
next_seq_bounds count seq h = grind arith

empty_eq : (xs : Text) → is_empty xs ≡ true → xs ≡ []
empty_eq [] h = refl
empty_eq (x ∷ xs) h = cc

free_bounds :
    (exists : ℕ → Bool) (count s : ℕ) → 0 < count → IsFree exists count 0 s → (1 ≤ s) × (s ≤ count)
free_bounds exists count s pos (inl h) = (h.0, h.1)
free_bounds exists count s pos (inr h) = omega (arith, h.0)

-- The search is made from 0 where there is no path.
next_file_bounds :
    (sys : System) (t : Time) (from : ℕ) (l : Logger)
    → Fits l t
    → 0 < l.max_file_count
    → (l.log_file_path ≡ [] → from ≡ 0)
    → (s : ℕ) × (next_file sys t from l ≡ some s) × (1 ≤ s) × (s ≤ l.max_file_count)
unfolding next_file
next_file_bounds sys t from l room pos fresh = elim (Bool-cases (is_empty l.log_file_path)) [
  | inl e ↦
      let none_yet = empty_eq l.log_file_path e in
      let (s, run, free) = next_file-IsFree sys t l room pos none_yet in
      let (low, high) = free_bounds _ l.max_file_count s pos free in
      (s, ap (λ i. next_file sys t i l) (fresh none_yet) ∙ run, low, high)
  | inr e ↦
      let test : (l.max_file_count == 0) ≡ false = ground arith in
      let (low, high) = next_seq_bounds l.max_file_count from pos in
      (
        next_seq l.max_file_count from,
        rw test (rw e (rw (room (next_seq l.max_file_count from) low high) refl)),
        low,
        high,
      )
]

append_cons : (xs ys : Text) (y : ℕ) → xs ++ (y ∷ ys) ≢ []
append_cons [] ys y e = cc
append_cons (x ∷ xs) ys y e = cc

path_set :
    (sys : System) (t : Time) (s : ℕ) (l : Logger) → l.log_directory ++ file_name_of l t s ≢ []
unfolding file_name_of
path_set sys t s l e = elim (Bool-cases l.is_daily) [
  | inl daily ↦ append_cons _ _ _ (rw daily at e)
  | inr other ↦ append_cons _ _ _ (rw other at e)
]

closed_size :
    (f : Option Text) (n : ℕ)
    → (f ≡ none → n ≡ 0)
    → elim f as (λ x. ℕ) [ none ↦ n | some old ↦ 0 ] ≡ 0
closed_size none n h = h refl
closed_size (some path) n h = refl

module _ (sys : System) (t : Time) (l : Logger) (is : IsSound l) (time : IsTime t) where
  open_file-IsSound :
      (s : ℕ)
      → s ≤ l.max_file_count
      → IsSound (open_file sys t s l).0
        × ((open_file sys t s l).0.printed_size ≡ 0)
        × ((open_file sys t s l).0.max_size ≡ l.max_size)
  unfolding open_file
  open_file-IsSound s h = elim (Bool-cases (sys.opens (l.log_directory ++ file_name_of l t s))) [
    | inl open_yes ↦ rw open_yes (
      record {
        counted = is.counted;
        few = is.few;
        prefix = is.prefix;
        limited = is.limited;
        fresh = λ e. absurd (path_set sys t s l e);
        numbered = h;
        named = λ p e. cc;
        shut = λ e. cc;
      },
      refl,
      refl,
    )
    | inr open_no ↦ rw open_no (
      record {
        counted = is.counted;
        few = is.few;
        prefix = is.prefix;
        limited = is.limited;
        fresh = λ e. absurd (path_set sys t s l e);
        numbered = h;
        named = λ p e. cc;
        shut = λ e. closed_size l.file l.printed_size is.shut;
      },
      closed_size l.file l.printed_size is.shut,
      refl,
    )
  ]

  -- The logger behind the choice of the file.
  abbrev IsReady : Logger → Type 0
  IsReady after =
      IsSound after × (after.printed_size ≤ l.max_size * 1024) × (after.max_size ≡ l.max_size)

  rotate-IsReady : (after : Logger × List Effect) × (rotate sys t l ≡ some after) × IsReady after.0
  unfolding rotate needs_file
  rotate-IsReady = elim (Bool-cases (needs_file t l)) [
    | inl new_file ↦
        let from = if is_new_day t l || ltb l.max_file_count l.seq then 0 else l.seq in
        let begins : l.log_file_path ≡ [] → from ≡ 0 = λ e. ground (arith, is.fresh e) in
        let (s, run, low, high) =
          next_file_bounds sys t from l (file_name_of-Fits l t is.prefix time is.few) is.counted
            begins in
        let (sound, size, max) = open_file-IsSound s high in
        (open_file sys t s l, rw new_file (rw run refl), (sound, omega arith, max))
    | inr same_file ↦ (
      (l, []),
      rw same_file refl,
      (is, ground (arith, same_file, is_over_small l.max_size l.printed_size is.limited), refl),
    )
  ]

-- An open file may grow.
grown :
    (l : Logger) (n : ℕ) (path : Text)
    → IsSound l
    → l.file ≡ some path
    → IsSound (record l { printed_size = l.printed_size + n })
grown l n path is opened = record {
  counted = is.counted;
  few = is.few;
  prefix = is.prefix;
  limited = is.limited;
  fresh = is.fresh;
  numbered = is.numbered;
  named = is.named;
  shut = λ e. absurd (some_none (sym opened ∙ e));
}
  where
    some_none : some path ≡ none → ⊥
    some_none e = cc

abbrev printed_to_file : Option Text → Option ℕ → Text → Logger → List Effect → Logger × List Effect
printed_to_file f o text l effects = elim f [
  | none ↦ (l, effects)
  | some path ↦ (
    elim o [ none ↦ l | some n ↦ record l { printed_size = l.printed_size + n } ],
    effects ++ (printed_to path text ∷ []),
  )
]

printed-IsSound :
    (f : Option Text) (o : Option ℕ) (text : Text) (l : Logger) (effects : List Effect)
    → l.file ≡ f
    → IsSound l
    → IsSound (printed_to_file f o text l effects).0
      × ((printed_to_file f o text l effects).0.printed_size ≤ l.printed_size + size_of o)
printed-IsSound none o text l effects e is = (is, omega arith)
printed-IsSound (some path) none text l effects e is = (is, omega arith)
printed-IsSound (some path) (some n) text l effects e is = (grown l n path is e, omega arith)

print_line-IsSound :
    (sys : System) (text : Text) (l : Logger) (effects : List Effect)
    → IsSound l
    → IsSound (print_line sys text (l, effects)).0
      × ((print_line sys text (l, effects)).0.printed_size ≤ l.printed_size + size_of sys.printed)
unfolding print_line
print_line-IsSound sys text l effects is = printed-IsSound l.file sys.printed text l effects refl is

-- A line at a known time.
write_log-known :
    (sys : System) (filename : Text) (line : ℕ) (type message : Text) (l : Logger) (t : Time)
    (after : Logger × List Effect)
    → sys.now ≡ some t
    → rotate sys t l ≡ some after
    → write_log sys filename line type message l
      ≡ some (print_line sys (log_line sys t filename line type message) after)
unfolding write_log
write_log-known sys filename line type message l t after now run = ap at_time now ∙ ap rotated run
  where
    rotated : Option (Logger × List Effect) → Option (Logger × List Effect)
    rotated o = elim o [
      | none ↦ none
      | some a ↦ some (print_line sys (log_line sys t filename line type message) a)
    ]

    at_time : Option Time → Option (Logger × List Effect)
    at_time o = elim o [
      | none ↦ some (l, [])
      | some u ↦ elim (rotate sys u l) [
        | none ↦ none
        | some a ↦ some (print_line sys (log_line sys u filename line type message) a)
      ]
    ]

-- Where the local time is given in numbers of 32 bits, a sound logger writes a line without a fault
-- (the name of the file fits its buffer), and stays sound: there may be at least one file and less than
-- 2 ^ 31, of less than 2 ^ 21 kilobytes, the prefix of their names has at most 128 bytes, the
-- number of the current one is not more than there may be, an open file is the one of the path, and
-- where none is open no size is counted. Unless the local time is not known, in which case nothing
-- changes, what is counted of the file is at most the bound in kilobytes and this one line.
pub write_log-IsSound :
    (sys : System) (filename : Text) (line : ℕ) (type message : Text) (l : Logger)
    → ((t : Time) → sys.now ≡ some t → IsTime t)
    → IsSound l
    → (after : Logger × List Effect) × (write_log sys filename line type message l ≡ some after)
      × IsSound after.0
      × (((after ≡ (l, [])) × (sys.now ≡ none))
          ⊎ (after.0.printed_size ≤ l.max_size * 1024 + size_of sys.printed))
unfolding write_log
write_log-IsSound sys filename line type message l times is = elim (Option-cases sys.now) [
  | inl unknown ↦ ((l, []), rw unknown refl, is, inl (refl, unknown))
  | inr (t, now) ↦
      let ((chosen, effects), run, ready) = rotate-IsReady sys t l is (times t now) in
      let text = log_line sys t filename line type message in
      let (sound, size) = print_line-IsSound sys text chosen effects ready.0 in
      (
        print_line sys text (chosen, effects),
        write_log-known sys filename line type message l t (chosen, effects) now run,
        sound,
        inr (omega (arith, size, ready.1)),
      )
]
