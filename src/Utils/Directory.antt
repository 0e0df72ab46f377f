-- ===== src/Utils/Directory.antt =====
-- `create_directory_recursively` of src/common/common_utils.cpp, as built for Linux. The state of the
-- file system, whether `stat` succeeds, and `mkdir` are arguments; `none` is no value of the code:
-- out of fuel.
use rtc_client.Common.{
  ℕ, zero, suc, ◌<◌, ◌≡◌, refl, Bool, true, false, Option, none, some, [], ◌∷◌, length, ◌==◌,
  if◌then◌else◌, arith, Option-cases, Bool-cases, inl, inr, ◌∙◌, ap,
}
use rtc_client.Common.Text.{Text}

-- What `mkdir` returns, with `errno` where it is not 0.
pub data Made : Type 0 where
  made : Made
  eexist : Made
  failed : Made

-- `directory.substr(0, directory.rfind("/"))`, where there is a slash.
unfoldable pub parent : Text → Option Text
parent [] = none
parent (c ∷ s) = elim (parent s) [
  | some p ↦ some (c ∷ p)
  | none ↦ if c == b'/' then some [] else none
]

abbrev pub is_there : Made → Bool
is_there made = true
is_there eexist = true
is_there failed = false

module _ {ℓ} {Files : Type ℓ} (check_path_exists : Text → Files → Bool)
    (mkdir : Text → Files → Made × Files) where
  -- The directory itself, behind its parents.
  unfoldable pub make_directory : Text → Files → Bool × Files
  make_directory directory files =
      let (result, after) = mkdir directory files in (is_there result, after)

  unfoldable pub create_loop : ℕ → Text → Files → Option (Bool × Files)
  unfolding parent make_directory
  create_loop zero directory files = none
  create_loop (suc fuel) directory files = elim (check_path_exists directory files) [
    | true ↦ some (true, files)
    | false ↦ elim (parent directory) [
      | none ↦ some (make_directory directory files)
      | some p ↦ elim (create_loop fuel p files) [
        | none ↦ none
        | some (false, after) ↦ some (false, after)
        | some (true, after) ↦ some (make_directory directory after)
      ]
    ]
  ]

  -- A parent is shorter.
  unfoldable pub create_directory_recursively : Text → Files → Option (Bool × Files)
  unfolding create_loop
  create_directory_recursively directory files =
      create_loop (suc (length directory)) directory files

length-parent : (s p : Text) → parent s ≡ some p → length p < length s
unfolding parent
length-parent [] p h = ground (arith, h)
length-parent (c ∷ s) p h = elim (Option-cases (parent s)) [
  | inl none_there ↦ ground (arith, h, none_there)
  | inr (q, there) ↦ ground (arith, h, there, length-parent s q there)
]

-- What `stat` and `mkdir` promise: a path that was made, or was there, is there behind it. A link
-- that leads nowhere breaks it.
module _ {ℓ} {Files : Type ℓ} (check_path_exists : Text → Files → Bool)
    (mkdir : Text → Files → Made × Files) where
  abbrev pub Promised : Type ℓ
  Promised =
      (d : Text) (files : Files)
      → is_there ((mkdir d files).0) ≡ true
      → check_path_exists d ((mkdir d files).1) ≡ true

  abbrev pub Creates : Text → Files → Option (Bool × Files) → Type ℓ
  Creates d files r =
      (answer : Bool) × (after : Files) × (r ≡ some (answer, after))
      × (answer ≡ true → check_path_exists d after ≡ true)
      × (check_path_exists d files ≡ true → (answer ≡ true) × (after ≡ files))

  create_loop_there :
      (fuel : ℕ) (d : Text) (files : Files)
      → check_path_exists d files ≡ true
      → create_loop check_path_exists mkdir (suc fuel) d files ≡ some (true, files)
  unfolding create_loop
  create_loop_there fuel d files there = rw (create_loop, there) refl

  create_loop_top :
      (fuel : ℕ) (d : Text) (files : Files)
      → check_path_exists d files ≡ false
      → parent d ≡ none
      → create_loop check_path_exists mkdir (suc fuel) d files
        ≡ some (make_directory check_path_exists mkdir d files)
  unfolding create_loop
  create_loop_top fuel d files new top = rw (create_loop, new) (rw top refl)

  create_loop_below :
      (fuel : ℕ) (d p : Text) (files after : Files) (answer : Bool)
      → check_path_exists d files ≡ false
      → parent d ≡ some p
      → create_loop check_path_exists mkdir fuel p files ≡ some (answer, after)
      → create_loop check_path_exists mkdir (suc fuel) d files
        ≡ some (if answer then make_directory check_path_exists mkdir d after else (false, after))
  unfolding create_loop
  create_loop_below fuel d p files after true new below run =
      rw (create_loop, new) (rw below (rw run refl))
  create_loop_below fuel d p files after false new below run =
      rw (create_loop, new) (rw below (rw run refl))

  make_directory-Creates :
      (d : Text) (files before : Files) (r : Option (Bool × Files))
      → Promised
      → check_path_exists d files ≡ false
      → r ≡ some (make_directory check_path_exists mkdir d before)
      → Creates d files r
  unfolding make_directory
  make_directory-Creates d files before r promised new run = (
    is_there ((mkdir d before).0),
    (mkdir d before).1,
    run,
    promised d before,
    λ there. absurd (ground (arith, new, there)),
  )

  create_loop-Creates :
      (fuel : ℕ) (d : Text) (files : Files)
      → Promised
      → length d < fuel
      → Creates d files (create_loop check_path_exists mkdir fuel d files)
  create_loop-Creates zero d files promised enough = absurd (omega (arith, enough))
  create_loop-Creates (suc fuel) d files promised enough =
      elim (Bool-cases (check_path_exists d files)) [
        | inl there ↦
            (true, files, create_loop_there fuel d files there, (λ _. there), (λ _. (refl, refl)))
        | inr new ↦ elim (Option-cases (parent d)) [
          | inl top ↦
              make_directory-Creates d files files _ promised new
                (create_loop_top fuel d files new top)
          | inr (p, below) ↦ behind_parent p below new (
              create_loop-Creates fuel p files promised
                (omega (arith, enough, length-parent d p below)))
        ]
      ]
    where
      behind_parent :
          (p : Text)
          → parent d ≡ some p
          → check_path_exists d files ≡ false
          → Creates p files (create_loop check_path_exists mkdir fuel p files)
          → Creates d files (create_loop check_path_exists mkdir (suc fuel) d files)
      behind_parent p below new (true, after, run, there, same) =
          make_directory-Creates d files after _ promised new
            (create_loop_below fuel d p files after true new below run)
      behind_parent p below new (false, after, run, there, same) = (
        false,
        after,
        create_loop_below fuel d p files after false new below run,
        (λ e. absurd (ground (arith, e))),
        (λ e. absurd (ground (arith, new, e))),
      )

-- Where `stat` and `mkdir` keep their promise, `create_directory_recursively` ends; where it returns
-- true the directory is there, and where it was there before nothing is changed.
pub create_directory_recursively-Creates {ℓ} :
    {Files : Type ℓ} (check_path_exists : Text → Files → Bool) (mkdir : Text → Files → Made × Files)
    (d : Text) (files : Files)
    → Promised check_path_exists mkdir
    → Creates check_path_exists mkdir d files
        (create_directory_recursively check_path_exists mkdir d files)
unfolding create_directory_recursively
create_directory_recursively-Creates check_path_exists mkdir d files promised =
    create_loop-Creates check_path_exists mkdir (suc (length d)) d files promised (omega arith)

-- A directory that stands right under the root and is not there is refused, and `mkdir` is called
-- with the empty path alone.
pub create_directory_recursively_root {ℓ} :
    {Files : Type ℓ} (check_path_exists : Text → Files → Bool) (mkdir : Text → Files → Made × Files)
    (d : Text) (files : Files)
    → parent d ≡ some []
    → check_path_exists d files ≡ false
    → check_path_exists [] files ≡ false
    → (mkdir [] files).0 ≡ failed
    → create_directory_recursively check_path_exists mkdir d files
      ≡ some (false, (mkdir [] files).1)
unfolding create_directory_recursively make_directory parent
create_directory_recursively_root check_path_exists mkdir [] files under new none_there no_path =
    absurd (ground (arith, under))
create_directory_recursively_root check_path_exists mkdir (c ∷ s) files under new none_there
      no_path =
    create_loop_below check_path_exists mkdir (suc (length s)) (c ∷ s) [] files (mkdir [] files).1
      false new under
      (create_loop_top check_path_exists mkdir (length s) [] files none_there refl
        ∙ ap (λ r. some (is_there r, (mkdir [] files).1)) no_path)
