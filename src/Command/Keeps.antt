-- ===== src/Command/Keeps.antt =====
-- src/main.c: the commands that only read the container.
use denyfs.Prelude.{
  ℕ, ◌≡◌, ◌≢◌, inl, inr, refl, sym, ap, ◌∙◌, Bool, true, false, Option, none, some, List, [], ◌∷◌,
  bytes_eq, bytes_eq→eq, Bool-cases, arith,
}
use denyfs.Crypto.{Crypto}
use denyfs.Volume.{Outcome, Device, Res, ok, err, Errno, Exec, of_option, fail, pure, ◌>>=◌}
use denyfs.Volume.Frame.{Frame, frame, at, IsPreorder, frame_rules, Frame-bind, Frame-of_option}
use denyfs.Validate.Reads.{fread_sector-ReadsDevice}
use denyfs.Open.Untouched.{Untouched, ReadsDevice-Untouched, vol_open-Untouched}
use denyfs.Fuse.{ℤ, pos, negsuc}
use denyfs.Command.{
  Machine, Env, next_of, next_call, must, read_line, get_password, Options, parse_options, defaults,
}
use denyfs.Command.Handlers.{
  open_container, on_container, put_file, write_out_file, seek, handle_read_sector,
}
use denyfs.Command.Main.{
  Verb, create, create_hidden, mount, write_sector, open_volume, read_sector, or_null, optional,
  protection_password, flags_of, run_verb, run_command, verb_of, run_args, main, exit_code,
}

abbrev pub only_reads : Verb → Bool
only_reads open_volume = true
only_reads read_sector = true
only_reads create = false
only_reads create_hidden = false
only_reads mount = false
only_reads write_sector = false

-- What a file holds.
abbrev pub contents : Option Device → Option (ℕ → List ℕ)
contents none = none
contents (some d) = some d.sectors

-- The file at `p` holds what it held.
abbrev pub KeepsFile : List ℕ → Machine → Machine → Type 0
KeepsFile p s t = contents (t.files p) ≡ contents (s.files p)

-- An output file, and what stands behind it in a command.
Frame-of_option-bind :
    {S A B : Type 0} {R : S → S → Type 0} (o : IsPreorder R) (q : Option A) (e : Errno)
    (k : A → Exec S B)
    → ((a : A) → q ≡ some a → Frame R (k a))
    → Frame R (of_option q e >>= k)
unfolding of_option fail pure ◌>>=◌
Frame-of_option-bind o none e k f = frame λ v. o.same v
Frame-of_option-bind o (some a) e k f = frame λ v. at (f a refl) v

module _ (p : List ℕ) where
  KeepsFile-order : IsPreorder (KeepsFile p)
  KeepsFile-order = record { same = λ s. refl; trans = λ s t u h k. k ∙ h }

  -- An action on a container that leaves its sectors.
  module _ {A : Type 0} (path : List ℕ) (m : Exec Device A) (f : Frame Untouched m) where
    open_container-Keeps :
        (o : Option Device) (s : Machine)
        → s.files path ≡ o
        → KeepsFile p s (open_container path o m s).1
    unfolding open_container
    open_container-Keeps none s e = refl
    open_container-Keeps (some d) s e = elim (Bool-cases (bytes_eq p path)) [
      | inl same ↦
          rw same (
            ap some (at f d).sectors ∙ sym (ap contents (ap s.files (bytes_eq→eq p path same) ∙ e)))
      | inr other ↦ rw other refl
    ]

    on_container-Keeps : Frame (KeepsFile p) (on_container path m)
    unfolding on_container
    on_container-Keeps = frame λ s. open_container-Keeps (s.files path) s refl

  next_of-Keeps : (os : List Outcome) (s : Machine) → KeepsFile p s (next_of os s).1
  unfolding next_of
  next_of-Keeps [] s = refl
  next_of-Keeps (o ∷ os) s = refl

  next_call-Keeps : Frame (KeepsFile p) next_call
  unfolding next_call
  next_call-Keeps = frame λ s. next_of-Keeps s.calls s

  must-Keeps : Frame (KeepsFile p) must
  unfolding must
  must-Keeps = search (frame_rules, KeepsFile-order, next_call-Keeps) depth 12

  read_line-Keeps : (fd : ℕ) → Frame (KeepsFile p) (read_line fd)
  unfolding read_line
  read_line-Keeps fd = frame λ s. refl

  get_password-Keeps : (fd : ℤ) → Frame (KeepsFile p) (get_password fd)
  unfolding get_password
  get_password-Keeps (pos fd) =
      search (frame_rules, KeepsFile-order, must-Keeps, read_line-Keeps) depth 12
  get_password-Keeps (negsuc n) =
      search (frame_rules, KeepsFile-order, must-Keeps, next_call-Keeps, read_line-Keeps) depth 20

  or_null-Keeps :
      (s : Machine) (r : Res (List ℕ) × Machine) → KeepsFile p s r.1 → KeepsFile p s (or_null r).1
  unfolding or_null
  or_null-Keeps s (ok pass, t) h = h
  or_null-Keeps s (err e, t) h = h

  optional-Keeps :
      (m : Exec Machine (List ℕ)) → Frame (KeepsFile p) m → Frame (KeepsFile p) (optional m)
  unfolding optional
  optional-Keeps m f = frame λ s. or_null-Keeps s (m s) (at f s)

  -- An output file is another file.
  module _ (path : List ℕ) (other : path ≢ p) where
    put_file-Keeps : (bytes : List ℕ) → Frame (KeepsFile p) (put_file path bytes)
    unfolding put_file
    put_file-Keeps bytes = frame λ s. elim (Bool-cases (bytes_eq p path)) [
      | inl same ↦ absurd (other (sym (bytes_eq→eq p path same)))
      | inr differ ↦ rw differ refl
    ]

    write_out_file-Keeps : (bytes : List ℕ) → Frame (KeepsFile p) (write_out_file path bytes)
    unfolding write_out_file
    write_out_file-Keeps bytes =
        search (frame_rules, KeepsFile-order, must-Keeps, next_call-Keeps, put_file-Keeps) depth 12

module _ (c : Crypto) (env : Env) (p : List ℕ) where
  protection_password-Keeps : (o : Options) → Frame (KeepsFile p) (protection_password c env o)
  unfolding protection_password
  protection_password-Keeps o =
      search (frame_rules, KeepsFile-order, optional-Keeps, get_password-Keeps) depth 12

  seek-Keeps : (offset : ℕ) → Frame (KeepsFile p) (seek c env offset)
  unfolding seek
  seek-Keeps offset = search (frame_rules, KeepsFile-order, next_call-Keeps) depth 12

  handle_read_sector-Keeps :
      (path raw_pass : List ℕ) (lba : ℕ) (out_file : List ℕ)
      → out_file ≢ p
      → Frame (KeepsFile p) (handle_read_sector c env path raw_pass lba out_file)
  unfolding handle_read_sector
  handle_read_sector-Keeps path raw_pass lba out_file other =
      let out = write_out_file-Keeps p out_file other in
      search
        (
          frame_rules, KeepsFile-order, on_container-Keeps, vol_open-Untouched,
          ReadsDevice-Untouched, fread_sector-ReadsDevice, seek-Keeps, out,
        )
        depth 40

  -- The files that a command with these options may change: `read-sector` its output file.
  abbrev NotOutput : Verb → Options → Type 0
  NotOutput verb o = verb ≡ read_sector → o.out_file ≢ some p

  read_commands-Keeps :
      (verb : Verb) (path : List ℕ) (o : Options)
      → only_reads verb ≡ true
      → NotOutput verb o
      → Frame (KeepsFile p) (run_verb c env verb path o)
  unfolding run_verb
  read_commands-Keeps open_volume path o h out =
      search
        (
          frame_rules, KeepsFile-order, optional-Keeps, get_password-Keeps,
          protection_password-Keeps, on_container-Keeps, vol_open-Untouched,
        )
        depth 40
  read_commands-Keeps read_sector path o h out =
      Frame-bind (KeepsFile-order p) _ _ (Frame-of_option (KeepsFile-order p) _ _) λ lba.
        Frame-of_option-bind (KeepsFile-order p) o.out_file _ _ λ file is.
          Frame-bind (KeepsFile-order p) _ _ (get_password-Keeps p _) λ raw_pass.
            handle_read_sector-Keeps path raw_pass lba file (λ same. out refl (is ∙ ap some same))
  read_commands-Keeps create path o h out = ground arith
  read_commands-Keeps create_hidden path o h out = ground arith
  read_commands-Keeps mount path o h out = ground arith
  read_commands-Keeps write_sector path o h out = ground arith

  run_command-Keeps :
      (verb : Verb) (path : List ℕ) (args : List (List ℕ))
      → only_reads verb ≡ true
      → NotOutput verb (parse_options env (flags_of verb) args defaults)
      → Frame (KeepsFile p) (run_command c env (some verb) (path ∷ args))
  unfolding run_command
  run_command-Keeps verb path args h out =
      let run =
        read_commands-Keeps verb path (parse_options env (flags_of verb) args defaults) h out in
      search (frame_rules, KeepsFile-order, run) depth 12

  exit_code-Keeps :
      (s : Machine) (r : Res ℕ × Machine) → KeepsFile p s r.1 → KeepsFile p s (exit_code c env r).1
  unfolding exit_code
  exit_code-Keeps s (ok n, t) h = h
  exit_code-Keeps s (err e, t) h = h

  -- `open` leaves every sector of every file as it was, and `read-sector` those of every file but
  -- the one that its last `--output` names, whatever their arguments and passwords, and whatever the
  -- host fails at, where every file is known by one path.
  pub main-reads :
      (command path : List ℕ) (args : List (List ℕ)) (s : Machine) (verb : Verb)
      → verb_of command ≡ some verb
      → only_reads verb ≡ true
      → NotOutput verb (parse_options env (flags_of verb) args defaults)
      → contents ((main c env (command ∷ path ∷ args) s).1.files p) ≡ contents (s.files p)
  unfolding main run_args
  main-reads command path args s verb e h out =
      exit_code-Keeps s (run_args c env (command ∷ path ∷ args) s) (
        at
          (Frame-bind (KeepsFile-order p) must
            (λ _. run_command c env (verb_of command) (path ∷ args)) (must-Keeps p)
            λ _. rw e (run_command-Keeps verb path args h out))
          s)
