-- ===== src/Cli/Laws.antt =====
-- What RunCommand gives for what the program printed.
use rktlet.Base.{
  ◌≡◌, refl, ◌≢◌, ◌⊎◌, inl, inr, String, none, some, List, [], All, join, Option-cases, ok, err,
}
use rktlet.Base.Chars.{trim_space, Lacks}
use rktlet.Base.Chars.Split.{split-ne-nil, split-Lacks, join-split}
use rktlet.Errors.{unaddressable_value}
use rktlet.Host.{Host}
use rktlet.Cli.Flags.{CliConfig, merge}
use rktlet.Cli.{RktCli, command, lines, result_of, run_command, with_config, failed_to_run}

lines-ne-nil : (output : String) → lines output ≢ []
unfolding lines
lines-ne-nil output = split-ne-nil b'\n' (trim_space output)

-- The lines of an output.
pub record IsLines (output : String) (ls : List String) : Type 0 where
  pub nonempty : ls ≢ []
  pub single : All (Lacks b'\n') ls
  pub joined : join "\n" ls ≡ trim_space output

lines-IsLines : (output : String) → IsLines output (lines output)
unfolding lines
lines-IsLines output = record {
  nonempty = split-ne-nil b'\n' (trim_space output);
  single = split-Lacks b'\n' (trim_space output);
  joined = join-split "\n" (trim_space output);
}

-- A rkt command succeeds exactly if the program did, and then its result is at least one text, none
-- holds a line break, and joined by line breaks they are the trimmed output.
pub run_command_lem :
    (h : Host) (c : RktCli) (sub_cmd : String) (args : List String) (s : h.State)
    → let ((output, error), s') = h.combined_output (command c sub_cmd args) s in
      ((error ≡ none)
        × ((ls : List String) × (run_command h c sub_cmd args s ≡ (ok ls, s')) × IsLines output ls))
      ⊎ ((e : String) × (error ≡ some e)
          × (run_command h c sub_cmd args s ≡ (err (failed_to_run sub_cmd args e output), s')))
unfolding run_command result_of
run_command_lem h c sub_cmd args s =
    elim (Option-cases (h.combined_output (command c sub_cmd args) s).0.1) [
      | inl fine ↦ inl (
        fine,
        (lines (h.combined_output (command c sub_cmd args) s).0.0, rw fine refl, lines-IsLines _),
      )
      | inr (e, failed) ↦ inr (e, failed, rw failed refl)
    ]

-- A `cli` is never made from another by `With`: every configuration ends in the panic of Merge, and
-- no variable has been set then.
with_config-panics :
    (h : Host) (c : RktCli) (cfg : CliConfig) (s : h.State)
    → with_config h c cfg s ≡ (err unaddressable_value, s)
unfolding with_config merge
with_config-panics h c cfg s = refl
