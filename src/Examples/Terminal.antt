-- ===== src/Examples/Terminal.antt =====
-- A session on a terminal, in two orders of its steps.
use rktlet.Base.{◌≡◌, refl, true, false, none, some, List, [], ◌∷◌, ok}
use rktlet.Base.Int.{pos}
use rktlet.Runtime.Exec.{exit_error, new_rkt_exit_error, WaitError}
use rktlet.Runtime.Terminal.{
  Session, Event, writes, exits, sends, closes_sizes, feeds, copies, resizes, closes_done,
  closes_out, closes_pty, exec_with_tty, run, step, returned, zero_size,
}
use rktlet.Runtime.Terminal.Laws.{IsFaithful, run-IsFaithful}
use rktlet.Runtime.Terminal.Return.{run-returned}

abbrev begun : Session
begun = record {
  given = "ls" ∷ [];
  typed = [];
  written = [];
  pending = [];
  copied = [];
  sent = [];
  queue = [];
  resize_closed = false;
  set_sizes = [];
  feeding = true;
  copying = true;
  resizing = true;
  exited = none;
  done = false;
  out_closed = false;
  pty_closed = false;
}

begins : exec_with_tty (some ("ls" ∷ [])) true ≡ ok begun
unfolding exec_with_tty
begins = refl

abbrev failure : WaitError
failure = exit_error (some (pos 2))

-- The copy reads before the process ends, and the size is set.
abbrev in_time : List Event
in_time = feeds ∷ sends (80, 24) ∷ writes "out" ∷ copies ∷ resizes ∷ exits (some failure) ∷ []

-- The call returns before the copy reads, and the channel of sizes is closed.
abbrev too_late : List Event
too_late =
    closes_sizes
    ∷ writes "out"
    ∷ resizes
    ∷ exits (some failure)
    ∷ closes_done
    ∷ closes_out
    ∷ closes_pty
    ∷ copies
    ∷ []

in_time_copied : (run in_time begun).copied ≡ "out" ∷ []
unfolding run step
in_time_copied = refl

too_late_copied : (run too_late begun).copied ≡ []
unfolding run step
too_late_copied = refl

too_late_sizes : (run too_late begun).set_sizes ≡ zero_size ∷ []
unfolding run step
too_late_sizes = refl

run-IsFaithful_example : IsFaithful ("ls" ∷ []) (run in_time begun)
run-IsFaithful_example = run-IsFaithful (some ("ls" ∷ [])) true in_time begun begins

ended : (run in_time begun).exited ≡ some (some failure)
unfolding run step
ended = refl

run-returned_example :
    returned (
      run
        (copies ∷ closes_done ∷ resizes ∷ closes_out ∷ feeds ∷ closes_pty ∷ [])
        (run in_time begun))
    ≡ some (new_rkt_exit_error (some failure))
run-returned_example =
    run-returned (run in_time begun) (some failure) (copies ∷ []) (resizes ∷ []) (feeds ∷ []) ended
