-- ===== src/Runtime/Terminal.antt =====
-- execWithTty of rktlet/runtime/exec.go: the call that waits for a process on a terminal, and its
-- three goroutines, as steps that may come in any order. Texts stand for the chunks that a copy
-- reads and writes at once.
pub mod Flow
pub mod Laws
pub mod Return
use rktlet.Base.{
  ℕ, String, Bool, true, false, Option, none, some, List, [], ◌∷◌, ◌++◌, ◌&&◌, not, if◌then◌else◌,
  Result, ok, err,
}
use rktlet.Errors.{Error, nil_dereference}
use rktlet.Runtime.Exec.{WaitError, ExecError, new_rkt_exit_error}

-- remotecommand.TerminalSize, whose zero value a closed channel gives
abbrev pub Size : Type 0
Size = ℕ × ℕ

abbrev pub zero_size : Size
zero_size = (0, 0)

pub record Session : Type 0 where
  -- what is left of the standard input, and what of it went to the terminal
  pub given : List String
  pub typed : List String
  -- what the process wrote, what of it is in the terminal, and what was copied to `out`
  pub written : List String
  pub pending : List String
  pub copied : List String
  -- the sizes that were sent, those in the channel, whether it is closed, and those with which
  -- SetSize was called: its error, which it gives once the terminal is closed, is passed over
  pub sent : List Size
  pub queue : List Size
  pub resize_closed : Bool
  pub set_sizes : List Size
  -- the goroutines that run
  pub feeding : Bool
  pub copying : Bool
  pub resizing : Bool
  -- what Wait gave when the process ended, and the deferred calls that were made
  pub exited : Option (Option WaitError)
  pub done : Bool
  pub out_closed : Bool
  pub pty_closed : Bool

-- What happens: the process writes or ends, the client sends a size or closes the channel of
-- sizes, a goroutine goes a step on, or the call makes its next deferred call.
pub data Event : Type 0 where
  writes : String → Event
  exits : Option WaitError → Event
  sends : Size → Event
  closes_sizes feeds copies resizes ends_resizing closes_done closes_out closes_pty : Event

-- What is copied from `in`, which may be nil.
abbrev pub input_of : Option (List String) → List String
input_of none = []
input_of (some input) = input

abbrev pub has_input : Option (List String) → Bool
has_input none = false
has_input (some input) = true

-- The session after pty.Start, once the goroutines are there. A call with no `out` panics where
-- its Close is deferred.
unfoldable pub exec_with_tty : Option (List String) → Bool → Result Error Session
exec_with_tty input false = err nil_dereference
exec_with_tty input true = ok (record {
  given = input_of input;
  typed = [];
  written = [];
  pending = [];
  copied = [];
  sent = [];
  queue = [];
  resize_closed = false;
  set_sizes = [];
  feeding = has_input input;
  copying = true;
  resizing = true;
  exited = none;
  done = false;
  out_closed = false;
  pty_closed = false;
})

module _ (s : Session) where
  abbrev pub write : Option (Option WaitError) → String → Session
  write (some e) text = s
  write none text = record s { written = s.written ++ text ∷ []; pending = s.pending ++ text ∷ [] }

  abbrev pub exit : Option (Option WaitError) → Option WaitError → Session
  exit (some e) later = s
  exit none e = record s { exited = some e }

  abbrev pub send : Bool → Size → Session
  send true size = s
  send false size = record s { sent = s.sent ++ size ∷ []; queue = s.queue ++ size ∷ [] }

  -- A round of io.Copy(p, in), which ends when a write fails or nothing is left.
  abbrev pub feed : Bool → Bool → List String → Session
  feed false pty_closed given = s
  feed true pty_closed [] = record s { feeding = false }
  feed true true (text ∷ given) = record s { given = given; feeding = false }
  feed true false (text ∷ given) = record s { given = given; typed = s.typed ++ text ∷ [] }

  -- A round of io.Copy(out, p): with nothing to read it waits; a read of a closed terminal and a
  -- write to a closed `out` fail, and what was read before such a write is lost.
  abbrev pub copy : Bool → Bool → Bool → List String → Session
  copy false pty_closed out_closed pending = s
  copy true true out_closed pending = record s { copying = false }
  copy true false out_closed [] = s
  copy true false true (text ∷ pending) = record s { pending = pending; copying = false }
  copy true false false (text ∷ pending) = record s {
    pending = pending;
    copied = s.copied ++ text ∷ [];
  }

  -- A round of the select that receives a size: a closed channel that is empty gives zeros.
  abbrev pub resize : Bool → Bool → List Size → Session
  resize false resize_closed queue = s
  resize true false [] = s
  resize true true [] = record s { set_sizes = s.set_sizes ++ zero_size ∷ [] }
  resize true resize_closed (size ∷ queue) = record s {
    queue = queue;
    set_sizes = s.set_sizes ++ size ∷ [];
  }

  -- close(done), which is the first of the deferred calls, after Wait.
  abbrev pub close_done : Option (Option WaitError) → Session
  close_done none = s
  close_done (some e) = record s { done = true }

  -- The select receives from `done` once it is closed.
  abbrev pub end_resizing : Bool → Session
  end_resizing false = s
  end_resizing true = record s { resizing = false }

  -- out.Close() and p.Close(), each after the deferred call before it.
  abbrev pub close_out : Bool → Session
  close_out false = s
  close_out true = record s { out_closed = true }

  abbrev pub close_pty : Bool → Session
  close_pty false = s
  close_pty true = record s { pty_closed = true }

-- A step of the session; what cannot happen leaves it as it is.
unfoldable pub step : Event → Session → Session
step (writes text) s = write s s.exited text
step (exits e) s = exit s s.exited e
step (sends size) s = send s s.resize_closed size
step closes_sizes s = record s { resize_closed = true }
step feeds s = feed s s.feeding s.pty_closed s.given
step copies s = copy s s.copying s.pty_closed s.out_closed s.pending
step resizes s = resize s s.resizing s.resize_closed s.queue
step ends_resizing s = end_resizing s s.done
step closes_done s = close_done s s.exited
step closes_out s = close_out s s.done
step closes_pty s = close_pty s s.out_closed

unfoldable pub run : List Event → Session → Session
run [] s = s
run (event ∷ events) s = run events (step event s)

-- What the call returned, if it did.
unfoldable pub returned : Session → Option (Option ExecError)
returned s = elim s.exited [
  | none ↦ none
  | some e ↦ if s.pty_closed then some (new_rkt_exit_error e) else none
]
