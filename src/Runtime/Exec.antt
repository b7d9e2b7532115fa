-- ===== src/Runtime/Exec.antt =====
-- rktlet/runtime/exec.go: commands run in a container. Streams are texts: what a process is given to
-- read, and what it has written when it is waited for. A terminal's size is left out.
pub mod Laws
use rktlet.Base.{
  String, ◌<>◌, Bool, true, false, Option, none, some, List, [], ◌∷◌, ◌++◌, if◌then◌else◌, Result,
  ok, err,
}
use rktlet.Base.Int.{ℤ, pos, wrap32}
use rktlet.Errors.{Error, external, index_out_of_range, not_done}
use rktlet.Host.{Host, Act, fail, wrap}
use rktlet.Cli.{CliOps}
use rktlet.Runtime.AppName.{parse_container_id}
use rktlet.Runtime.Service.{Streaming, RktRuntime}

-- The error of Wait: *exec.ExitError, with the status if its Sys() is a syscall.WaitStatus, or any
-- other.
pub data WaitError : Type 0 where
  exit_error : Option ℤ → WaitError
  other_error : String → WaitError

-- What a process wrote on its standard output and standard error.
pub record Output : Type 0 where
  pub stdout : String
  pub stderr : String

-- os/exec and github.com/kr/pty
pub record Processes (h : Host) : Type 1 where
  pub Process : Type 0
  -- Start, with what is on the standard input if one is given, and pty.Start
  pub start : List String → Option String → h.State → Result String Process × h.State
  pub start_with_tty : List String → Option String → h.State → Result String Process × h.State
  pub wait : Process → h.State → (Option WaitError × Output) × h.State

-- An error of the shim: a rktExitError, or any other.
pub data ExecError : Type 0 where
  rkt_exit_error : Option ℤ → ExecError
  internal_error : Error → ExecError

-- newRktExitError, which leaves nil as it is
unfoldable pub new_rkt_exit_error : Option WaitError → Option ExecError
new_rkt_exit_error none = none
new_rkt_exit_error (some (exit_error status)) = some (rkt_exit_error status)
new_rkt_exit_error (some (other_error e)) = some (internal_error (external e))

-- ExitStatus of a rktExitError
unfoldable pub exit_status : Option ℤ → ℤ
exit_status none = pos 0
exit_status (some status) = status

-- The outcome of Exec: its error or nil, and what was written.
abbrev pub Outcome : Type 0
Outcome = Option ExecError × Output

abbrev pub nothing_written : Output
nothing_written = record { stdout = ""; stderr = "" }

abbrev pub failed_with : Error → Outcome
failed_with e = (some (internal_error e), nothing_written)

pub record ExecSyncResponse : Type 0 where
  pub exit_code : ℤ
  pub stdout : String
  pub stderr : String

-- ExecSync, from what Exec gave on.
unfoldable pub exec_sync_response : Outcome → Result Error ExecSyncResponse
exec_sync_response (none, out) =
    ok (record { exit_code = pos 0; stdout = out.stdout; stderr = out.stderr })
exec_sync_response (some (rkt_exit_error status), out) =
    ok
      (record { exit_code = wrap32 (exit_status status); stdout = out.stdout; stderr = out.stderr })
exec_sync_response (some (internal_error e), out) = err e

module _ (h : Host) (cli : CliOps h) (procs : Processes h)
    (sanitize : String → Result String String) where
  abbrev waited : (Option WaitError × Output) × h.State → Outcome × h.State
  waited ((e, out), s) = ((new_rkt_exit_error e, out), s)

  abbrev after_start : Result String procs.Process × h.State → Outcome × h.State
  after_start (ok p, s) = waited (procs.wait p s)
  after_start (err e, s) = (failed_with (external e), s)

  -- exec.Command(rktCommand[0], rktCommand[1:]...), started and waited for; with a terminal,
  -- execWithTty.
  abbrev run_process : List String → Option String → Bool → h.State → Outcome × h.State
  run_process [] input tty s = (failed_with index_out_of_range, s)
  run_process (c ∷ cmd) input tty s =
      after_start
        (if tty then procs.start_with_tty (c ∷ cmd) input s else procs.start (c ∷ cmd) input s)

  abbrev exec_parsed :
      Result Error (String × String)
      → List String
      → Option String
      → Bool
      → h.State
      → Outcome × h.State
  exec_parsed (err e) cmd input tty s = (failed_with e, s)
  exec_parsed (ok (uuid, app_name)) cmd input tty s =
      run_process (cli.command "app" (("exec" ∷ ("--app=" <> app_name) ∷ uuid ∷ []) ++ cmd)) input
        tty s

  unfoldable pub exec : String → List String → Option String → Bool → h.State → Outcome × h.State
  exec container_id cmd input tty s =
      exec_parsed (parse_container_id sanitize container_id) cmd input tty s

  unfoldable pub exec_sync : String → List String → Act h.State ExecSyncResponse
  exec_sync container_id cmd s =
      let (outcome, t) = exec container_id cmd none false s in (exec_sync_response outcome, t)

  -- Attach and PortForward of the shim
  unfoldable pub attach : String → Act h.State (Unit {0})
  attach container_id = fail not_done

  unfoldable pub port_forward : String → ℤ → Act h.State (Unit {0})
  port_forward sandbox_id port = fail not_done

module _ (h : Host) (streaming : Streaming h) (r : RktRuntime h streaming) where
  -- Attach, Exec and PortForward of the runtime, which hand the request on.
  unfoldable pub request_attach : streaming.Request → Act h.State String
  request_attach req = wrap external (streaming.get_attach r.stream_server req)

  unfoldable pub request_exec : streaming.Request → Act h.State String
  request_exec req = wrap external (streaming.get_exec r.stream_server req)

  unfoldable pub request_port_forward : streaming.Request → Act h.State String
  request_port_forward req = wrap external (streaming.get_port_forward r.stream_server req)
