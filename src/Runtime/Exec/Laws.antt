-- ===== src/Runtime/Exec/Laws.antt =====
-- What ExecSync answers.
use rktlet.Base.{
  ◌≡◌, refl, ap, String, ◌<>◌, false, Option, none, some, List, [], ◌∷◌, Result, ok, err,
  ok-injective, Result-cases, inl, inr, arith,
}
use rktlet.Base.Int.{ℤ, pos, wrap32}
use rktlet.Host.{Host}
use rktlet.Cli.{CliOps}
use rktlet.Runtime.AppName.{parse_container_id}
use rktlet.Runtime.Exec.{
  WaitError, exit_error, other_error, Output, Processes, ExecSyncResponse, exec, exec_sync,
  exec_sync_response, exit_status, new_rkt_exit_error, run_process, after_start,
}

-- The exit code that a wait stands for, if it is one.
abbrev pub code_of : Option WaitError → Option ℤ
code_of none = some (pos 0)
code_of (some (exit_error status)) = some (wrap32 (exit_status status))
code_of (some (other_error e)) = none

-- The response holds what was written, and the code.
abbrev pub Answers : Option WaitError × Output → ExecSyncResponse → Type 0
Answers (e, out) resp =
    (code_of e ≡ some resp.exit_code) × (out.stdout ≡ resp.stdout) × (out.stderr ≡ resp.stderr)

exec_sync_response-ok :
    (p : Option WaitError × Output) {resp : ExecSyncResponse}
    → exec_sync_response (new_rkt_exit_error p.0, p.1) ≡ ok resp
    → Answers p resp
unfolding exec_sync_response new_rkt_exit_error
exec_sync_response-ok (none, out) e =
    let same = ok-injective e in
    (λ i. some (same i).exit_code, λ i. (same i).stdout, λ i. (same i).stderr)
exec_sync_response-ok (some (exit_error status), out) e =
    let same = ok-injective e in
    (λ i. some (same i).exit_code, λ i. (same i).stdout, λ i. (same i).stderr)
exec_sync_response-ok (some (other_error x), out) e = absurd (ground arith)

module _ (h : Host) (cli : CliOps h) (procs : Processes h)
    (sanitize : String → Result String String) where
  -- A process was started with the command, waited for, and answered.
  pub record IsRun (rkt_command : List String) (s t : h.State) (resp : ExecSyncResponse)
      : Type 0 where
    pub process : procs.Process
    pub between : h.State
    pub started : procs.start rkt_command none s ≡ (ok process, between)
    pub answered : Answers (procs.wait process between).0 resp
    pub left : (procs.wait process between).1 ≡ t

  after_start-IsRun :
      (cmd : List String) (s t : h.State) (resp : ExecSyncResponse)
      (p : Result String procs.Process × h.State)
      → procs.start cmd none s ≡ p
      → exec_sync_response (after_start h cli procs sanitize p).0 ≡ ok resp
      → (after_start h cli procs sanitize p).1 ≡ t
      → IsRun cmd s t resp
  unfolding exec_sync_response
  after_start-IsRun cmd s t resp (ok process, between) started e left = record {
    process = process;
    between = between;
    started = started;
    answered = exec_sync_response-ok (procs.wait process between).0 e;
    left = left;
  }
  after_start-IsRun cmd s t resp (err x, between) started e left = absurd (ground arith)

  run_process-IsRun :
      (cmd : List String) (s t : h.State) (resp : ExecSyncResponse)
      → exec_sync_response (run_process h cli procs sanitize cmd none false s).0 ≡ ok resp
      → (run_process h cli procs sanitize cmd none false s).1 ≡ t
      → IsRun cmd s t resp
  unfolding exec_sync_response
  run_process-IsRun [] s t resp e left = absurd (ground arith)
  run_process-IsRun (c ∷ cmd) s t resp e left =
      after_start-IsRun (c ∷ cmd) s t resp (procs.start (c ∷ cmd) none s) refl e left

  -- ExecSync answers only if the ID was parsed, and then one process was started, without a
  -- terminal or an input: `rkt app exec` of the command in the app and the pod of the ID. The
  -- answer holds all that the process wrote and its exit code, which is zero if waiting gave no
  -- error, and the exit status cut to 32 bits if it gave an exit error; with another error there
  -- is no answer.
  pub exec_sync-ok :
      (container_id : String) (cmd : List String) (s t : h.State) (resp : ExecSyncResponse)
      → exec_sync h cli procs sanitize container_id cmd s ≡ (ok resp, t)
      → (uuid app_name : String) × (parse_container_id sanitize container_id ≡ ok (uuid, app_name))
        × IsRun (cli.command "app" ("exec" ∷ ("--app=" <> app_name) ∷ uuid ∷ cmd)) s t resp
  unfolding exec_sync exec exec_sync_response
  exec_sync-ok container_id cmd s t resp e =
      elim (Result-cases (parse_container_id sanitize container_id)) [
        | inr (x, failed) ↦ absurd (ground arith)
        | inl ((uuid, app_name), parsed) ↦
            let run = (rw parsed at e) in
            (
              uuid,
              app_name,
              parsed,
              run_process-IsRun _ s t resp (ap (λ q. q.0) run) (ap (λ q. q.1) run),
            )
      ]
