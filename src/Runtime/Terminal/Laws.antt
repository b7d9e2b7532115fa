-- ===== src/Runtime/Terminal/Laws.antt =====
-- What holds of a session on a terminal, in whatever order its steps come.
use mathlib.Core.Path.{subst}
use rktlet.Base.{
  ◌≡◌, refl, String, Bool, true, false, Option, none, some, List, [], ◌∷◌, ok, ok-injective, arith,
}
use rktlet.Runtime.Exec.{WaitError}
use rktlet.Runtime.Terminal.{
  Size, Session, Event, writes, exits, sends, closes_sizes, feeds, copies, resizes, ends_resizing,
  closes_done, closes_out, closes_pty, input_of, exec_with_tty, write, exit, send, feed, copy,
  resize, close_done, end_resizing, close_out, close_pty, step, run,
}
use rktlet.Runtime.Terminal.Flow.{
  IsCopied, IsResized, IsCopied-moved, IsCopied-stopped, IsCopied-written, IsResized-sent,
  IsResized-received, IsResized-zero, IsResized-closed,
}

-- The deferred calls come after the end of the process, in their order.
abbrev pub IsOrdered : Option (Option WaitError) → Bool → Bool → Bool → Type 0
IsOrdered exited done out_closed pty_closed =
    (pty_closed ≡ true → out_closed ≡ true)
    × (out_closed ≡ true → done ≡ true)
    × (done ≡ true → (e : Option WaitError) × (exited ≡ some e))

abbrev pub IsFaithful : List String → Session → Type 0
IsFaithful input s =
    IsCopied s.written s.pending s.copied s.copying
    × IsCopied input s.given s.typed s.feeding
    × IsResized s.set_sizes s.queue s.sent s.resize_closed
    × IsOrdered s.exited s.done s.out_closed s.pty_closed

module _ (input : List String) (s : Session) (h : IsFaithful input s) where
  write-IsFaithful :
      (exited : Option (Option WaitError)) (text : String) → IsFaithful input (write s exited text)
  write-IsFaithful (some e) text = h
  write-IsFaithful none text =
      let (copied, typed, sizes, order) = h in (IsCopied-written copied text, typed, sizes, order)

  exit-IsFaithful :
      (exited : Option (Option WaitError)) (e : Option WaitError)
      → IsFaithful input (exit s exited e)
  exit-IsFaithful (some now) e = h
  exit-IsFaithful none e =
      let (copied, typed, sizes, (pty, out, done)) = h in
      (copied, typed, sizes, (pty, out, λ _. (e, refl)))

  send-IsFaithful :
      (closed : Bool) (size : Size)
      → s.resize_closed ≡ closed
      → IsFaithful input (send s closed size)
  send-IsFaithful true size same = h
  send-IsFaithful false size same =
      let (copied, typed, sizes, order) = h in
      (copied, typed, IsResized-sent sizes size same, order)

  feed-IsFaithful :
      (feeding pty_closed : Bool) (given : List String)
      → s.feeding ≡ feeding
      → s.given ≡ given
      → IsFaithful input (feed s feeding pty_closed given)
  feed-IsFaithful false pty_closed given runs there = h
  feed-IsFaithful true false [] runs there =
      let (copied, typed, sizes, order) = h in (copied, IsCopied-stopped typed _, sizes, order)
  feed-IsFaithful true true [] runs there =
      let (copied, typed, sizes, order) = h in (copied, IsCopied-stopped typed _, sizes, order)
  feed-IsFaithful true true (text ∷ given) runs there =
      let (copied, typed, sizes, order) = h in (copied, IsCopied-stopped typed given, sizes, order)
  feed-IsFaithful true false (text ∷ given) runs there =
      let (copied, typed, sizes, order) = h in
      (copied, IsCopied-moved typed text given runs there, sizes, order)

  copy-IsFaithful :
      (copying pty_closed out_closed : Bool) (pending : List String)
      → s.copying ≡ copying
      → s.pending ≡ pending
      → IsFaithful input (copy s copying pty_closed out_closed pending)
  copy-IsFaithful false pty_closed out_closed pending runs there = h
  copy-IsFaithful true true out_closed pending runs there =
      let (copied, typed, sizes, order) = h in (IsCopied-stopped copied _, typed, sizes, order)
  copy-IsFaithful true false true [] runs there = h
  copy-IsFaithful true false false [] runs there = h
  copy-IsFaithful true false true (text ∷ pending) runs there =
      let (copied, typed, sizes, order) = h in
      (IsCopied-stopped copied pending, typed, sizes, order)
  copy-IsFaithful true false false (text ∷ pending) runs there =
      let (copied, typed, sizes, order) = h in
      (IsCopied-moved copied text pending runs there, typed, sizes, order)

  resize-IsFaithful :
      (resizing closed : Bool) (queue : List Size)
      → s.resize_closed ≡ closed
      → s.queue ≡ queue
      → IsFaithful input (resize s resizing closed queue)
  resize-IsFaithful false closed queue same there = h
  resize-IsFaithful true false [] same there = h
  resize-IsFaithful true true [] same there =
      let (copied, typed, sizes, order) = h in
      (copied, typed, IsResized-zero sizes there same, order)
  resize-IsFaithful true false (size ∷ queue) same there =
      let (copied, typed, sizes, order) = h in
      (copied, typed, IsResized-received sizes size queue there, order)
  resize-IsFaithful true true (size ∷ queue) same there =
      let (copied, typed, sizes, order) = h in
      (copied, typed, IsResized-received sizes size queue there, order)

  close_done-IsFaithful :
      (exited : Option (Option WaitError))
      → s.exited ≡ exited
      → IsFaithful input (close_done s exited)
  close_done-IsFaithful none same = h
  close_done-IsFaithful (some e) same =
      let (copied, typed, sizes, (pty, out, done)) = h in
      (copied, typed, sizes, (pty, λ _. refl, λ _. (e, same)))

  end_resizing-IsFaithful : (done : Bool) → IsFaithful input (end_resizing s done)
  end_resizing-IsFaithful false = h
  end_resizing-IsFaithful true = h

  close_out-IsFaithful : (done : Bool) → s.done ≡ done → IsFaithful input (close_out s done)
  close_out-IsFaithful false same = h
  close_out-IsFaithful true same =
      let (copied, typed, sizes, (pty, out, done)) = h in
      (copied, typed, sizes, ((λ _. refl), (λ _. same), done))

  close_pty-IsFaithful :
      (out_closed : Bool) → s.out_closed ≡ out_closed → IsFaithful input (close_pty s out_closed)
  close_pty-IsFaithful false same = h
  close_pty-IsFaithful true same =
      let (copied, typed, sizes, (pty, out, done)) = h in
      (copied, typed, sizes, ((λ _. same), out, done))

step-IsFaithful :
    (input : List String) (event : Event) (s : Session)
    → IsFaithful input s
    → IsFaithful input (step event s)
unfolding step
step-IsFaithful input (writes text) s h = write-IsFaithful input s h s.exited text
step-IsFaithful input (exits e) s h = exit-IsFaithful input s h s.exited e
step-IsFaithful input (sends size) s h = send-IsFaithful input s h s.resize_closed size refl
step-IsFaithful input closes_sizes s (copied, typed, sizes, order) =
    (copied, typed, IsResized-closed sizes, order)
step-IsFaithful input feeds s h = feed-IsFaithful input s h s.feeding s.pty_closed s.given refl refl
step-IsFaithful input copies s h =
    copy-IsFaithful input s h s.copying s.pty_closed s.out_closed s.pending refl refl
step-IsFaithful input resizes s h =
    resize-IsFaithful input s h s.resizing s.resize_closed s.queue refl refl
step-IsFaithful input ends_resizing s h = end_resizing-IsFaithful input s h s.done
step-IsFaithful input closes_done s h = close_done-IsFaithful input s h s.exited refl
step-IsFaithful input closes_out s h = close_out-IsFaithful input s h s.done refl
step-IsFaithful input closes_pty s h = close_pty-IsFaithful input s h s.out_closed refl

-- In whatever order the steps come: what was copied to `out` is the front of what the process
-- wrote, and all but what is in the terminal while the copy runs; the same of what the process was
-- given to read; the sizes that SetSize was called with are those that were sent, in order, and
-- after them zeros, which come only from a channel that was closed; and the process ended before `done` was
-- closed, `done` was closed before `out`, and `out` before the terminal.
pub run-IsFaithful :
    (input : Option (List String)) (has_out : Bool) (events : List Event) (s : Session)
    → exec_with_tty input has_out ≡ ok s
    → IsFaithful (input_of input) (run events s)
unfolding exec_with_tty run
run-IsFaithful input false events s begun = absurd (ground arith)
run-IsFaithful input true events s begun = later events s (first begun)
  where
    later :
        (events : List Event) (s : Session)
        → IsFaithful (input_of input) s
        → IsFaithful (input_of input) (run events s)
    later [] s h = h
    later (event ∷ events) s h = later events (step event s) (step-IsFaithful _ event s h)

    first : {s : Session} → exec_with_tty input true ≡ ok s → IsFaithful (input_of input) s
    first begun =
        subst (λ t. IsFaithful (input_of input) t) (ok-injective begun)
          (
            record { rest = []; front = refl; same = λ _. refl },
            record { rest = input_of input; front = refl; same = λ _. refl },
            record { behind = 0; all = refl; none_yet = λ _. refl },
            (
              (λ e. absurd (ground arith)),
              (λ e. absurd (ground arith)),
              (λ e. absurd (ground arith)),
            ),
          )
