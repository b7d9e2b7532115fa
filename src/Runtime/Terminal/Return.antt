-- ===== src/Runtime/Terminal/Return.antt =====
-- That the call returns once the process has ended, whatever the goroutines do meanwhile.
use rktlet.Base.{
  ◌≡◌, refl, ap, ◌∙◌, String, Bool, true, false, Option, none, some, List, [], ◌∷◌, ◌++◌, arith,
}
use rktlet.Runtime.Exec.{WaitError, new_rkt_exit_error}
use rktlet.Runtime.Terminal.{
  Size, Session, Event, writes, exits, sends, closes_sizes, feeds, copies, resizes, ends_resizing,
  closes_done, closes_out, closes_pty, write, exit, send, feed, copy, resize, close_done,
  end_resizing, close_out, close_pty, step, run, returned,
}

-- What was done stays done.
record Stays (s t : Session) : Type 0 where
  exited : (e : Option WaitError) → s.exited ≡ some e → t.exited ≡ some e
  done : s.done ≡ true → t.done ≡ true
  out_closed : s.out_closed ≡ true → t.out_closed ≡ true

-- A step that touches none of these.
Stays-untouched :
    {s t : Session}
    → t.exited ≡ s.exited
    → t.done ≡ s.done
    → t.out_closed ≡ s.out_closed
    → Stays s t
Stays-untouched exited done out_closed = record {
  exited = λ e p. exited ∙ p;
  done = λ p. done ∙ p;
  out_closed = λ p. out_closed ∙ p;
}

module _ (s : Session) where
  write-Stays : (exited : Option (Option WaitError)) (text : String) → Stays s (write s exited text)
  write-Stays (some e) text = Stays-untouched refl refl refl
  write-Stays none text = Stays-untouched refl refl refl

  exit-Stays :
      (exited : Option (Option WaitError)) (e : Option WaitError)
      → s.exited ≡ exited
      → Stays s (exit s exited e)
  exit-Stays (some now) e same = Stays-untouched refl refl refl
  exit-Stays none e same = record {
    exited = λ before p. absurd (ground arith);
    done = λ p. p;
    out_closed = λ p. p;
  }

  send-Stays : (closed : Bool) (size : Size) → Stays s (send s closed size)
  send-Stays true size = Stays-untouched refl refl refl
  send-Stays false size = Stays-untouched refl refl refl

  feed-Stays :
      (feeding pty_closed : Bool) (given : List String) → Stays s (feed s feeding pty_closed given)
  feed-Stays false pty_closed given = Stays-untouched refl refl refl
  feed-Stays true false [] = Stays-untouched refl refl refl
  feed-Stays true true [] = Stays-untouched refl refl refl
  feed-Stays true true (text ∷ given) = Stays-untouched refl refl refl
  feed-Stays true false (text ∷ given) = Stays-untouched refl refl refl

  copy-Stays :
      (copying pty_closed out_closed : Bool) (pending : List String)
      → Stays s (copy s copying pty_closed out_closed pending)
  copy-Stays false pty_closed out_closed pending = Stays-untouched refl refl refl
  copy-Stays true true out_closed pending = Stays-untouched refl refl refl
  copy-Stays true false true [] = Stays-untouched refl refl refl
  copy-Stays true false false [] = Stays-untouched refl refl refl
  copy-Stays true false true (text ∷ pending) = Stays-untouched refl refl refl
  copy-Stays true false false (text ∷ pending) = Stays-untouched refl refl refl

  resize-Stays :
      (resizing closed : Bool) (queue : List Size) → Stays s (resize s resizing closed queue)
  resize-Stays false closed queue = Stays-untouched refl refl refl
  resize-Stays true false [] = Stays-untouched refl refl refl
  resize-Stays true true [] = Stays-untouched refl refl refl
  resize-Stays true false (size ∷ queue) = Stays-untouched refl refl refl
  resize-Stays true true (size ∷ queue) = Stays-untouched refl refl refl

  close_done-Stays : (exited : Option (Option WaitError)) → Stays s (close_done s exited)
  close_done-Stays none = Stays-untouched refl refl refl
  close_done-Stays (some e) = record {
    exited = λ before p. p;
    done = λ _. refl;
    out_closed = λ p. p;
  }

  end_resizing-Stays : (done : Bool) → Stays s (end_resizing s done)
  end_resizing-Stays false = Stays-untouched refl refl refl
  end_resizing-Stays true = Stays-untouched refl refl refl

  close_out-Stays : (done : Bool) → Stays s (close_out s done)
  close_out-Stays false = Stays-untouched refl refl refl
  close_out-Stays true = record { exited = λ e p. p; done = λ p. p; out_closed = λ _. refl }

  close_pty-Stays : (out_closed : Bool) → Stays s (close_pty s out_closed)
  close_pty-Stays false = Stays-untouched refl refl refl
  close_pty-Stays true = Stays-untouched refl refl refl

step-Stays : (event : Event) (s : Session) → Stays s (step event s)
unfolding step
step-Stays (writes text) s = write-Stays s s.exited text
step-Stays (exits e) s = exit-Stays s s.exited e refl
step-Stays (sends size) s = send-Stays s s.resize_closed size
step-Stays closes_sizes s = Stays-untouched refl refl refl
step-Stays feeds s = feed-Stays s s.feeding s.pty_closed s.given
step-Stays copies s = copy-Stays s s.copying s.pty_closed s.out_closed s.pending
step-Stays resizes s = resize-Stays s s.resizing s.resize_closed s.queue
step-Stays ends_resizing s = end_resizing-Stays s s.done
step-Stays closes_done s = close_done-Stays s s.exited
step-Stays closes_out s = close_out-Stays s s.done
step-Stays closes_pty s = close_pty-Stays s s.out_closed

run-Stays : (events : List Event) (s : Session) → Stays s (run events s)
unfolding run
run-Stays [] s = Stays-untouched refl refl refl
run-Stays (event ∷ events) s =
    let now = step-Stays event s in
    let later = run-Stays events (step event s) in
    record {
      exited = λ e p. later.exited e (now.exited e p);
      done = λ p. later.done (now.done p);
      out_closed = λ p. later.out_closed (now.out_closed p);
    }

run-then :
    (xs ys : List Event) (x : Event) (s : Session)
    → run (xs ++ x ∷ ys) s ≡ run ys (step x (run xs s))
unfolding run
run-then [] ys x s = refl
run-then (z ∷ xs) ys x s = run-then xs ys x (step z s)

run-none : (s : Session) → run [] s ≡ s
unfolding run
run-none s = refl

returned-closed :
    (s : Session) (e : Option WaitError)
    → s.exited ≡ some e
    → s.pty_closed ≡ true
    → returned s ≡ some (new_rkt_exit_error e)
unfolding returned
returned-closed s e ended closed = rw (ended, closed) refl

closes_done-done :
    (s : Session) (e : Option WaitError) → s.exited ≡ some e → (step closes_done s).done ≡ true
unfolding step
closes_done-done s e ended = ap (λ x. (close_done s x).done) ended

closes_out-out_closed : (s : Session) → s.done ≡ true → (step closes_out s).out_closed ≡ true
unfolding step
closes_out-out_closed s done = ap (λ x. (close_out s x).out_closed) done

closes_pty-pty_closed : (s : Session) → s.out_closed ≡ true → (step closes_pty s).pty_closed ≡ true
unfolding step
closes_pty-pty_closed s closed = ap (λ x. (close_pty s x).pty_closed) closed

-- Once the process has ended, the call returns when it has made its three deferred calls, whatever
-- steps come before, between and among them, and it returns what Wait gave when the process ended:
-- an exit error as a rktExitError, another error as it is, and nil as nil.
pub run-returned :
    (s : Session) (e : Option WaitError) (before between among : List Event)
    → s.exited ≡ some e
    → returned
        (run (before ++ closes_done ∷ (between ++ closes_out ∷ (among ++ closes_pty ∷ []))) s)
      ≡ some (new_rkt_exit_error e)
run-returned s e before between among ended =
    let a = run before s in
    let b = step closes_done a in
    let c = run between b in
    let d = step closes_out c in
    let f = run among d in
    let a_ended = (run-Stays before s).exited e ended in
    let b_ended = (step-Stays closes_done a).exited e a_ended in
    let c_ended = (run-Stays between b).exited e b_ended in
    let d_ended = (step-Stays closes_out c).exited e c_ended in
    let f_ended = (run-Stays among d).exited e d_ended in
    let c_done = (run-Stays between b).done (closes_done-done a e a_ended) in
    let f_closed = (run-Stays among d).out_closed (closes_out-out_closed c c_done) in
    rw (run-then before, run-then between, run-then among, run-none)
      (returned-closed (step closes_pty f) e ((step-Stays closes_pty f).exited e f_ended)
        (closes_pty-pty_closed f f_closed))
