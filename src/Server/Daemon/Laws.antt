-- ===== src/Server/Daemon/Laws.antt =====
-- What the program leaves behind for its next run.
use mathlib.Core.Path.{subst}
use rktlet.Base.{
  ◌≡◌, ◌≢◌, refl, ◌∙◌, inl, inr, ℕ, zero, suc, String, Bool, true, false, All, text_eq, Result, ok,
  err, Bool-cases, arith,
}
use rktlet.Errors.{Error}
use rktlet.Host.{Host}
use rktlet.Image.Name.{DockerRef}
use rktlet.Image.Store.Types.{Decoders}
use rktlet.Runtime.Service.{Streaming}
use rktlet.Server.{Config, CombinedRuntimes, new_rktlet}
use rktlet.Server.Daemon.{
  default_unix_sock, DaemonOps, Outcome, exited, returned, serve_with, server_of, serve_on,
  options_of, main, restarts,
}
use rktlet.Server.Daemon.Socket.{IsSocket}
use rktlet.Server.Daemon.New.{new_rktlet_keeps}

module _ (h : Host) (streaming : Streaming h) (ops : DaemonOps h streaming) (docker : DockerRef)
    (decode : Decoders) (socket : IsSocket h streaming ops docker decode) where
  -- What a run that begins without the file of the socket, or with it, leaves.
  abbrev Leaves : Bool → Outcome × h.State → Type 0
  Leaves before (outcome, t) =
      (outcome ≡ returned → (before ≡ false) × (socket.there t ≡ false))
      × (before ≡ true → socket.there t ≡ true)

  serve_with-Leaves :
      (sock : ops.Listener) (server : ops.GrpcServer)
      (p : (Result Error (CombinedRuntimes h streaming) × Config) × h.State)
      → socket.there p.1 ≡ true
      → Leaves false (serve_with h streaming ops docker decode sock server p)
  serve_with-Leaves sock server ((err e, config), s) there =
      ((λ e. absurd (ground arith)), (λ e. absurd (ground arith)))
  serve_with-Leaves sock server ((ok services, config), s) there =
      ((λ e. (refl, socket.removes _)), (λ e. absurd (ground arith)))

  serve_on-Leaves :
      (config : Config) (s : h.State) (p : Result String ops.Listener × h.State)
      → ops.listen default_unix_sock s ≡ p
      → Leaves (socket.there s) (serve_on h streaming ops docker decode config p)
  serve_on-Leaves config s (err e, t) listened =
      ((λ e. absurd (ground arith)), (λ there. socket.listen_fails s t listened ∙ there))
  serve_on-Leaves config s (ok sock, t) listened =
      let (free, there) = socket.listens s t listened in
      rw free (
        serve_with-Leaves sock _ _ (
          new_rktlet_keeps h streaming ops docker decode socket config _
          ∙ socket.new_grpc_keeps t
          ∙ there))

  main-Leaves : (s : h.State) → Leaves (socket.there s) (main h streaming ops docker decode s)
  unfolding main
  main-Leaves s =
      let parsed = (options_of h streaming ops docker decode s).0 in
      let t = (options_of h streaming ops docker decode s).1 in
      let kept : socket.there t ≡ socket.there s = socket.parse_flags_keeps _ s in
      elim (Bool-cases (parsed.switch_of "version")) [
        | inl shown ↦ rw shown ((λ e. absurd (ground arith)), (λ there. kept ∙ there))
        | inr serving ↦ rw serving (
            subst
              (λ b. Leaves b (
                serve_on h streaming ops docker decode (server_of parsed).config
                  (ops.listen default_unix_sock t)))
              kept
              (serve_on-Leaves (server_of parsed).config t (ops.listen default_unix_sock t) refl))
      ]

  restarts-there :
      (n : ℕ) (s : h.State)
      → socket.there s ≡ true
      → All (λ outcome. outcome ≢ returned) (restarts h streaming ops docker decode n s)
  unfolding restarts
  restarts-there zero s there = tt
  restarts-there (suc n) s there =
      let (free, stays) = main-Leaves s in
      (
        λ e. let (missing, gone) = free e in absurd (ground arith),
        restarts-there n (main h streaming ops docker decode s).1 (stays there),
      )

  after_failed_start :
      (config : Config) {sock : ops.Listener} {t : h.State} {e : Error}
      (p : Result String ops.Listener × h.State)
      → p ≡ (ok sock, t)
      → socket.there t ≡ true
      → (new_rktlet h streaming docker decode config (ops.new_server t).1).0.0 ≡ err e
      → ((serve_on h streaming ops docker decode config p).0 ≡ exited 255)
        × (socket.there (serve_on h streaming ops docker decode config p).1 ≡ true)
  after_failed_start config {sock} {t} p listened there failed = rw listened (
      failing_new (new_rktlet h streaming docker decode config (ops.new_server t).1) failed (
        new_rktlet_keeps h streaming ops docker decode socket config _
        ∙ socket.new_grpc_keeps t
        ∙ there))
    where
      failing_new :
          {e : Error} (q : (Result Error (CombinedRuntimes h streaming) × Config) × h.State)
          → q.0.0 ≡ err e
          → socket.there q.1 ≡ true
          → ((serve_with h streaming ops docker decode sock (ops.new_server t).0 q).0 ≡ exited 255)
            × (socket.there (serve_with h streaming ops docker decode sock (ops.new_server t).0 q).1
                ≡ true)
      failing_new ((err x, c), s) failed kept = (refl, kept)
      failing_new ((ok services, c), s) failed kept = absurd (ground arith)

  -- On a host where listening fails if the file of the socket is there, and where that file stays
  -- unless it is removed: if a run of the program that is not asked for its version listens on the socket, and then New
  -- fails, it exits with 255, and none of the runs that follow, however many, ever serves: each
  -- exits, for the file of the socket stays there.
  pub restarts-stuck :
      (n : ℕ) (s : h.State) {sock : ops.Listener} {t : h.State} {e : Error}
      → (options_of h streaming ops docker decode s).0.switch_of "version" ≡ false
      → ops.listen default_unix_sock (options_of h streaming ops docker decode s).1 ≡ (ok sock, t)
      → (new_rktlet h streaming docker decode
          (server_of (options_of h streaming ops docker decode s).0).config
          (ops.new_server t).1).0.0
        ≡ err e
      → ((main h streaming ops docker decode s).0 ≡ exited 255)
        × All
            (λ outcome. outcome ≢ returned)
            (restarts h streaming ops docker decode n (main h streaming ops docker decode s).1)
  unfolding main
  restarts-stuck n s {sock} {t} serving listened failed =
      let (_, there) = socket.listens _ t listened in
      let (outcome, left) = after_failed_start _ _ listened there failed in
      rw serving (outcome, restarts-there n _ left)
