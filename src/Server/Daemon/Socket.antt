-- ===== src/Server/Daemon/Socket.antt =====
-- What the program relies on of the file of its socket, and that the image service leaves it as it is.
use rktlet.Base.{
  ◌≡◌, refl, ◌∙◌, String, Bool, true, false, Option, none, List, [], ◌∷◌, text_eq, Result, ok, err,
}
use rktlet.Errors.{Error, images_not_listed, external}
use rktlet.Host.{Host, Act, and_then, wrapped}
use rktlet.Host.Keeps.{and_then-keeps, wrapped-keeps}
use rktlet.Cli.{CliOps, RktCli, rkt_cli_ops, run_command}
use rktlet.Image.Name.{DockerRef}
use rktlet.Image.Store.{
  first_text, get_image_manifest, list_entries, list_images, image_status, requested_name,
  find_image,
}
use rktlet.Image.Store.Types.{Decoders, Image, ImageListEntry, ImageFilter}
use rktlet.Runtime.Service.{Streaming}
use rktlet.Server.Daemon.{default_unix_sock, DaemonOps}

module _ (h : Host) (streaming : Streaming h) (ops : DaemonOps h streaming) (docker : DockerRef)
    (decode : Decoders) where
  -- What the code relies on of the file of a socket: listening makes it, and fails if it is there,
  -- as it does not go with a process that exits; it is gone once it is removed; and nothing else
  -- that is done before serving touches it.
  pub record IsSocket : Type 0 where
    pub there : h.State → Bool
    pub listens :
        (s t : h.State) {sock : ops.Listener}
        → ops.listen default_unix_sock s ≡ (ok sock, t)
        → (there s ≡ false) × (there t ≡ true)
    pub listen_fails :
        (s t : h.State) {e : String}
        → ops.listen default_unix_sock s ≡ (err e, t)
        → there t ≡ there s
    pub removes : (s : h.State) → there (h.remove default_unix_sock s) ≡ false
    pub parse_flags_keeps : (flags : _) (s : h.State) → there (ops.parse_flags flags s).1 ≡ there s
    pub new_grpc_keeps : (s : h.State) → there (ops.new_server s).1 ≡ there s
    pub look_path_keeps : (name : String) (s : h.State) → there (h.look_path name s).1 ≡ there s
    pub stat_keeps : (path : String) (s : h.State) → there (h.stat path s).1 ≡ there s
    pub setenv_keeps :
        (name value : String) (s : h.State) → there (h.setenv name value s).1 ≡ there s
    pub combined_output_keeps :
        (cmd : List String) (s : h.State) → there (h.combined_output cmd s).1 ≡ there s
    pub new_server_keeps :
        (addr : String) (s : h.State) → there (streaming.new_server addr s).1 ≡ there s

  module _ (socket : IsSocket) where
    module _ (c : RktCli) where
      abbrev cli : CliOps h
      cli = rkt_cli_ops h c

      pub run_command_keeps :
          (sub_cmd : String) (args : List String) (s : h.State)
          → socket.there (run_command h c sub_cmd args s).1 ≡ socket.there s
      unfolding run_command
      run_command_keeps sub_cmd args s = socket.combined_output_keeps _ s

      get_image_manifest_keeps :
          (id : String) (s : h.State)
          → socket.there (get_image_manifest docker h cli decode id s).1 ≡ socket.there s
      unfolding get_image_manifest
      get_image_manifest_keeps id s =
          and_then-keeps socket.there _ _ (λ a t. refl)
          ∙ wrapped-keeps socket.there _ _
          ∙ run_command_keeps _ _ s

      list_entries_keep :
          (filter : Option ImageFilter) (entries : List ImageListEntry) (s : h.State)
          → socket.there (list_entries docker h cli decode filter entries s).1 ≡ socket.there s
      unfolding list_entries
      list_entries_keep filter [] s = refl
      list_entries_keep filter (img ∷ entries) s =
          list_entries_keep filter entries _ ∙ get_image_manifest_keeps img.id s

      -- What ListImages does with the entries that were read.
      abbrev listed : Option ImageFilter → List ImageListEntry → Act h.State (List Image)
      listed filter entries s =
          let (images, t) = list_entries docker h cli decode filter entries s in (ok images, t)

      list_images_keeps :
          (filter : Option ImageFilter) (s : h.State)
          → socket.there (list_images docker h cli decode filter s).1 ≡ socket.there s
      unfolding list_images
      list_images_keeps filter s =
          after (run_command h c "image" _ s) ∙ run_command_keeps "image" _ s
        where
          after :
              (p : Result String (List String) × h.State)
              → socket.there
                  (and_then (wrapped (λ e. images_not_listed (external e)) p) (λ list t.
                    and_then
                      (first_text list, t)
                      (λ text u.
                        and_then (decode.images text, u) (λ entries v. listed filter entries v)))).1
                ≡ socket.there p.1
          after (err e, t) = refl
          after (ok [], t) = refl
          after (ok (text ∷ texts), t) = read (decode.images text) t
            where
              read :
                  (r : Result Error (List ImageListEntry)) (u : h.State)
                  → socket.there (and_then (r, u) (λ entries v. listed filter entries v)).1
                    ≡ socket.there u
              read (err e) u = refl
              read (ok entries) u = list_entries_keep filter entries u

      pub image_status_keeps :
          (image : String) (s : h.State)
          → socket.there (image_status docker h cli decode image s).1 ≡ socket.there s
      unfolding image_status
      image_status_keeps image s =
          and_then-keeps socket.there (list_images docker h cli decode none s)
            (λ images t.
              and_then (requested_name docker image, t) (λ req u. (ok (find_image req images), u)))
            (λ images t.
              and_then-keeps socket.there (requested_name docker image, t)
                (λ req u. (ok (find_image req images), u)) (λ req u. refl))
          ∙ list_images_keeps none s
