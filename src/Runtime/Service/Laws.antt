-- ===== src/Runtime/Service/Laws.antt =====
-- When the runtime service is made.
use rktlet.Base.{
  ◌≡◌, refl, sym, ap, ◌∙◌, ◌≢◌, ◌↔◌, ◌⊎◌, inl, inr, String, Option, none, some, List, [], ◌∷◌, ◌==◌,
  text_eq, Result, ok, err, ok-injective, Bool-cases, arith, eq_iff,
}
use rktlet.Errors.{Error, external, image_not_fetched}
use rktlet.Host.{Host, wrapped}
use rktlet.Host.Laws.{and_then-eq-ok, wrapped-eq-ok}
use rktlet.Cli.{CliOps}
use rktlet.Cli.Systemd.{InitOps}
use rktlet.Image.Store.Types.{Image}
use rktlet.Runtime.Service.{
  ImageService, Streaming, RktRuntime, get_image_hash, fetch_stage1_image, fetch_unless_there,
  check_fetched, new_runtime, hash_of,
}

module _ (h : Host) (cli : CliOps h) (images : ImageService h) where
  -- The command that downloads the image.
  abbrev pub fetch_args : String → List String
  fetch_args stage1_name = "fetch" ∷ "--pull-policy=update" ∷ "--full=true" ∷ stage1_name ∷ []

  -- The image of stage1 was there, or its hash could not be had and it was downloaded by one command
  -- that succeeded with a list of lines that is not empty.
  abbrev pub HasStage1 : String → h.State → h.State → Type 0
  HasStage1 stage1_name s t =
      ((image : Image) × (images.image_status stage1_name s ≡ (ok (some image), t)))
      ⊎ ((e : Error) × (u : h.State) × (line : String) × (output : List String) × (get_image_hash h
              images stage1_name s
            ≡ (err e, u))
          × (cli.run_command "image" (fetch_args stage1_name) u ≡ (ok (line ∷ output), t)))

  hash_of-ok :
      (image_name : String) (p : Result Error (Option Image) × h.State) {hash : String}
      {t : h.State}
      → hash_of image_name p ≡ (ok hash, t)
      → (image : Image) × (p ≡ (ok (some image), t))
  hash_of-ok image_name (err e, s) h = absurd (ground arith)
  hash_of-ok image_name (ok none, s) h = absurd (ground arith)
  hash_of-ok image_name (ok (some image), s) h = (image, λ i. (ok (some image), (h i).1))

  check_fetched-ok :
      (stage1_name : String) (output : List String)
      → check_fetched h stage1_name output ≡ ok tt
      → (line : String) × (rest : List String) × (output ≡ line ∷ rest)
  check_fetched-ok stage1_name [] e = absurd (ground arith)
  check_fetched-ok stage1_name (line ∷ rest) e = (line, rest, refl)

  fetch_unless_there-HasStage1 :
      (stage1_name : String) (s t : h.State) (p : Result Error String × h.State)
      → get_image_hash h images stage1_name s ≡ p
      → fetch_unless_there h cli stage1_name p ≡ (ok tt, t)
      → HasStage1 stage1_name s t
  unfolding get_image_hash
  fetch_unless_there-HasStage1 stage1_name s t (ok hash, u) got e =
      inl (hash_of-ok stage1_name _ (got ∙ (λ i. (ok hash, (e i).1))))
  fetch_unless_there-HasStage1 stage1_name s t (err x, u) got e =
      let (output, v, ran, last) =
        and_then-eq-ok
          (wrapped (λ e. image_not_fetched stage1_name (external e))
            (cli.run_command "image" (fetch_args stage1_name) u))
          _ e in
      let (line, rest, whole) = check_fetched-ok stage1_name output (ap (λ q. q.0) last) in
      inr (x, u, line, rest, got, wrapped-eq-ok _ _ ran ∙ (λ i. (ok (whole i), (last i).1)))

  fetch_unless_there-of_HasStage1 :
      (stage1_name : String) (s t : h.State)
      → HasStage1 stage1_name s t
      → fetch_unless_there h cli stage1_name (get_image_hash h images stage1_name s) ≡ (ok tt, t)
  unfolding get_image_hash
  fetch_unless_there-of_HasStage1 stage1_name s t (inl (image, found)) =
      ap (λ p. fetch_unless_there h cli stage1_name (hash_of stage1_name p)) found
  fetch_unless_there-of_HasStage1 stage1_name s t (inr (e, u, line, output, missing, ran)) =
      ap (λ p. fetch_unless_there h cli stage1_name p) missing ∙ rw ran refl

  -- The image of stage1 is fetched without error exactly if no image is named, and then nothing is
  -- done, or its status found it, or its hash could not be had and one `rkt image fetch` of it
  -- succeeded with a list of lines that is not empty.
  pub fetch_stage1_image_iff :
      (stage1_name : String) (s t : h.State)
      → (fetch_stage1_image h cli images stage1_name s ≡ (ok tt, t))
        ↔ (((stage1_name ≡ "") × (s ≡ t)) ⊎ ((stage1_name ≢ "") × HasStage1 stage1_name s t))
  unfolding fetch_stage1_image
  fetch_stage1_image_iff stage1_name s t = elim (Bool-cases (stage1_name == "")) [
    | inl unnamed ↦
        let none_named = (eq_iff stage1_name "").0 unnamed in
        rw unnamed (
          λ e. inl (none_named, ap (λ q. q.1) e),
          λ c. elim c [
            | inl (_, same) ↦ (λ i. (ok tt, same i))
            | inr (named, _) ↦ absurd (named none_named)
          ],
        )
    | inr named ↦
        let some_named : stage1_name ≢ "" = λ e. ground (arith, (eq_iff stage1_name "").1 e) in
        rw named (
          λ e. inr (some_named, fetch_unless_there-HasStage1 stage1_name s t _ refl e),
          λ c. elim c [
            | inl (unnamed, _) ↦ absurd (some_named unnamed)
            | inr (_, has) ↦ fetch_unless_there-of_HasStage1 stage1_name s t has
          ],
        )
  ]

  -- The runtime service is made only if the streaming server could be made at the address, and
  -- stage1 was named by nothing, there, or fetched, after that; it then holds the names and the
  -- image service that it was given.
  new_runtime-ok :
      (streaming : Streaming h) (init : InitOps h)
      (stream_server_addr stage1_name network_plugin_name : String) (s t : h.State)
      {runtime : RktRuntime h streaming}
      → new_runtime h streaming cli init images stream_server_addr stage1_name network_plugin_name s
        ≡ (ok runtime, t)
      → (u : h.State) × (streaming.new_server stream_server_addr s ≡ (ok runtime.stream_server, u))
        × (((stage1_name ≡ "") × (u ≡ t)) ⊎ ((stage1_name ≢ "") × HasStage1 stage1_name u t))
        × (runtime.stage1_name ≡ stage1_name)
        × (runtime.network_plugin_name ≡ network_plugin_name)
        × (runtime.image_store ≡ images)
  unfolding new_runtime
  new_runtime-ok streaming init addr stage1_name network_plugin_name s t {runtime} e =
      let (server, u, served, e1) =
        and_then-eq-ok (wrapped external (streaming.new_server addr s)) _ e in
      let (_, v, fetched, last) =
        and_then-eq-ok (fetch_stage1_image h cli images stage1_name u) _ e1 in
      let same = ok-injective (ap (λ q. q.0) last) in
      (
        u,
        wrapped-eq-ok _ _ served ∙ (λ i. (ok ((same i).stream_server), u)),
        (fetch_stage1_image_iff stage1_name u t).0 (fetched ∙ (λ i. (ok tt, (last i).1))),
        (λ i. (sym same i).stage1_name),
        (λ i. (sym same i).network_plugin_name),
        (λ i. (sym same i).image_store),
      )

  -- The runtime runs the `cli` that it was given.
  pub new_runtime-cli :
      (streaming : Streaming h) (init : InitOps h) (given : ImageService h)
      (addr stage1_name network_plugin_name : String) (s t : h.State)
      {runtime : RktRuntime h streaming}
      → new_runtime h streaming cli init given addr stage1_name network_plugin_name s
        ≡ (ok runtime, t)
      → runtime.cli ≡ cli
  unfolding new_runtime
  new_runtime-cli streaming init given addr stage1_name network_plugin_name s t e =
      let (server, u, _, e1) =
        and_then-eq-ok (wrapped external (streaming.new_server addr s)) _ e in
      let (_, v, _, last) = and_then-eq-ok (fetch_stage1_image h cli given stage1_name u) _ e1 in
      let same = ok-injective (ap (λ q. q.0) last) in (λ i. (sym same i).cli)

  -- The runtime asks the image service that it was given.
  pub new_runtime-store :
      (streaming : Streaming h) (init : InitOps h) (given : ImageService h)
      (addr stage1_name network_plugin_name : String) (s t : h.State)
      {runtime : RktRuntime h streaming}
      → new_runtime h streaming cli init given addr stage1_name network_plugin_name s
        ≡ (ok runtime, t)
      → runtime.image_store ≡ given
  unfolding new_runtime
  new_runtime-store streaming init given addr stage1_name network_plugin_name s t e =
      let (server, u, _, e1) =
        and_then-eq-ok (wrapped external (streaming.new_server addr s)) _ e in
      let (_, v, _, last) = and_then-eq-ok (fetch_stage1_image h cli given stage1_name u) _ e1 in
      let same = ok-injective (ap (λ q. q.0) last) in (λ i. (sym same i).image_store)
