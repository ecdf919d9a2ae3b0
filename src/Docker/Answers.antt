-- ===== src/Docker/Answers.antt =====
-- runtime/docker/docker.go: what the backend reads from the texts that `docker` prints, and the image
-- that it starts.
use Prim.Native.String.{String}
use text.Mathlib.TextLemmas.{append-ne-nil_of_right_ne-nil, cons-ne-nil}
use gitvm.Base.{
  ◌≡◌, ◌≢◌, ◌⊎◌, refl, Bool, true, some, subst, List, [], ◌∷◌, ok, arith, inl, inr, Bool-cases,
  ◌==◌, string_comparable, concat,
}
use gitvm.Base.Scan.{is_space, Plain, Plain-concat, Lacks, first_line-Plain, after_last-concat}
use gitvm.Runtime.{SnapshotInfo}
use gitvm.Docker.Agent.{Reply}
use gitvm.Docker.Backend.{is_shown, list_images, list_snapshots, origin_of, images_command}
use gitvm.Orchestrator.Calls.{CreateRequest, create_opts}
use gitvm.Docker.Commands.{image_row, lines, host_port, DockerConfig, create_args}

colon_Plain : (s : String) → Plain s → Plain (String.◌∷◌ ":" s)
unfolding is_space
colon_Plain s p = (refl, p)

-- From what docker port prints, lines of an address, a colon and a port, the port of the first
-- line is read, where that line has no white space and its port no colon.
pub host_port-print :
    (address port rest : String)
    → Plain address
    → Plain port
    → Lacks b':' port
    → host_port (concat (concat address (String.◌∷◌ ":" port)) (String.◌∷◌ "\n" rest)) ≡ some port
unfolding host_port
host_port-print address port rest pa pp no_colon =
    let line = concat address (String.◌∷◌ ":" port) in
    rw
      (first_line-Plain line rest
        (Plain-concat address (String.◌∷◌ ":" port) pa (colon_Plain port pp))
        (append-ne-nil_of_right_ne-nil address (λ e. cons-ne-nil ":" port e)))
      (after_last-concat ":" address port no_colon)

-- No request of the orchestrator comes to the default image.
pub create_args-default_image :
    (d : DockerConfig) (image id : String) (req : CreateRequest)
    → create_args (record d { default_image = image }) (create_opts id req)
      ≡ create_args d (create_opts id req)
unfolding create_args create_opts
create_args-default_image d image id req = elim (Bool-cases (req.template == "")) [
  | inl empty ↦ rw empty refl
  | inr named ↦ rw (named, create_args) (rw named refl)
]

-- Whether an entry of the list may be shown for the sandbox.
abbrev pub AreOf : String → List SnapshotInfo → Type 0
AreOf id [] = Unit {0}
AreOf id (info ∷ infos) = ((info.sandbox_id ≡ id) ⊎ (info.sandbox_id ≡ "")) × AreOf id infos

shown_origin :
    (id origin : String) → id ≢ "" → is_shown id origin ≡ true → (origin ≡ id) ⊎ (origin ≡ "")
unfolding is_shown
shown_origin id origin named h = ground (
  arith,
  string_comparable.same_iff id "",
  string_comparable.same_iff origin "",
  string_comparable.same_iff origin id,
)

module _ {W : Type 0} (docker : List String → W → Reply × W) (healthy : String → W → Bool × W)
    (d : DockerConfig) where
  list_images-AreOf :
      (id : String) (rows : List String) (w : W)
      → id ≢ ""
      → AreOf id (list_images docker healthy d id rows w).0
  unfolding list_images origin_of
  list_images-AreOf id [] w named = tt
  list_images-AreOf id (line ∷ rest) w named =
      let (origin, w') = origin_of docker healthy d (image_row line).0 w in
      elim (Bool-cases (line == "")) [
        | inl blank ↦ rw blank (list_images-AreOf id rest w named)
        | inr row ↦ elim (Bool-cases (is_shown id origin)) [
          | inl is_its ↦
              rw (row, is_its)
                (shown_origin id origin named is_its, list_images-AreOf id rest w' named)
          | inr hidden ↦ rw (row, hidden) (list_images-AreOf id rest w' named)
        ]
      ]

  -- The list for a sandbox has only images of that sandbox, and images that name none.
  pub list_snapshots-AreOf :
      (id : String) (w : W) (infos : List SnapshotInfo)
      → id ≢ ""
      → (list_snapshots docker healthy d id w).0 ≡ ok infos
      → AreOf id infos
  unfolding list_snapshots
  list_snapshots-AreOf id w infos named h =
      let (r, w') = docker images_command w in
      elim (Bool-cases r.done) [
        | inl done ↦
            subst (AreOf id) (ground arith) (list_images-AreOf id (lines r.output) w' named)
        | inr failed ↦ absurd (ground arith)
      ]
