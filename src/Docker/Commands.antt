-- ===== src/Docker/Commands.antt =====
-- The commands of src/docker.rs whose output the manager reads: `command`, `info`, `image`,
-- `image_version`, `list`, `shares`, `boot_time`, `logs`, and the pull of src/image.rs. How the docker
-- program ends, with its output, and JSON are parameters.
pub mod Laws
use Prim.Native.String.{◌++◌}
use runnerctl.Common.{
  ℕ, ◌*◌, ◌-◌, String, Bool, true, false, not, Option, none, some, List, [], ◌∷◌, ◌==◌, ltb,
  if◌then◌else◌,
}
use runnerctl.Common.Text.{codes, codes_eq, is_blank, is_whitespace, trim}
use runnerctl.Result.{Result, ok, err, message, context, ensure, ◌>>=◌, ◌>>◌}
use runnerctl.Config.Memory.{u64_mod}
use runnerctl.Config.Names.{validate_image}
use runnerctl.Image.{parse_number}
use runnerctl.Engine.Reconcile.{Container}

-- How a program ended: its status, and its two outputs in bytes.
pub record Output : Type 0 where
  pub success : Bool
  pub stdout : List ℕ
  pub stderr : List ℕ

-- `run` fails when the program does not start, or not end in time. The texts are code points: `utf8`
-- is `String::from_utf8`, `shown` a text as a `String`, and `lossy` `String::from_utf8_lossy`.
pub record Program : Type 0 where
  pub run : List (List ℕ) → Result Output
  pub shown : List ℕ → String
  pub utf8 : List ℕ → Option (List ℕ)
  pub lossy : List ℕ → List ℕ
  pub labels : List ℕ → Result (Option String)
  pub inspected : List ℕ → Result (List Container)

-- The argument that an error names.
abbrev pub first_argument : List (List ℕ) → List ℕ
first_argument [] = codes "command"
first_argument (arg ∷ _) = arg

-- `split_whitespace`, with what stands before
abbrev pub push_word : List ℕ → List (List ℕ) → List (List ℕ)
push_word [] words = words
push_word (c ∷ cs) words = (c ∷ cs) ∷ words

abbrev pub words_from : List ℕ → List (List ℕ) × List ℕ
words_from [] = ([], [])
words_from (c ∷ cs) =
    let rest = words_from cs in
    if is_whitespace c then (push_word rest.1 rest.0, []) else (rest.0, c ∷ rest.1)

unfoldable pub split_whitespace : List ℕ → List (List ℕ)
split_whitespace s = let rest = words_from s in push_word rest.1 rest.0

-- `bytes.truncate(n)`
abbrev pub truncate : ℕ → List ℕ → List ℕ
truncate n [] = []
truncate n (b ∷ bytes) = let rest = truncate (n - 1) bytes in if n == 0 then [] else b ∷ rest

-- `btime` is not namespaced, so a container reports the kernel that runs the daemon.
abbrev pub btime_script : String
btime_script =
    "while read -r key value _; do if [ \"$key\" = btime ]; then echo \"$value\"; fi; done < /proc/stat"

module _ (docker : Program) where
  -- The text of the error names the command only, not the daemon's output.
  unfoldable pub command : List (List ℕ) → Result (List ℕ)
  command args = do
    output ← docker.run args
    ensure output.success (
        "Docker "
        ++ (docker.shown (first_argument args) ++ " failed (check daemon, image and permissions)"))
    ok output.stdout

  unfoldable pub info : Result (List ℕ)
  info = do
    out ← command (codes "info" ∷ codes "--format" ∷ codes "{{.OperatingSystem}}" ∷ [])
    ok (trim (docker.lossy out))

  abbrev pub image_inspect : List ℕ → List (List ℕ)
  image_inspect image = codes "image" ∷ codes "inspect" ∷ image ∷ []

  unfoldable pub has_image : List ℕ → Result (Unit {0})
  has_image image = do command (image_inspect image); ok tt

  unfoldable pub image_version : List ℕ → Result (Option String)
  image_version image = do bytes ← command (image_inspect image); docker.labels bytes

  abbrev pub inspect_all : List ℕ → Result (List Container)
  inspect_all ids = do out ← command (codes "inspect" ∷ split_whitespace ids); docker.inspected out

  -- The containers with the manager's label.
  unfoldable pub list_containers : String → Result (List Container)
  list_containers manager = do
    out ← command (
        codes "ps"
        ∷ codes "-aq"
        ∷ codes "--filter"
        ∷ codes ("label=io.runnerctl.manager=" ++ manager)
        ∷ [])
    ids ← context (docker.utf8 out) "invalid utf-8 sequence"
    if is_blank ids then ok [] else inspect_all ids

  -- Whether a container reads the nonce through a bind mount of the probe file.
  abbrev pub is_nonce : List ℕ → Result (List ℕ) → Bool
  is_nonce nonce (err _) = false
  is_nonce nonce (ok out) = codes_eq out nonce

  unfoldable pub shares : (directory : String) → (probe nonce image : List ℕ) → Result (Unit {0})
  shares directory probe nonce image =
      ensure
        (is_nonce nonce (
          command (
            codes "run"
            ∷ codes "--rm"
            ∷ codes "--pull=never"
            ∷ codes "--label"
            ∷ codes "io.runnerctl.probe=bind"
            ∷ codes "--network=none"
            ∷ codes "--user=0"
            ∷ codes "--security-opt=no-new-privileges:true"
            ∷ codes "--volume"
            ∷ mathlib.Core.List.◌++◌ probe (codes ":/probe:ro,Z")
            ∷ codes "--entrypoint=/bin/sh"
            ∷ image
            ∷ codes "-c"
            ∷ codes "cat /probe"
            ∷ [])))
        ("Docker cannot read "
          ++ (directory
              ++ " through a bind mount; run the daemon on this machine and share this path with it"))

  -- `parse::<u64>()`
  abbrev pub parse_seconds : List ℕ → Result ℕ
  parse_seconds text = context (parse_number text) "cannot read the Docker host boot time"

  unfoldable pub boot_time : (image : List ℕ) → Result ℕ
  boot_time image = do
    out ← command (
        codes "run"
        ∷ codes "--rm"
        ∷ codes "--pull=never"
        ∷ codes "--label"
        ∷ codes "io.runnerctl.probe=boot-time"
        ∷ codes "--network=none"
        ∷ codes "--user=65534:65534"
        ∷ codes "--cap-drop=ALL"
        ∷ codes "--security-opt=no-new-privileges:true"
        ∷ codes "--entrypoint=/bin/sh"
        ∷ image
        ∷ codes "-c"
        ∷ codes btime_script
        ∷ [])
    text ← context (docker.utf8 out) "invalid utf-8 sequence"
    parse_seconds (trim text)

  -- At most a mebibyte: the standard output, then the standard error.
  unfoldable pub logs : List ℕ → Result (List ℕ)
  logs id = do
    output ← docker.run (codes "logs" ∷ codes "--tail" ∷ codes "1000" ∷ id ∷ [])
    ensure output.success "cannot read Docker logs"
    ok (docker.lossy (truncate (1024 * 1024) (mathlib.Core.List.◌++◌ output.stdout output.stderr)))

  unfoldable pub pull : List ℕ → Result (Unit {0})
  pull image = do
    output ← docker.run (codes "pull" ∷ image ∷ [])
    ensure output.success "Docker pull failed; check registry access and image tag"

  -- `pull` of src/image.rs: the image that is given, or the default one.
  unfoldable pub pull_image :
      (default_image : String) → Option String → Result (String × Option String)
  pull_image default_image image =
      let chosen : String = elim image [ none ↦ default_image | some given ↦ given ] in
      do
        validate_image chosen
        pull (codes chosen)
        version ← image_version (codes chosen)
        ok (chosen, version)
