-- ===== src/Tests/Connections.antt =====
-- The theorems on how requests reach the manager, and on its diagnosis, on the manager of the tests.
use runnerctl.Common.{
  Bool, true, ◌<◌, ◌≤◌, ◌⊎◌, ℕ, ◌≡◌, ◌≢◌, refl, inr, ◌&&◌, none, some, List, [], ◌∷◌, ◌++◌, all,
  length,
}
use runnerctl.Common.Text.{codes}
use runnerctl.Result.{Result, ok, err, message}
use runnerctl.Protocol.{Request}
use runnerctl.Engine.{panicked}
use runnerctl.Engine.Diagnose.{Probes, Diagnosis, is_okay, latest_release, diagnose}
use runnerctl.Engine.Diagnose.Laws.{pool_fine}
use runnerctl.Engine.Diagnose.Healthy.{is_shared, diagnose_healthy}
use runnerctl.Engine.Connect.{Asked, limit, read_request, dispatch_alone}
use runnerctl.Engine.Connect.Laws.{dispatch_alone_keeps}
use runnerctl.Engine.Connect.Lines.{read_request-line}
use runnerctl.Engine.Serve.Laws.{IsStored}
use runnerctl.Tests.{env, engine, state, state-IsWellFormed}

-- Docker and GitHub answer, and Docker has an image without a version.
abbrev probes : Probes
probes = record {
  docker = ok "28.0 linux";
  latest = ok (record { tag_name = "v2.328.0"; published_at = "2025-08-13T00:00:00Z" });
  runners = λ pool. ok [];
  image_version = λ image. ok none;
  shares = λ image. ok tt;
  now = λ pool. 1000;
  now_nanos = λ image. 1000;
  parse_rfc3339 = λ s. none;
}

diagnose_healthy_example :
    (d : Diagnosis) × (diagnose probes state ≡ some d)
    × (d.healthy ≡ (
        is_okay probes.docker
        && all
            (pool_fine probes state (latest_release probes state.config.pools))
            state.config.pools
        && is_shared probes state.config.pools))
diagnose_healthy_example = diagnose_healthy probes state state-IsWellFormed

abbrev asked : Asked
asked = record { containers = ok []; logs = ok (codes "log"); image = ok tt; probes = probes }

dispatch_alone_keeps_example :
    IsStored (dispatch_alone asked env (ok tt) (Request.scale "linux" 3) engine).1
    × ((dispatch_alone asked env (ok tt) (Request.scale "linux" 3) engine).0 ≢ panicked)
dispatch_alone_keeps_example =
    dispatch_alone_keeps asked env (λ n. refl) (λ n. refl) (ok tt) (Request.scale "linux" 3) engine
      (inr (state, refl, state-IsWellFormed))

-- Every line is a question for the status.
abbrev decode : List ℕ → Result Request
decode line = ok (Request.status none)

-- Every text is UTF-8.
abbrev is_utf8 : List ℕ → Bool
is_utf8 line = true

read_request-line_example :
    ((length (codes "{}") < limit)
      × (read_request is_utf8 decode (codes "{}" ++ 10 ∷ codes "more")
          ≡ decode (codes "{}" ++ 10 ∷ [])))
    ⊎ ((limit ≤ length (codes "{}"))
        × ((read_request is_utf8 decode (codes "{}" ++ 10 ∷ codes "more")
              ≡ err (message "request too large or incomplete"))
            ⊎ (read_request is_utf8 decode (codes "{}" ++ 10 ∷ codes "more")
                ≡ err (message "stream did not contain valid UTF-8"))))
read_request-line_example = read_request-line is_utf8 decode (codes "{}") (codes "more") refl refl
