-- ===== src/Tests/Remote.antt =====
-- The theorems on src/github.rs, on a small cache.
use runnerctl.Common.{
  ℕ, ◌+◌, ◌<◌, String, ◌≡◌, ◌⊎◌, refl, true, false, none, some, [], ◌∷◌, arith, str_eq, ◌||◌,
}
use runnerctl.Result.{ok}
use runnerctl.BTreeMap.{lookup}
use runnerctl.Config.{Auth}
use runnerctl.Engine.Reconcile.{RemoteRunner}
use runnerctl.Github.{Response, Net, Gh, is_rate_limit, is_denied}
use runnerctl.Github.Errors.{message_of, response_error}
use runnerctl.Github.Laws.{response_error_blocks}

abbrev auth : Auth
auth = record { credential = "env:TOKEN"; app = none }

abbrev net : Net
net = record {
  auth_key = λ profile auth. profile;
  now = λ n. 1000;
  credential = λ n. ok "token";
  app_jwt = λ n. ok "jwt";
  send = λ n. none;
  meanwhile = λ n c. c;
  show_status = λ n. "status";
  show_number = λ n. "1200";
}

abbrev idle_runner : RemoteRunner
idle_runner = record { id = 5; name = "rc-b"; status = "online"; busy = false }

abbrev github : Gh
github = record {
  shared = record {
    cache = (("main", "/orgs/acme"), (990, idle_runner ∷ [])) ∷ [];
    blocked = ("spare", (1200, "GitHub rate limit")) ∷ [];
    installation_tokens = [];
    generation = 3;
  };
  io = 0;
}

-- A rate limit.
abbrev limited : Response
limited = record {
  status = 429;
  remaining = some "0";
  retry_after = some 60;
  reset = none;
  body = none;
}

limited_blocks : (is_rate_limit limited || is_denied limited) ≡ true
unfolding is_rate_limit is_denied
limited_blocks = refl

response_error_blocks_example :
    (until : ℕ) × (lookup "main"
        (response_error net {A = String} limited "main" 3 "GitHub" github).1.shared.blocked
      ≡ some (until, message_of net limited "GitHub"))
    × (net.now (github.io + 1 + 1) < until)
    × ((str_eq "other" "main" ≡ true)
        ⊎ (lookup "other"
              (response_error net {A = String} limited "main" 3 "GitHub" github).1.shared.blocked
            ≡ lookup "other" github.shared.blocked))
response_error_blocks_example =
    response_error_blocks net String limited "main" "other" 3 "GitHub" github limited_blocks refl
      (omega arith)
