-- ===== src/Daemon/Tests.antt =====
-- The daemon over a pool that counts its runs: inputs of the theorems.
use podman_sandbox_runner.Base.{
  ℕ, ℤ, pos, ◌+◌, ◌≡◌, refl, ap, ◌∙◌, ◌⊎◌, Option, none, some, [], ◌∷◌, Text, bytes, text_eq,
  cut_prefix, cut_prefix-append, trim_right, if◌then◌else◌,
}
use podman_sandbox_runner.Sandbox.{Error, external, Fallible, ok, err, Ran, no_result}
use podman_sandbox_runner.Pool.Ops.{Context, Job}
use podman_sandbox_runner.Daemon.{RunRequest, RunResponse, error_response}
use podman_sandbox_runner.Daemon.Server.{
  background, respond, dispatch, handle_run, handle_conn, HttpAnswer, serve_http,
}
use podman_sandbox_runner.Daemon.Client.{Net, submit}
use podman_sandbox_runner.Daemon.Laws.{
  EndsBy, handle_run_deadline, refusal, run_context, reply, requested, handle_run_cases,
}
use podman_sandbox_runner.Daemon.Delivery.{
  UnixLink, HttpLink, Link, over_unix, over_http, submit_delivers,
}

abbrev done : Ran
done = record { result = no_result; failure = none; out = bytes "hi"; err_out = [] }

abbrev counting : Context → Job → ℕ → Option Ran × ℕ
counting ctx job n = (some done, n + 1)

-- One duration parses.
abbrev seconds : Text → Fallible ℤ
seconds t =
    if text_eq t (bytes "10s") then ok (pos 10000000000) else err (external "invalid duration")

abbrev hello : RunRequest
hello = record { cmd = bytes "hello" ∷ []; env = []; stdin = []; timeout = bytes "10s" }

-- One body decodes.
abbrev decode : Text → Fallible RunRequest
decode t = if text_eq t (bytes "{}") then ok hello else err (external "unexpected EOF")

handle_run_deadline_example :
    (c : Context) × EndsBy c (pos 10000000005)
    × ((background.deadline ≡ none) ⊎ ((t : ℤ) × (background.deadline ≡ some t) × EndsBy c t))
    × (handle_run counting seconds decode background (pos 5) hello 4
        ≡ reply counting seconds decode (counting c (requested counting seconds decode hello) 4))
unfolding text_eq
handle_run_deadline_example =
    handle_run_deadline counting seconds decode background (pos 5) (pos 10000000000) hello 4 refl
      refl refl

handle_run_cases_example :
    ((e : Error) × (refusal counting seconds decode hello ≡ some e)
      × (handle_run counting seconds decode background (pos 0) hello 4
          ≡ (some (error_response e), 4)))
    ⊎ ((refusal counting seconds decode hello ≡ none)
        × (handle_run counting seconds decode background (pos 0) hello 4
            ≡ reply counting seconds decode (
                counting
                  (run_context counting seconds decode background (pos 0) hello)
                  (requested counting seconds decode hello)
                  4)))
handle_run_cases_example = handle_run_cases counting seconds decode background (pos 0) hello 4

-- A network on which every call succeeds and is counted.
abbrev net : Net ℕ ℕ
net = record {
  marshal = λ req. ok (bytes "{}");
  new_request = λ url body. ok tt;
  do_post = λ ctx url body w. (ok (bytes "{}"), w + 1);
  dial_unix = λ ctx path w. (ok 1, w + 1);
  set_deadline = λ c d w. w + 1;
  encode = λ c req w. (none, w + 1);
  receive = λ c w. (ok (bytes "{}"), w + 1);
  decode = λ t. ok (respond done);
}

abbrev wire : RunRequest → Text
wire req = bytes "{}"

abbrev text_of : RunResponse → Text
text_of r = bytes "{}"

socket : UnixLink net counting seconds decode wire text_of (pos 0) (bytes "/run/s.sock")
unfolding text_eq handle_conn handle_run dispatch
socket = record {
  done = pos 30;
  in_time = refl;
  connection = λ ctx w. 1;
  opened = λ ctx w. w + 1;
  came = λ ctx now req w. w + 1 + 1 + 1;
  dials = λ ctx w. refl;
  sends = λ ctx now req w. refl;
  answers = λ ctx now req w resp w1 h. ap (λ q. (ok (bytes "{}"), q.1)) h;
}

abbrev link : Link net counting seconds decode wire text_of (pos 0) (bytes "unix:///run/s.sock")
link = over_unix (bytes "/run/s.sock") refl socket

delivered_by_socket :
    submit net background (pos 0) (bytes "unix:///run/s.sock") hello 0 ≡ (ok (respond done), 4)
unfolding text_eq handle_run dispatch socket
delivered_by_socket =
    submit_delivers net counting seconds decode wire text_of (pos 0) link background (pos 0) hello
      (respond done) 0 4 refl refl refl

-- The text of an answer that comes back over HTTP.
abbrev sent_back : Option HttpAnswer × ℕ → Fallible Text × ℕ
sent_back (none, w) = (err (external "EOF"), w)
sent_back (some a, w) = (ok (elim a.body [ none ↦ [] | some r ↦ text_of r ]), w)

-- A POST to a path under `http://h` reaches the daemon; any other is lost.
abbrev brought : Text → ℕ → Option Text → Fallible Text × ℕ
brought body w none = (err (external "no such host"), w)
brought body w (some path) = sent_back (
    serve_http counting seconds decode background (pos 0)
      (record { path = path; method = bytes "POST"; content = body }) (w + 1))

abbrev web : Net ℕ ℕ
web = record net { do_post = λ ctx url body w. brought body w (cut_prefix url (bytes "http://h")) }

endpoint_h : HttpLink web counting seconds decode wire text_of (pos 0) (bytes "h")
endpoint_h = record {
  posted_as = λ ctx req w. w + 1;
  marshals = λ req. refl;
  requests = λ body. refl;
  posts = λ ctx path req w resp w1 h.
      ap (brought (wire req) w) (cut_prefix-append (bytes "http://h") path) ∙ ap sent_back h;
}

abbrev web_link : Link web counting seconds decode wire text_of (pos 0) (bytes "http://h/")
unfolding trim_right
web_link = over_http (bytes "h/") (bytes "h") refl refl endpoint_h

submit_delivers_example :
    submit web background (pos 0) (bytes "http://h/") hello 0 ≡ (ok (respond done), 2)
unfolding text_eq handle_run dispatch endpoint_h web_link
submit_delivers_example =
    submit_delivers web counting seconds decode wire text_of (pos 0) web_link background (pos 0)
      hello (respond done) 0 2 refl refl refl
