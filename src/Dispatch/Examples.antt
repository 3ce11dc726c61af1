-- ===== src/Dispatch/Examples.antt =====
-- Tests of the requests of the bus, and the theorems at concrete requests.
use lmux.Prelude.{
  Bool, Text, ℕ, ◌+◌, ◌≤◌, pos, true, false, Option, none, some, List, [], ◌∷◌, ◌==◌, nat_eq,
  Result, ok, err, length, ◌≡◌, refl, arith, if◌then◌else◌,
}
use lmux.Bus.Errors.{BusError}
use lmux.Bus.Kinds.{AgentIdentity, GrantDecision, TranscriptRange}
use lmux.Bus.Catalog.{ClientRole, WindowCandidate, WindowCandidateBackend}
use lmux.Bus.Requests.{RequestContext, authorize_public_request, only_from_cockpit}
use lmux.App.{AppState, Pane, new}
use lmux.App.Access.{Failure}
use lmux.App.Consistent.{IsConsistent}
use lmux.App.Panes.{u32_max}
use lmux.App.Runs.{new-IsConsistent}
use lmux.Dispatch.{Request, Outside, Problem, serve, serve_all, owner_from, resolve_owning_pane}
use lmux.Dispatch.Attach.{wait_for}
use lmux.Dispatch.Attach.Chosen.{Ends, choose, wait_for-Ends}
use lmux.Dispatch.Kept.{serve_all-IsConsistent}
use lmux.Dispatch.Owner.{Owns, resolve_owning_pane-Owns}
use lmux.Dispatch.Rights.{IsNarrower}
use lmux.Dispatch.Served.{serve_all-Narrows}

abbrev shell : Pane
shell = record { is_satellite = false; has_exited = false; argv = []; cwd = [] }

abbrev start : AppState ℕ
start = new 1 shell 40

abbrev robot : AgentIdentity
robot = record { id = b'r' ∷ []; name = none }

abbrev nothing_new : Pane → Result Failure TranscriptRange
nothing_new p =
    ok (record {
      pane_id = 40;
      first_sequence = 0;
      last_sequence = 0;
      truncated = false;
      lines = [];
    })

-- Process 70 is the child of pane 1, and the parent of 71.
abbrev child_pid : ℕ → Option ℕ
child_pid pane = if pane == 1 then some 70 else none

abbrev read_ppid : ℕ → Option ℕ
read_ppid pid = if pid == 71 then some 70 else some 1

abbrev calm : Outside
calm = record {
  now = 5;
  wording = λ why. [];
  new_pane = some shell;
  child_agent = none;
  write = λ text. ok tt;
  send = λ text p. ok tt;
  tail = λ lines. nothing_new;
  capture = λ since max. nothing_new;
  kill = λ target signal. true;
  child_pid = child_pid;
  read_ppid = read_ppid;
}

abbrev client : RequestContext
client = record { client = ClientRole.lmux_cli; pid = pos 71 }

-- A client tags its own pane, asks for a new anchor, and decides on a grant.
abbrev requests : List (Outside × RequestContext × Request)
requests =
    (calm, client, Request.anchor_tag_self)
    ∷ (calm, client, Request.anchor_new)
    ∷ (calm, client, Request.pane_send_input 40 [] (some robot))
    ∷ (calm, client, Request.grant_decide 7 GrantDecision.allow_once)
    ∷ []

decision_is_refused :
    (serve 50 calm client start (Request.grant_decide 7 GrantDecision.allow_once)).1
    ≡ err (Problem.refused (BusError.unauthorized only_from_cockpit))
unfolding serve authorize_public_request
decision_is_refused = refl

finds_the_pane_of_the_parent : resolve_owning_pane child_pid read_ppid start 71 ≡ some 1
unfolding owner_from new
finds_the_pane_of_the_parent = refl

requests-room : start.next_id + length requests ≤ u32_max
unfolding new
requests-room = omega arith

serve_all-IsConsistent_example : IsConsistent (serve_all 50 requests start)
serve_all-IsConsistent_example =
    serve_all-IsConsistent 50 requests start (new-IsConsistent 1 shell 40) requests-room

serve_all-Narrows_example : IsNarrower start.grants (serve_all 50 requests start).grants
serve_all-Narrows_example = serve_all-Narrows 50 requests start

resolve_owning_pane-Owns_example :
    ((id : ℕ)
      → resolve_owning_pane child_pid read_ppid start 71 ≡ some id
      → Owns child_pid read_ppid start.panes 64 71 id)
    × ((id : ℕ)
        → Owns child_pid read_ppid start.panes 64 71 id
        → (owner : ℕ) × (resolve_owning_pane child_pid read_ppid start 71 ≡ some owner))
resolve_owning_pane-Owns_example = resolve_owning_pane-Owns child_pid read_ppid start 71

-- A window that was there before the launch, and the program's, which shows up at the second poll.
abbrev old_window : WindowCandidate
old_window = record {
  backend = WindowCandidateBackend.kwin;
  backend_window_id = b'1' ∷ [];
  pid = some 10;
  app_identity = none;
  title = some (b'n' ∷ []);
  workspace = none;
  output = none;
}

abbrev own_window : WindowCandidate
own_window = record old_window { backend_window_id = b'2' ∷ []; pid = some 42 }

abbrev polls : List (Result Text (List WindowCandidate) × Bool)
polls = (ok (old_window ∷ []), false) ∷ (ok (old_window ∷ own_window ∷ []), true) ∷ []

abbrev as_is : Text → Text
as_is text = text

wait_for-Ends_example :
    Ends as_is
      (old_window ∷ [])
      42
      (some (b'n' ∷ []))
      none
      polls
      (wait_for (choose as_is (old_window ∷ []) 42 (some (b'n' ∷ [])) none) polls)
wait_for-Ends_example = wait_for-Ends as_is (old_window ∷ []) 42 (some (b'n' ∷ [])) none polls
