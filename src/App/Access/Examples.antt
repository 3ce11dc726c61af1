-- ===== src/App/Access/Examples.antt =====
-- Tests of what the bus asks of a pane, and the theorems at a concrete state.
use lmux.Prelude.{
  ℕ, true, false, none, some, List, [], ◌∷◌, Text, lookup, Result, ok, nat_eq, ◌≡◌, refl,
}
use lmux.Anchors.{trim}
use lmux.Bus.Kinds.{AgentIdentity, PaneTitleProvenance, GrantScope, TranscriptRange}
use lmux.Grants.{GrantState}
use lmux.App.{AppState, Pane, new}
use lmux.App.Access.{
  Wording, Failure, terminal_input, tail_read, capture_read, send_input_to_pane,
  pane_transcript_tail, pane_transcript_capture, rename_pane_title_for_user,
}
use lmux.App.Access.Guard.{Reached, called, send_input_to_pane-Reached}
use lmux.App.Access.Titles.{Rename, rename_all, rename_pane_title_for_user-kept}

abbrev shell : Pane
shell = record { is_satellite = false; has_exited = false; argv = []; cwd = [] }

abbrev start : AppState ℕ
start = new 1 shell 40

abbrev wording : Wording → Text
wording why = []

abbrev robot : AgentIdentity
robot = record { id = b'r' ∷ b'2' ∷ []; name = none }

abbrev sent : Pane → Result Failure (Unit {0})
sent p = ok tt

abbrev nothing_new : Pane → Result Failure TranscriptRange
nothing_new p =
    ok (record {
      pane_id = 40;
      first_sequence = 0;
      last_sequence = 0;
      truncated = false;
      lines = [];
    })

abbrev titled : Text
titled = b' ' ∷ b'o' ∷ b'k' ∷ b' ' ∷ []

-- The user gives a title, and an agent, and then a client, renames.
abbrev renames : List Rename
renames =
    record {
      pane_uuid = 40;
      title = b'b' ∷ b'u' ∷ b'i' ∷ b'l' ∷ b'd' ∷ [];
      pin = true;
      agent = some robot;
      now = 5;
    }
    ∷ record {
      pane_uuid = 40;
      title = b't' ∷ b'e' ∷ b's' ∷ b't' ∷ b's' ∷ [];
      pin = false;
      agent = none;
      now = 6;
    }
    ∷ []

-- The agent may send input to the pane once.
abbrev granted : AppState ℕ
granted = record start {
  grants =
      (
        8,
        record {
          request = record {
            grant_id = 8;
            requester = robot;
            scope = GrantScope.send_input;
            source_anchor = none;
            target_anchor = none;
            target_pane = some 40;
            target_window = none;
            reason = none;
          };
          state = GrantState.allowed_once;
        },
      )
      ∷ [];
}

send_input_to_pane-Reached_example :
    Reached wording 9 granted 40 GrantScope.send_input terminal_input
      (some robot)
      sent
      (called (send_input_to_pane wording 9 granted 40 (some robot) sent))
    × Reached wording 9 granted 40 GrantScope.read_output tail_read
        (some robot)
        nothing_new
        (called (pane_transcript_tail wording 9 granted 40 (some robot) nothing_new))
    × Reached wording 9 granted 40 GrantScope.read_output capture_read
        (some robot)
        nothing_new
        (called (pane_transcript_capture wording 9 granted 40 (some robot) nothing_new))
send_input_to_pane-Reached_example =
    send_input_to_pane-Reached wording 9 granted 40 (some robot) sent nothing_new (refl, tt)

-- The input goes to pane 1 with the grant, and to none when it has been used or was never given.
sends_once :
    let first = send_input_to_pane wording 9 granted 40 (some robot) sent in
    (called first ≡ (1 ∷ [], ok tt))
    × ((called (send_input_to_pane wording 9 first.0 40 (some robot) sent)).0 ≡ [])
    × ((called (send_input_to_pane wording 9 start 40 (some robot) sent)).0 ≡ [])
unfolding send_input_to_pane new lmux.App.Access.authorize_pane_access
    lmux.Grants.authorize_pane_access lmux.Grants.owner_anchor lmux.Grants.find_grant
    lmux.Grants.grant_matches
sends_once = (refl, refl, refl)

rename_pane_title_for_user-kept_example :
    lookup 1
      (rename_all wording (rename_pane_title_for_user start 1 (some titled)).0 renames).pane_titles
    ≡ some (record { title = trim titled; provenance = PaneTitleProvenance.user; pinned = true })
unfolding new trim
rename_pane_title_for_user-kept_example =
    rename_pane_title_for_user-kept wording start 1 titled renames refl refl
