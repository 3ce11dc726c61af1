-- ===== src/App/Access/Titles.antt =====
-- Pinned titles: `rename_pane` and `rename_pane_title_for_user` of crates/lmux/src/state.rs.
use lmux.Prelude.{
  ℕ, Bool, true, false, Option, none, some, List, [], ◌∷◌, nat_eq, option_eq, Text, lookup, insert,
  contains_key, lookup-insert, is_empty, ok, err, Result, ◌≡◌, refl, arith, inl, inr, Bool-cases,
  Option-cases, ◌∙◌, ap, sym, subst,
}
use lmux.Anchors.{trim}
use lmux.Bus.Kinds.{AgentIdentity, PaneTitle, PaneTitleProvenance, GrantScope}
use lmux.Grants.{Outcome}
use lmux.App.{AppState}
use lmux.App.Access.{
  Wording, title_change, Failure, retitle, rename_at, is_pinned_title, pane_for_uuid, new_title,
  ask_pinned, authorize_pane_access, rename_pane, rename_pane_title_for_user,
}

-- A call of `rename_pane`.
pub record Rename : Type 0 where
  pub pane_uuid : ℕ
  pub title : Text
  pub pin : Bool
  pub agent : Option AgentIdentity
  pub now : ℕ

module _ {R : Type 0} (wording : Wording → Text) where
  authorize-titles :
      (now : ℕ) (s : AppState R) (pane uuid : ℕ) (scope : GrantScope) (agent : Option AgentIdentity)
      (why : Wording)
      → (authorize_pane_access wording now s pane uuid scope agent why).0.pane_titles
        ≡ s.pane_titles
  unfolding authorize_pane_access
  authorize-titles now s pane uuid scope agent why = refl

  ask_pinned-titles :
      (now : ℕ) (s : AppState R) (pane uuid : ℕ) (title : Text) (agent : Option AgentIdentity)
      → (ask_pinned wording now s pane uuid title agent).pane_titles ≡ s.pane_titles
  ask_pinned-titles now s pane uuid title none = refl
  ask_pinned-titles now s pane uuid title (some agent) = refl

  -- What a rename does to the titles: with an error, nothing; otherwise it gives a pane that had no
  -- pinned title the new one.
  abbrev pub Renamed : AppState R → ℕ → PaneTitle → AppState R × Result Failure (Unit {0}) → Type 0
  Renamed s uuid new (t, err e) = t.pane_titles ≡ s.pane_titles
  Renamed s uuid new (t, ok done) =
      (pane : ℕ) × (pane_for_uuid s uuid ≡ some pane)
      × (is_pinned_title (lookup pane s.pane_titles) ≡ false)
      × (t.pane_titles ≡ insert pane new s.pane_titles)

  retitle-titles :
      (now : ℕ) (s t : AppState R) (uuid : ℕ) (title : Text) (pin : Bool)
      (agent : Option AgentIdentity) (pane : ℕ) (outcome : Outcome)
      → pane_for_uuid s uuid ≡ some pane
      → t.pane_titles ≡ s.pane_titles
      → Renamed s uuid
          (new_title title pin agent)
          (retitle wording now uuid title pin agent pane (t, outcome))
  retitle-titles now s t uuid title pin agent pane (err e) found same = same
  retitle-titles now s t uuid title pin agent pane (ok granted) found same =
      elim (Bool-cases (is_pinned_title (lookup pane t.pane_titles))) [
        | inl pinned ↦ rw pinned (ask_pinned-titles now t pane uuid title agent ∙ same)
        | inr loose ↦
            rw loose (pane, found, ground arith, ap (insert pane (new_title title pin agent)) same)
      ]

  -- A rename over the bus that fails leaves all titles; one that succeeds found a pane of this uuid
  -- whose title, if it had one, was not pinned, and changes the title of this pane only, to one that
  -- is the agent's and not pinned if an agent asked for it without a pin, and the user's and pinned
  -- otherwise.
  pub rename_pane-titles :
      (now : ℕ) (s : AppState R) (uuid : ℕ) (title : Text) (pin : Bool)
      (agent : Option AgentIdentity)
      → Renamed s uuid (new_title title pin agent) (rename_pane wording now s uuid title pin agent)
  unfolding rename_pane
  rename_pane-titles now s uuid title pin agent =
      let Goal : Option ℕ → Type 0 = λ o.
        Renamed s uuid (new_title title pin agent)
          (rename_at wording now s uuid title pin agent o) in
      elim (Option-cases (pane_for_uuid s uuid)) [
        | inl unknown ↦ subst Goal (sym unknown) refl
        | inr (pane, found) ↦
            let access =
              authorize_pane_access wording now s pane uuid GrantScope.rename agent title_change in
            subst Goal (sym found) (
              retitle-titles now s access.0 uuid title pin agent pane access.1 found
                (authorize-titles now s pane uuid GrantScope.rename agent title_change))
      ]

  -- One rename after the other.
  unfoldable pub rename_all : AppState R → List Rename → AppState R
  rename_all s [] = s
  rename_all s (r ∷ rs) =
      rename_all (rename_pane wording r.now s r.pane_uuid r.title r.pin r.agent).0 rs

  kept-pinned :
      (s : AppState R) (uuid : ℕ) (new t : PaneTitle) (pane : ℕ)
      (result : AppState R × Result Failure (Unit {0}))
      → Renamed s uuid new result
      → lookup pane s.pane_titles ≡ some t
      → t.pinned ≡ true
      → lookup pane result.0.pane_titles ≡ some t
  kept-pinned s uuid new t pane (s', err e) same at pinned = ap (lookup pane) same ∙ at
  kept-pinned s uuid new t pane (s', ok done) (other, found, loose, same) at pinned =
      ground (arith, same, lookup-insert other pane new s.pane_titles, nat_eq.beq_iff other pane)

  rename_all-pinned :
      (s : AppState R) (rs : List Rename) (t : PaneTitle) (pane : ℕ)
      → lookup pane s.pane_titles ≡ some t
      → t.pinned ≡ true
      → lookup pane (rename_all s rs).pane_titles ≡ some t
  unfolding rename_all
  rename_all-pinned s [] t pane at pinned = at
  rename_all-pinned s (r ∷ rs) t pane at pinned =
      let once = rename_pane wording r.now s r.pane_uuid r.title r.pin r.agent in
      rename_all-pinned once.0 rs t pane
        (kept-pinned s r.pane_uuid (new_title r.title r.pin r.agent) t pane once
          (rename_pane-titles r.now s r.pane_uuid r.title r.pin r.agent) at pinned)
        pinned

  -- The title that the user gives to a pane, if something of it is left when it is trimmed, is the
  -- pane's title after any renames over the bus, whoever asks for them and with whatever pin.
  pub rename_pane_title_for_user-kept :
      (s : AppState R) (pane : ℕ) (title : Text) (rs : List Rename)
      → contains_key pane s.panes ≡ true
      → is_empty (trim title) ≡ false
      → lookup pane (rename_all (rename_pane_title_for_user s pane (some title)).0 rs).pane_titles
        ≡ some (record { title = trim title; provenance = PaneTitleProvenance.user; pinned = true })
  unfolding rename_pane_title_for_user
  rename_pane_title_for_user-kept s pane title rs live something =
      rename_all-pinned (rename_pane_title_for_user s pane (some title)).0 rs
        (record { title = trim title; provenance = PaneTitleProvenance.user; pinned = true }) pane
        (ground (
          arith,
          lookup-insert pane pane
              (record { title = trim title; provenance = PaneTitleProvenance.user; pinned = true })
              s.pane_titles,
        ))
        refl
