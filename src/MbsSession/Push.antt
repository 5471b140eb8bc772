-- ===== src/MbsSession/Push.antt =====
-- Pushing the changes of an MBS Session to the MB-SMF (mbs-session.c), and what the response to an
-- update does to the accepted copy (nmbsmf-mbs-session-handle.c).
pub mod Settled
pub mod Recreate
mod Examples
use rt_5gc_service_consumers.Common.{
  ℕ, Bool, true, false, not, ◌&&◌, List, [], ◌∷◌, ◌++◌, Option, none, some, is_some, leb,
  if◌then◌else◌,
}
use rt_5gc_service_consumers.Tmgi.{Tmgi, tmgi_equal}
use rt_5gc_service_consumers.Tmgi.Plmn.{PlmnOps}
use rt_5gc_service_consumers.MbsSession.Public.{
  Ssm, ssm_equal, Parts, Public, public_copy, public_equal,
}

pub record Session (Plmn : Type 0) (parts : Parts) : Type 0 where
  pub session : Public Plmn parts
  pub previous_session : Option (Public Plmn parts)  -- as the MB-SMF last accepted it
  pub deleted : Bool

-- What a push sends, in order; `subscriptions` is `_mbs_session_subscriptions_update`.
pub data Action : Type 0 where
  create update remove subscriptions : Action

module _ {Plmn : Type 0} (o : PlmnOps Plmn) (parts : Parts) where
  -- Changed from the accepted copy.
  push_changed : Public Plmn parts → Public Plmn parts → List Action
  push_changed previous current =
      if not (ssm_equal previous.ssm current.ssm)
      then (if is_some previous.ssm then remove ∷ create ∷ [] else create ∷ [])
      else if not (tmgi_equal o previous.tmgi current.tmgi)
      then (if is_some previous.tmgi then remove ∷ create ∷ [] else create ∷ [])
      else update ∷ subscriptions ∷ []

  push_previous : Option (Public Plmn parts) → Public Plmn parts → List Action
  unfolding push_changed
  push_previous none current = create ∷ []
  push_previous (some previous) current =
      if not (public_equal o parts previous current)
      then push_changed previous current
      else subscriptions ∷ []

  -- For a session that is not NULL; the push returns true then.
  unfoldable pub mbs_session_push_changes : Session Plmn parts → List Action
  unfolding push_previous
  mbs_session_push_changes s =
      if s.deleted then remove ∷ [] else push_previous s.previous_session s.session

  -- The accepted copy becomes a copy of the session.
  unfoldable pub accept : ℕ → Session Plmn parts → Session Plmn parts
  accept fresh s = record s {
    previous_session = some (public_copy parts fresh s.previous_session s.session);
  }

  -- The session is made a copy of what was accepted, if anything was.
  unfoldable pub revert : ℕ → Session Plmn parts → Session Plmn parts
  revert fresh s = elim s.previous_session [
    | none ↦ s
    | some previous ↦ record s { session = public_copy parts fresh (some s.session) previous }
  ]

  -- `_nmbsmf_mbs_session_patch_response`, by the status of the response. The update callback follows
  -- on every path.
  unfoldable pub mbs_session_patch_response : ℕ → ℕ → Session Plmn parts → Session Plmn parts
  unfolding accept revert
  mbs_session_patch_response status fresh s =
      if leb 200 status && leb status 299
      then accept fresh s
      else if leb 400 status
      then revert fresh s
      else s
