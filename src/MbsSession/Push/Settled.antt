-- ===== src/MbsSession/Push/Settled.antt =====
-- What a push sends after the MB-SMF has accepted an update.
use rt_5gc_service_consumers.Common.{ℕ, false, [], ◌∷◌, ◌≤◌, ◌≡◌, ◌↔◌, arith}
use rt_5gc_service_consumers.Tmgi.Plmn.{PlmnOps, ComparesBytes}
use rt_5gc_service_consumers.MbsSession.Public.{Parts, Public, public_copy, destination}
use rt_5gc_service_consumers.MbsSession.Public.Copied.{
  PartsEqual, OptIsIp, AssociatedIsIp, public_equal-copy_iff,
}
use rt_5gc_service_consumers.MbsSession.Push.{
  Session, subscriptions, push_changed, mbs_session_push_changes, mbs_session_patch_response,
}

module _ {Plmn : Type 0} (o : PlmnOps Plmn) (parts : Parts) where
  push_changed-ne : (p c : Public Plmn parts) → ¬ (push_changed o parts p c ≡ subscriptions ∷ [])
  unfolding push_changed
  push_changed-ne p c h = ground arith

  -- After a 2xx answer to an update, the next push of a session that was not deleted sends nothing
  -- but the changes of its subscriptions exactly when the copy accepted before had the session's
  -- termination time already, and the copies of its service area, extended area and service
  -- information that are made over those accepted before compare equal to these. The SSM and that of
  -- the associated session id, where set, are IPv4 or IPv6, and PLMN ids compare by their bytes.
  pub push_changes-patch_response :
      (bytes : ComparesBytes o) (status fresh : ℕ) (s : Session Plmn parts)
      → 200 ≤ status
      → status ≤ 299
      → s.deleted ≡ false
      → OptIsIp s.session.ssm
      → AssociatedIsIp s.session.associated_session_id
      → (mbs_session_push_changes o parts (mbs_session_patch_response o parts status fresh s)
          ≡ subscriptions ∷ [])
        ↔ ((destination parts (λ d. d.termination_time) s.previous_session
              ≡ s.session.termination_time)
            × PartsEqual parts s.previous_session s.session)
  unfolding mbs_session_patch_response mbs_session_push_changes
  push_changes-patch_response bytes status fresh s low high live ip assoc_ip =
      let iff =
        public_equal-copy_iff o bytes parts fresh s.previous_session s.session ip assoc_ip in
      ground (
        arith,
        iff,
        push_changed-ne (public_copy parts fresh s.previous_session s.session) s.session,
      )
