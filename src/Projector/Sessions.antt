-- ===== src/Projector/Sessions.antt =====
-- internal/event/projector_session.go, projector_newsletter.go, and `ProjectContact` of projector.go
use wsapi_app.Common.{Bool, String, Option, none, some, if◌then◌else◌}
use wsapi_app.Whatsmeow.{Jid, WaTypes}
use wsapi_app.Event.Types.{
  session_logged_in, session_logged_out, session_login_error, newsletter, contact,
}
use wsapi_app.Event.Constants.{
  type_logged_in, type_logged_out, type_login_error, type_newsletter, type_contact,
}
use wsapi_app.Projector.{ProjectorContext, Projection, discard, project, resolve_identity}

pub record PairError : Type 0 where
  pub id : Jid
  pub error : String

pub record NewsletterJoin : Type 0 where
  pub id : Jid
  pub name : String
  pub viewer_role : Option String

-- `waEvents.Contact`; a nil `Action` has the getters' defaults.
pub record Contact : Type 0 where
  pub jid : Jid
  pub from_full_sync : Bool
  pub full_name : String
  pub save_on_primary_addressbook : Bool

module _ (wt : WaTypes) where
  -- `ProjectPairSuccess`, for the ID of the device
  unfoldable pub project_pair_success : Jid → Projection
  project_pair_success id =
      project type_logged_in (session_logged_in (record { device_id = wt.to_string id }))

  -- `ProjectLoggedOut`, for the text of the reason
  unfoldable pub project_logged_out : String → Projection
  project_logged_out reason =
      project type_logged_out (session_logged_out (record { reason = reason }))

  -- `ProjectPairError`
  unfoldable pub project_pair_error : PairError → Projection
  project_pair_error evt =
      project type_login_error
        (session_login_error (record { id = wt.to_string evt.id; error = evt.error }))

  -- `ProjectNewsletterJoin`
  unfoldable pub project_newsletter_join : NewsletterJoin → Projection
  project_newsletter_join evt = project type_newsletter (
      newsletter (record {
        id = wt.to_string evt.id;
        action = "join";
        name = evt.name;
        role = elim evt.viewer_role [ none ↦ "" | some role ↦ role ];
        mute = "";
      }))

  -- `ProjectNewsletterLeave`, for the newsletter and the role
  unfoldable pub project_newsletter_leave : Jid → String → Projection
  project_newsletter_leave id role = project type_newsletter (
      newsletter
        (record { id = wt.to_string id; action = "leave"; name = ""; role = role; mute = "" }))

  -- `ProjectNewsletterMuteChange`
  unfoldable pub project_newsletter_mute_change : Jid → String → Projection
  project_newsletter_mute_change id mute = project type_newsletter (
      newsletter
        (record { id = wt.to_string id; action = "mute"; name = ""; role = ""; mute = mute }))

  -- `ProjectContact`
  unfoldable pub project_contact : Contact → ProjectorContext → Projection
  project_contact evt pctx =
      if evt.from_full_sync
      then discard
      else project type_contact (
          contact (record {
            contact = resolve_identity wt evt.jid pctx;
            full_name = evt.full_name;
            in_phone_address_book = evt.save_on_primary_addressbook;
          }))
