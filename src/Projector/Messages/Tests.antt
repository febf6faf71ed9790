-- ===== src/Projector/Messages/Tests.antt =====
-- A message with a text that a group member sent.
use wsapi_app.Common.{◌≡◌, refl, false, ◌||◌, ◌==◌, some}
use wsapi_app.Whatsmeow.Samples.{sample_types}
use wsapi_app.Whatsmeow.Proto.{Message, empty_message}
use wsapi_app.Event.Types.{MessageEvent, message}
use wsapi_app.Event.Samples.{codec}
use wsapi_app.Projector.Messages.{
  WaMessage, base_event, has_content, publish_content, project_content, project_message,
}
use wsapi_app.Projector.Messages.Samples.{sample_texts, context, report}
use wsapi_app.Projector.Messages.Outcome.{OutcomeOf, projected_message_has_content}

abbrev greeting : Message
greeting = record empty_message { conversation = some "hi" }

abbrev received : WaMessage
received = record { info = report; content = some greeting }

abbrev greeting_event : MessageEvent
greeting_event = record (base_event sample_types sample_texts codec (λ n. "") report context) {
  text = "hi";
  type = "text";
}

projected_message_has_content_example :
    ((report.category == "peer" || report.id == "") ≡ false)
    × OutcomeOf sample_types report context "message" (message greeting_event)
unfolding project_message project_content publish_content has_content base_event
projected_message_has_content_example =
    projected_message_has_content sample_types sample_texts codec (λ n. "") received context
      "message" (message greeting_event) refl
