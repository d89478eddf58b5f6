-- ===== src/Notification/Tests.antt =====
-- Notifications of the registry, and the theorems about them at these inputs.
use hch.Base.{◌≡◌, refl, [], ◌∷◌, Text, bytes, text_eq, has_prefix}
use hch.Dao.Rows.{count}
use hch.Notification.Events.{
  Event, Effects, match_prefix, is_manifest, is_collected, collect, copies, filter_events,
  handle_event, handle_events, post,
}
use hch.Notification.Collected.{replicate, filter_events_lem}

abbrev manifest_type : Text
manifest_type = bytes "application/vnd.docker.distribution.manifest.v2+json"

abbrev push : Event
push = record {
  action = bytes "push";
  media_type = manifest_type;
  repository = bytes "library/busybox";
  tag = bytes "1.0";
  user_agent = bytes "docker/1.12";
  actor = bytes "dev";
}

-- A layer, which is not collected.
abbrev layer : Event
layer = record push { media_type = bytes "application/octet-stream"; tag = [] }

abbrev nothing : Effects
nothing = record { repositories = []; access_log = []; triggered = []; pulls = [] }

-- The push of the manifest triggers a replication of no tag, since the layer came last.
push_without_tag : (post (push ∷ layer ∷ []) nothing).triggered ≡ (bytes "library/busybox", []) ∷ []
unfolding post filter_events collect copies is_collected is_manifest match_prefix has_prefix text_eq
    handle_events handle_event
push_without_tag = refl

filter_events_lem_example :
    filter_events (push ∷ layer ∷ []) ≡ replicate (count is_collected (push ∷ layer ∷ [])) layer
filter_events_lem_example = filter_events_lem (push ∷ []) layer
