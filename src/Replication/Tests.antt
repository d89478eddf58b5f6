-- ===== src/Replication/Tests.antt =====
-- A deletion of one tag, and the theorem about it at this input.
use hch.Base.{◌≡◌, refl, true, none, [], ◌∷◌, bytes, text_eq}
use hch.Replication.World.{Manifest, Ctx, next_reply}
use hch.Replication.Delete.{enter_deleter, delete_tags, del, erase_tag}
use hch.Replication.Removed.{DeletedPost, enter_deleter_lem}

abbrev image : Manifest
image = record {
  digest = bytes "d";
  references = [];
  config = none;
  parses = true;
  has_payload = true;
}

abbrev ctx : Ctx
ctx = record {
  base = record {
    project = bytes "library";
    repository = bytes "library/busybox";
    tags = bytes "1.0" ∷ [];
    manifest = none;
    digest = [];
    blobs = [];
    blobs_existence = [];
  };
  world = record {
    replies = [];
    calls = 0;
    blobs = [];
    manifests = (bytes "1.0", image) ∷ (bytes "2.0", image) ∷ [];
    row = true;
    statuses = [];
    rescheduled = [];
  };
}

one_is_left : (enter_deleter ctx).1.world.manifests ≡ (bytes "2.0", image) ∷ []
unfolding enter_deleter delete_tags del erase_tag next_reply text_eq
one_is_left = refl

enter_deleter_lem_example : DeletedPost ctx.base.tags ctx (enter_deleter ctx)
enter_deleter_lem_example = enter_deleter_lem ctx (record { replies = refl; row = refl })
