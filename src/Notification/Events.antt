-- ===== src/Notification/Events.antt =====
-- service/notification.go: which events of a notification are handled, and what `Post` does with
-- each. `filterEvents` collects the address of the variable of its loop, and the program is built
-- with Go 1.6, where the loop has one variable: a collected event is a pointer to it.
use hch.Base.{
  ℕ, zero, suc, ◌==◌, leb, Bool, false, ◌&&◌, ◌||◌, not, Option, none, some, List, [], ◌∷◌, Text,
  bytes, text_eq, has_prefix, to_lower, trim_space, trim_left, trim_right, cut_last, contains_text,
  is_empty, if◌then◌else◌,
}

pub record Event : Type 0 where
  pub action : Text
  pub media_type : Text
  pub repository : Text
  pub tag : Text
  pub user_agent : Text
  pub actor : Text

-- The rest behind a prefix of a text that matches, where a dot matches any byte of the line.
unfoldable pub match_prefix : Text → Text → Option Text
match_prefix [] s = some s
match_prefix (p ∷ ps) [] = none
match_prefix (p ∷ ps) (a ∷ s) =
    let rest = match_prefix ps s in if (p == b'.' && not (a == 10)) || p == a then rest else none

-- A digit, and "+json".
abbrev pub version_and_json : Option Text → Bool
version_and_json (some (d ∷ rest)) = (leb b'0' d && leb d b'9') && has_prefix rest (bytes "+json")
version_and_json _ = false

-- `manifestPattern` matches.
unfoldable pub is_manifest : Text → Bool
unfolding match_prefix has_prefix
is_manifest s =
    version_and_json (match_prefix (bytes "application/vnd.docker.distribution.manifest.v") s)

abbrev pub pull_or_push : Text → Bool
pull_or_push a = text_eq a (bytes "pull") || text_eq a (bytes "push")

-- The tests of the body of the loop.
unfoldable pub is_collected : Event → Bool
unfolding is_manifest has_prefix text_eq to_lower trim_space
is_collected e =
    is_manifest e.media_type
    && ((has_prefix e.user_agent (bytes "docker") && pull_or_push e.action)
        || ((text_eq (to_lower (trim_space e.user_agent)) (bytes "harbor-registry-client")
              && text_eq e.action (bytes "push"))
            || (has_prefix e.user_agent (bytes "Go-http-client") && pull_or_push e.action)))

-- The variable of the loop, and how many pointers to it were collected.
pub record Loop : Type 0 where
  pub event : Option Event
  pub pointers : ℕ

-- The loop of `filterEvents`.
unfoldable pub collect : List Event → Loop → Loop
unfolding is_collected
collect [] l = l
collect (e ∷ es) l =
    collect es
      (record { event = some e; pointers = if is_collected e then suc l.pointers else l.pointers })

unfoldable pub copies : ℕ → Option Event → List Event
copies n none = []
copies zero (some e) = []
copies (suc n) (some e) = e ∷ copies n (some e)

-- What the pointers that `filterEvents` returns point to.
unfoldable pub filter_events : List Event → List Event
unfolding collect copies
filter_events es =
    let l = collect es (record { event = none; pointers = 0 }) in copies l.pointers l.event

abbrev is_slash : ℕ → Bool
is_slash c = c == b'/'

abbrev project_and_rest : Text → Option (Text × Text) → Text × Text
project_and_rest r none = ([], r)
project_and_rest r (some parts) = parts

-- `utils.ParseRepository`
unfoldable pub parse_repository : Text → Text × Text
unfolding trim_left trim_right cut_last
parse_repository repository =
    let r = trim_right is_slash (trim_left is_slash repository) in
    project_and_rest r (cut_last b'/' r)

-- A call of `dao.AccessLog`.
pub record Access : Type 0 where
  pub user : Text
  pub project : Text
  pub repository : Text
  pub tag : Text
  pub action : Text

-- What `Post` changes: the repositories, the access log, the replications that it triggers and the
-- pulls that it counts.
pub record Effects : Type 0 where
  pub repositories : List Text
  pub access_log : List Access
  pub triggered : List (Text × Text)
  pub pulls : List Text

abbrev user_of : Text → Text
user_of u = if is_empty u then bytes "anonymous" else u

-- The log and the replication of a push, and the log and the count of a pull, where the database
-- answers; the scan of the image and the quotas are left out.
unfoldable pub handle_event : Event → Effects → Effects
unfolding text_eq contains_text parse_repository
handle_event e f =
    let logged = record f {
      access_log =
          record {
            user = user_of e.actor;
            project = (parse_repository e.repository).0;
            repository = e.repository;
            tag = e.tag;
            action = e.action;
          }
          ∷ f.access_log;
    } in
    if text_eq e.action (bytes "push")
    then record logged {
      repositories =
          if contains_text e.repository f.repositories
          then f.repositories
          else e.repository ∷ f.repositories;
      triggered = (e.repository, e.tag) ∷ f.triggered;
    }
    else if text_eq e.action (bytes "pull")
    then record logged { pulls = e.repository ∷ f.pulls }
    else logged

unfoldable pub handle_events : List Event → Effects → Effects
handle_events [] f = f
handle_events (e ∷ es) f = handle_events es (handle_event e f)

-- `Post` of a notification that could be decoded.
unfoldable pub post : List Event → Effects → Effects
unfolding filter_events handle_events
post es f = handle_events (filter_events es) f
