-- ===== src/Replication/World.antt =====
-- What the handlers of a job read and change: the shared `BaseHandler` of
-- job/replication/transfer.go, the registry that images are copied to, and the job's row in the
-- database; with the monad of an `Enter` method, and `retry` of job/replication/error.go.
use hch.Base.{
  ℕ, ◌+◌, ◌≡◌, refl, Bool, true, false, Option, none, some, List, [], ◌∷◌, Text, text_eq, tail,
  if◌then◌else◌,
}
use hch.Job.State.{StateName}

-- A manifest as `registry.UnMarshal` gives it: `config` is the digest of the config blob that a
-- schema 2 manifest has. `parses` and `has_payload` say whether `UnMarshal` and `Payload` succeed.
pub record Manifest : Type 0 where
  pub digest : Text
  pub references : List Text
  pub config : Option Text
  pub parses : Bool
  pub has_payload : Bool

-- How a call over the network or to the database ends: it succeeds, the peer is not reached, or
-- the peer answers with another status code.
pub data Reply : Type 0 where
  done unreachable : Reply
  status : ℕ → Reply

-- The errors that the handlers tell apart: `network` is a `net.Error`.
pub data Fault : Type 0 where
  network : Fault
  refused : ℕ → Fault
  malformed not_found conflict update_failed : Fault

-- What does not belong to the job: the source registry and the table of projects, by the number of
-- calls made so far, since others change them while the job runs.
pub record Env : Type 0 where
  pub tags : ℕ → List Text
  pub manifest : ℕ → Text → Manifest
  pub manifest_exists : ℕ → Text → Bool
  pub project_public : ℕ → Option ℕ

-- `replies` is the schedule of how calls end (a missing entry succeeds), `blobs` and `manifests`
-- are what the destination holds, `row` says whether the job's row exists and `statuses` lists what
-- was written to its status column, the newest first. `rescheduled` lists the jobs handed to
-- `Reschedule`.
pub record World : Type 0 where
  pub replies : List Reply
  pub calls : ℕ
  pub blobs : List Text
  pub manifests : List (Text × Manifest)
  pub row : Bool
  pub statuses : List StateName
  pub rescheduled : List ℕ

-- `BaseHandler`, less the addresses, the clients and the logger.
pub record BaseHandler : Type 0 where
  pub project : Text
  pub repository : Text
  pub tags : List Text
  pub manifest : Option Manifest
  pub digest : Text
  pub blobs : List Text
  pub blobs_existence : List (Text × Bool)

pub record Ctx : Type 0 where
  pub base : BaseHandler
  pub world : World

-- A handler returns a value or an error, or the process panics.
pub data Res (A : Type 0) : Type 0 where
  ok : A → Res A
  err : Fault → Res A
  panic : Res A

abbrev pub M : Type 0 → Type 0
M A = Ctx → Res A × Ctx

infixl 5 ◌>>=◌ ◌>>◌
abbrev pub ◌>>=◌ : {A B : Type 0} → M A → (A → M B) → M B
◌>>=◌ m f c = elim (m c).0 [
  | ok a ↦ f a (m c).1
  | err e ↦ (err e, (m c).1)
  | panic ↦ (panic, (m c).1)
]

abbrev pub ◌>>◌ : {A B : Type 0} → M A → M B → M B
m >> k = m >>= λ _. k

module _ {A : Type 0} where
  abbrev pub pure : A → M A
  pure a c = (ok a, c)

  abbrev pub throw : Fault → M A
  throw e c = (err e, c)

  abbrev pub crash : M A
  crash c = (panic, c)

abbrev pub ⊤ : Type 0
⊤ = Unit

-- The reply to the next call.
unfoldable pub next_reply : List Reply → Reply
next_reply [] = Reply.done
next_reply (r ∷ rs) = r

abbrev pub after_call : World → World
after_call w = record w { replies = tail w.replies; calls = w.calls + 1 }

-- A call that only tells success from failure.
abbrev pub to_res : Reply → Res ⊤
to_res Reply.done = ok tt
to_res Reply.unreachable = err Fault.network
to_res (Reply.status code) = err (Fault.refused code)

unfoldable pub remote : M ⊤
remote c = (to_res (next_reply c.world.replies), record c { world = after_call c.world })

-- An error unless the test passes.
abbrev pub guard : Bool → Fault → M ⊤
guard test e c = (if test then ok tt else err e, c)

abbrev pub modify_base : (BaseHandler → BaseHandler) → M ⊤
modify_base f c = (ok tt, record c { base = f c.base })

abbrev pub modify_world : (World → World) → M ⊤
modify_world f c = (ok tt, record c { world = f c.world })

-- `retry` of error.go: a network error is tried again.
unfoldable pub retry : Fault → Bool
retry Fault.network = true
retry _ = false

-- The `Enter` method that wraps each `enter`.
unfoldable pub with_retry : M StateName → M StateName
unfolding retry
with_retry m c = elim (m c).0 [
  | ok s ↦ (ok s, (m c).1)
  | err e ↦ (if retry e then ok StateName.retrying else err e, (m c).1)
  | panic ↦ (panic, (m c).1)
]

-- `m.blobsExistence[blob]`
unfoldable pub lookup_blob : Text → List (Text × Bool) → Option Bool
lookup_blob b [] = none
lookup_blob b ((d, e) ∷ l) = if text_eq d b then some e else lookup_blob b l

-- The manifest that the destination holds under a tag.
unfoldable pub lookup_manifest : Text → List (Text × Manifest) → Option Manifest
lookup_manifest t [] = none
lookup_manifest t ((u, m) ∷ l) = if text_eq u t then some m else lookup_manifest t l

-- A property of a bind follows from one of its rest, and one of each failure of its first part.
pub >>=_rule {κ} :
    {A B : Type 0} (P : Res B × Ctx → Type κ) (m : M A) (f : A → M B) (c : Ctx)
    → ((a : A) → (m c).0 ≡ ok a → P (f a (m c).1))
    → ((e : Fault) → (m c).0 ≡ err e → P (err e, (m c).1))
    → ((m c).0 ≡ panic → P (panic, (m c).1))
    → P ((m >>= f) c)
>>=_rule P m f c h_ok h_err h_panic =
    (elim (m c).0
        as (λ r.
          (m c).0 ≡ r
          → P (elim r [
            | ok a ↦ f a (m c).1
            | err e ↦ (err e, (m c).1)
            | panic ↦ (panic, (m c).1)
          ])) [ ok a ↦ λ e. h_ok a e | err x ↦ λ e. h_err x e | panic ↦ λ e. h_panic e ])
      refl
