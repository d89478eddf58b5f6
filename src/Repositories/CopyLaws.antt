-- ===== src/Repositories/CopyLaws.antt =====
-- What the destination holds after an image was copied.
use hch.Base.{
  ◌≡◌, refl, sym, ap, subst, ◌∙◌, Bool, true, false, ◌&&◌, ◌||◌, not, ◌⊎◌, inl, inr, Bool-cases,
  List, [], ◌∷◌, All, All-map, Text, text_eq, text_eq_to, contains_text, tail, if◌then◌else◌, arith,
}
use hch.Dao.Store.{Store, Out, done, abort, panic}
use hch.Replication.World.{Manifest, Reply}
use hch.Replication.Transfer.{blobs_of}
use hch.Replication.Closed.{Has, Has-cons, Has-head}
use hch.Repositories.Copy.{
  Depot, succeeds, lacking, copy_blobs, put, finish, copy_image, CopyImage, check_copy, then_copy,
  copy_repo,
}

-- Every manifest has its blobs beside it.
abbrev pub IsWhole : Depot → Type 0
IsWhole d = All (λ e. All (Has d.blobs) (blobs_of e.1)) d.manifests

-- A blob is there, or in a list.
abbrev Either : Depot → List Text → Text → Type 0
Either d l b = Has d.blobs b ⊎ Has l b

later-Either : (d : Depot) (x : Text) (l : List Text) (b : Text) → Either d l b → Either d (x ∷ l) b
later-Either d x l b (inl h) = inl h
later-Either d x l b (inr h) = inr (Has-cons x l b h)

lacking-All : (bs : List Text) (rs : List Reply) (d : Depot) → All (Either d (lacking bs rs d).0) bs
unfolding lacking
lacking-All [] rs d = tt
lacking-All (b ∷ bs) rs d =
    go (succeeds rs && contains_text b d.blobs) refl (lacking bs (tail rs) d)
      (lacking-All bs (tail rs) d)
  where
    go :
        (x : Bool)
        → (succeeds rs && contains_text b d.blobs) ≡ x
        → (rest : List Text × List Reply) → All (Either d rest.0) bs
        → All (Either d (if x then rest else (b ∷ rest.0, rest.1)).0) (b ∷ bs)
    go true e rest h = (inl (ground arith), h)
    go false e rest h = (
      inr (Has-head b rest.0),
      All-map (Either d rest.0) (Either d (b ∷ rest.0)) bs (later-Either d b rest.0) h,
    )

-- What a run of the second loop leaves.
record IsCopied (d : Depot) (bs : List Text) (p : Bool × (List Reply × Depot)) : Type 0 where
  grows : (b : Text) → Has d.blobs b → Has p.1.1.blobs b
  same : p.1.1.manifests ≡ d.manifests
  stored : p.0 ≡ true → All (Has p.1.1.blobs) bs

copy_blobs-IsCopied :
    (bs : List Text) (rs : List Reply) (d : Depot) → IsCopied d bs (copy_blobs bs rs d)
unfolding copy_blobs
copy_blobs-IsCopied [] rs d = record { grows = λ b h. h; same = refl; stored = λ _. tt }
copy_blobs-IsCopied (b ∷ bs) rs d =
    go (succeeds rs) (succeeds (tail rs))
      (copy_blobs-IsCopied bs (tail (tail rs)) (record d { blobs = b ∷ d.blobs }))
  where
    more : Depot
    more = record d { blobs = b ∷ d.blobs }

    stopped : (rs : List Reply) → IsCopied d (b ∷ bs) (false, (rs, d))
    stopped rs = record { grows = λ b h. h; same = refl; stored = λ e. cc }

    onward : {p : Bool × (List Reply × Depot)} → IsCopied more bs p → IsCopied d (b ∷ bs) p
    onward h = record {
      grows = λ c k. h.grows c (Has-cons b d.blobs c k);
      same = h.same;
      stored = λ e. (h.grows b (Has-head b d.blobs), h.stored e);
    }

    go :
        (x y : Bool)
        → IsCopied more bs (copy_blobs bs (tail (tail rs)) more)
        → IsCopied d (b ∷ bs) (
            if not x
            then (false, (tail rs, d))
            else if not y
            then (false, (tail (tail rs), d))
            else copy_blobs bs (tail (tail rs)) more)
    go false y k = stopped (tail rs)
    go true false k = stopped (tail (tail rs))
    go true true k = onward k

Has-All : (blobs l : List Text) (b : Text) → All (Has blobs) l → Has l b → Has blobs b
unfolding contains_text
Has-All blobs [] b h k = cc
Has-All blobs (c ∷ l) b h k = elim (Bool-cases (text_eq c b)) [
  | inl e ↦ subst (Has blobs) (text_eq_to c b e) h.0
  | inr e ↦ Has-All blobs l b h.1 (ap (λ x. x || contains_text b l) (sym e) ∙ k)
]

put-All :
    (P : Text × Manifest → Type 0) (tag : Text) (m : Manifest) (l : List (Text × Manifest))
    → P (tag, m)
    → All P l
    → All P (put tag m l)
unfolding put
put-All P tag m [] h k = (h, tt)
put-All P tag m (e ∷ l) h k = elim (Bool-cases (text_eq e.0 tag)) [
  | inl f ↦ rw f (h, k.1)
  | inr f ↦ rw f (k.0, put-All P tag m l h k.1)
]

-- A manifest whose blobs are there, or were all copied, leaves the destination whole.
finish-IsWhole :
    (tag : Text) (m : Manifest) (d : Depot) (missing : List Text) (p : Bool × (List Reply × Depot))
    → IsCopied d missing p
    → All (Either d missing) (blobs_of m)
    → IsWhole d
    → IsWhole (finish tag m p)
unfolding finish
finish-IsWhole tag m d missing (copied, (rs, t)) h k w = go copied m.has_payload (succeeds rs) refl
  where
    grown : IsWhole t
    grown =
        subst (λ l. All (λ e. All (Has t.blobs) (blobs_of e.1)) l) (sym h.same)
          (All-map (λ e. All (Has d.blobs) (blobs_of e.1)) (λ e. All (Has t.blobs) (blobs_of e.1))
            d.manifests (λ e. All-map (Has d.blobs) (Has t.blobs) (blobs_of e.1) h.grows) w)

    stored : copied ≡ true → (b : Text) → Either d missing b → Has t.blobs b
    stored e b (inl i) = h.grows b i
    stored e b (inr i) = Has-All t.blobs missing b (h.stored e) i

    go :
        (x y z : Bool)
        → copied ≡ x
        → IsWhole (if x && y && z then record t { manifests = put tag m t.manifests } else t)
    go false y z e = grown
    go true false z e = grown
    go true true false e = grown
    go true true true e =
        put-All (λ e. All (Has t.blobs) (blobs_of e.1)) tag m t.manifests
          (All-map (Either d missing) (Has t.blobs) (blobs_of m) (stored e) k) grown

copy_image-IsWhole :
    (tag : Text) (m : Manifest) (rs : List Reply) (d : Depot)
    → IsWhole d
    → IsWhole (copy_image tag m rs d)
unfolding copy_image
copy_image-IsWhole tag m rs d w =
    let later = lacking (blobs_of m) rs d in
    finish-IsWhole tag m d later.0 (copy_blobs later.0 later.1 d)
      (copy_blobs-IsCopied later.0 later.1 d) (lacking-All (blobs_of m) rs d) w

-- `CopyRepo` keeps the destination whole: if each of its manifests has all its blobs beside it before the
-- request, this is so when the request and the copying behind it have ended, whatever the calls of
-- the database and the registry answer.
pub copy_repo-IsWhole :
    (r : CopyImage) (s : Store) (d : Depot) → IsWhole d → IsWhole (copy_repo r s d).1.1
unfolding copy_repo
copy_repo-IsWhole r s d w = go (check_copy r s)
  where
    go : (p : Out Manifest × Store) → IsWhole (then_copy r d p).1.1
    go (done m, t) = copy_image-IsWhole r.dest_tag m r.replies d w
    go (abort c, t) = w
    go (panic, t) = w
