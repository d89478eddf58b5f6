-- ===== src/Replication/Closed.antt =====
-- What the destination and the cache hold between the handlers of job/replication/transfer.go, with
-- the loop over the blobs of a manifest.
use hch.Base.{
  ◌≡◌, refl, ◌⊎◌, inl, inr, Bool, true, some, List, [], ◌∷◌, ◌++◌, Text, text_eq, text_eq_to,
  text_eq_refl, contains_text, All, Bool-cases, arith,
}
use hch.Job.State.{StateName}
use hch.Replication.World.{
  Manifest, Env, World, Ctx, Res, ok, err, panic, ⊤, remote, lookup_blob, >>=_rule,
}
use hch.Replication.Transfer.{blobs_of, check_blob, check_blobs}

-- The list holds the digest.
abbrev pub Has : List Text → Text → Type 0
Has l d = contains_text d l ≡ true

pub Has-cons : (x : Text) (l : List Text) (d : Text) → Has l d → Has (x ∷ l) d
unfolding contains_text
Has-cons x l d h = ground arith

pub Has-head : (x : Text) (l : List Text) → Has (x ∷ l) x
unfolding contains_text
Has-head x l = ground (arith, text_eq_refl x)

pub Has-left : (l k : List Text) (d : Text) → Has l d → Has (l ++ k) d
unfolding contains_text
Has-left [] k d h = cc
Has-left (x ∷ l) k d h = ground (arith, Has-left l k d)

pub Has-last : (l : List Text) (x : Text) → Has (l ++ x ∷ []) x
unfolding contains_text
Has-last [] x = ground (arith, text_eq_refl x)
Has-last (y ∷ l) x = ground (arith, Has-last l x)

-- Every manifest of the destination has all its blobs there.
abbrev pub IsClosed : World → Type 0
IsClosed w = All (λ e. All (Has w.blobs) (blobs_of e.1)) w.manifests

-- What the cache calls existing exists.
abbrev pub IsSound : List Text → List (Text × Bool) → Type 0
IsSound blobs cache = All (λ e. e.1 ≡ true → Has blobs e.0) cache

abbrev pub Inv : Ctx → Type 0
Inv c = IsClosed c.world × IsSound c.world.blobs c.base.blobs_existence

-- A blob of the manifest in hand is stored, or will be transferred.
abbrev pub Covered : Ctx → Text → Type 0
Covered c d = Has c.world.blobs d ⊎ Has c.base.blobs d

abbrev pub AllCovered : Ctx → Type 0
AllCovered c = (m : Manifest) → c.base.manifest ≡ some m → All (Covered c) (blobs_of m)

abbrev pub AllStored : Ctx → Type 0
AllStored c = (m : Manifest) → c.base.manifest ≡ some m → All (Has c.world.blobs) (blobs_of m)

-- What must hold where a handler hands over to the next state.
abbrev pub Needs : Res StateName → Ctx → Type 0
Needs (ok StateName.transfer_blob) c = AllCovered c
Needs (ok StateName.push_manifest) c = AllStored c
Needs _ c = Unit

lookup_blob-Has :
    (b : Text) (blobs : List Text) (cache : List (Text × Bool))
    → IsSound blobs cache
    → lookup_blob b cache ≡ some true
    → Has blobs b
unfolding lookup_blob
lookup_blob-Has b blobs [] s h = cc
lookup_blob-Has b blobs ((d, e) ∷ l) s h = elim (Bool-cases (text_eq d b)) [
  | inl same ↦ let q = text_eq_to d b same in rw (← q) (s.0 (ground arith))
  | inr other ↦ lookup_blob-Has b blobs l s.1 (ground arith)
]

-- What `check_blob` and `check_blobs` leave alone, and that the blobs to transfer only grow.
pub record Grows (c d : Ctx) : Type 0 where
  pub world_blobs : d.world.blobs ≡ c.world.blobs
  pub world_manifests : d.world.manifests ≡ c.world.manifests
  pub manifest : d.base.manifest ≡ c.base.manifest
  pub blobs : (x : Text) → Has c.base.blobs x → Has d.base.blobs x

Grows-refl : (c : Ctx) → Grows c c
Grows-refl c = record {
  world_blobs = refl;
  world_manifests = refl;
  manifest = refl;
  blobs = λ x h. h;
}

Grows-trans : (c d e : Ctx) → Grows c d → Grows d e → Grows c e
Grows-trans c d e g h = record {
  world_blobs = cc;
  world_manifests = cc;
  manifest = cc;
  blobs = λ x p. h.blobs x (g.blobs x p);
}

Covered-Grows : (c d : Ctx) → Grows c d → (x : Text) → Covered c x → Covered d x
Covered-Grows c d g x (inl h) = inl (rw (g.world_blobs) h)
Covered-Grows c d g x (inr h) = inr (g.blobs x h)

check_blob-Grows : (env : Env) (b : Text) (c : Ctx) → Grows c (check_blob env b c).1
unfolding check_blob remote
check_blob-Grows env b c = record {
  world_blobs = ground arith;
  world_manifests = ground arith;
  manifest = ground arith;
  blobs = λ x h. ground (arith, Has-left c.base.blobs (b ∷ []) x);
}

pub IsClosed-of_eq :
    (v w : World) → w.blobs ≡ v.blobs → w.manifests ≡ v.manifests → IsClosed v → IsClosed w
IsClosed-of_eq v w p q h = rw (q, p) h

pub check_blob_tags :
    (env : Env) (b : Text) (c : Ctx) → (check_blob env b c).1.base.tags ≡ c.base.tags
unfolding check_blob remote
check_blob_tags env b c = ground arith

check_blob_cache :
    (env : Env) (b : Text) (c : Ctx)
    → let d = (check_blob env b c).1 in
      (d.base.blobs_existence ≡ c.base.blobs_existence)
      ⊎ (d.base.blobs_existence ≡ (b, contains_text b c.world.blobs) ∷ c.base.blobs_existence)
unfolding check_blob remote
check_blob_cache env b c = ground arith

check_blob-Inv : (env : Env) (b : Text) (c : Ctx) → Inv c → Inv (check_blob env b c).1
check_blob-Inv env b c h =
    let g = check_blob-Grows env b c in
    (
      IsClosed-of_eq c.world (check_blob env b c).1.world g.world_blobs g.world_manifests h.0,
      elim (check_blob_cache env b c) [
        | inl same ↦ rw (g.world_blobs, same) h.1
        | inr new ↦ rw (g.world_blobs, new) (λ e. e, h.1)
      ],
    )

check_blob-Covered :
    (env : Env) (b : Text) (c : Ctx)
    → Inv c
    → (check_blob env b c).0 ≡ ok tt
    → Covered (check_blob env b c).1 b
unfolding check_blob remote
check_blob-Covered env b c h e =
    ground
      (arith, lookup_blob-Has b c.world.blobs c.base.blobs_existence h.1, Has-last c.base.blobs b)

-- What the loop over the blobs of a manifest achieves, by how it ends.
abbrev pub CheckPost : Ctx → List Text → Res ⊤ × Ctx → Type 0
CheckPost c bs (ok _, d) = Grows c d × Inv d × All (Covered d) bs
CheckPost c bs (_, d) = Grows c d × Inv d

pub check_blobs_lem :
    (env : Env) (bs : List Text) (c : Ctx) → Inv c → CheckPost c bs (check_blobs env bs c)
unfolding check_blobs
check_blobs_lem env [] c h = (Grows-refl c, h, tt)
check_blobs_lem env (b ∷ bs) c h =
    let d = (check_blob env b c).1 in
    let g = check_blob-Grows env b c in
    let i = check_blob-Inv env b c h in
    let rest = check_blobs_lem env bs d i in
    >>=_rule (CheckPost c (b ∷ bs)) (check_blob env b) (λ _. check_blobs env bs) c
      (λ u e. extend d (check_blobs env bs d) g (check_blob-Covered env b c h e) rest)
      (λ f e. (g, i)) (λ e. (g, i))
  where
    extend :
        (d : Ctx) (r : Res ⊤ × Ctx)
        → Grows c d
        → Covered d b
        → CheckPost d bs r
        → CheckPost c (b ∷ bs) r
    extend d (ok _, e) g v p = (Grows-trans c d e g p.0, p.1, (Covered-Grows d e p.0 b v, p.2))
    extend d (err f, e) g v p = (Grows-trans c d e g p.0, p.1)
    extend d (panic, e) g v p = (Grows-trans c d e g p.0, p.1)
