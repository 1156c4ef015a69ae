-- ===== src/System/Keeps.antt =====
-- What a commit does to the rows.
use jobbot.Prelude.{◌≡◌, sym, subst, Bool, false, List, [], ◌∷◌, All}
use jobbot.Model.{Job}
use jobbot.Ingest.Unique.{HashesUnique}
use jobbot.Pipeline.Sweep.{All₂}
use jobbot.Pipeline.Invariant.{IsMirrored}
use jobbot.System.Rows.{
  SameHash, HashesUnique-All₂, All₂-map, Grows, Grows-map, Grows-All₂, Grows-refl, Grows-trans,
}
use jobbot.System.Changes.{Change, Change-refl, Change-trans}
use jobbot.System.Additions.{Adds}

-- The legacy status mirrors the other two in every row, and no two rows share a dedup hash.
pub record IsConsistent (jobs : List Job) : Type 0 where
  pub mirrored : All IsMirrored jobs
  pub unique : HashesUnique jobs

-- What a commit does: it keeps the two conditions, and each row in its place.
pub record Keeps (d : Bool) (before after : List Job) : Type 0 where
  pub grows : Grows (Change d) before after
  pub consistent : IsConsistent before → IsConsistent after

All-Change :
    (d : Bool) (js ks : List Job) → All₂ (Change d) js ks → All IsMirrored js → All IsMirrored ks
All-Change d [] [] p h = tt
All-Change d [] (k ∷ ks) p h = absurd p
All-Change d (j ∷ js) [] p h = absurd p
All-Change d (j ∷ js) (k ∷ ks) p h = (p.0.mirrored h.0, All-Change d js ks p.1 h.1)

pub Keeps-Change : (d : Bool) (js ks : List Job) → All₂ (Change d) js ks → Keeps d js ks
Keeps-Change d js ks p = record {
  grows = Grows-All₂ (Change d) js ks p;
  consistent = λ h. record {
    mirrored = All-Change d js ks p h.mirrored;
    unique =
        HashesUnique-All₂ js ks (All₂-map (Change d) SameHash (λ a b c. c.hash) js ks p) h.unique;
  };
}

Change-of-same : (d : Bool) (a b : Job) → b ≡ a → Change d a b
Change-of-same d a b e = subst (λ (x : Job). Change d a x) (sym e) (Change-refl d a)

pub Keeps-Adds :
    (js ks : List Job) → Adds js ks → (HashesUnique js → HashesUnique ks) → Keeps false js ks
Keeps-Adds js ks adds unique = record {
  grows = Grows-map (λ a b. b ≡ a) (Change false) (Change-of-same false) js ks adds.grows;
  consistent = λ h. record { mirrored = adds.mirrored h.mirrored; unique = unique h.unique };
}

pub Keeps-refl : (d : Bool) (js : List Job) → Keeps d js js
Keeps-refl d js = record { grows = Grows-refl (Change d) (Change-refl d) js; consistent = λ h. h }

pub Keeps-trans : (d : Bool) (js ks ls : List Job) → Keeps d js ks → Keeps d ks ls → Keeps d js ls
Keeps-trans d js ks ls p q = record {
  grows = Grows-trans (Change d) (Change-trans d) js ks ls p.grows q.grows;
  consistent = λ h. q.consistent (p.consistent h);
}
