-- ===== src/Resume/FirstFit.antt =====
-- The loop over the compaction profiles (core/resumes/fit_planner.py).
use jobbot.Prelude.{
  suc, ◌≤◌, ◌≡◌, refl, sym, ap, ◌∙◌, ◌⊎◌, inl, inr, Bool, true, false, List, [], ◌∷◌, ◌++◌, Option,
  none, some, arith, All, Among, Bool-cases, Option-cases, length, ltb, if◌then◌else◌,
}
use jobbot.Text.{Text}
use jobbot.Resume.Evidence.{ResumeEvidencePackage}
use jobbot.Resume.Fit.{LayoutLimits, Target}
use jobbot.Resume.Planner.{
  Hashes, PlannedResumeArtifacts, fit_compaction_profiles, build_candidate, height_of, better,
  plan_from, plan_resume_artifacts,
}

abbrev pub Fits : PlannedResumeArtifacts → Type 0
Fits c = c.fit_diagnostics.planner_fit_passed ≡ true

abbrev pub Overflows : PlannedResumeArtifacts → Type 0
Overflows c = c.fit_diagnostics.planner_fit_passed ≡ false

chosen_by :
    (b : Bool) (t : PlannedResumeArtifacts) (later : Option PlannedResumeArtifacts)
    (c : PlannedResumeArtifacts)
    → (if b then some t else later) ≡ some c
    → ((b ≡ true) × (some t ≡ some c)) ⊎ ((b ≡ false) × (later ≡ some c))
chosen_by true t later c h = inl (refl, h)
chosen_by false t later c h = inr (refl, h)

module _ (hashes : Hashes) (evidence : ResumeEvidencePackage) (target : Target)
    (template_version : Text) (fallback_enabled : Bool) where
  -- The candidates of the first profiles, each with the labels up to its own.
  abbrev pub Candidates : List LayoutLimits → List Text → List PlannedResumeArtifacts → Type 0
  Candidates profiles labels [] = Unit
  Candidates [] labels (t ∷ tried) = ⊥
  Candidates (limits ∷ profiles) labels (t ∷ tried) =
      (build_candidate hashes evidence target template_version fallback_enabled limits
          (labels ++ limits.label ∷ [])
        ≡ some t)
      × Candidates profiles (labels ++ limits.label ∷ []) tried

  -- The last candidate is the first that fits.
  pub record EndsWithFit (tried : List PlannedResumeArtifacts) (c : PlannedResumeArtifacts)
      : Type 0 where
    pub before : List PlannedResumeArtifacts
    pub last : tried ≡ before ++ c ∷ []
    pub overflowed : All Overflows before
    pub fits : Fits c

  -- No candidate of any profile fits, and none is shorter.
  pub record IsShortest (profiles : List LayoutLimits) (tried : List PlannedResumeArtifacts)
      (c : PlannedResumeArtifacts) : Type 0 where
    pub all_tried : length tried ≡ length profiles
    pub overflowed : All Overflows tried
    pub is_one : Among c tried
    pub shortest : All (λ t. height_of c ≤ height_of t) tried

  pub record IsPlan (profiles : List LayoutLimits) (labels : List Text) (c : PlannedResumeArtifacts)
      : Type 0 where
    pub tried : List PlannedResumeArtifacts
    pub built : Candidates profiles labels tried
    pub outcome : EndsWithFit tried c ⊎ IsShortest profiles tried c

  -- With a best candidate `b` of the rounds before.
  record Shortest (profiles : List LayoutLimits) (tried : List PlannedResumeArtifacts)
      (b c : PlannedResumeArtifacts) : Type 0 where
    all_tried : length tried ≡ length profiles
    overflowed : All Overflows tried
    is_one : (c ≡ b) ⊎ Among c tried
    shortest : All (λ t. height_of c ≤ height_of t) tried
    no_worse : height_of c ≤ height_of b

  record Continued (profiles : List LayoutLimits) (labels : List Text)
      (b c : PlannedResumeArtifacts) : Type 0 where
    tried : List PlannedResumeArtifacts
    built : Candidates profiles labels tried
    outcome : EndsWithFit tried c ⊎ Shortest profiles tried b c

  abbrev candidate : LayoutLimits → List Text → Option PlannedResumeArtifacts
  candidate limits labels =
      build_candidate hashes evidence target template_version fallback_enabled limits labels

  abbrev plan :
      List LayoutLimits → List Text → Option PlannedResumeArtifacts → Option PlannedResumeArtifacts
  plan = plan_from hashes evidence target template_version fallback_enabled

  stop_here :
      (limits : LayoutLimits) (profiles : List LayoutLimits) (labels : List Text)
      (b t c : PlannedResumeArtifacts)
      → candidate limits (labels ++ limits.label ∷ []) ≡ some t
      → Fits t
      → some t ≡ some c
      → Continued (limits ∷ profiles) labels b c
  stop_here limits profiles labels b t c e f h =
      let same : t ≡ c = cc h in
      record {
        tried = c ∷ [];
        built = (rw (← same) e, tt);
        outcome = inl record { before = []; last = refl; overflowed = tt; fits = rw (← same) f };
      }

  best_of_two :
      (t b : PlannedResumeArtifacts)
      → ((better t (some b) ≡ t) ⊎ (better t (some b) ≡ b))
        × (height_of (better t (some b)) ≤ height_of t)
        × (height_of (better t (some b)) ≤ height_of b)
  best_of_two t b = elim (Bool-cases (ltb (height_of t) (height_of b))) [
    | inl e ↦ rw e (inl refl, omega arith, ground (arith, e))
    | inr e ↦ rw e (inr refl, ground (arith, e), omega arith)
  ]

  carry_on :
      (limits : LayoutLimits) (profiles : List LayoutLimits) (labels : List Text)
      (b t c : PlannedResumeArtifacts)
      → candidate limits (labels ++ limits.label ∷ []) ≡ some t
      → Overflows t
      → Continued profiles (labels ++ limits.label ∷ []) (better t (some b)) c
      → Continued (limits ∷ profiles) labels b c
  carry_on limits profiles labels b t c e over r = record {
    tried = t ∷ r.tried;
    built = (e, r.built);
    outcome = elim r.outcome [
      | inl f ↦ inl record {
        before = t ∷ f.before;
        last = ap (λ (l : List PlannedResumeArtifacts). t ∷ l) f.last;
        overflowed = (over, f.overflowed);
        fits = f.fits;
      }
      | inr s ↦ inr (extend s (best_of_two t b))
    ];
  }
    where
      extend :
          Shortest profiles r.tried (better t (some b)) c
          → ((better t (some b) ≡ t) ⊎ (better t (some b) ≡ b))
            × (height_of (better t (some b)) ≤ height_of t)
            × (height_of (better t (some b)) ≤ height_of b)
          → Shortest (limits ∷ profiles) (t ∷ r.tried) b c
      extend s (which, under_t, under_b) = record {
        all_tried = ap suc s.all_tried;
        overflowed = (over, s.overflowed);
        is_one = elim s.is_one [
          | inl same ↦ elim which [
            | inl first ↦ inr (inl (same ∙ first))
            | inr old ↦ inl (same ∙ old)
          ]
          | inr found ↦ inr (inr found)
        ];
        shortest = (omega (arith, s.no_worse, under_t), s.shortest);
        no_worse = omega (arith, s.no_worse, under_b);
      }

  continued :
      (profiles : List LayoutLimits) (labels : List Text) (b c : PlannedResumeArtifacts)
      → plan profiles labels (some b) ≡ some c
      → Continued profiles labels b c
  unfolding plan_from
  continued [] labels b c h =
      let same : b ≡ c = cc h in
      record {
        tried = [];
        built = tt;
        outcome = inr record {
          all_tried = refl;
          overflowed = tt;
          is_one = inl (sym same);
          shortest = tt;
          no_worse = rw same (omega arith);
        };
      }
  continued (limits ∷ profiles) labels b c h =
      elim (Option-cases (candidate limits (labels ++ limits.label ∷ []))) [
        | inl e ↦ cc (rw e at h)
        | inr (t, e) ↦
            elim (chosen_by t.fit_diagnostics.planner_fit_passed t
              (plan profiles (labels ++ limits.label ∷ []) (some (better t (some b)))) c
              (rw e at h)) [
                | inl (f, g) ↦ stop_here limits profiles labels b t c e f g
                | inr (f, g) ↦
                    carry_on limits profiles labels b t c e f
                      (continued profiles (labels ++ limits.label ∷ []) (better t (some b)) c g)
              ]
      ]

  from_first :
      (limits : LayoutLimits) (profiles : List LayoutLimits) (labels : List Text)
      (t c : PlannedResumeArtifacts)
      → candidate limits (labels ++ limits.label ∷ []) ≡ some t
      → Overflows t
      → Continued profiles (labels ++ limits.label ∷ []) t c
      → IsPlan (limits ∷ profiles) labels c
  from_first limits profiles labels t c e over r = record {
    tried = t ∷ r.tried;
    built = (e, r.built);
    outcome = elim r.outcome [
      | inl f ↦ inl record {
        before = t ∷ f.before;
        last = ap (λ (l : List PlannedResumeArtifacts). t ∷ l) f.last;
        overflowed = (over, f.overflowed);
        fits = f.fits;
      }
      | inr s ↦ inr record {
        all_tried = ap suc s.all_tried;
        overflowed = (over, s.overflowed);
        is_one = elim s.is_one [ inl same ↦ inl same | inr found ↦ inr found ];
        shortest = (s.no_worse, s.shortest);
      }
    ];
  }

  first_fits :
      (limits : LayoutLimits) (profiles : List LayoutLimits) (labels : List Text)
      (t c : PlannedResumeArtifacts)
      → candidate limits (labels ++ limits.label ∷ []) ≡ some t
      → Fits t
      → some t ≡ some c
      → IsPlan (limits ∷ profiles) labels c
  first_fits limits profiles labels t c e f h =
      let same : t ≡ c = cc h in
      record {
        tried = c ∷ [];
        built = (rw (← same) e, tt);
        outcome = inl record { before = []; last = refl; overflowed = tt; fits = rw (← same) f };
      }

  plan_from-IsPlan :
      (profiles : List LayoutLimits) (labels : List Text) (c : PlannedResumeArtifacts)
      → plan profiles labels none ≡ some c
      → IsPlan profiles labels c
  unfolding plan_from
  plan_from-IsPlan [] labels c h = cc h
  plan_from-IsPlan (limits ∷ profiles) labels c h =
      elim (Option-cases (candidate limits (labels ++ limits.label ∷ []))) [
        | inl e ↦ cc (rw e at h)
        | inr (t, e) ↦
            elim (chosen_by t.fit_diagnostics.planner_fit_passed t
              (plan profiles (labels ++ limits.label ∷ []) (some t)) c (rw e at h)) [
                | inl (f, g) ↦ first_fits limits profiles labels t c e f g
                | inr (f, g) ↦
                    from_first limits profiles labels t c e f
                      (continued profiles (labels ++ limits.label ∷ []) t c g)
              ]
      ]

  -- The plan is one of the candidates that are built for the compaction profiles in their order,
  -- each with the labels up to its own: either the last one tried, which fits on the page while all
  -- before it do not, or, if all twelve overflow, one that no other is shorter than.
  pub plan_resume_artifacts-IsPlan :
      (c : PlannedResumeArtifacts)
      → plan_resume_artifacts hashes evidence target template_version fallback_enabled ≡ some c
      → IsPlan fit_compaction_profiles [] c
  unfolding plan_resume_artifacts
  plan_resume_artifacts-IsPlan c h = plan_from-IsPlan fit_compaction_profiles [] c h
