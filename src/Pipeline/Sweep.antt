-- ===== src/Pipeline/Sweep.antt =====
-- What the four tasks share: the query by ids and status, and the loop over the rows that it finds.
-- The rows come in the order of the table.
use jobbot.Prelude.{
  ℕ, suc, ◌≡◌, refl, ◌⊎◌, inl, inr, ap, Bool, true, false, ◌&&◌, List, [], ◌∷◌, arith, mem, All,
  Among, if◌then◌else◌, Bool-cases, length, ◌+◌,
}
use jobbot.Status.{PipelineStatus, status_eq}
use jobbot.Model.{Job, JobAnalysis}

pub record Db : Type 0 where
  pub jobs : List Job
  pub analyses : List JobAnalysis

-- What a task is called with: nothing, a list of ids, or the dict of the task before it.
pub data TaskInput : Type 0 where
  nothing : TaskInput
  ids : List ℕ → TaskInput
  chain_output : (job_ids : List ℕ) → TaskInput

-- `if ids:` — no ids and an empty list of ids both leave the query without a condition on the id.
unfoldable pub chosen : TaskInput → ℕ → Bool
chosen nothing id = true
chosen (ids []) id = true
chosen (ids (i ∷ rest)) id = mem id (i ∷ rest)
chosen (chain_output []) id = true
chosen (chain_output (i ∷ rest)) id = mem id (i ∷ rest)

-- select(Job).where(Job.id.in_(ids), Job.pipeline_status == status)
unfoldable pub targeted : TaskInput → PipelineStatus → Job → Bool
unfolding chosen status_eq
targeted input status job = status_eq job.pipeline_status status && chosen input job.id

-- What one round of a loop leaves: the row, the analyses, and whether the job is reported.
pub record Visit : Type 0 where
  pub row : Job
  pub analyses : List JobAnalysis
  pub reported : Bool

pub record Swept : Type 0 where
  pub rows : List Job
  pub analyses : List JobAnalysis
  pub visited : ℕ
  pub unreported : ℕ
  pub job_ids : List ℕ

abbrev pub report : Bool → ℕ → List ℕ → List ℕ
report true id rest = id ∷ rest
report false id rest = rest

module _ (selects : Job → Bool) (body : Job → List JobAnalysis → Visit) where
  -- `for job in jobs: …` over the selected rows.
  unfoldable pub sweep : List Job → List JobAnalysis → Swept
  sweep [] table = record { rows = []; analyses = table; visited = 0; unreported = 0; job_ids = [] }
  sweep (j ∷ js) table = elim (selects j) [
    | true ↦
        let v = body j table in
        let rest = sweep js v.analyses in
        record {
          rows = v.row ∷ rest.rows;
          analyses = rest.analyses;
          visited = suc rest.visited;
          unreported = if v.reported then rest.unreported else suc rest.unreported;
          job_ids = report v.reported j.id rest.job_ids;
        }
    | false ↦
        let rest = sweep js table in
        record {
          rows = j ∷ rest.rows;
          analyses = rest.analyses;
          visited = rest.visited;
          unreported = rest.unreported;
          job_ids = rest.job_ids;
        }
  ]

-- Row by row.
abbrev pub All₂ : (Job → Job → Type 0) → List Job → List Job → Type 0
All₂ R [] [] = Unit
All₂ R (a ∷ rest) (b ∷ bs) = R a b × All₂ R rest bs
All₂ R _ _ = ⊥

counted :
    (b : Bool) (id : ℕ) (u v : ℕ) (is : List ℕ)
    → u + length is ≡ v
    → (if b then u else suc u) + length (report b id is) ≡ suc v
counted true id u v is h = omega arith
counted false id u v is h = omega arith

module _ (selects : Job → Bool) (body : Job → List JobAnalysis → Visit) where
  -- What a visit does to a selected row, and what holds of the rows that are left alone.
  pub sweep-All₂ :
      (R : Job → Job → Type 0)
      → ((j : Job) → R j j)
      → ((j : Job) (table : List JobAnalysis) → selects j ≡ true → R j (body j table).row)
      → (rows : List Job) (table : List JobAnalysis)
      → All₂ R rows (sweep selects body rows table).rows
  unfolding sweep
  sweep-All₂ R same step [] table = tt
  sweep-All₂ R same step (j ∷ js) table = elim (Bool-cases (selects j)) [
    | inl e ↦ rw (e, sweep) (step j table e, sweep-All₂ R same step js (body j table).analyses)
    | inr e ↦ rw (e, sweep) (same j, sweep-All₂ R same step js table)
  ]

  pub sweep-All :
      (P : Job → Type 0)
      → ((j : Job) → selects j ≡ false → P j)
      → ((j : Job) (table : List JobAnalysis) → selects j ≡ true → P (body j table).row)
      → (rows : List Job) (table : List JobAnalysis) → All P (sweep selects body rows table).rows
  unfolding sweep
  sweep-All P passed visited [] table = tt
  sweep-All P passed visited (j ∷ js) table = elim (Bool-cases (selects j)) [
    | inl e ↦
        rw (e, sweep) (visited j table e, sweep-All P passed visited js (body j table).analyses)
    | inr e ↦ rw (e, sweep) (passed j e, sweep-All P passed visited js table)
  ]

  -- Every visited job is reported or counted as unreported.
  pub sweep_counts :
      (rows : List Job) (table : List JobAnalysis)
      → let run = sweep selects body rows table in run.unreported + length run.job_ids ≡ run.visited
  unfolding sweep
  sweep_counts [] table = refl
  sweep_counts (j ∷ js) table = elim (Bool-cases (selects j)) [
    | inl e ↦
        rw (e, sweep)
          (counted (body j table).reported j.id _ _ _ (sweep_counts js (body j table).analyses))
    | inr e ↦ rw (e, sweep) (sweep_counts js table)
  ]

  -- A row that a second sweep would leave as it is.
  abbrev pub Settled : Job → Type 0
  Settled j =
      (selects j ≡ false)
      ⊎ ((table : List JobAnalysis)
          → body j table ≡ record { row = j; analyses = table; reported = false })

  pub sweep-Settled :
      (rows : List Job) (table : List JobAnalysis)
      → All Settled rows
      → ((sweep selects body rows table).rows ≡ rows)
        × ((sweep selects body rows table).analyses ≡ table)
        × ((sweep selects body rows table).job_ids ≡ [])
  unfolding sweep
  sweep-Settled [] table h = (refl, refl, refl)
  sweep-Settled (j ∷ js) table (inl e, h) =
      let (rows, analyses, none_left) = sweep-Settled js table h in
      rw (e, sweep) (ap (λ (r : List Job). j ∷ r) rows, analyses, none_left)
  sweep-Settled (j ∷ js) table (inr e, h) =
      let (rows, analyses, none_left) = sweep-Settled js table h in
      elim (Bool-cases (selects j)) [
        | inl chosen ↦
            rw (chosen, sweep, e table) (ap (λ (r : List Job). j ∷ r) rows, analyses, none_left)
        | inr passed ↦ rw (passed, sweep) (ap (λ (r : List Job). j ∷ r) rows, analyses, none_left)
      ]

mem_here : (a : ℕ) (xs : List ℕ) → mem a (a ∷ xs) ≡ true
mem_here a xs = ground arith

mem-report : (b : Bool) (i a : ℕ) (xs : List ℕ) → mem a xs ≡ true → mem a (report b i xs) ≡ true
mem-report b i a xs h = ground arith

All-report :
    (Q : ℕ → Type 0) (b : Bool) (i : ℕ) (xs : List ℕ) → Q i → All Q xs → All Q (report b i xs)
All-report Q true i xs q h = (q, h)
All-report Q false i xs q h = h

-- The row of a visit, with the table that the visit found.
pub record IsVisit (body : Job → List JobAnalysis → Visit) (j b : Job) : Type 0 where
  pub table : List JobAnalysis
  pub same : b ≡ (body j table).row

module _ (selects : Job → Bool) (body : Job → List JobAnalysis → Visit) where
  -- A row that is not selected is there as before.
  pub sweep_passes :
      (k : Job) (rows : List Job) (table : List JobAnalysis)
      → selects k ≡ false
      → Among k rows
      → Among k (sweep selects body rows table).rows
  unfolding sweep
  sweep_passes k (j ∷ js) table e (inr h) = elim (Bool-cases (selects j)) [
    | inl c ↦ rw (c, sweep) (inr (sweep_passes k js (body j table).analyses e h))
    | inr c ↦ rw (c, sweep) (inr (sweep_passes k js table e h))
  ]
  sweep_passes k (j ∷ js) table e (inl h) =
      let c : selects j ≡ false = rw h at e in rw (c, sweep) (inl h)
  sweep_passes k [] table e h = h

  reports_head :
      (j : Job) (js : List Job) (table : List JobAnalysis)
      → selects j ≡ true
      → (body j table).reported ≡ true
      → (b : Job) × IsVisit body j b
        × Among b (sweep selects body (j ∷ js) table).rows
        × (mem j.id (sweep selects body (j ∷ js) table).job_ids ≡ true)
  unfolding sweep
  reports_head j js table e r =
      rw (e, sweep)
        (rw r
          ((body j table).row, record { table = table; same = refl }, inl refl, mem_here j.id _))

  -- A selected row that every visit reports is there as a visit left it, and its id is reported.
  pub sweep_reports :
      (k : Job) (rows : List Job) (table : List JobAnalysis)
      → selects k ≡ true
      → ((t : List JobAnalysis) → (body k t).reported ≡ true)
      → Among k rows
      → (b : Job) × IsVisit body k b
        × Among b (sweep selects body rows table).rows
        × (mem k.id (sweep selects body rows table).job_ids ≡ true)
  unfolding sweep
  sweep_reports k [] table e r h = absurd h
  sweep_reports k (j ∷ js) table e r (inl h) =
      rw h (reports_head j js table (rw h at e) (rw h at (r table)))
  sweep_reports k (j ∷ js) table e r (inr h) = elim (Bool-cases (selects j)) [
    | inl c ↦
        let (b, v, found, listed) = sweep_reports k js (body j table).analyses e r h in
        rw (c, sweep) (b, v, inr found, mem-report (body j table).reported j.id k.id _ listed)
    | inr c ↦
        let (b, v, found, listed) = sweep_reports k js table e r h in
        rw (c, sweep) (b, v, inr found, listed)
  ]

  -- What holds of the id of every selected row holds of every reported id.
  pub sweep-All_ids :
      (Q : ℕ → Type 0)
      → ((j : Job) → selects j ≡ true → Q j.id)
      → (rows : List Job) (table : List JobAnalysis) → All Q (sweep selects body rows table).job_ids
  unfolding sweep
  sweep-All_ids Q q [] table = tt
  sweep-All_ids Q q (j ∷ js) table = elim (Bool-cases (selects j)) [
    | inl c ↦
        rw (c, sweep)
          (All-report Q (body j table).reported j.id _ (q j c)
            (sweep-All_ids Q q js (body j table).analyses))
    | inr c ↦ rw (c, sweep) (sweep-All_ids Q q js table)
  ]
