-- ===== src/Api/Runnable.antt =====
-- What a launched source adapter run finds when a worker takes its message (apps/api/routes/jobs.py,
-- apps/worker/tasks/discovery.py).
use mathlib.Core.Option.{some-injective}
use jobbot.Prelude.{ℕ, ◌≡◌, refl, Bool, false, not, ◌&&◌, Option, none, some, inl, inr, Bool-cases}
use jobbot.Text.{Text}
use jobbot.Policies.{SourcePolicy, get_source_policy}
use jobbot.Registry.{Adapter}
use jobbot.Discovery.{
  Settings, skip_reason, source_disabled_reason, backend_disabled_reason, is_bb_browser,
}
use jobbot.Discovery.Tasks.{or_25}
use jobbot.Api.{ok}
use jobbot.Api.Launch.{SourceAdapterRunBody, Launched}
use jobbot.Api.Adapters.{
  LaunchCheck, reason, factory_raised, adapter_reason, source_adapter, source_family_for_policy,
  flag_reason, created_reason, enabled_reason, adapter_launch_reason, checked_launch, known_launch,
  task_for, run_source_adapter,
}

pub record IsRunnable (settings : Settings) (bb_browser_enabled : Bool)
    (body : SourceAdapterRunBody) (l : Launched) : Type 0 where
  pub policy : SourcePolicy
  pub known : get_source_policy body.source_name ≡ some policy
  pub adapter : Adapter
  pub registered : source_adapter body.source_name ≡ some adapter
  pub supported : adapter_reason adapter ≡ reason none
  pub unskipped : skip_reason settings bb_browser_enabled body.source_name ≡ none
  pub task :
      l.task
      ≡ task_for
          (source_family_for_policy body.source_name policy.source_kind)
          body.source_name
          (or_25 body.max_results)

module _ (settings : Settings) (bb_browser_enabled : Bool) (run_id : ℕ)
    (body : SourceAdapterRunBody) where
  unskipped_by :
      (policy : SourcePolicy)
      → get_source_policy body.source_name ≡ some policy
      → flag_reason settings policy ≡ none
      → (is_bb_browser policy.backend_preference && not bb_browser_enabled) ≡ false
      → skip_reason settings bb_browser_enabled body.source_name ≡ none
  unfolding skip_reason source_disabled_reason backend_disabled_reason
  unskipped_by policy known on ready =
      rw (known, on)
        (elim (Bool-cases (is_bb_browser policy.backend_preference)) [
          | inl b ↦ elim (Bool-cases bb_browser_enabled) [
            | inl e ↦ rw (b, e) refl
            | inr e ↦ cc (rw (b, e) at ready)
          ]
          | inr b ↦ rw b refl
        ])

  launched_reason :
      (policy : SourcePolicy) (check : Option LaunchCheck) (l : Launched)
      → checked_launch settings run_id body policy check ≡ ok l
      → (check ≡ some (reason none))
        × (l.task
            ≡ task_for
                (source_family_for_policy body.source_name policy.source_kind)
                body.source_name
                (or_25 body.max_results))
  launched_reason policy none l h = cc h
  launched_reason policy (some factory_raised) l h = cc h
  launched_reason policy (some (reason (some r))) l h = cc h
  launched_reason policy (some (reason none)) l h = (refl, cc h)

  created :
      (o : Option Adapter)
      → created_reason o ≡ some (reason none)
      → (a : Adapter) × (o ≡ some a) × (adapter_reason a ≡ reason none)
  created none h = cc h
  created (some a) h = (a, refl, some-injective _ _ h)

  launchable :
      (policy : SourcePolicy) (flag : Option Text) (o : Option Adapter)
      → enabled_reason bb_browser_enabled policy flag o ≡ some (reason none)
      → (flag ≡ none)
        × ((is_bb_browser policy.backend_preference && not bb_browser_enabled) ≡ false)
        × (created_reason o ≡ some (reason none))
  launchable policy (some r) o h = cc h
  launchable policy none o h =
      elim (Bool-cases (is_bb_browser policy.backend_preference && not bb_browser_enabled)) [
        | inl e ↦ cc (rw e at h)
        | inr e ↦ (refl, e, rw e at h)
      ]

  known_launch-IsRunnable :
      (o : Option SourcePolicy) (l : Launched)
      → get_source_policy body.source_name ≡ o
      → known_launch settings bb_browser_enabled run_id body o ≡ ok l
      → IsRunnable settings bb_browser_enabled body l
  unfolding adapter_launch_reason
  known_launch-IsRunnable none l known h = cc h
  known_launch-IsRunnable (some policy) l known h =
      let (check, task) = launched_reason policy _ l h in
      let (on, ready, made) = launchable policy _ _ check in
      let (adapter, registered, supported) = created (source_adapter body.source_name) made in
      record {
        policy = policy;
        known = known;
        adapter = adapter;
        registered = registered;
        supported = supported;
        unskipped = unskipped_by policy known on ready;
        task = task;
      }

  -- If a request launches a run of a source adapter, then the source has a policy and a registered
  -- adapter that is supported, a worker with the same settings does not skip the run, and the task
  -- that is enqueued is that of the source family, with at most the requested number of records, or
  -- 25.
  pub run_source_adapter-IsRunnable :
      (l : Launched)
      → run_source_adapter settings bb_browser_enabled run_id body ≡ ok l
      → IsRunnable settings bb_browser_enabled body l
  unfolding run_source_adapter
  run_source_adapter-IsRunnable l h =
      known_launch-IsRunnable (get_source_policy body.source_name) l refl h
