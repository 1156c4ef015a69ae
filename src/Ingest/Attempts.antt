-- ===== src/Ingest/Attempts.antt =====
-- The attempts of an ingest task whose fetch may raise (apps/worker/tasks/ingest.py).
use jobbot.Prelude.{
  ℕ, zero, suc, ◌+◌, ◌≤◌, ◌<◌, ◌≡◌, ◌≢◌, ◌⊎◌, inl, inr, refl, true, [], Option, none, some, arith,
  Bool-cases, leb, leb→le, sym,
}
use jobbot.Text.{Text, strip}
use jobbot.Ingest.{ScrapeRun, Tables, Origin}
use jobbot.Ingest.Run.{Ingested, canonical_origin}
use jobbot.Ingest.Tasks.{
  Delivery, delivered, raised, SourceAdapter, Retry, retry_scheduled, max_retries_exceeded,
  exception_reraised, IsDocumented, Ending, returned, retried, raised_error, Attempt, ProviderFlags,
  provider_disabled_reason, untouched, after_failure, after_fetch, unless_disabled, unless_raised,
  normalize_error, strip_or_none, ingest_lever, run_attempts, next_attempt,
}
use jobbot.UrlProvider.{lever}

le_or_lt : (a b : ℕ) → (a ≤ b) ⊎ (b < a)
le_or_lt a b = elim (Bool-cases (leb a b)) [
  | inl e ↦ inl (leb→le a b e)
  | inr e ↦ inr (ground (arith, e))
]

-- The fetch raised, and self.retry scheduled another attempt.
pub record IsRetried (delivery : Delivery) (retry : Retry) : Type 0 where
  pub error : Text
  pub raises : delivery ≡ raised error
  pub scheduled : retry ≡ retry_scheduled

-- An attempt that asks for another one has written nothing.
pub record IsClean (again : Type 0) (run : Option ScrapeRun) (tables : Tables) (a : Attempt)
    : Type 0 where
  pub nothing : a.ingested ≡ untouched run tables
  pub because : again

-- self.retry schedules no attempt once the retries are used up.
pub record StopsAtLimit (max_retries : ℕ) (retry : ℕ → Retry) : Type 0 where
  pub stops : (n : ℕ) → max_retries ≤ n → retry n ≢ retry_scheduled

-- The attempts that begin with the number `first` come to the attempt `number`, made on the run
-- and the tables that the first one was given, after attempts that were retried.
pub record IsOneAttempt (first max : ℕ) (attempt : ℕ → Option ScrapeRun → Tables → Attempt)
    (again : ℕ → Type 0) (run : Option ScrapeRun) (tables : Tables) (out : Attempt) : Type 0 where
  pub number : ℕ
  pub at_least : first ≤ number
  pub at_most : number ≤ max
  pub before : (k : ℕ) → first ≤ k → k < number → again k
  pub is_it : out ≡ attempt number run tables
  pub ends : out.ending ≢ retried

ending_cases : (o : Ending) → (o ≡ retried) ⊎ (o ≢ retried)
ending_cases retried = inl refl
ending_cases returned = inr (λ e. cc e)
ending_cases (raised_error x) = inr (λ e. cc e)

next_attempt-last :
    (o : Ending) (last next : Attempt) → o ≢ retried → next_attempt o last next ≡ last
next_attempt-last retried last next h = absurd (h refl)
next_attempt-last returned last next h = refl
next_attempt-last (raised_error e) last next h = refl

module _ (attempt : ℕ → Option ScrapeRun → Tables → Attempt) (max : ℕ) (again : ℕ → Type 0)
    (clean : (n : ℕ) (run : Option ScrapeRun) (tables : Tables)
      → (attempt n run tables).ending ≡ retried
      → IsClean (again n) run tables (attempt n run tables))
    (last : (n : ℕ) (run : Option ScrapeRun) (tables : Tables)
      → max ≤ n
      → (attempt n run tables).ending ≢ retried) where
  retried_below :
      (n : ℕ) (run : Option ScrapeRun) (tables : Tables)
      → (attempt n run tables).ending ≡ retried
      → n < max
  retried_below n run tables e = elim (le_or_lt max n) [
    | inl h ↦ absurd (last n run tables h e)
    | inr h ↦ h
  ]

  this_attempt :
      (n : ℕ) (run : Option ScrapeRun) (tables : Tables) (next : Attempt)
      → n ≤ max
      → (attempt n run tables).ending ≢ retried
      → IsOneAttempt n max attempt again run tables
          (next_attempt (attempt n run tables).ending (attempt n run tables) next)
  this_attempt n run tables next le h =
      rw (next_attempt-last (attempt n run tables).ending (attempt n run tables) next h) (record {
        number = n;
        at_least = omega arith;
        at_most = le;
        before = λ k l u. absurd (omega (arith, l, u));
        is_it = refl;
        ends = h;
      })

  same : (n k : ℕ) → n ≡ k → again n → again k
  same n k e here = rw (sym e) here

  one_before :
      (n : ℕ) (run : Option ScrapeRun) (tables : Tables) (out : Attempt)
      → again n
      → IsOneAttempt (suc n) max attempt again run tables out
      → IsOneAttempt n max attempt again run tables out
  one_before n run tables out here rest = record {
    number = rest.number;
    at_least = omega (arith, rest.at_least);
    at_most = rest.at_most;
    before = λ k l u. elim (le_or_lt k n) [
      | inl h ↦ same n k (omega (arith, h, l)) here
      | inr h ↦ rest.before k (omega (arith, h)) u
    ];
    is_it = rest.is_it;
    ends = rest.ends;
  }

  attempts-IsOneAttempt :
      (fuel n : ℕ) (run : Option ScrapeRun) (tables : Tables)
      → n ≤ max
      → max < fuel + n
      → IsOneAttempt n max attempt again run tables (run_attempts attempt fuel n run tables)
  unfolding run_attempts
  attempts-IsOneAttempt zero n run tables le enough = absurd (omega (arith, le, enough))
  attempts-IsOneAttempt (suc fuel) n run tables le enough =
      elim (ending_cases (attempt n run tables).ending) [
        | inl e ↦
            let it = clean n run tables e in
            rw (e, it.nothing)
              (one_before n run tables _ it.because (
                attempts-IsOneAttempt fuel (suc n) run tables
                  (omega (arith, retried_below n run tables e)) (omega (arith, enough))))
        | inr h ↦ this_attempt n run tables _ le h
      ]

module _ (run : Option ScrapeRun) (tables : Tables) (now : ℕ) (r : Retry) where
  after_failure-IsClean :
      (d : Delivery) (e : Text)
      → d ≡ raised e
      → (after_failure r e now run tables).ending ≡ retried
      → IsClean (IsRetried d r) run tables (after_failure r e now run tables)
  after_failure-IsClean d e raises h = scheduled r h
    where
      scheduled :
          (q : Retry)
          → (after_failure q e now run tables).ending ≡ retried
          → IsClean (IsRetried d q) run tables (after_failure q e now run tables)
      scheduled retry_scheduled h = record {
        nothing = refl;
        because = record { error = e; raises = raises; scheduled = refl };
      }
      scheduled max_retries_exceeded h = absurd (cc h)
      scheduled exception_reraised h = absurd (cc h)

  unless_raised-ends :
      (o : Option Text) (out : Ingested) → (unless_raised o out run tables).ending ≢ retried
  unless_raised-ends none out = λ e. cc e
  unless_raised-ends (some x) out = λ e. cc e

  module _ (sha256 : Text → Text) (uuid : ℕ → ℕ) (origin : Origin) (adapter : SourceAdapter) where
    after_fetch-IsClean :
        (d : Delivery)
        → (after_fetch sha256 uuid origin adapter d r now run tables).ending ≡ retried
        → IsClean
            (IsRetried d r)
            run
            tables
            (after_fetch sha256 uuid origin adapter d r now run tables)
    after_fetch-IsClean (delivered result) h =
        absurd (unless_raised-ends (normalize_error adapter result) _ h)
    after_fetch-IsClean (raised e) h = after_failure-IsClean (raised e) e refl h

    unless_disabled-IsClean :
        (reason : Option Text)
        → (unless_disabled sha256 uuid reason origin adapter r now run tables).ending ≡ retried
        → IsClean
            (IsRetried adapter.fetch_raw_jobs r)
            run
            tables
            (unless_disabled sha256 uuid reason origin adapter r now run tables)
    unless_disabled-IsClean (some reason) h = absurd (cc h)
    unless_disabled-IsClean none h = after_fetch-IsClean adapter.fetch_raw_jobs h

-- An attempt number `n` of the Lever task, at the time `now n`.
abbrev pub lever_attempt :
    (sha256 : Text → Text) (uuid : ℕ → ℕ)
    → ProviderFlags
    → (create : ℕ → Text → Option Text → SourceAdapter) → (client_name company_name : Text)
    → (retry : ℕ → Retry) → (now : ℕ → ℕ) → (retries : ℕ) → Option ScrapeRun
    → Tables
    → Attempt
lever_attempt sha256 uuid flags create client_name company_name retry now n =
    ingest_lever sha256 uuid flags (create n) client_name company_name (retry n) (now n)

-- What the attempts leave when every fetch raises: nothing is written.
abbrev pub stuck : Text → Option ScrapeRun → Tables → Attempt
stuck error run tables = record { ingested = untouched run tables; ending = raised_error error }

-- The last attempt raises the error of its own fetch.
attempts_stuck :
    (attempt : ℕ → Option ScrapeRun → Tables → Attempt) (max : ℕ) (retry : ℕ → Retry)
    (error : ℕ → Text) (now : ℕ → ℕ)
    → IsDocumented max retry
    → ((n : ℕ) (run : Option ScrapeRun) (tables : Tables)
        → attempt n run tables ≡ after_failure (retry n) (error n) (now n) run tables)
    → (left n : ℕ) (run : Option ScrapeRun) (tables : Tables) → n + left ≡ max
    → run_attempts attempt (suc left) n run tables ≡ stuck (error max) run tables
unfolding run_attempts
attempts_stuck attempt max retry error now doc raises zero n run tables e =
    let here : n ≡ max = omega (arith, e) in
    let limit : retry n ≡ exception_reraised = doc.at_limit n (omega (arith, e)) in
    rw (raises n run tables, limit, here) refl
attempts_stuck attempt max retry error now doc raises (suc left) n run tables e =
    let again : retry n ≡ retry_scheduled = doc.below n (omega (arith, e)) in
    rw (raises n run tables, again)
      (attempts_stuck attempt max retry error now doc raises left (suc n) run tables
        (omega (arith, e)))

module _ (sha256 : Text → Text) (uuid : ℕ → ℕ) (flags : ProviderFlags)
    (create : ℕ → Text → Option Text → SourceAdapter) (client_name company_name : Text)
    (retry : ℕ → Retry) (now : ℕ → ℕ) where
  -- The connector that an attempt makes.
  abbrev connector : ℕ → SourceAdapter
  connector n = create n (strip client_name) (strip_or_none company_name)

  lever_attempt-IsClean :
      (n : ℕ) (run : Option ScrapeRun) (tables : Tables)
      → (lever_attempt sha256 uuid flags create client_name company_name retry now n run
          tables).ending
        ≡ retried
      → IsClean
          (IsRetried (connector n).fetch_raw_jobs (retry n))
          run
          tables
          (lever_attempt sha256 uuid flags create client_name company_name retry now n run tables)
  unfolding ingest_lever
  lever_attempt-IsClean n run tables =
      unless_disabled-IsClean run tables (now n) (retry n) sha256 uuid
        (canonical_origin "lever" none []) (connector n) (provider_disabled_reason flags lever)

  -- If self.retry schedules no attempt once the retries are used up, then the attempts of the Lever
  -- task come to an end, and together they are the last of them, numbered at most with the retries,
  -- made on the run and the tables as they were before the first one; in every attempt before it
  -- the fetch raised and self.retry scheduled the next one.
  pub lever_attempts-IsOneAttempt :
      (max_retries : ℕ) (run : Option ScrapeRun) (tables : Tables)
      → StopsAtLimit max_retries retry
      → IsOneAttempt 0 max_retries
          (lever_attempt sha256 uuid flags create client_name company_name retry now)
          (λ n.
            IsRetried
              (create n (strip client_name) (strip_or_none company_name)).fetch_raw_jobs
              (retry n))
          run
          tables
          (run_attempts
            (lever_attempt sha256 uuid flags create client_name company_name retry now)
            (suc max_retries)
            0
            run
            tables)
  lever_attempts-IsOneAttempt max_retries run tables limit =
      attempts-IsOneAttempt
        (lever_attempt sha256 uuid flags create client_name company_name retry now) max_retries
        (λ n. IsRetried (connector n).fetch_raw_jobs (retry n)) lever_attempt-IsClean
        (λ n r t h e. limit.stops n h (lever_attempt-IsClean n r t e).because.scheduled)
        (suc max_retries) 0 run tables (omega arith) (omega arith)

  lever_raises :
      (error : ℕ → Text)
      → flags.lever_enabled ≡ true
      → ((n : ℕ) (client : Text) (company : Option Text)
          → (create n client company).fetch_raw_jobs ≡ raised (error n))
      → (n : ℕ) (run : Option ScrapeRun) (tables : Tables)
      → lever_attempt sha256 uuid flags create client_name company_name retry now n run tables
        ≡ after_failure (retry n) (error n) (now n) run tables
  unfolding ingest_lever provider_disabled_reason
  lever_raises error enabled raises n run tables =
      rw (enabled, raises n (strip client_name) (strip_or_none company_name)) refl

  -- If the Lever fetch raises in every attempt and self.retry raises the given exception again at
  -- the limit, as Celery documents, then the last attempt ends with that exception and the row of
  -- the run is as it was when the run was created.
  pub lever_attempts-stuck :
      (max_retries : ℕ) (error : ℕ → Text) (run : Option ScrapeRun) (tables : Tables)
      → IsDocumented max_retries retry
      → flags.lever_enabled ≡ true
      → ((n : ℕ) (client : Text) (company : Option Text)
          → (create n client company).fetch_raw_jobs ≡ raised (error n))
      → run_attempts
          (lever_attempt sha256 uuid flags create client_name company_name retry now)
          (suc max_retries)
          0
          run
          tables
        ≡ stuck (error max_retries) run tables
  lever_attempts-stuck max_retries error run tables doc enabled raises =
      attempts_stuck (lever_attempt sha256 uuid flags create client_name company_name retry now)
        max_retries retry error now doc (lever_raises error enabled raises) max_retries 0 run tables
        (omega arith)
