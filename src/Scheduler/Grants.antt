-- ===== src/Scheduler/Grants.antt =====
-- What one call of `Schedule` or `Release` does.
use tensor_fusion_operator.Prelude.{
  ◌≡◌, refl, inl, inr, String, lookup, insert, lookup-insert, eq_refl, true, false, List, [], ◌∷◌,
  Option, none, some, Outcome, ok, err, panicked, arith, Bool-cases, Option-cases, Any, All,
}
use tensor_fusion_operator.Quantity.{Quantity}
use tensor_fusion_operator.Api.{Resource, Gpu}
use tensor_fusion_operator.Scheduler.{
  NaiveScheduler, fits, deduct, with_available, schedule, release, restore, release_existing,
  release_available,
}

module _ {Q : Type 0} ⦃q : Quantity Q⦄ where
  -- The entry `k` of the table has `a` available and serves the request: it becomes `g`.
  pub record Grant (r : Resource Q) (g : Gpu Q) (s s' : NaiveScheduler Q) : Type 0 where
    pub key : String
    pub before : Gpu Q
    pub available : Resource Q
    pub found : lookup key s.gpus ≡ some before
    pub known : before.status.available ≡ some available
    pub enough : fits available r ≡ true
    pub result : g ≡ with_available before (deduct available r)
    pub stored : s' ≡ record { gpus = insert key g s.gpus }

  -- The entry `k` cannot serve the request: there is none, or too little is available.
  abbrev pub TooSmall : NaiveScheduler Q → Resource Q → String → Type 0
  TooSmall s r k =
      (g : Gpu Q) (a : Resource Q)
      → lookup k s.gpus ≡ some g
      → g.status.available ≡ some a
      → fits a r ≡ false

  -- How `schedule` answers.
  abbrev pub Answers :
      List String → Resource Q → NaiveScheduler Q → Outcome (Gpu Q) → NaiveScheduler Q → Type 0
  Answers order r s (ok g) s' = Grant r g s s'
  Answers order r s (err e) s' = (s' ≡ s) × All (TooSmall s r) order
  Answers order r s panicked s' =
      (s' ≡ s)
      × Any (λ k. (g : Gpu Q) × (lookup k s.gpus ≡ some g) × (g.status.available ≡ none)) order

  widen :
      (k : String) (order : List String) (r : Resource Q) (s : NaiveScheduler Q)
      (o : Outcome (Gpu Q)) (s' : NaiveScheduler Q)
      → TooSmall s r k
      → Answers order r s o s'
      → Answers (k ∷ order) r s o s'
  widen k order r s (ok g) s' h a = a
  widen k order r s (err e) s' h a = (a.0, (h, a.1))
  widen k order r s panicked s' h a = (a.0, inr a.1)

  -- Too little for the request, once the entry and what it has available are known.
  TooSmall-of_unfit :
      (k : String) (r : Resource Q) (s : NaiveScheduler Q) {g : Gpu Q} {a : Resource Q}
      → lookup k s.gpus ≡ some g
      → g.status.available ≡ some a
      → fits a r ≡ false
      → TooSmall s r k
  TooSmall-of_unfit k r s found known unfit g' a' found' known' = ground arith

  -- `Schedule`, in whatever order it visits the keys, answers in one of three ways. It returns a GPU:
  -- some entry that had enough of both amounts loses exactly the request, and no other entry changes.
  -- It returns an error and changes nothing: no visited entry that reports what it has available has
  -- enough. It panics and changes nothing: some visited entry does not report what it has available.
  pub schedule-Answers :
      (order : List String) (r : Resource Q) (s : NaiveScheduler Q)
      → Answers order r s (schedule order r s).0 (schedule order r s).1
  unfolding schedule with_available
  schedule-Answers [] r s = (refl, tt)
  schedule-Answers (k ∷ order) r s = elim (Option-cases (lookup k s.gpus)) [
    | inl absent ↦
        rw absent (widen k order r s _ _ (λ g a found known. cc) (schedule-Answers order r s))
    | inr (g, found) ↦ rw found (elim (Option-cases g.status.available) [
      | inl unknown ↦ rw unknown (refl, inl (g, found, unknown))
      | inr (a, known) ↦ rw known (elim (Bool-cases (fits a r)) [
        | inl enough ↦ rw enough (record {
          key = k;
          before = g;
          available = a;
          found = found;
          known = known;
          enough = enough;
          result = refl;
          stored = refl;
        })
        | inr unfit ↦ rw unfit (
            widen k order r s _ _ (TooSmall-of_unfit k r s found known unfit)
              (schedule-Answers order r s))
      ])
    ])
  ]

  -- `Release` found the GPU by name and gave the request back to what it had available.
  pub record Returned (r : Resource Q) (gpu g' : Gpu Q) (s s' : NaiveScheduler Q) : Type 0 where
    pub before : Gpu Q
    pub available : Resource Q
    pub found : lookup gpu.meta.name s.gpus ≡ some before
    pub known : before.status.available ≡ some available
    pub result : g' ≡ with_available gpu (restore available r)
    pub stored : s' ≡ record {
      gpus = insert gpu.meta.name (with_available before (restore available r)) s.gpus;
    }

  release_available-Returned :
      (r : Resource Q) (gpu g' before : Gpu Q) (s s' : NaiveScheduler Q) (o : Option (Resource Q))
      → lookup gpu.meta.name s.gpus ≡ some before
      → before.status.available ≡ o
      → release_available r gpu before o s ≡ (ok g', s')
      → Returned r gpu g' s s'
  unfolding release_available
  release_available-Returned r gpu g' before s s' none found known h = absurd (cc)
  release_available-Returned r gpu g' before s s' (some a) found known h = record {
    before = before;
    available = a;
    found = found;
    known = known;
    result = cc;
    stored = cc;
  }

  release_existing-Returned :
      (r : Resource Q) (gpu g' : Gpu Q) (s s' : NaiveScheduler Q) (e : Option (Gpu Q))
      → lookup gpu.meta.name s.gpus ≡ e
      → release_existing r gpu e s ≡ (ok g', s')
      → Returned r gpu g' s s'
  unfolding release_existing
  release_existing-Returned r gpu g' s s' none found h = absurd (cc)
  release_existing-Returned r gpu g' s s' (some before) found h =
      release_available-Returned r gpu g' before s s' before.status.available found refl h

  pub release-Returned :
      (r : Resource Q) (gpu g' : Gpu Q) (s s' : NaiveScheduler Q)
      → release r gpu s ≡ (ok g', s')
      → Returned r gpu g' s s'
  unfolding release
  release-Returned r gpu g' s s' h =
      release_existing-Returned r gpu g' s s' (lookup gpu.meta.name s.gpus) refl h

  -- A release for a GPU that the table knows adds the request to what its entry has available.
  pub release_known :
      (r : Resource Q) (gpu before : Gpu Q) (a : Resource Q) (s : NaiveScheduler Q)
      → lookup gpu.meta.name s.gpus ≡ some before
      → before.status.available ≡ some a
      → release r gpu s ≡ (
        ok (with_available gpu (restore a r)),
        record { gpus = insert gpu.meta.name (with_available before (restore a r)) s.gpus },
      )
  unfolding release with_available
  release_known r gpu before a s found known =
      rw (found, release_existing) (rw (known, release_available))

  pub lookup-release :
      (r : Resource Q) (gpu before : Gpu Q) (a : Resource Q) (s : NaiveScheduler Q)
      → lookup gpu.meta.name s.gpus ≡ some before
      → before.status.available ≡ some a
      → lookup gpu.meta.name (release r gpu s).1.gpus ≡ some (with_available before (restore a r))
  lookup-release r gpu before a s found known =
      rw (release_known r gpu before a s found known) (simp (lookup-insert, eq_refl))

  -- A release for a GPU that the table does not know changes nothing.
  pub release_absent :
      (r : Resource Q) (gpu : Gpu Q) (s : NaiveScheduler Q)
      → lookup gpu.meta.name s.gpus ≡ none
      → (release r gpu s).1 ≡ s
  unfolding release
  release_absent r gpu s h = rw (h, release_existing) refl

  pub release_unknown :
      (r : Resource Q) (gpu before : Gpu Q) (s : NaiveScheduler Q)
      → lookup gpu.meta.name s.gpus ≡ some before
      → before.status.available ≡ none
      → (release r gpu s).1 ≡ s
  unfolding release
  release_unknown r gpu before s h k = rw (h, release_existing) (rw (k, release_available) refl)
