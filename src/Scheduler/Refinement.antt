-- ===== src/Scheduler/Refinement.antt =====
-- The scheduler against an abstract book of integer amounts, without GPUs, order or duplicates.
use tensor_fusion_operator.Prelude.{
  String, ◌==◌, List, [], ◌∷◌, Option, none, some, Outcome, ok, err, panicked, failed, Action, Bool,
  true, false, ◌&&◌, map, inl, inr, Bool-cases, lookup, insert, erase, lookup-insert, lookup-erase,
  ◌≡◌, refl, ◌∙◌, ap, if◌then◌else◌,
}
use mathlib.Core.Path.{subst}
use tensor_fusion_operator.Prelude.Int.{ℤ, ◌+ℤ◌, ◌-ℤ◌, leb_ℤ}
use tensor_fusion_operator.Quantity.{Quantity}
use tensor_fusion_operator.Api.{Gpu, Resource}
use tensor_fusion_operator.Scheduler.{
  try_available, try_gpu, release_available, release_existing, NaiveScheduler, deduct, fits, on_add,
  on_delete, on_update, release, restore, schedule, with_available,
}

-- The calls of a scheduler.
pub data Op (Q : Type 0) : Type 0 where
  add : Gpu Q → Op Q
  update : Gpu Q → Gpu Q → Op Q
  delete : Gpu Q → Op Q
  place : List String → Resource Q → Op Q  -- `Schedule`, with the order of its loop
  give_back : Resource Q → Gpu Q → Op Q

-- What is available of a GPU, in TFLOPS and VRAM; `none` where the GPU does not report it.
abbrev pub Amounts : Type 0
Amounts = ℤ × ℤ

-- The names that are known, and what is available under each.
abbrev pub Book : Type 0
Book = String → Option (Option Amounts)

abbrev pub put : String → Option (Option Amounts) → Book → Book
put k o m j = if k == j then o else m j

abbrev pub Answer : Type 0
Answer = Outcome (Option Amounts)

-- The abstract scheduler: what each call answers, and the book that it leaves.
abbrev pub grant_if : Bool → String → Amounts → Amounts → Answer × Book → Book → Answer × Book
grant_if true k (t, v) (rt, rv) rest m =
    let left : Amounts = (t -ℤ rt, v -ℤ rv) in (ok (some left), put k (some (some left)) m)
grant_if false k (t, v) (rt, rv) rest m = rest

abbrev pub serve_entry :
    String → Option (Option Amounts) → Amounts → Answer × Book → Book → Answer × Book
serve_entry k none r rest m = rest
serve_entry k (some none) r rest m = (panicked, m)
serve_entry k (some (some (t, v))) (rt, rv) rest m =
    grant_if (leb_ℤ rt t && leb_ℤ rv v) k (t, v) (rt, rv) rest m

abbrev pub serve : List String → Amounts → Book → Answer × Book
serve [] r m = (err (failed "no suitable gpu found for request"), m)
serve (k ∷ order) r m = serve_entry k (m k) r (serve order r m) m

abbrev pub take_back_entry : String → Option (Option Amounts) → Amounts → Book → Answer × Book
take_back_entry k none r m = (err (failed "gpu not found"), m)
take_back_entry k (some none) r m = (panicked, m)
take_back_entry k (some (some (t, v))) (rt, rv) m =
    let more : Amounts = (t +ℤ rt, v +ℤ rv) in (ok (some more), put k (some (some more)) m)

-- The answer of a call that answers nothing is `none`.
abbrev answered : Answer × Book → Option Answer × Book
answered (o, m) = (some o, m)

module _ {Q : Type 0} ⦃q : Quantity Q⦄ where
  open q use {value, value-add, value-sub, cmp_lem}

  abbrev pub amounts : Resource Q → Amounts
  amounts r = (value r.tflops, value r.vram)

  -- What the book has for a GPU.
  abbrev pub available : Option (Resource Q) → Option Amounts
  available none = none
  available (some a) = some (amounts a)

  abbrev pub entry : Option (Gpu Q) → Option (Option Amounts)
  entry none = none
  entry (some g) = some (available g.status.available)

  abbrev pub spec : Op Q → Book → Option Answer × Book
  spec (add g) m = (none, put g.meta.name (entry (some g)) m)
  spec (update old g) m = (none, put g.meta.name (entry (some g)) m)
  spec (delete g) m = (none, put g.meta.name none m)
  spec (place order r) m = answered (serve order (amounts r) m)
  spec (give_back r g) m = answered (take_back_entry g.meta.name (m g.meta.name) (amounts r) m)

  abbrev kept : Outcome (Gpu Q) × NaiveScheduler Q → Option (Outcome (Gpu Q)) × NaiveScheduler Q
  kept (o, s) = (some o, s)

  unfoldable pub perform : Op Q → NaiveScheduler Q → Option (Outcome (Gpu Q)) × NaiveScheduler Q
  unfolding on_add on_update on_delete schedule release
  perform (add g) s = (none, on_add g s)
  perform (update old g) s = (none, on_update old g s)
  perform (delete g) s = (none, on_delete g s)
  perform (place order r) s = kept (schedule order r s)
  perform (give_back r g) s = kept (release r g s)

  abbrev pub Represents : NaiveScheduler Q → Book → Type 0
  Represents s m = (k : String) → entry (lookup k s.gpus) ≡ m k

  -- What an answer says of amounts.
  abbrev pub seen : Outcome (Gpu Q) → Answer
  seen (ok g) = ok (available g.status.available)
  seen (err e) = err e
  seen panicked = panicked

  abbrev pub seen_of : Option (Outcome (Gpu Q)) → Option Answer
  seen_of none = none
  seen_of (some o) = some (seen o)

  -- The same answer, and states that represent each other.
  abbrev pub Agree : Outcome (Gpu Q) × NaiveScheduler Q → Answer × Book → Type 0
  Agree x y = (seen x.0 ≡ y.0) × Represents x.1 y.1

  insert-Represents :
      (k : String) (g : Gpu Q) (o : Option (Option Amounts)) (s : NaiveScheduler Q) (m : Book)
      → entry (some g) ≡ o
      → Represents s m
      → Represents (record { gpus = insert k g s.gpus }) (put k o m)
  insert-Represents k g o s m e h j = elim (Bool-cases (k == j)) [
    | inl b ↦ ap entry (lookup-insert k j g s.gpus) ∙ rw b e
    | inr b ↦ ap entry (lookup-insert k j g s.gpus) ∙ rw b (h j)
  ]

  erase-Represents :
      (k : String) (s : NaiveScheduler Q) (m : Book)
      → Represents s m
      → Represents (record { gpus = erase k s.gpus }) (put k none m)
  erase-Represents k s m h j = elim (Bool-cases (k == j)) [
    | inl b ↦ ap entry (lookup-erase k j s.gpus) ∙ rw b refl
    | inr b ↦ ap entry (lookup-erase k j s.gpus) ∙ rw b (h j)
  ]

  fits_lem :
      (a r : Resource Q)
      → fits a r ≡ leb_ℤ (value r.tflops) (value a.tflops) && leb_ℤ (value r.vram) (value a.vram)
  unfolding fits
  fits_lem a r i = cmp_lem a.tflops r.tflops i && cmp_lem a.vram r.vram i

  amounts-deduct :
      (a r : Resource Q)
      → amounts (deduct a r) ≡ (value a.tflops -ℤ value r.tflops, value a.vram -ℤ value r.vram)
  unfolding deduct
  amounts-deduct a r i = (value-sub a.tflops r.tflops i, value-sub a.vram r.vram i)

  amounts-restore :
      (a r : Resource Q)
      → amounts (restore a r) ≡ (value a.tflops +ℤ value r.tflops, value a.vram +ℤ value r.vram)
  unfolding restore
  amounts-restore a r i = (value-add a.tflops r.tflops i, value-add a.vram r.vram i)

  module _ (s : NaiveScheduler Q) (m : Book) (h : Represents s m) where
    granted-Agree :
        (b : Bool) (k : String) (g : Gpu Q) (a r : Resource Q)
        (next : Action (NaiveScheduler Q) (Gpu Q)) (rest : Answer × Book)
        → fits a r ≡ b
        → Agree (next s) rest
        → Agree (try_available r k g (some a) next s) (grant_if b k (amounts a) (amounts r) rest m)
    unfolding try_available with_available
    granted-Agree true k g a r next rest e n =
        let left = ap some (amounts-deduct a r) in
        rw e
          (ap ok left, insert-Represents k (with_available g (deduct a r)) _ s m (ap some left) h)
    granted-Agree false k g a r next rest e n = rw e n

    try_available-Agree :
        (k : String) (g : Gpu Q) (o : Option (Resource Q)) (r : Resource Q)
        (next : Action (NaiveScheduler Q) (Gpu Q)) (rest : Answer × Book)
        → Agree (next s) rest
        → Agree
            (try_available r k g o next s)
            (serve_entry k (some (available o)) (amounts r) rest m)
    unfolding try_available
    try_available-Agree k g none r next rest n = (refl, h)
    try_available-Agree k g (some a) r next rest n =
        granted-Agree _ k g a r next rest (fits_lem a r) n

    try_gpu-Agree :
        (k : String) (o : Option (Gpu Q)) (r : Resource Q)
        (next : Action (NaiveScheduler Q) (Gpu Q)) (rest : Answer × Book)
        → Agree (next s) rest
        → Agree (try_gpu r k o next s) (serve_entry k (entry o) (amounts r) rest m)
    unfolding try_gpu
    try_gpu-Agree k none r next rest n = n
    try_gpu-Agree k (some g) r next rest n =
        try_available-Agree k g g.status.available r next rest n

    schedule-Agree :
        (order : List String) (r : Resource Q)
        → Agree (schedule order r s) (serve order (amounts r) m)
    unfolding schedule
    schedule-Agree [] r = (refl, h)
    schedule-Agree (k ∷ order) r =
        subst
          (λ (e : Option (Option Amounts)).
            Agree (try_gpu r k (lookup k s.gpus) (schedule order r) s)
              (serve_entry k e (amounts r) (serve order (amounts r) m) m))
          (h k)
          (try_gpu-Agree k (lookup k s.gpus) r (schedule order r) (serve order (amounts r) m)
            (schedule-Agree order r))

    release_available-Agree :
        (r : Resource Q) (gpu known : Gpu Q) (o : Option (Resource Q))
        → Agree
            (release_available r gpu known o s)
            (take_back_entry gpu.meta.name (some (available o)) (amounts r) m)
    unfolding release_available with_available
    release_available-Agree r gpu known none = (refl, h)
    release_available-Agree r gpu known (some a) =
        let more = ap some (amounts-restore a r) in
        (
          ap ok more,
          insert-Represents gpu.meta.name (with_available known (restore a r)) _ s m (ap some more)
              h,
        )

    release_existing-Agree :
        (r : Resource Q) (gpu : Gpu Q) (o : Option (Gpu Q))
        → Agree (release_existing r gpu o s) (take_back_entry gpu.meta.name (entry o) (amounts r) m)
    unfolding release_existing
    release_existing-Agree r gpu none = (refl, h)
    release_existing-Agree r gpu (some known) =
        release_available-Agree r gpu known known.status.available

    release-Agree :
        (r : Resource Q) (gpu : Gpu Q)
        → Agree (release r gpu s) (take_back_entry gpu.meta.name (m gpu.meta.name) (amounts r) m)
    unfolding release
    release-Agree r gpu =
        subst
          (λ (e : Option (Option Amounts)).
            Agree (release_existing r gpu (lookup gpu.meta.name s.gpus) s)
              (take_back_entry gpu.meta.name e (amounts r) m))
          (h gpu.meta.name) (release_existing-Agree r gpu (lookup gpu.meta.name s.gpus))

    perform-Agree :
        (op : Op Q)
        → (seen_of (perform op s).0 ≡ (spec op m).0) × Represents (perform op s).1 (spec op m).1
    unfolding perform on_add on_update on_delete
    perform-Agree (add g) = (refl, insert-Represents g.meta.name g _ s m refl h)
    perform-Agree (update old g) = (refl, insert-Represents g.meta.name g _ s m refl h)
    perform-Agree (delete g) = (refl, erase-Represents g.meta.name s m h)
    perform-Agree (place order r) = let (a, b) = schedule-Agree order r in (ap some a, b)
    perform-Agree (give_back r g) = let (a, b) = release-Agree r g in (ap some a, b)

  -- A run of calls and what each answers, on the table and on the book.
  unfoldable pub run :
      List (Op Q) → NaiveScheduler Q → List (Option (Outcome (Gpu Q))) × NaiveScheduler Q
  run [] s = ([], s)
  run (op ∷ ops) s = let (o, s') = perform op s in let (os, s'') = run ops s' in (o ∷ os, s'')

  unfoldable pub run_spec : List (Op Q) → Book → List (Option Answer) × Book
  run_spec [] m = ([], m)
  run_spec (op ∷ ops) m =
      let (o, m') = spec op m in let (os, m'') = run_spec ops m' in (o ∷ os, m'')

  -- The scheduler refines the book: from a table whose GPUs have the amounts that the book has, every run of
  -- calls in any order, failing and panicking ones included, answers with the amounts that the book
  -- answers with, which subtracts a grant and adds a release as integers, and the table has the
  -- amounts of the book that is left, whatever the order of its entries.
  pub run-Agree :
      (ops : List (Op Q)) (s : NaiveScheduler Q) (m : Book)
      → Represents s m
      → (map seen_of (run ops s).0 ≡ (run_spec ops m).0)
        × Represents (run ops s).1 (run_spec ops m).1
  unfolding run run_spec
  run-Agree [] s m h = (refl, h)
  run-Agree (op ∷ ops) s m h =
      let (a, b) = perform-Agree s m h op in
      let (c, d) = run-Agree ops (perform op s).1 (spec op m).1 b in (λ i. a i ∷ c i, d)
