-- ===== src/ResourceReconciler/Quiet.antt =====
-- When a reconcile writes no status, and when a halt counts as success (reconcilers/resource.go).
use reconciler_runtime.Base.{
  ℕ, String, true, ◌&&◌, Option, none, some, List, ◌≡◌, refl, sym, ap, ◌∙◌, Bool-cases, inl, inr,
}
use reconciler_runtime.Errors.{Error, is_error, err_halt_sub_reconcilers}
use reconciler_runtime.Results.{Result}
use reconciler_runtime.Context.{Context, Request}
use reconciler_runtime.Exec.{Outcome, returned, continue, ◌>>=◌}
use reconciler_runtime.Flow.{Reply, SubReconciler}
use reconciler_runtime.Flow.Finalizer.{Resource, is_deleting}
use reconciler_runtime.Conditions.{Condition}
use reconciler_runtime.Conditions.Sorted.{IsDistinct}
use reconciler_runtime.Stash.{with_stash}
use reconciler_runtime.ResourceReconciler.{
  StatusFields, Status, no_status, content, struct, Body, External, found, ResourceReconciler,
  Outside, init, St, conditions, with_conditions, status, synced, sync_last_transition_time,
  reconcile_tree, finish, request_context, prepared, reconcile, no_finalizers, without_resource,
}
use reconciler_runtime.ResourceReconciler.Times.{OnlyTimes, sync-OnlyTimes}

abbrev pub SameConditions : Option (List Condition) → Option (List Condition) → Type 0
SameConditions none none = Unit
SameConditions (some ps) (some os) = OnlyTimes ps os × IsDistinct os
SameConditions none (some os) = ⊥
SameConditions (some ps) none = ⊥

-- The same but for the times of the conditions, of which the original has no type twice.
abbrev pub SameButTimes : {X : Type 0} → Status X → Status X → Type 0
SameButTimes no_status no_status = Unit
SameButTimes (content x) (content y) = x ≡ y
SameButTimes (struct f) (struct g) =
    (f.observed_generation ≡ g.observed_generation)
    × (f.others ≡ g.others)
    × SameConditions f.conditions g.conditions
SameButTimes _ _ = ⊥

struct_same :
    {X : Type 0} (f g : StatusFields X) (cs ds : Option (List Condition))
    → f.observed_generation ≡ g.observed_generation
    → f.others ≡ g.others
    → SameConditions cs ds
    → with_conditions
        (sync_last_transition_time
          (conditions (struct (record f { conditions = cs })))
          (conditions (struct (record g { conditions = ds }))))
        (struct (record f { conditions = cs }))
      ≡ struct (record g { conditions = ds })
struct_same f g none none e o h =
    λ i. struct (record { observed_generation = e i; conditions = none; others = o i })
struct_same f g (some ps) (some os) e o (t, d) = λ i.
    struct
      (record { observed_generation = e i; conditions = some (sync-OnlyTimes t d i); others = o i })
struct_same f g none (some os) e o h = absurd h
struct_same f g (some ps) none e o h = absurd h

pub synced-status :
    {X : Type 0} (s o : Status X)
    → SameButTimes s o
    → with_conditions (sync_last_transition_time (conditions s) (conditions o)) s ≡ o
synced-status no_status no_status h = refl
synced-status (content x) (content y) h = ap content h
synced-status (struct f) (struct g) (e, o, h) = struct_same f g f.conditions g.conditions e o h
synced-status no_status (content y) h = absurd h
synced-status no_status (struct g) h = absurd h
synced-status (content x) no_status h = absurd h
synced-status (content x) (struct g) h = absurd h
synced-status (struct f) no_status h = absurd h
synced-status (struct f) (content y) h = absurd h

module _ {Config V W X Y : Type 0} (ext : External Config X Y W) (default_name : String)
    (ctx : Context Config) (clock : ℕ) (req : Request) (o : Outside V W) where
  -- The parts of a reconcile that finds its resource.
  abbrev pub context_of : ResourceReconciler Config (St V W X Y) → Context Config
  context_of r = request_context (init default_name r) ctx clock req

  abbrev pub start : ResourceReconciler Config (St V W X Y) → Resource (Body X Y) → St V W X Y
  start r original = prepared ext (context_of r) original (record o { world = with_stash o.world })

  reconcile_found :
      (r : ResourceReconciler Config (St V W X Y)) (original : Resource (Body X Y))
      → ext.get r.config req o.world.cluster ≡ found original
      → reconcile ext default_name r ctx clock req o
        ≡ without_resource (
            (reconcile_tree (init default_name r) (context_of r)
                >>= finish ext (init default_name r) original)
              (start r original))
  unfolding reconcile
  reconcile_found r original h = rw (h, reconcile) refl

  finish_unchanged :
      (r : ResourceReconciler Config (St V W X Y)) (original : Resource (Body X Y)) (reply : Reply)
      (s : St V W X Y)
      → ((x : Status X) → ext.semantic_equal x x ≡ true)
      → SameButTimes (status s.resource) (status original)
      → without_resource (finish ext r original reply s)
        ≡ (returned reply, record { events = s.events; world = s.world })
  unfolding finish
  finish_unchanged r original reply s reflexive same = elim (Bool-cases r.skip_status_update) [
    | inl skip ↦ simp (skip, finish)
    | inr update ↦
        let equal : ext.semantic_equal (status (synced original s.resource)) (status original)
            ≡ true =
          rw (synced-status (status s.resource) (status original) same)
            (reflexive (status original)) in
        simp (update, equal, finish)
  ]

  -- Where the method `reconcile`, which runs the tree, leaves a status that differs from the original
  -- one only in the times of its conditions, of which the original has no type twice, `Reconcile`
  -- writes no status and records no event for one: the reply of `reconcile` is returned, and the
  -- events, the stash and the cluster are as it has left them. A status is assumed to be semantically
  -- equal to itself.
  pub reconcile_unchanged :
      (r : ResourceReconciler Config (St V W X Y)) (original : Resource (Body X Y)) (reply : Reply)
      (s : St V W X Y)
      → ((x : Status X) → ext.semantic_equal x x ≡ true)
      → ext.get r.config req o.world.cluster ≡ found original
      → reconcile_tree (init default_name r) (context_of r) (start r original) ≡ (returned reply, s)
      → SameButTimes (status s.resource) (status original)
      → reconcile ext default_name r ctx clock req o
        ≡ (returned reply, record { events = s.events; world = s.world })
  reconcile_unchanged r original reply s reflexive h run same =
      reconcile_found r original h
      ∙ rw run (finish_unchanged (init default_name r) original reply s reflexive same)

  same_tree :
      (r : ResourceReconciler Config (St V W X Y))
      (halting other : SubReconciler Config (St V W X Y)) (s0 : St V W X Y) (result : Result)
      (e : Error) (s : St V W X Y)
      → is_error e err_halt_sub_reconcilers ≡ true
      → halting.reconcile (context_of r) s0 ≡ (returned (result, some e), s)
      → other.reconcile (context_of r) s0 ≡ (returned (result, none), s)
      → reconcile_tree
          (init default_name (record r { reconciler = some halting }))
          (context_of r)
          s0
        ≡ reconcile_tree
            (init default_name (record r { reconciler = some other }))
            (context_of r)
            s0
  unfolding reconcile_tree
  same_tree r halting other s0 result e s halt run run' =
      elim (Bool-cases (is_deleting s0 && no_finalizers s0.resource.finalizers)) [
        | inl g ↦ rw (g, reconcile_tree) refl
        | inr g ↦ rw (g, reconcile_tree) (rw run (rw run' (rw halt refl)))
      ]

  -- `ErrHaltSubReconcilers`: a tree that halts, however its error wraps that, is to the whole
  -- reconcile the same as one that returns the same result, and leaves the same state, without an
  -- error.
  pub reconcile_halted :
      (r : ResourceReconciler Config (St V W X Y))
      (halting other : SubReconciler Config (St V W X Y)) (original : Resource (Body X Y))
      (result : Result) (e : Error) (s : St V W X Y)
      → ext.get r.config req o.world.cluster ≡ found original
      → is_error e err_halt_sub_reconcilers ≡ true
      → halting.reconcile (context_of r) (start r original) ≡ (returned (result, some e), s)
      → other.reconcile (context_of r) (start r original) ≡ (returned (result, none), s)
      → reconcile ext default_name (record r { reconciler = some halting }) ctx clock req o
        ≡ reconcile ext default_name (record r { reconciler = some other }) ctx clock req o
  unfolding finish
  reconcile_halted r halting other original result e s h halt run run' =
      let left = record r { reconciler = some halting } in
      let right = record r { reconciler = some other } in
      reconcile_found left original h
      ∙ ap
          (λ (run : Outcome Reply × St V W X Y).
            without_resource (continue run.0 (finish ext (init default_name left) original) run.1))
          (same_tree r halting other (start r original) result e s halt run run')
      ∙ sym (reconcile_found right original h)
