-- ===== src/Flow/Finalizer/Patching.antt =====
-- Setting and clearing one finalizer (reconcilers/finalizer.go).
use reconciler_runtime.Base.{
  String, Bool, true, false, Option, none, some, List, [], ◌∷◌, ◌==◌, ◌≡◌, refl, sym, ◌∙◌, arith,
  ap, Bool-cases, Option-cases, inl, inr, ◌⊎◌,
}
use reconciler_runtime.Errors.{Error, is_error, err_quiet}
use reconciler_runtime.Context.{Context}
use reconciler_runtime.Exec.{Outcome, returned}
use reconciler_runtime.Flow.Finalizer.{
  External, Resource, State, PatchReply, ensure_finalizer, desired_finalizers, same_bool,
  record_failure, after_patch,
}

pub failure_keeps_resource :
    {B W : Type 0} (reason : String) (args : List String) (e : Error) (s : State B W)
    → (record_failure reason args e s).resource ≡ s.resource
failure_keeps_resource reason args e s = elim (Bool-cases (is_error e err_quiet)) [
  | inl q ↦ rw q refl
  | inr q ↦ rw q refl
]

module _ {Config B W : Type 0} (ext : External Config B W) where
  -- The helpers put a finalizer into the list, and take it out.
  pub record AreLists : Type 0 where
    pub added :
        (fs : List String) (f : String) → ext.contains_finalizer (ext.add_finalizer fs f) f ≡ true
    pub removed :
        (fs : List String) (f : String)
        → ext.contains_finalizer (ext.remove_finalizer fs f) f ≡ false

  -- A patch that succeeds answers with the finalizers that were sent.
  abbrev pub AnswersWithDesired : Type 0
  AnswersWithDesired =
      (c : Config) (current desired : Resource B) (w : W)
      → (ext.patch c current desired w).error ≡ none
      → (ext.patch c current desired w).patched.finalizers ≡ desired.finalizers

  -- The answer of the patch that sets the finalizer or clears it.
  abbrev pub patch_reply : Config → String → Bool → State B W → PatchReply B W
  patch_reply config f add s =
      ext.patch config s.resource
        (record s.resource { finalizers = desired_finalizers ext add s.resource.finalizers f })
        s.world

  -- What a call has done, by the error of the patch: that error is returned and the resource left,
  -- or the finalizer is where it should be; in both cases the body and the deletion timestamp are
  -- as they were.
  abbrev pub EnsuredBy :
      Option Error → String → Bool → State B W → Outcome (Option Error) × State B W → Type 0
  EnsuredBy error f add s (o, t) =
      ((o ≡ returned none) × (ext.contains_finalizer t.resource.finalizers f ≡ add)
        ⊎ ((e : Error) × (error ≡ some e) × (o ≡ returned (some e)) × (t.resource ≡ s.resource)))
      × (t.resource.body ≡ s.resource.body)
      × (t.resource.deletion_timestamp ≡ s.resource.deletion_timestamp)

  abbrev pub Ensured :
      Config → String → Bool → State B W → Outcome (Option Error) × State B W → Type 0
  Ensured config f add s run = EnsuredBy (patch_reply config f add s).error f add s run

  same_bool_eq : (a b : Bool) → same_bool a b ≡ true → a ≡ b
  same_bool_eq true b h = sym h
  same_bool_eq false true h = absurd (ground arith)
  same_bool_eq false false h = refl

  has_desired :
      AreLists
      → (add : Bool) (fs : List String) (f : String)
      → ext.contains_finalizer (desired_finalizers ext add fs f) f ≡ add
  has_desired lists true fs f = lists.added fs f
  has_desired lists false fs f = lists.removed fs f

  after_patch-Ensured :
      (f : String) (add : Bool) (s : State B W) (reply : PatchReply B W) (fs : List String)
      → (reply.error ≡ none → reply.patched.finalizers ≡ fs)
      → ext.contains_finalizer fs f ≡ add
      → EnsuredBy reply.error f add s (after_patch ext f s reply)
  after_patch-Ensured f add s reply fs answer has = elim (Option-cases reply.error) [
    | inl ok ↦
        rw (ok, after_patch)
          (
            inl (refl, ap (λ (x : List String). ext.contains_finalizer x f) (answer ok) ∙ has),
            refl,
            refl,
          )
    | inr (e, failed) ↦
        let kept =
          failure_keeps_resource "FinalizerPatchFailed" (f ∷ []) e
            (record s { world = reply.after }) in
        rw (failed, after_patch)
          (
            inr (e, refl, refl, kept),
            ap (λ (x : Resource B). x.body) kept,
            ap (λ (x : Resource B). x.deletion_timestamp) kept,
          )
  ]

  -- With a finalizer that is not empty, the original config on the context, helpers that put a
  -- finalizer into the list and take it out, and a patch that answers with the finalizers it is
  -- sent, setting or clearing it returns the error of the patch and leaves the resource, or returns
  -- no error and the resource then has the finalizer, or has it no more; the body and the deletion
  -- timestamp never change.
  pub ensure_finalizer-Ensured :
      AreLists
      → AnswersWithDesired
      → (ctx : Context Config) (config : Config) (f : String) (add : Bool) (s : State B W)
      → ctx.original_config ≡ some config
      → (f == "") ≡ false
      → Ensured config f add s (ensure_finalizer ext ctx f add s)
  unfolding ensure_finalizer
  ensure_finalizer-Ensured lists answers ctx config f add s has_config named =
      elim (Bool-cases (same_bool (ext.contains_finalizer s.resource.finalizers f) add)) [
        | inl same ↦
            rw (named, ensure_finalizer) (rw same (inl (refl, same_bool_eq _ _ same), refl, refl))
        | inr different ↦
            rw (named, ensure_finalizer)
              (rw different (
                rw has_config (
                  after_patch-Ensured f add s (patch_reply config f add s)
                    (desired_finalizers ext add s.resource.finalizers f)
                    (answers config s.resource
                      (record s.resource {
                        finalizers = desired_finalizers ext add s.resource.finalizers f;
                      })
                      s.world)
                    (has_desired lists add s.resource.finalizers f))))
      ]
