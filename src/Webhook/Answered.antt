-- ===== src/Webhook/Answered.antt =====
-- What an admission webhook answers (reconcilers/webhook.go).
use reconciler_runtime.Base.{
  ℕ, String, Bool, true, false, not, ◌&&◌, Option, none, some, ◌≡◌, refl, ap, ◌∙◌, if◌then◌else◌,
}
use reconciler_runtime.Errors.{Error}
use reconciler_runtime.Results.{Result}
use reconciler_runtime.Context.{Context}
use reconciler_runtime.Exec.{Or, ok, returned, call, bind_returned}
use reconciler_runtime.Flow.{Reply, SubReconciler}
use reconciler_runtime.Flow.Finalizer.{Resource}
use reconciler_runtime.Webhook.{
  AdmissionRequest, StatusResult, Response, Around, External, AdmissionWebhookAdapter, Held,
  resource_bytes, defaulted, handle_context, start, after_tree, with_patch, patched, without_patch,
  response_of, or_allowed, answered, answer, refused, handle, stash_admission_response,
}

module _ {Bytes Patches Config B W : Type 0} (ext : External Bytes Patches B)
    (default_name : String) (r : AdmissionWebhookAdapter Config (Held Bytes Patches B W))
    (nested : SubReconciler Config (Held Bytes Patches B W)) (ctx : Context Config) (clock : ℕ)
    (req : AdmissionRequest Bytes) (o : Around Bytes Patches W) (parsed : Resource B)
    (has_reconciler : r.reconciler ≡ some nested)
    (unmarshals : ext.unmarshal (resource_bytes req) ≡ ok parsed) where
  -- The run of the reconciler on the resource of the request, which its type has defaulted.
  abbrev pub Runs : Reply → Held Bytes Patches B W → Type 0
  Runs reply s =
      nested.reconcile (handle_context ctx clock req) (start req (defaulted ext parsed) o)
      ≡ (returned reply, s)

  abbrev pub around : Held Bytes Patches B W → Around Bytes Patches W
  around s = record { events = s.events; world = s.world }

  handle-Runs :
      (reply : Reply) (s : Held Bytes Patches B W)
      → Runs reply s
      → handle ext default_name r ctx clock req o
        ≡ answer req.uid (after_tree ext req (defaulted ext parsed) reply s)
  unfolding handle
  handle-Runs reply s run =
      rw (unmarshals, handle)
        (ap (answer req.uid) (
          bind_returned (call r.reconciler (λ n. n.reconcile (handle_context ctx clock req)))
            (after_tree ext req (defaulted ext parsed)) (start req (defaulted ext parsed) o) s reply
            (ap
                (λ x.
                  call x (λ n. n.reconcile (handle_context ctx clock req))
                    (start req (defaulted ext parsed) o))
                has_reconciler
              ∙ run)))

  -- When the reconciler returns an error, whichever it is, a halt too, the request is not allowed,
  -- and the answer has the result that the reconciler has set, or else one of code 500 for the
  -- error. It has the patches that the reconciler has set, and no others.
  pub handle_refused :
      (result : Result) (e : Error) (s : Held Bytes Patches B W) (resp : Response Bytes Patches)
      → Runs (result, some e) s
      → s.world.admission_response ≡ some resp
      → (resp' : Response Bytes Patches) × (handle ext default_name r ctx clock req o
          ≡ (returned resp', around s))
        × (resp'.allowed ≡ false)
        × (resp.result ≡ none → resp'.result ≡ some (record { code = 500; message = e }))
        × ((old : StatusResult) → resp.result ≡ some old → resp'.result ≡ some old)
        × (resp'.patches ≡ resp.patches)
  handle_refused result e s resp run has_response = (
    refused e resp,
    handle-Runs (result, some e) s run
        ∙ ap (λ x. (returned (refused e (or_allowed req.uid x)), around s)) has_response,
    refl,
    (λ h. rw h refl),
    (λ old h. rw h refl),
    refl,
  )

  abbrev patched_with : Resource B → Response Bytes Patches → Option Error × Response Bytes Patches
  patched_with resource resp =
      with_patch ext (resource_bytes req) (defaulted ext parsed) resource resp

  answered_by :
      (result : Result) (s : Held Bytes Patches B W) (resp : Response Bytes Patches)
      → patched_with s.resource (response_of req.uid s.world) ≡ (none, resp)
      → answer req.uid (after_tree ext req (defaulted ext parsed) (result, none) s) ≡ (
        returned resp,
        record { events = s.events; world = record s.world { admission_response = some resp } },
      )
  answered_by result s resp e =
      ap
        (λ (x : Option Error × Response Bytes Patches). (
          returned (answered req.uid (stash_admission_response x.1 s.world) x.0),
          around (record s { world = stash_admission_response x.1 s.world }),
        ))
        e

  response_is :
      (s : Held Bytes Patches B W) (resp : Response Bytes Patches)
      → s.world.admission_response ≡ some resp
      → patched_with s.resource (response_of req.uid s.world) ≡ patched_with s.resource resp
  response_is s resp e = ap (λ x. patched_with s.resource (or_allowed req.uid x)) e

  kept :
      (resp : Response Bytes Patches) (resource : Resource B)
      → ext.semantic_equal (defaulted ext parsed) resource ≡ true
      → patched_with resource resp ≡ (none, resp)
  kept resp resource same =
      ap
        (λ b.
          if without_patch resp && not b
          then patched ext (resource_bytes req) resource resp
          else (none, resp))
        same
      ∙ ap (λ b. if b then patched ext (resource_bytes req) resource resp else (none, resp))
          (and_false (without_patch resp))
    where
      and_false : (b : Bool) → (b && false) ≡ false
      and_false true = refl
      and_false false = refl

  given :
      (resp : Response Bytes Patches) (resource : Resource B) (mutation : Bytes) (patch : Patches)
      → without_patch resp ≡ true
      → ext.semantic_equal (defaulted ext parsed) resource ≡ false
      → ext.marshal resource ≡ ok mutation
      → ext.create_patch (resource_bytes req) mutation ≡ ok patch
      → patched_with resource resp ≡ (none, record resp { patches = some patch })
  given resp resource mutation patch bare changed encoded created =
      ap
        (λ b.
          if b && not (ext.semantic_equal (defaulted ext parsed) resource)
          then patched ext (resource_bytes req) resource resp
          else (none, resp))
        bare
      ∙ ap (λ b. if not b then patched ext (resource_bytes req) resource resp else (none, resp))
          changed
      ∙ rw (encoded, patched) (rw created refl)

  -- When the reconciler returns no error and leaves the resource semantically as it was, the answer is
  -- the response as the reconciler has left it.
  handle_unchanged :
      (result : Result) (s : Held Bytes Patches B W) (resp : Response Bytes Patches)
      → Runs (result, none) s
      → s.world.admission_response ≡ some resp
      → ext.semantic_equal (defaulted ext parsed) s.resource ≡ true
      → (handle ext default_name r ctx clock req o).0 ≡ returned resp
  handle_unchanged result s resp run has_response same =
      ap (λ x. x.0)
        (handle-Runs (result, none) s run
          ∙ answered_by result s resp (response_is s resp has_response ∙ kept resp s.resource same))

  -- When the reconciler returns no error, has changed the resource and set no patch, and JSON can say
  -- so, then the answer is the response as the reconciler has left it with a patch, and applying that
  -- to the object of the request gives the resource as the reconciler has left it. Assumed are what
  -- a JSON patch is for, and that the resource survives its encoding.
  pub handle_patches :
      (apply_patch : Bytes → Patches → Or Bytes)
      → ((a b : Bytes) (p : Patches) → ext.create_patch a b ≡ ok p → apply_patch a p ≡ ok b)
      → (result : Result) (s : Held Bytes Patches B W) (resp : Response Bytes Patches)
        (mutation : Bytes) (patch : Patches)
      → Runs (result, none) s
      → s.world.admission_response ≡ some resp
      → without_patch resp ≡ true
      → ext.semantic_equal (defaulted ext parsed) s.resource ≡ false
      → ext.marshal s.resource ≡ ok mutation
      → ext.unmarshal mutation ≡ ok s.resource
      → ext.create_patch (resource_bytes req) mutation ≡ ok patch
      → (p : Patches) × (bytes : Bytes) × (handle ext default_name r ctx clock req o ≡ (
        returned (record resp { patches = some p }),
        record {
          events = s.events;
          world = record s.world { admission_response = some (record resp { patches = some p }) };
        },
      ))
        × (apply_patch (resource_bytes req) p ≡ ok bytes)
        × (ext.unmarshal bytes ≡ ok s.resource)
  handle_patches apply_patch patches result s resp mutation patch run has_response bare changed
        encoded decoded created =
      (
        patch,
        mutation,
        handle-Runs (result, none) s run
            ∙ answered_by result s (record resp { patches = some patch })
                (response_is s resp has_response
                  ∙ given resp s.resource mutation patch bare changed encoded created),
        patches (resource_bytes req) mutation patch created,
        decoded,
      )
