-- ===== src/Errors.antt =====
-- Go's error values as this module uses them: the sentinels of reconcilers/reconcilers.go,
-- reconcilers/child.go and reconcilers/resourcemanager.go, and the chains that `errors.Is` walks.
use reconciler_runtime.Base.{
  ℕ, ◌≡◌, refl, Bool, true, false, ◌||◌, Option, none, some, List, String,
}

-- Package-level errors, which are compared by identity.
pub data Sentinel : Type 0 where
  err_quiet err_halt_sub_reconcilers only_reconcile_child_status : Sentinel
  patch_generation_mismatch : Sentinel

-- The reasons of `apierrs` that the code tests for; `other_reason` is any other.
pub data StatusReason : Type 0 where
  not_found already_exists invalid other_reason : StatusReason

-- `errorf format args` is `fmt.Errorf` with no `%w`, `wrapped` is one with it, `api_status` is an
-- error of the API server with its reason and `Details.Name`, where it has details.
pub data Error : Type 0 where
  sentinel : Sentinel → Error
  max_iterations : ℕ → Error
  api_status : StatusReason → Option String → Error
  errorf : String → List String → Error
  wrapped : String → Error → Error

abbrev pub same_sentinel : Sentinel → Sentinel → Bool
same_sentinel err_quiet err_quiet = true
same_sentinel err_halt_sub_reconcilers err_halt_sub_reconcilers = true
same_sentinel only_reconcile_child_status only_reconcile_child_status = true
same_sentinel patch_generation_mismatch patch_generation_mismatch = true
same_sentinel _ _ = false

-- `ErrHaltSubReconcilers` wraps `ErrQuiet`.
abbrev pub unwrap : Sentinel → Option Sentinel
unwrap err_halt_sub_reconcilers = some err_quiet
unwrap _ = none

abbrev pub unwraps_to : Option Sentinel → Sentinel → Bool
unwraps_to none target = false
unwraps_to (some s) target = same_sentinel s target

-- `errors.Is(err, target)` for a sentinel target.
unfoldable pub is_error : Error → Sentinel → Bool
is_error (sentinel s) target = same_sentinel s target || unwraps_to (unwrap s) target
is_error (wrapped _ e) target = is_error e target
is_error _ target = false

-- `errors.Is` on a possibly nil error.
abbrev pub is_error? : Option Error → Sentinel → Bool
is_error? none target = false
is_error? (some e) target = is_error e target

abbrev pub same_reason : StatusReason → StatusReason → Bool
same_reason not_found not_found = true
same_reason already_exists already_exists = true
same_reason invalid invalid = true
same_reason other_reason other_reason = true
same_reason _ _ = false

-- `apierrs.ReasonForError(err) == reason`, which looks through wrapped errors.
unfoldable pub has_reason : StatusReason → Error → Bool
has_reason r (api_status s _) = same_reason s r
has_reason r (wrapped _ e) = has_reason r e
has_reason r _ = false

-- However deep it is wrapped, a halt is quiet too.
halt-IsQuiet :
    (e : Error) → is_error e err_halt_sub_reconcilers ≡ true → is_error e err_quiet ≡ true
unfolding is_error
halt-IsQuiet (sentinel err_halt_sub_reconcilers) h = refl
halt-IsQuiet (sentinel err_quiet) h = refl
halt-IsQuiet (sentinel only_reconcile_child_status) h = h
halt-IsQuiet (sentinel patch_generation_mismatch) h = h
halt-IsQuiet (wrapped _ e) h = halt-IsQuiet e h
halt-IsQuiet (max_iterations _) h = h
halt-IsQuiet (api_status _ _) h = h
halt-IsQuiet (errorf _ _) h = h
