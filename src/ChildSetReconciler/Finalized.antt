-- ===== src/ChildSetReconciler/Finalized.antt =====
-- The known children of a set with a finalizer (reconcilers/childset.go).
use reconciler_runtime.Context.{Context}
use reconciler_runtime.ChildReconciler.Methods
