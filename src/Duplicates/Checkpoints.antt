-- ===== src/Duplicates/Checkpoints.antt =====
-- A run that is given no checkpoint (app/core/duplicate_items.py, app/core/engine.py).
use validador_final.Prelude.{ℕ, ◌≡◌, refl, none, ok, Result, Bool-cases, inl, inr, ◌%◌, ◌==◌}
use validador_final.Prelude.Exec.{pure}
use validador_final.Duplicates.{run_checkpoint, maybe_run_checkpoint}

pub maybe_run_checkpoint-none :
    {W E : Type 0} (offset : ℕ) (w : W)
    → ◌≡◌ {A = Result E (Unit {0}) × W} (maybe_run_checkpoint none offset w) (ok tt, w)
unfolding maybe_run_checkpoint run_checkpoint pure
maybe_run_checkpoint-none offset w = elim (Bool-cases (offset % 1000 == 0)) [
  | inl e ↦ rw e refl
  | inr e ↦ rw e refl
]
