-- ===== src/Jobs/Lifecycle/Waiters.antt =====
-- The cases of the waiter of a job, and its second statement in each of them.
use mailclear.Base.{ℕ, ◌≡◌, refl, ◌⊎◌, inl, inr, arith}
use mailclear.Jobs.Repo.{JobStatus, update_status}
use mailclear.Jobs.Lifecycle.{Waiter, watching, writing, gone, World, write_step}

pub Waiter-cases : (v : Waiter) → (v ≡ watching) ⊎ ((s : JobStatus) × (v ≡ writing s)) ⊎ (v ≡ gone)
Waiter-cases watching = inl refl
Waiter-cases (writing s) = inr (inl (s, refl))
Waiter-cases gone = inr (inr refl)

pub write_step-writes :
    (now : ℕ) (w : World) (s : JobStatus)
    → w.waiter ≡ writing s
    → ((write_step now w).job.status ≡ s) × ((write_step now w).waiter ≡ gone)
unfolding write_step update_status
write_step-writes now w s e = ground arith

pub write_step-skips :
    (now : ℕ) (w : World) → (w.waiter ≡ watching) ⊎ (w.waiter ≡ gone) → write_step now w ≡ w
unfolding write_step
write_step-skips now w e = ground arith
