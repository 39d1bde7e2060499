-- ===== src/Policy.antt =====
-- crates/dash-router-policy/src/lib.rs: when the shell flushes the pending push.
use dash_router.Base.{ℕ, ◌+◌, ltb, if◌then◌else◌}

pub record PushDebouncePolicy : Type 0 where
  pub window : ℕ
  pub max_latency : ℕ

pub deadline : PushDebouncePolicy → ℕ → ℕ → ℕ
deadline p oldest latest =
    if ltb (oldest + p.max_latency) (latest + p.window)
    then oldest + p.max_latency
    else latest + p.window
