-- ===== src/Workspace/Elapsed.antt =====
-- frontend/src/ui.ts: the parts of an elapsed time.
use federated_iot_platform.Prelude.{ℕ, ◌+◌, ◌*◌, ◌<◌, ◌≡◌, arith}
use federated_iot_platform.Workspace.{hours_of, minutes_of, seconds_of}

-- The minutes and seconds are below sixty, and the parts add up to the whole time.
elapsed-parts :
    (total : ℕ)
    → (hours_of total * 3600 + minutes_of total * 60 + seconds_of total ≡ total)
      × (minutes_of total < 60)
      × (seconds_of total < 60)
unfolding hours_of minutes_of seconds_of
elapsed-parts total = (omega arith, omega arith, omega arith)
