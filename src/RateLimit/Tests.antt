-- ===== src/RateLimit/Tests.antt =====
-- Runs of the limiter, and its theorem at a concrete run.
use elegance_shawls.Base.{[], arith, false, length, ltb, none, refl, select, true, ◌∷◌, ◌≡◌, ◌≤◌}
use elegance_shawls.RateLimit.Window.{Run, Run-window, counts}
use elegance_shawls.RateLimit.Limiter.{Limits, Request, handle, hit_bucket, hit_local, popleft_old}

abbrev limits : Limits
limits = record {
  events_rate_limit_per_minute = 1;
  admin_rate_limit_per_minute = 5;
  public_rate_limit_per_minute = 2;
}

abbrev event : Request
event = record {
  client = "c";
  is_events = true;
  is_search = false;
  admin_path = false;
  is_get = false;
  is_internal = true;
}

-- The internal token does not exempt an event batch, and the second batch of a minute is refused.
second_event : (handle limits none 20 event (handle limits none 10 event (λ k. [])).0).1 ≡ false
unfolding handle hit_local hit_bucket popleft_old
second_event = refl

Run-window_example :
    ((hit_bucket 10 1 []).0 ≡ select (counts 10) (10 ∷ []))
    × (length (select (counts 10) (10 ∷ [])) ≤ 1)
    × ((hit_bucket 30 1 (hit_bucket 10 1 []).0).1 ≡ ltb (length (select (counts 30) (10 ∷ []))) 1)
unfolding hit_bucket popleft_old
Run-window_example = Run-window 1 30 (Run.hit 10 (omega arith) Run.start) (omega arith)
