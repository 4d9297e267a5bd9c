-- ===== src/Tests/Missions.antt =====
-- The mission stores of internal/api at concrete histories.
use joinanny.Base.{ℕ, ◌≤◌, ◌≡◌, refl, true, false, none, some, List, [], ◌∷◌, arith}
use joinanny.Base.Int.{pos}
use joinanny.Base.Table.{lookup}
use joinanny.Base.Rows.{Holds}
use joinanny.Missions.Armed.{
  ArmedMissionStatus, ArmedMission, Missions, change_found, mark_triggered,
}
use joinanny.Missions.Armed.History.{
  Call, expired_call, trigger_call, confirmation_call, sweep_call, after_all, times_triggered,
}
use joinanny.Missions.Armed.Once.{EnteredAs, times_triggered-le, mark_triggered-after_all}
use joinanny.Missions.Closes.{ScheduledCloseStatus, ScheduledClose, Closes}
use joinanny.Missions.Closes.History.{
  Call as CloseCall, claim_call, done_call, activate_call, cancel_call, times_claimed,
}
use joinanny.Missions.Closes.Lease.{times_claimed-le, times_claimed-Waiting}

abbrev waiting_mission : ArmedMission
waiting_mission = record {
  id = "m";
  user_key = "tg:7";
  user_id = pos 7;
  symbol = "BTCUSDT";
  strategy = "annybasic";
  side = "";
  capital_usdt = "100";
  capital_risk_pct = pos 1;
  leverage_use_pct = pos 10;
  duration = "1h";
  duration_window_seconds = pos 3600;
  use_ai = false;
  status = ArmedMissionStatus.armed;
  arm_reason = "";
  trigger_reason = "";
  idempotency_key = "k";
  triggered_confirmation_id = "";
  armed_at = 10;
  triggered_at = none;
  expires_at = 1000;
  purge_at = none;
  created_at = 10;
  updated_at = 10;
}

abbrev one_mission : Missions
one_mission = ("m", waiting_mission) ∷ []

abbrev entries : List (ℕ × Call)
entries =
    (20, trigger_call "m" "long" "setup" "c1")
    ∷ (30, trigger_call "m" "short" "setup" "c2")
    ∷ (2000, sweep_call)
    ∷ []

abbrev later_calls : List (ℕ × Call)
later_calls =
    (30, trigger_call "m" "short" "setup" "c2")
    ∷ (40, confirmation_call "m" "c3")
    ∷ (50, expired_call "m")
    ∷ (2000, sweep_call)
    ∷ []

times_triggered-le_example : times_triggered "m" entries one_mission ≤ 1
times_triggered-le_example = times_triggered-le "m" entries one_mission (tt, (tt, (tt, tt)))

trigger_succeeds : (mark_triggered "m" "long" "setup" "c1" 20 one_mission).0 ≡ true
unfolding mark_triggered lookup change_found
trigger_succeeds = refl

mark_triggered-after_all_example :
    Holds
      (EnteredAs "c1")
      "m"
      (after_all later_calls (mark_triggered "m" "long" "setup" "c1" 20 one_mission).1)
mark_triggered-after_all_example =
    mark_triggered-after_all "m" "long" "setup" "c1" 20 later_calls one_mission refl
      trigger_succeeds (tt, (tt, (tt, (tt, tt))))

abbrev close_in : ScheduledCloseStatus → ScheduledClose
close_in status = record {
  id = "s";
  user_key = "tg:7";
  user_id = pos 7;
  symbol = "BTCUSDT";
  side = "long";
  due_at = 100;
  window_seconds = 3600;
  entry_confirmation_id = "c1";
  status = status;
  confirmation_id = "";
  reason = "";
  created_at = 10;
  updated_at = 10;
  purge_at = none;
}

abbrev pending_close : Closes
pending_close = ("s", close_in ScheduledCloseStatus.pending) ∷ []

abbrev awaiting_close : Closes
awaiting_close = ("s", close_in ScheduledCloseStatus.awaiting_entry) ∷ []

-- Two instances poll at almost the same time.
abbrev polls : List (ℕ × CloseCall)
polls = (200, claim_call "s") ∷ (210, claim_call "s") ∷ (220, done_call "s" "c9" "due") ∷ []

abbrev early_polls : List (ℕ × CloseCall)
early_polls =
    (200, claim_call "s") ∷ (210, activate_call "c2") ∷ (220, cancel_call "c1" "entry failed") ∷ []

times_claimed-le_example : times_claimed "s" polls pending_close ≤ 1
times_claimed-le_example =
    times_claimed-le "s" 200 polls pending_close
      ((omega arith, omega arith), ((omega arith, omega arith), ((omega arith, omega arith), tt)))
      (tt, (tt, (tt, tt)))

awaiting_there : lookup "s" awaiting_close ≡ some (close_in ScheduledCloseStatus.awaiting_entry)
unfolding lookup
awaiting_there = refl

times_claimed-Waiting_example : times_claimed "s" early_polls awaiting_close ≡ 0
times_claimed-Waiting_example =
    times_claimed-Waiting "s" "c1" early_polls awaiting_close
      (close_in ScheduledCloseStatus.awaiting_entry, awaiting_there, (refl, tt))
      (tt, (refl, (tt, tt))) (tt, (tt, (tt, tt)))
