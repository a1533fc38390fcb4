-- ===== src/Tests/Workers.antt =====
-- workers/trial_monitor.py and workers/booking_reminders.py on the sample market.
use ethiogram.Base.{
  ℕ, ◌+◌, ◌≤◌, ◌≡◌, refl, true, false, none, some, List, [], ◌∷◌, inl, arith, count_if,
}
use ethiogram.Models.{Db, AgentTrial, ChildAgent, Booking}
use ethiogram.Agents.{days}
use ethiogram.TrialMonitor.{Stage, stage, process_trials}
use ethiogram.TrialMonitor.Expiry.{is_off, process_trials-deactivates}
use ethiogram.Reminders.{Kind, hour}
use ethiogram.Reminders.Repeat.{Visit, sent_of_kind, unmarked, scan_and_send_once}
use ethiogram.Tests.Samples.{market_db}

abbrev trial : AgentTrial
trial = record {
  id = 70;
  agent_id = 5;
  business_id = 10;
  child_agent_id = some 71;
  expires_at = days 15;
  is_converted = false;
  converted_at = none;
  warning_sent_at = none;
  critical_sent_at = none;
  expired_notified_at = none;
}

abbrev child : ChildAgent
child = record {
  id = 71;
  agent_id = 5;
  business_id = 10;
  display_name = none;
  child_data = [];
  child_secrets = none;
  is_active = true;
  assigned_to_bot_id = none;
}

abbrev trials_db : Db
trials_db = record market_db { trials = trial ∷ []; child_agents = child ∷ [] }

-- An hour after its fourteenth day the trial of fifteen days is ended.
abbrev early : ℕ
early = days 14 + hour

ended_early : stage early trial ≡ Stage.expired
unfolding stage
ended_early = refl

process_trials-deactivates_example :
    is_off 71 (process_trials (λ b db. false) early trials_db).1 ≡ true
process_trials-deactivates_example =
    process_trials-deactivates (λ b db. false) early trials_db trial 71 (inl refl) refl
      (omega arith) refl refl

abbrev visit : Booking
visit = record {
  id = 72;
  business_id = 10;
  conversation_id = none;
  customer_platform_id = "7";
  customer_name = none;
  customer_phone = none;
  service_name = none;
  starts_at = 30 + hour;
  ends_at = 40 + hour;
  status = "confirmed";
  price = none;
  notes = none;
  source = "telegram";
  calendar_event_id = none;
  reminder_24h_sent_at = none;
  reminder_1h_sent_at = none;
}

abbrev visits_db : Db
visits_db = record market_db { bookings = visit ∷ [] }

-- Three scans, the first of which fails to send.
abbrev scans : List Visit
scans = (λ bot b kind. false, 40) ∷ (λ bot b kind. true, 50) ∷ (λ bot b kind. true, 60) ∷ []

scan_and_send_once_example :
    sent_of_kind Kind.one_hour scans visits_db ≤ count_if (unmarked Kind.one_hour) (visit ∷ [])
scan_and_send_once_example = scan_and_send_once scans visits_db Kind.one_hour
