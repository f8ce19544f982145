-- ===== src/Scheduler/Entries.antt =====
-- The map of entries and the cron runner agree: an entry of the runner calls for a schedule exactly
-- if the map has that entry for the schedule's name.
use yafe.Prelude.{ℕ, ◌≡◌, false, none, some, arith, if◌then◌else◌}
use yafe.Text.{Text, text_eq}
use yafe.Text.Laws.{text_eq_iff}
use yafe.Schedule.{Schedule}
use yafe.Scheduler.{Scheduler, State, add_entry, remove_entry}

module _ {C K : Type 0} (sched : Scheduler C K) where
  open sched.cron use {calls, calls-add_func, calls-remove_entry, add_fresh}

  pub record Linked (s : State C K) : Type 0 where
    pub tracked : (id : ℕ) (name : Text) → calls s.runner id ≡ some name → s.entries name ≡ some id
    pub called : (id : ℕ) (name : Text) → s.entries name ≡ some id → calls s.runner id ≡ some name

  module _ (s : State C K) (linked : Linked s) where
    pub add_entry-Linked :
        (schedule : Schedule)
        → s.entries schedule.name ≡ none
        → Linked (add_entry sched schedule s).1
    unfolding add_entry
    add_entry-Linked schedule free = record {
      tracked = λ id name h.
          grind (arith, text_eq_iff, calls-add_func, add_fresh, linked.tracked, linked.called);
      called = λ id name h.
          grind (arith, text_eq_iff, calls-add_func, add_fresh, linked.tracked, linked.called);
    }

    pub remove_entry-Linked : (name : Text) → Linked (remove_entry sched name s).1
    unfolding remove_entry
    remove_entry-Linked name = record {
      tracked =
          λ id n h. grind (arith, text_eq_iff, calls-remove_entry, linked.tracked, linked.called);
      called =
          λ id n h. grind (arith, text_eq_iff, calls-remove_entry, linked.tracked, linked.called);
    }

    pub entries-remove_entry :
        (name other : Text)
        → (remove_entry sched name s).1.entries other
          ≡ (if text_eq name other then none else s.entries other)
    unfolding remove_entry
    entries-remove_entry name other = grind (arith, text_eq_iff)

  module _ (s : State C K) where
    pub disk-remove_entry : (name : Text) → (remove_entry sched name s).1.disk ≡ s.disk
    unfolding remove_entry
    disk-remove_entry name = ground arith

    pub disk-add_entry : (schedule : Schedule) → (add_entry sched schedule s).1.disk ≡ s.disk
    unfolding add_entry
    disk-add_entry schedule = ground arith

    -- Only the entry of the schedule's name changes.
    pub entries-add_entry :
        (schedule : Schedule) (name : Text)
        → text_eq schedule.name name ≡ false
        → (add_entry sched schedule s).1.entries name ≡ s.entries name
    unfolding add_entry
    entries-add_entry schedule name differ = ground arith
