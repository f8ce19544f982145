-- ===== src/Scheduler/Invariant.antt =====
-- The invariant of the scheduler, on a disk where every call works: only schedules that are stored
-- and enabled have an entry.
use yafe.Prelude.{ℕ, ◌≡◌, ◌⊎◌, Bool, true, false, Option, none, some, [], arith}
use yafe.Text.{Text, trim_space}
use yafe.Text.Laws.{text_eq_iff}
use yafe.Schedule.{Schedule}
use yafe.Schedule.Store.{store_exists, store_get, store_save, store_delete}
use yafe.Schedule.Store.Laws.{
  view, store_get-files, store_get-works, store_exists-works, store_exists-files, view-store_save,
  store_save-works, store_delete-works, view-store_delete,
}
use yafe.Scheduler.{Scheduler, State, on_disk, add_entry, remove_entry}
use yafe.Scheduler.Entries.{
  Linked, add_entry-Linked, remove_entry-Linked, entries-remove_entry, entries-add_entry,
  disk-add_entry, disk-remove_entry,
}

abbrev pub is_enabled : Option Schedule → Bool
is_enabled none = false
is_enabled (some s) = s.enabled

module _ {C K : Type 0} (sched : Scheduler C K) where
  abbrev pub stored : State C K → Text → Option Schedule
  stored s = view sched.store s.disk

  pub record IsConsistent (s : State C K) : Type 0 where
    pub works : s.disk.outcomes ≡ []
    pub linked : Linked sched s
    pub only_enabled :
        (name : Text) (id : ℕ) → s.entries name ≡ some id → is_enabled (stored s name) ≡ true
    pub named :
        (name : Text) (schedule : Schedule) → stored s name ≡ some schedule → schedule.name ≡ name

  -- The effect of each call that the methods are made of.
  module _ (s : State C K) (c : IsConsistent s) where
    pub get-IsConsistent :
        (name : Text) → IsConsistent (on_disk {K = K} (store_get sched.store name) s).1
    get-IsConsistent name = record {
      works = store_get-works sched.store s.disk name c.works;
      linked = record { tracked = c.linked.tracked; called = c.linked.called };
      only_enabled = λ n id h. rw (store_get-files sched.store s.disk name) (c.only_enabled n id h);
      named =
          λ n schedule h. c.named n schedule (rw (store_get-files sched.store s.disk name) at h);
    }

    pub exists-IsConsistent :
        (name : Text) → IsConsistent (on_disk {K = K} (store_exists sched.store name) s).1
    exists-IsConsistent name = record {
      works = store_exists-works sched.store s.disk name c.works;
      linked = record { tracked = c.linked.tracked; called = c.linked.called };
      only_enabled =
          λ n id h. rw (store_exists-files sched.store s.disk name) (c.only_enabled n id h);
      named =
          λ n schedule h. c.named n schedule (rw (store_exists-files sched.store s.disk name) at h);
    }

    pub remove-IsConsistent : (name : Text) → IsConsistent (remove_entry sched name s).1
    remove-IsConsistent name = record {
      works = rw (disk-remove_entry sched s name) c.works;
      linked = remove_entry-Linked sched s c.linked name;
      only_enabled = λ n id h.
          rw (disk-remove_entry sched s name)
            (ground (arith, entries-remove_entry sched s c.linked name n, c.only_enabled n id));
      named = λ n schedule h. c.named n schedule (rw (disk-remove_entry sched s name) at h);
    }

    pub save-IsConsistent :
        (schedule : Schedule)
        → (s.entries schedule.name ≡ none) ⊎ (schedule.enabled ≡ true)
        → IsConsistent (on_disk {K = K} (store_save sched.store schedule) s).1
    save-IsConsistent schedule free = record {
      works = (store_save-works sched.store s.disk schedule c.works).1;
      linked = record { tracked = c.linked.tracked; called = c.linked.called };
      only_enabled = λ n id h. ground (
        arith,
        view-store_save sched.store s.disk schedule n,
        c.only_enabled n id,
        text_eq_iff schedule.name n,
      );
      named = λ n other h. ground (
        arith,
        view-store_save sched.store s.disk schedule n,
        c.named n other,
        text_eq_iff schedule.name n,
      );
    }

    pub remove_file-IsConsistent :
        (name : Text)
        → s.entries (trim_space name) ≡ none
        → IsConsistent (on_disk {K = K} (store_delete sched.store name) s).1
    remove_file-IsConsistent name free = record {
      works = store_delete-works sched.store s.disk name c.works;
      linked = record { tracked = c.linked.tracked; called = c.linked.called };
      only_enabled = λ n id h. ground (
        arith,
        view-store_delete sched.store s.disk name n,
        c.only_enabled n id,
        text_eq_iff (trim_space name) n,
      );
      named = λ n other h. ground (
        arith,
        view-store_delete sched.store s.disk name n,
        c.named n other,
        text_eq_iff (trim_space name) n,
      );
    }

    pub add-IsConsistent :
        (schedule : Schedule)
        → s.entries schedule.name ≡ none
        → stored s schedule.name ≡ some schedule
        → schedule.enabled ≡ true
        → IsConsistent (add_entry sched schedule s).1
    add-IsConsistent schedule free there on = record {
      works = rw (disk-add_entry sched s schedule) c.works;
      linked = add_entry-Linked sched s c.linked schedule free;
      only_enabled = λ n id h. rw (disk-add_entry sched s schedule) (
          ground (
            arith,
            entries-add_entry sched s schedule n,
            c.only_enabled n id,
            text_eq_iff schedule.name n,
          ));
      named = λ n other h. c.named n other (rw (disk-add_entry sched s schedule) at h);
    }
