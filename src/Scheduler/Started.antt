-- ===== src/Scheduler/Started.antt =====
-- The scheduler from its start on: what `Start` makes of the stored schedules, and what holds after any
-- calls behind it.
use yafe.Prelude.{
  ℕ, ◌≡◌, ◌≢◌, refl, ◌↔◌, inl, inr, Bool, true, false, none, some, List, [], ◌∷◌, arith, All, In,
  All-map, Option-cases, sym, ap, ◌∙◌, if◌then◌else◌,
}
use yafe.Text.{Text}
use yafe.Text.Laws.{text_eq_iff}
use yafe.Result.{ok}
use yafe.Disk.{FilePath, working, names_in}
use yafe.Schedule.{Schedule}
use yafe.Schedule.Store.Laws.{view}
use yafe.Schedule.Store.Listed.{
  IsDistinct, IsApart, all_listed, all_listed-stored, all_listed-IsApart, In-all_listed,
  store_list-listed,
}
use yafe.Scheduler.{Scheduler, State, add_entry, cron_spec}
use yafe.Scheduler.Cycle.{start_entries, start}
use yafe.Scheduler.Entries.{disk-add_entry, entries-add_entry}
use yafe.Scheduler.Invariant.{is_enabled, stored, IsConsistent, add-IsConsistent}
use yafe.Scheduler.Running.{has_entry, is_covered, IsRunning}
use yafe.Scheduler.Reached.{Reached, entries-Reached, enabled-Reached}

both : {A : Type 0} (P Q : A → Type 0) (xs : List A) → All P xs → All Q xs → All (λ x. P x × Q x) xs
both P Q [] h k = tt
both P Q (x ∷ xs) h k = ((h.0, k.0), both P Q xs h.1 k.1)

module _ {C K : Type 0} (sched : Scheduler C K) where
  -- What the loop does with a schedule and a state before it goes on.
  abbrev started_one : Schedule → State C K → State C K
  started_one schedule s = if schedule.enabled then (add_entry sched schedule s).1 else s

  start_entries-step :
      (schedule : Schedule) (schedules : List Schedule) (s : State C K)
      → start_entries sched (schedule ∷ schedules) s
        ≡ start_entries sched schedules (started_one schedule s)
  unfolding start_entries
  start_entries-step schedule schedules s = ground arith

  started_one-disk : (schedule : Schedule) (s : State C K) → (started_one schedule s).disk ≡ s.disk
  started_one-disk schedule s = ground (arith, disk-add_entry sched s schedule)

  started_one-entries :
      (schedule : Schedule) (s : State C K) (name : Text)
      → schedule.name ≢ name
      → (started_one schedule s).entries name ≡ s.entries name
  started_one-entries schedule s name h =
      ground (arith, entries-add_entry sched s schedule name, text_eq_iff schedule.name name)

  started_one-has_entry :
      (schedule : Schedule) (s : State C K) (name : Text)
      → has_entry (s.entries name) ≡ true
      → has_entry ((started_one schedule s).entries name) ≡ true
  unfolding add_entry
  started_one-has_entry schedule s name h = ground arith

  started_one_itself :
      (schedule : Schedule) (s : State C K)
      → schedule.enabled ≡ true
      → sched.cron.parses (cron_spec schedule) ≡ true
      → has_entry ((started_one schedule s).entries schedule.name) ≡ true
  unfolding add_entry
  started_one_itself schedule s on parses = ground (arith, text_eq_iff schedule.name schedule.name)

  either :
      (P : State C K → Type 0) (b : Bool) (s u : State C K)
      → (b ≡ true → P s)
      → (b ≡ false → P u)
      → P (if b then s else u)
  either P true s u h k = h refl
  either P false s u h k = k refl

  started_one-IsConsistent :
      (schedule : Schedule) (s : State C K)
      → IsConsistent sched s
      → stored sched s schedule.name ≡ some schedule
      → s.entries schedule.name ≡ none
      → IsConsistent sched (started_one schedule s)
  started_one-IsConsistent schedule s c there free =
      either (IsConsistent sched) schedule.enabled (add_entry sched schedule s).1 s
        (add-IsConsistent sched s c schedule free there) (λ off. c)

  start_entries-IsConsistent :
      (schedules : List Schedule) (s : State C K)
      → IsConsistent sched s
      → All (λ t. stored sched s t.name ≡ some t) schedules
      → All (λ t. s.entries t.name ≡ none) schedules
      → IsApart schedules
      → IsConsistent sched (start_entries sched schedules s).1
  unfolding start_entries
  start_entries-IsConsistent [] s c there free apart = c
  start_entries-IsConsistent (t ∷ ts) s c there free apart =
      let one = started_one t s in
      rw (start_entries-step t ts s) (
        start_entries-IsConsistent ts one (started_one-IsConsistent t s c there.0 free.0)
          (rw (started_one-disk t s) there.1)
          (All-map (λ u h. started_one-entries t s u.name h.0 ∙ h.1) ts
            (both (λ u. t.name ≢ u.name) (λ u. s.entries u.name ≡ none) ts apart.0 free.1))
          apart.1)

  start_entries-disk :
      (schedules : List Schedule) (s : State C K)
      → (start_entries sched schedules s).1.disk ≡ s.disk
  unfolding start_entries
  start_entries-disk [] s = refl
  start_entries-disk (t ∷ ts) s =
      ap (λ r. r.1.disk) (start_entries-step t ts s)
      ∙ start_entries-disk ts (started_one t s)
      ∙ started_one-disk t s

  start_entries-has_entry :
      (schedules : List Schedule) (s : State C K) (name : Text)
      → has_entry (s.entries name) ≡ true
      → has_entry ((start_entries sched schedules s).1.entries name) ≡ true
  unfolding start_entries
  start_entries-has_entry [] s name h = h
  start_entries-has_entry (t ∷ ts) s name h =
      rw (start_entries-step t ts s)
        (start_entries-has_entry ts (started_one t s) name (started_one-has_entry t s name h))

  start_entries_cover :
      (schedules : List Schedule) (s : State C K) (schedule : Schedule)
      → In schedule schedules
      → schedule.enabled ≡ true
      → sched.cron.parses (cron_spec schedule) ≡ true
      → has_entry ((start_entries sched schedules s).1.entries schedule.name) ≡ true
  unfolding start_entries
  start_entries_cover [] s schedule m on parses = absurd m
  start_entries_cover (t ∷ ts) s schedule (inl e) on parses = rw (start_entries-step t ts s) (
      start_entries-has_entry ts (started_one t s) schedule.name
        (rw (sym e) (started_one_itself schedule s on parses)))
  start_entries_cover (t ∷ ts) s schedule (inr m) on parses =
      rw (start_entries-step t ts s) (start_entries_cover ts (started_one t s) schedule m on parses)

  start_entries_ok :
      (schedules : List Schedule) (s : State C K) → (start_entries sched schedules s).0 ≡ ok tt
  unfolding start_entries
  start_entries_ok [] s = refl
  start_entries_ok (t ∷ ts) s =
      ap (λ r. r.0) (start_entries-step t ts s) ∙ start_entries_ok ts (started_one t s)

  module _ (files : List (FilePath × C)) (runner : K) where
    -- `New`: the runner has no entries, and the map is empty.
    abbrev pub new : State C K
    new = record { disk = working files; runner = runner; entries = λ name. none }

    start_is_loop :
        (named : (n : Text) (t : Schedule)
          → view sched.store (working files) n ≡ some t
          → t.name ≡ n)
        → start sched new ≡ start_entries sched (all_listed sched.store files named) new
    unfolding start
    start_is_loop named = ground (arith, store_list-listed sched.store files)

    module _ (no_calls : (id : ℕ) → sched.cron.calls runner id ≡ none)
        (named : (n : Text) (t : Schedule)
          → view sched.store (working files) n ≡ some t
          → t.name ≡ n)
        (distinct : IsDistinct (names_in sched.store.dir files))
        (parsed : (n : Text) (t : Schedule)
          → view sched.store (working files) n ≡ some t
          → sched.cron.parses (cron_spec t) ≡ true) where
      abbrev all : List Schedule
      all = all_listed sched.store files named

      new-IsConsistent : IsConsistent sched new
      new-IsConsistent = record {
        works = refl;
        linked = record {
          tracked = λ id name h. absurd (ground (arith, no_calls id));
          called = λ id name h. ground arith;
        };
        only_enabled = λ name id h. ground arith;
        named = named;
      }

      start-IsConsistent : IsConsistent sched (start sched new).1
      start-IsConsistent = rw (start_is_loop named) (
          start_entries-IsConsistent all new new-IsConsistent
            (all_listed-stored sched.store files named)
            (All-map (λ t h. refl) all (all_listed-stored sched.store files named))
            (all_listed-IsApart sched.store files named distinct))

      covered :
          (name : Text)
          → is_covered sched (stored sched new name) ((start_entries sched all new).1.entries name)
            ≡ true
      covered name = elim (Option-cases (stored sched new name)) [
        | inl e ↦ ground (arith, e)
        | inr (t, e) ↦ ground (
          arith,
          e,
          parsed name t e,
          named name t e,
          start_entries_cover all new t (In-all_listed sched.store files named name t e),
        )
      ]

      start-IsRunning : IsRunning sched (start sched new).1
      start-IsRunning = record {
        covered = λ name. rw (start_is_loop named) (rw (start_entries-disk all new) (covered name));
      }

      -- A scheduler whose runner has no entries starts, on a disk where every call works, that holds no
      -- path twice, and whose schedules are in the files of their names and parse. Then `Start` makes
      -- no error; and whatever calls are made behind it whose names have no space around them, the
      -- runner has an entry for a name exactly if a schedule of that name is stored and enabled, and it
      -- never has two.
      pub started_runs :
          (s : State C K)
          → Reached sched (start sched new).1 s
          → (name : Text)
          → ((start sched new).0 ≡ ok tt)
            × (((id : ℕ) × (sched.cron.calls s.runner id ≡ some name))
                ↔ (is_enabled (stored sched s name) ≡ true))
            × ((id other : ℕ)
                → sched.cron.calls s.runner id ≡ some name
                → sched.cron.calls s.runner other ≡ some name
                → other ≡ id)
      started_runs s reached name =
          let entry = entries-Reached sched (start sched new).1 s start-IsConsistent reached in
          (
            ap (λ r. r.0) (start_is_loop named) ∙ start_entries_ok all new,
            (
              λ (id, h). (entry id name h).2,
              λ on. elim (Option-cases (stored sched s name)) [
                | inl e ↦ absurd (ground (arith, e))
                | inr (t, e) ↦
                    enabled-Reached sched (start sched new).1 s start-IsConsistent start-IsRunning
                      reached name t e (ground (arith, e))
              ],
            ),
            λ id other h k. (entry id name h).1 other k,
          )
