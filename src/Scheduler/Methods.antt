-- ===== src/Scheduler/Methods.antt =====
-- The methods of the scheduler keep its invariant.
use yafe.Prelude.{ℕ, ◌≡◌, inl, inr, Bool, true, false, none, some, arith, refl, Bool-cases}
use yafe.Text.{Text, trim_space}
use yafe.Text.Laws.{text_eq_refl}
use yafe.Result.{ok, Result-cases}
use yafe.Exec.{◌>>◌, pure, choose}
use yafe.Schedule.{Schedule}
use yafe.Schedule.Store.{store_exists, store_get, store_save}
use yafe.Schedule.Store.Laws.{store_get_ok, store_exists-false, store_get-files, view-store_save}
use yafe.Scheduler.{
  Scheduler, State, on_disk, add_entry, remove_entry, validate, create, update, delete, enable,
  disable, preserving,
}
use yafe.Scheduler.Entries.{entries-remove_entry}
use yafe.Scheduler.Invariant.{
  stored, IsConsistent, get-IsConsistent, exists-IsConsistent, remove-IsConsistent,
  save-IsConsistent, remove_file-IsConsistent, add-IsConsistent,
}

module _ {C K : Type 0} (sched : Scheduler C K) where
  pub delete-IsConsistent :
      (name : Text) (s : State C K)
      → trim_space name ≡ name
      → IsConsistent sched s
      → IsConsistent sched (delete sched name s).1
  unfolding delete
  delete-IsConsistent name s trimmed c =
      let removed = remove-IsConsistent sched s c name in
      let after = remove_file-IsConsistent sched (remove_entry sched name s).1 removed name (
        ground
          (arith, trimmed, entries-remove_entry sched s c.linked name name, text_eq_refl name)) in
      ground arith

  -- What `Get` returned is stored, also on the state that it left.
  got-stored :
      (name : Text) (schedule : Schedule) (s : State C K)
      → trim_space name ≡ name
      → IsConsistent sched s
      → (on_disk {K = K} (store_get sched.store name) s).0 ≡ ok schedule
      → (schedule.name ≡ name)
        × (stored sched (on_disk {K = K} (store_get sched.store name) s).1 name ≡ some schedule)
  got-stored name schedule s trimmed c h =
      let found = store_get_ok sched.store s.disk name h in
      (
        c.named name schedule (rw trimmed at found),
        rw (store_get-files sched.store s.disk name) (rw trimmed at found),
      )

  pub disable-IsConsistent :
      (name : Text) (s : State C K)
      → trim_space name ≡ name
      → IsConsistent sched s
      → IsConsistent sched (disable sched name s).1
  unfolding disable
  disable-IsConsistent name s trimmed c =
      let got = get-IsConsistent sched s c name in
      let s1 = (on_disk {K = K} (store_get sched.store name) s).1 in
      let removed = remove-IsConsistent sched s1 got name in
      let s2 = (remove_entry sched name s1).1 in
      elim (Result-cases (on_disk {K = K} (store_get sched.store name) s).0) [
        | inl (schedule, h) ↦
            let named = (got-stored name schedule s trimmed c h).0 in
            let off = record schedule { enabled = false } in
            let free : s2.entries name ≡ none =
              ground
                (arith, entries-remove_entry sched s1 got.linked name name, text_eq_refl name) in
            let saved = save-IsConsistent sched s2 removed off (inl (rw named free)) in
            ground (arith, h)
        | inr (e, h) ↦ ground (arith, h)
      ]

  -- Storing a schedule and starting it, as three methods end.
  start_stored :
      (schedule : Schedule) (s : State C K)
      → s.entries schedule.name ≡ none
      → schedule.enabled ≡ true
      → IsConsistent sched s
      → IsConsistent sched
          ((on_disk {K = K} (store_save sched.store schedule) >> add_entry sched schedule) s).1
  start_stored schedule s free on c =
      let saved = save-IsConsistent sched s c schedule (inr on) in
      let s1 = (on_disk {K = K} (store_save sched.store schedule) s).1 in
      elim (Result-cases (on_disk {K = K} (store_save sched.store schedule) s).0) [
        | inl (_, h) ↦
            let there : stored sched s1 schedule.name ≡ some schedule = ground (
              arith,
              view-store_save sched.store s.disk schedule schedule.name,
              text_eq_refl schedule.name,
              h,
            ) in
            let added = add-IsConsistent sched s1 saved schedule free there on in ground (arith, h)
        | inr (e, h) ↦ ground (arith, h)
      ]

  store_and_start :
      (schedule : Schedule) (s : State C K)
      → s.entries schedule.name ≡ none
      → IsConsistent sched s
      → IsConsistent sched
          ((on_disk {K = K} (store_save sched.store schedule)
              >> choose schedule.enabled (add_entry sched schedule) (pure tt))
            s).1
  store_and_start schedule s free c =
      let saved = save-IsConsistent sched s c schedule (inl free) in
      elim (Bool-cases schedule.enabled) [
        | inl on ↦ let started = start_stored schedule s free on c in ground (arith, on)
        | inr off ↦ ground (arith, off)
      ]

  pub enable-IsConsistent :
      (name : Text) (s : State C K)
      → trim_space name ≡ name
      → IsConsistent sched s
      → IsConsistent sched (enable sched name s).1
  unfolding enable
  enable-IsConsistent name s trimmed c =
      let got = get-IsConsistent sched s c name in
      let s1 = (on_disk {K = K} (store_get sched.store name) s).1 in
      elim (Result-cases (on_disk {K = K} (store_get sched.store name) s).0) [
        | inl (schedule, h) ↦
            let (named, there) = got-stored name schedule s trimmed c h in
            elim (Bool-cases schedule.enabled) [
              | inl on ↦ ground (arith, h, on)
              | inr off ↦
                  let free : s1.entries name ≡ none = grind (arith, got.only_enabled, off, there) in
                  let done =
                    start_stored (record schedule { enabled = true }) s1 (rw named free) refl got in
                  ground (arith, h, off)
            ]
        | inr (e, h) ↦ ground (arith, h)
      ]

  pub update-IsConsistent :
      (schedule : Schedule) (s : State C K)
      → trim_space schedule.name ≡ schedule.name
      → IsConsistent sched s
      → IsConsistent sched (update sched schedule s).1
  unfolding update validate
  update-IsConsistent schedule s trimmed c =
      let name = schedule.name in
      let got = get-IsConsistent sched s c name in
      let s1 = (on_disk {K = K} (store_get sched.store name) s).1 in
      let removed = remove-IsConsistent sched s1 got name in
      let s2 = (remove_entry sched name s1).1 in
      let free : s2.entries name ≡ none =
        ground (arith, entries-remove_entry sched s1 got.linked name name, text_eq_refl name) in
      elim (Result-cases (on_disk {K = K} (store_get sched.store name) s).0) [
        | inl (existing, h) ↦
            let done = store_and_start (preserving sched existing schedule) s2 free removed in
            ground (arith, h)
        | inr (e, h) ↦ ground (arith, h)
      ]

  pub create-IsConsistent :
      (now : ℕ) (schedule : Schedule) (s : State C K)
      → trim_space schedule.name ≡ schedule.name
      → IsConsistent sched s
      → IsConsistent sched (create sched now schedule s).1
  unfolding create validate
  create-IsConsistent now schedule s trimmed c =
      let name = schedule.name in
      let looked = exists-IsConsistent sched s c name in
      let s1 = (on_disk {K = K} (store_exists sched.store name) s).1 in
      let new = record schedule { created_at = now } in
      elim (Result-cases (on_disk {K = K} (store_exists sched.store name) s).0) [
        | inl (Bool.true, h) ↦ ground (arith, h)
        | inl (Bool.false, h) ↦
            let free : s1.entries name ≡ none =
              grind (arith, c.only_enabled, store_exists-false sched.store s.disk name c.works h) in
            let done = store_and_start new s1 free looked in ground (arith, h)
        | inr (e, h) ↦ ground (arith, h)
      ]
