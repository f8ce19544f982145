-- ===== src/Scheduler/Cycle/Renamed.antt =====
-- What `UpdateFlowReferences` leaves, on a disk where every call works.
use yafe.Prelude.{
  ◌≡◌, ◌≢◌, refl, Option, none, some, List, [], ◌∷◌, arith, All, In, All-map, inl, inr,
  Option-cases, sym, ap, ◌∙◌, if◌then◌else◌,
}
use yafe.Text.{Text, text_eq, trim_space}
use yafe.Text.Laws.{text_eq_iff}
use yafe.Result.{ok}
use yafe.Disk.{FilePath, Disk, working, names_in}
use yafe.Names.{validate_schedule_name}
use yafe.Schedule.{Schedule}
use yafe.Schedule.Store.{FileStore, store_save}
use yafe.Schedule.Store.Laws.{view, view-store_save, store_save-works}
use yafe.Schedule.Store.Listed.{
  IsDistinct, IsApart, all_listed, all_listed-stored, all_listed-IsApart, In-all_listed,
  store_list-listed,
}
use yafe.Scheduler.Cycle.{update_references, update_flow_references}

-- A schedule, and one that may be there, with the new name of the flow.
abbrev renamed : Text → Text → Schedule → Schedule
renamed old_name new_name schedule =
    if text_eq schedule.flow old_name then record schedule { flow = new_name } else schedule

abbrev pub renamed_if_there : Text → Text → Option Schedule → Option Schedule
renamed_if_there old_name new_name none = none
renamed_if_there old_name new_name (some schedule) = some (renamed old_name new_name schedule)

none-ne-some : {A : Type 0} {a : A} → none ≢ some a
none-ne-some h = ground arith

module _ {C : Type 0} (st : FileStore C) (old_name new_name : Text) where
  abbrev one : Schedule → Disk C → Disk C
  one schedule disk =
      if text_eq schedule.flow old_name
      then (store_save st (record schedule { flow = new_name }) disk).1
      else disk

  update_references-step :
      (t : Schedule) (ts : List Schedule) (disk : Disk C)
      → update_references st old_name new_name (t ∷ ts) disk
        ≡ update_references st old_name new_name ts (one t disk)
  unfolding update_references
  update_references-step t ts disk = ground arith

  one-works : (t : Schedule) (disk : Disk C) → disk.outcomes ≡ [] → (one t disk).outcomes ≡ []
  one-works t disk w = ground (arith, (store_save-works st disk (record t { flow = new_name }) w).1)

  one_other :
      (t : Schedule) (disk : Disk C) (n : Text)
      → t.name ≢ n
      → view st (one t disk) n ≡ view st disk n
  one_other t disk n h =
      ground (arith, view-store_save st disk (record t { flow = new_name }) n, text_eq_iff t.name n)

  one_itself :
      (t : Schedule) (disk : Disk C)
      → disk.outcomes ≡ []
      → validate_schedule_name (trim_space t.name) ≡ ok tt
      → view st disk t.name ≡ some t
      → view st (one t disk) t.name ≡ some (renamed old_name new_name t)
  one_itself t disk w valid there = ground (
    arith,
    view-store_save st disk (record t { flow = new_name }) t.name,
    (store_save-works st disk (record t { flow = new_name }) w).0,
    text_eq_iff t.name t.name,
  )

  -- The schedules of a list: each one is stored under its name, which is valid.
  abbrev IsIn : Disk C → Schedule → Type 0
  IsIn disk t =
      (view st disk t.name ≡ some t) × (validate_schedule_name (trim_space t.name) ≡ ok tt)

  later-IsIn :
      (t : Schedule) (ts : List Schedule) (disk : Disk C)
      → All (λ u. t.name ≢ u.name) ts
      → All (IsIn disk) ts
      → All (IsIn (one t disk)) ts
  later-IsIn t [] disk apart h = tt
  later-IsIn t (u ∷ ts) disk apart h =
      ((one_other t disk u.name apart.0 ∙ h.0.0, h.0.1), later-IsIn t ts disk apart.1 h.1)

  update_others :
      (ts : List Schedule) (disk : Disk C) (n : Text)
      → All (λ t. t.name ≢ n) ts
      → view st (update_references st old_name new_name ts disk).1 n ≡ view st disk n
  unfolding update_references
  update_others [] disk n h = refl
  update_others (t ∷ ts) disk n h =
      ap (λ r. view st r.1 n) (update_references-step t ts disk)
      ∙ update_others ts (one t disk) n h.1
      ∙ one_other t disk n h.0

  update_listed :
      (ts : List Schedule) (disk : Disk C) (schedule : Schedule)
      → disk.outcomes ≡ []
      → IsApart ts
      → All (IsIn disk) ts
      → In schedule ts
      → view st (update_references st old_name new_name ts disk).1 schedule.name
        ≡ some (renamed old_name new_name schedule)
  unfolding update_references
  update_listed [] disk schedule w apart h m = absurd m
  update_listed (t ∷ ts) disk schedule w apart h (inl e) =
      ap (λ r. view st r.1 schedule.name) (update_references-step t ts disk)
      ∙ update_others ts (one t disk) schedule.name
          (All-map (λ u differ same. differ (ap (λ x. x.name) (sym e) ∙ sym same)) ts apart.0)
      ∙ rw e (one_itself t disk w h.0.1 h.0.0)
  update_listed (t ∷ ts) disk schedule w apart h (inr m) =
      ap (λ r. view st r.1 schedule.name) (update_references-step t ts disk)
      ∙ update_listed ts (one t disk) schedule (one-works t disk w) apart.1
          (later-IsIn t ts disk apart.0 h.1) m

  module _ (files : List (FilePath × C))
      (named : (n : Text) (t : Schedule) → view st (working files) n ≡ some t → t.name ≡ n) where
    abbrev after : Disk C
    after = (update_flow_references st old_name new_name (working files)).1

    abbrev all : List Schedule
    all = all_listed st files named

    after_is_loop : after ≡ (update_references st old_name new_name all (working files)).1
    unfolding update_flow_references
    after_is_loop = ground (arith, store_list-listed st files)

    after_unlisted : (n : Text) → view st (working files) n ≡ none → view st after n ≡ none
    after_unlisted n e =
        ap (λ d. view st d n) after_is_loop
        ∙ update_others all (working files) n (
            All-map (λ t h same. none-ne-some (sym e ∙ ap (view st (working files)) (sym same) ∙ h))
              all (all_listed-stored st files named))
        ∙ e

    -- `UpdateFlowReferences` on a disk where every call works, that holds no path twice, and whose
    -- schedules are in the files of their names, which are valid: each schedule of the old flow has
    -- the new one and is otherwise as before, and every other name stands for what it did.
    pub update_flow_references_exact :
        (valid : (n : Text) (t : Schedule)
          → view st (working files) n ≡ some t
          → validate_schedule_name (trim_space t.name) ≡ ok tt)
        → IsDistinct (names_in st.dir files)
        → (n : Text)
        → view st (update_flow_references st old_name new_name (working files)).1 n
          ≡ renamed_if_there old_name new_name (view st (working files) n)
    update_flow_references_exact valid distinct n =
        elim (Option-cases (view st (working files) n)) [
          | inl e ↦ after_unlisted n e ∙ ap (renamed_if_there old_name new_name) (sym e)
          | inr (t, e) ↦
              ap (view st after) (sym (named n t e))
              ∙ ap (λ d. view st d t.name) after_is_loop
              ∙ update_listed all (working files) t refl
                  (all_listed-IsApart st files named distinct)
                  (All-map (λ u h. (h, valid u.name u h)) all (all_listed-stored st files named))
                  (In-all_listed st files named n t e)
              ∙ ap (renamed_if_there old_name new_name) (sym e)
        ]
