-- ===== src/Schedule/Store/Laws.antt =====
-- The store as a map from names to schedules, on a disk where every call works.
use yafe.Prelude.{
  ◌≡◌, ◌≢◌, false, ◌&&◌, Option, none, some, [], ◌++◌, arith, ap, sym, inl, inr, Bool-cases,
  if◌then◌else◌,
}
use yafe.Text.{Text, text_eq, trim_space}
use yafe.Text.Laws.{text_eq_iff, text_eq_refl, append_cancel, suffixes_differ}
use yafe.Text.{codes}
use yafe.Result.{ok, is_ok}
use yafe.Disk.{FilePath, Disk, at, temporary}
use yafe.Disk.Laws.{find-without, path_eq_iff}
use yafe.Disk.Atomic.{replace_file_ok, replace_file_err, replace_file_other, replace_file_works}
use yafe.Names.{validate_schedule_name}
use yafe.Schedule.{Schedule}
use yafe.Schedule.Store.{
  FileStore, schedule_path, schedule_file_extension, store_exists, store_get, store_save,
  store_delete,
}

differ : (m n : Text) → text_eq m n ≡ false → n ≢ m
differ m n e same = cc (e, (text_eq_iff m n).1 (sym same))

module _ {C : Type 0} (st : FileStore C) where
  path-injective : (m n : Text) → n ≢ m → schedule_path st n ≢ schedule_path st m
  path-injective m n h e = h (append_cancel schedule_file_extension n m (ap (λ p. p.name) e))

  path-ne-temporary : (m n : Text) → schedule_path st m ≢ temporary (schedule_path st n)
  path-ne-temporary m n e =
      suffixes_differ m (n ++ schedule_file_extension) b'.' b'.' (codes "json") (codes "tmp")
        (omega arith) (ap (λ p. p.name) e)

  abbrev decoded : Option C → Option Schedule
  decoded found = elim found [ none ↦ none | some c ↦ st.codec.decode c ]

  -- The schedule of a name, if its file is there and is not malformed.
  abbrev pub view : Disk C → Text → Option Schedule
  view disk name = decoded (at disk (schedule_path st name))

  module _ (disk : Disk C) where
    pub store_get-files : (name : Text) → (store_get st name disk).1.files ≡ disk.files
    unfolding store_get
    store_get-files name = ground arith

    pub store_get_ok :
        (name : Text) {s : Schedule}
        → (store_get st name disk).0 ≡ ok s
        → view disk (trim_space name) ≡ some s
    unfolding store_get
    store_get_ok name h = ground arith

    pub store_get_valid :
        (name : Text) {s : Schedule}
        → (store_get st name disk).0 ≡ ok s
        → validate_schedule_name (trim_space name) ≡ ok tt
    unfolding store_get
    store_get_valid name h = ground arith

    pub store_get-works :
        (name : Text) → disk.outcomes ≡ [] → (store_get st name disk).1.outcomes ≡ []
    unfolding store_get
    store_get-works name w = ground arith

    pub store_exists-false :
        (name : Text)
        → disk.outcomes ≡ []
        → (store_exists st name disk).0 ≡ ok false
        → view disk name ≡ none
    unfolding store_exists
    store_exists-false name w h = ground arith

    pub store_exists-works :
        (name : Text) → disk.outcomes ≡ [] → (store_exists st name disk).1.outcomes ≡ []
    unfolding store_exists
    store_exists-works name w = ground arith

    pub store_exists-files : (name : Text) → (store_exists st name disk).1.files ≡ disk.files
    unfolding store_exists
    store_exists-files name = ground arith

    -- Whatever calls fail, a save that succeeds stores the schedule under its name, one that fails
    -- leaves it, and neither touches another name.
    pub view-store_save :
        (s : Schedule) (name : Text)
        → view (store_save st s disk).1 name ≡ (
            if text_eq s.name name && is_ok (store_save st s disk).0
            then some s
            else view disk name)
    unfolding store_save
    view-store_save s name = elim (Bool-cases (text_eq s.name name)) [
      | inl e ↦ rw (← (text_eq_iff s.name name).0 e) (
          grind (
            arith,
            text_eq_refl s.name,
            st.codec.decode-encode s,
            replace_file_ok,
            replace_file_err,
          ))
      | inr e ↦ grind (
        arith,
        e,
        path-injective s.name name (differ s.name name e),
        path-ne-temporary name s.name,
        replace_file_other,
      )
    ]

    pub store_save-works :
        (s : Schedule)
        → disk.outcomes ≡ []
        → ((store_save st s disk).0 ≡ validate_schedule_name (trim_space s.name))
          × ((store_save st s disk).1.outcomes ≡ [])
    unfolding store_save
    store_save-works s w = grind (arith, replace_file_works)

    pub store_delete-works :
        (name : Text) → disk.outcomes ≡ [] → (store_delete st name disk).1.outcomes ≡ []
    unfolding store_delete
    store_delete-works name w = ground arith

    pub view-store_delete :
        (name other : Text)
        → view (store_delete st name disk).1 other ≡ (
            if text_eq (trim_space name) other && is_ok (store_delete st name disk).0
            then none
            else view disk other)
    unfolding store_delete
    view-store_delete name other = elim (Bool-cases (text_eq (trim_space name) other)) [
      | inl e ↦
          rw (← (text_eq_iff (trim_space name) other).0 e)
            (grind (arith, text_eq_refl (trim_space name), find-without, path_eq_iff))
      | inr e ↦ grind (
        arith,
        e,
        path-injective (trim_space name) other (differ (trim_space name) other e),
        find-without,
        path_eq_iff,
      )
    ]

    -- Where every call works, the schedule of a valid name is gone after a deletion.
    pub store_delete_gone :
        (name : Text)
        → disk.outcomes ≡ []
        → validate_schedule_name (trim_space name) ≡ ok tt
        → view (store_delete st name disk).1 (trim_space name) ≡ none
    unfolding store_delete
    store_delete_gone name w v = grind (arith, find-without, path_eq_iff)

    -- What is outside the directory of the store is as it was.
    pub store_save_elsewhere :
        (s : Schedule) (p : FilePath) → p.dir ≢ st.dir → at (store_save st s disk).1 p ≡ at disk p
    unfolding store_save
    store_save_elsewhere s p away =
        let differ : p ≢ schedule_path st s.name = λ e. away (ap (λ q. q.dir) e) in
        let differ_temporary : p ≢ temporary (schedule_path st s.name) =
          λ e. away (ap (λ q. q.dir) e) in
        grind (arith, differ, differ_temporary, replace_file_other)

    pub store_get_found :
        (name : Text) (s : Schedule)
        → disk.outcomes ≡ []
        → validate_schedule_name (trim_space name) ≡ ok tt
        → view disk (trim_space name) ≡ some s
        → (store_get st name disk).0 ≡ ok s
    unfolding store_get
    store_get_found name s w v h = ground arith
