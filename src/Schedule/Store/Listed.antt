-- ===== src/Schedule/Store/Listed.antt =====
-- What `List` gives, on a disk where every call works: the stored schedules, each one once.
use yafe.Prelude.{
  ◌≡◌, ◌≢◌, refl, ◌⊎◌, inl, inr, Bool, true, false, Option, none, some, List, [], ◌∷◌, ◌++◌, arith,
  All, In, Bool-cases, sym, ap, ◌∙◌,
}
use yafe.Text.{Text, has_suffix, trim_suffix, text_lt}
use yafe.Text.Laws.{trim_suffix-append, trim_suffix_kept, has_suffix-append}
use yafe.Result.{ok}
use yafe.Disk.{FilePath, working, names_in}
use yafe.Disk.Listing.{In-names_in}
use yafe.Schedule.{Schedule}
use yafe.Schedule.Store.{
  FileStore, schedule_file_extension, read_schedules, insert_schedule, sort_schedules, store_list,
}
use yafe.Schedule.Store.Laws.{view}

-- No name twice, and no two schedules of one name.
abbrev pub IsDistinct : List Text → Type 0
IsDistinct [] = Unit
IsDistinct (n ∷ names) = All (λ m. n ≢ m) names × IsDistinct names

abbrev pub IsApart : List Schedule → Type 0
IsApart [] = Unit
IsApart (s ∷ schedules) = All (λ t. s.name ≢ t.name) schedules × IsApart schedules

-- Sorting keeps what is in the list.
module _ (P : Schedule → Type 0) where
  All-insert_schedule :
      (s : Schedule) (ts : List Schedule) → P s → All P ts → All P (insert_schedule s ts)
  unfolding insert_schedule
  All-insert_schedule s [] h k = (h, k)
  All-insert_schedule s (t ∷ ts) h k = elim (Bool-cases (text_lt s.name t.name)) [
    | inl y ↦ rw y (h, k)
    | inr n ↦ rw n (k.0, All-insert_schedule s ts h k.1)
  ]

  pub All-sort_schedules : (ts : List Schedule) → All P ts → All P (sort_schedules ts)
  unfolding sort_schedules
  All-sort_schedules [] h = h
  All-sort_schedules (t ∷ ts) h =
      All-insert_schedule t (sort_schedules ts) h.0 (All-sort_schedules ts h.1)

IsApart-insert_schedule :
    (s : Schedule) (ts : List Schedule)
    → All (λ t. s.name ≢ t.name) ts
    → IsApart ts
    → IsApart (insert_schedule s ts)
unfolding insert_schedule
IsApart-insert_schedule s [] h k = (h, k)
IsApart-insert_schedule s (t ∷ ts) h k = elim (Bool-cases (text_lt s.name t.name)) [
  | inl y ↦ rw y (h, k)
  | inr n ↦ rw n (
    All-insert_schedule (λ u. t.name ≢ u.name) s ts (λ e. h.0 (sym e)) k.0,
    IsApart-insert_schedule s ts h.1 k.1,
  )
]

IsApart-sort_schedules : (ts : List Schedule) → IsApart ts → IsApart (sort_schedules ts)
unfolding sort_schedules
IsApart-sort_schedules [] h = h
IsApart-sort_schedules (t ∷ ts) h =
    IsApart-insert_schedule t (sort_schedules ts) (All-sort_schedules (λ u. t.name ≢ u.name) ts h.0)
      (IsApart-sort_schedules ts h.1)

In-insert_schedule :
    (s t : Schedule) (ts : List Schedule) → (t ≡ s) ⊎ In t ts → In t (insert_schedule s ts)
unfolding insert_schedule
In-insert_schedule s t [] h = h
In-insert_schedule s t (u ∷ ts) h = ground (arith, In-insert_schedule s t ts)

In-sort_schedules : (t : Schedule) (ts : List Schedule) → In t ts → In t (sort_schedules ts)
unfolding sort_schedules
In-sort_schedules t [] m = m
In-sort_schedules t (u ∷ ts) (inl e) = In-insert_schedule u t (sort_schedules ts) (inl e)
In-sort_schedules t (u ∷ ts) (inr m) =
    In-insert_schedule u t (sort_schedules ts) (inr (In-sort_schedules t ts m))

-- The schedule of a file name, if it has one, before the others.
abbrev add_found : Bool → Option Schedule → List Schedule → List Schedule
add_found true (some s) rest = s ∷ rest
add_found _ _ rest = rest

add_found-cases :
    (P : List Schedule → Type 0) (b : Bool) (found : Option Schedule) (rest : List Schedule)
    → P rest
    → ((s : Schedule) → b ≡ true → found ≡ some s → P (s ∷ rest))
    → P (add_found b found rest)
add_found-cases P true (some s) rest h k = k s refl refl
add_found-cases P true none rest h k = h
add_found-cases P false found rest h k = h

module _ {C : Type 0} (st : FileStore C) (files : List (FilePath × C)) where
  abbrev stem : Text → Text
  stem filename = trim_suffix filename schedule_file_extension

  -- The schedules of the file names in a list.
  pub listed : List Text → List Schedule
  listed [] = []
  listed (n ∷ names) =
      add_found (has_suffix n schedule_file_extension) (view st (working files) (stem n))
        (listed names)

  read_schedules-listed :
      (names : List Text)
      → read_schedules st names (working files) ≡ (ok (listed names), working files)
  unfolding read_schedules listed
  read_schedules-listed [] = refl
  read_schedules-listed (n ∷ names) = ground (arith, read_schedules-listed names)

  pub store_list-listed :
      store_list st (working files)
      ≡ (ok (sort_schedules (listed (names_in st.dir files))), working files)
  unfolding store_list
  store_list-listed = ground (arith, read_schedules-listed (names_in st.dir files))

  module _
      (named : (n : Text) (s : Schedule) → view st (working files) n ≡ some s → s.name ≡ n) where
    listed-stored :
        (names : List Text) → All (λ s. view st (working files) s.name ≡ some s) (listed names)
    unfolding listed
    listed-stored [] = tt
    listed-stored (n ∷ names) =
        add_found-cases (All (λ s. view st (working files) s.name ≡ some s))
          (has_suffix n schedule_file_extension) (view st (working files) (stem n)) (listed names)
          (listed-stored names)
          (λ s b found.
            (ap (view st (working files)) (named (stem n) s found) ∙ found, listed-stored names))

    listed-differ :
        (n : Text) (names : List Text)
        → has_suffix n schedule_file_extension ≡ true
        → All (λ m. n ≢ m) names
        → All (λ s. stem n ≢ s.name) (listed names)
    unfolding listed
    listed-differ n [] h k = tt
    listed-differ n (m ∷ names) h k =
        add_found-cases (All (λ s. stem n ≢ s.name)) (has_suffix m schedule_file_extension)
          (view st (working files) (stem m)) (listed names) (listed-differ n names h k.1)
          (λ s b found. (
            λ same. k.0 (
                trim_suffix_kept n schedule_file_extension h
                ∙ ap (λ x. x ++ schedule_file_extension) (same ∙ named (stem m) s found)
                ∙ sym (trim_suffix_kept m schedule_file_extension b)),
            listed-differ n names h k.1,
          ))

    listed-IsApart : (names : List Text) → IsDistinct names → IsApart (listed names)
    unfolding listed
    listed-IsApart [] h = tt
    listed-IsApart (n ∷ names) h =
        add_found-cases IsApart (has_suffix n schedule_file_extension)
          (view st (working files) (stem n)) (listed names) (listed-IsApart names h.1)
          (λ s b found.
            (rw (named (stem n) s found) (listed-differ n names b h.0), listed-IsApart names h.1))

    In-listed :
        (n : Text) (s : Schedule) (names : List Text)
        → view st (working files) n ≡ some s
        → In (n ++ schedule_file_extension) names
        → In s (listed names)
    unfolding listed
    In-listed n s [] h k = k
    In-listed n s (m ∷ names) h (inl e) =
        rw
          (
            sym e,
            has_suffix-append n schedule_file_extension,
            trim_suffix-append n schedule_file_extension,
            h,
          )
          (inl refl)
    In-listed n s (m ∷ names) h (inr k) =
        add_found-cases (In s) (has_suffix m schedule_file_extension)
          (view st (working files) (stem m)) (listed names) (In-listed n s names h k)
          (λ t b found. inr (In-listed n s names h k))

    -- What `List` gives, sorted.
    abbrev pub all_listed : List Schedule
    all_listed = sort_schedules (listed (names_in st.dir files))

    pub all_listed-stored : All (λ s. view st (working files) s.name ≡ some s) all_listed
    all_listed-stored =
        All-sort_schedules (λ s. view st (working files) s.name ≡ some s)
          (listed (names_in st.dir files)) (listed-stored (names_in st.dir files))

    pub all_listed-IsApart : IsDistinct (names_in st.dir files) → IsApart all_listed
    all_listed-IsApart h =
        IsApart-sort_schedules (listed (names_in st.dir files))
          (listed-IsApart (names_in st.dir files) h)

    pub In-all_listed :
        (n : Text) (s : Schedule) → view st (working files) n ≡ some s → In s all_listed
    In-all_listed n s h = In-sort_schedules s (listed (names_in st.dir files)) (
        In-listed n s (names_in st.dir files) h
          (In-names_in st.dir (n ++ schedule_file_extension) files (λ missing. ground arith)))
