-- ===== src/Memory/IdIndexMap/Lookup.antt =====
-- The table of IdIndexMap.h as a map from ids to indices, and the invariant of its pages.
use limit_order_book_v.Prelude.{
  ℕ, ap, ◌≢◌, ◌<◌, ◌≡◌, refl, List, [], ◌∷◌, Option, none, some, arith, ◌==◌, if◌then◌else◌, write,
  leb, Option-cases, Bool-cases, ◌⊎◌, inl, inr,
}
use limit_order_book_v.Domain.Pods.{nil_index}
use limit_order_book_v.Memory.IdIndexMap.{
  Page, IdIndexMap, init, page_of, slot_of, page_size, get, set, clear, clear_in, cleared, set_slot,
  resize, find_page, take_page, slot_at,
}
use limit_order_book_v.Memory.IdIndexMap.Counting.{
  Counts, AllCount, count_live-zero, count_live-write, count_live-blank,
}

-- Every page counts its live slots, and the pages kept for reuse have none.
pub record IsValid (m : IdIndexMap) : Type 0 where
  pub pages : (i : ℕ) (p : Page) → m.directory i ≡ some p → Counts p
  pub spare : AllCount m.free_pages

pub init-IsValid : IsValid init
unfolding init
init-IsValid = record { pages = λ i p e. absurd (cc); spare = tt }

-- A page taken for a directory entry: its slots are those of the entry, and nothing else moves.
record Found (entry : Option Page) (m : IdIndexMap) (out : Page × IdIndexMap) : Type 0 where
  slots : (s : ℕ) → s < page_size → out.0.slots s ≡ slot_at entry s
  counts : Counts out.0
  directory : out.1.directory ≡ m.directory
  directory_size : out.1.directory_size ≡ m.directory_size
  spare : AllCount out.1.free_pages

take_page-Found : (ps : List Page) (m : IdIndexMap) → AllCount ps → Found none m (take_page ps m)
unfolding take_page
take_page-Found [] m c = record {
  slots = λ s h. refl;
  counts = count_live-blank;
  directory = refl;
  directory_size = refl;
  spare = tt;
}
take_page-Found (p ∷ ps) m (counts, empty, rest) = record {
  slots = λ s h. count_live-zero p.slots page_size s (omega arith) h;
  counts = counts;
  directory = refl;
  directory_size = refl;
  spare = rest;
}

find_page-Found :
    (entry : Option Page) {m : IdIndexMap} {i : ℕ}
    → IsValid m
    → (m.directory i ≡ entry) ⊎ (entry ≡ none)
    → Found entry m (find_page entry m)
unfolding find_page
find_page-Found none {m} v e = take_page-Found m.free_pages m v.spare
find_page-Found (some p) {m} {i} v e = record {
  slots = λ s h. refl;
  counts = elim e [ inl q ↦ v.pages i p q | inr q ↦ absurd (cc) ];
  directory = refl;
  directory_size = refl;
  spare = v.spare;
}

-- Growing the directory shows no id that was not there.
get-resize : (page j : ℕ) (m : IdIndexMap) → get j (resize page m) ≡ get j m
unfolding get resize
get-resize page j m = ground arith

resize-IsValid : (page : ℕ) {m : IdIndexMap} → IsValid m → IsValid (resize page m)
unfolding resize
resize-IsValid page {m} v = record { pages = kept; spare = ground arith }
  where
    kept : (i : ℕ) (p : Page) → (resize page m).directory i ≡ some p → Counts p
    kept i p e = ground (arith, v.pages i p)

page-lt-resize : (page : ℕ) (m : IdIndexMap) → page < (resize page m).directory_size
unfolding resize
page-lt-resize page m = ground arith

-- In a map whose live counters are right, an id is found again with the index that was set, and no
-- other id is touched.
pub get-set :
    (id index j : ℕ) {m : IdIndexMap}
    → IsValid m
    → get j (set id index m) ≡ (if j == id then index else get j m)
unfolding set get set_slot write
get-set id index j {m} v =
    let n = resize (page_of id) m in
    let entry = n.directory (page_of id) in
    let f : Found entry n (find_page entry n) =
      find_page-Found entry {i = page_of id} (resize-IsValid (page_of id) v) (inl refl) in
    let d : (find_page entry n).1.directory (page_of j) ≡ n.directory (page_of j) =
      ap (λ g. g (page_of j)) f.directory in
    ground (
      arith,
      d,
      f.directory_size,
      f.slots (slot_of j),
      get-resize (page_of id) j m,
      page-lt-resize (page_of id) m,
    )

set_slot-Counts :
    (slot index : ℕ) (p : Page)
    → slot < page_size
    → index ≢ nil_index
    → Counts p
    → Counts (set_slot slot index p)
unfolding set_slot
set_slot-Counts slot index p l ne c = ground (arith, count_live-write p.slots slot index page_size)

-- Setting an id to an index that is not `nil_index` keeps the live counters right.
pub set-IsValid :
    (id index : ℕ) {m : IdIndexMap} → index ≢ nil_index → IsValid m → IsValid (set id index m)
unfolding set write
set-IsValid id index {m} ne v =
    let n = resize (page_of id) m in
    let entry = n.directory (page_of id) in
    let w = resize-IsValid (page_of id) v in
    let f : Found entry n (find_page entry n) =
      find_page-Found entry {i = page_of id} w (inl refl) in
    record {
      pages = λ i p e.
          let d : (find_page entry n).1.directory i ≡ n.directory i = ap (λ g. g i) f.directory in
          ground (
            arith,
            w.pages i p,
            f.counts,
            set_slot-Counts (slot_of id) index (find_page entry n).0,
          );
      spare = f.spare;
    }

cleared-Counts :
    (slot : ℕ) (p : Page)
    → slot < page_size
    → p.slots slot ≢ nil_index
    → Counts p
    → Counts (cleared slot p)
cleared-Counts slot p l ne c = ground (arith, count_live-write p.slots slot nil_index page_size)

module _ (id : ℕ) {m : IdIndexMap} (v : IsValid m) where
  get-clear-some :
      (j : ℕ) (p : Page)
      → m.directory (page_of id) ≡ some p
      → get j (clear id m) ≡ (if j == id then nil_index else get j m)
  unfolding clear get write
  get-clear-some j p e = ground (
    arith,
    v.pages (page_of id) p e,
    cleared-Counts (slot_of id) p,
    count_live-zero (cleared (slot_of id) p).slots page_size (slot_of j),
  )

  -- In a map whose live counters are right, a cleared id is absent, and no other id is touched.
  pub get-clear : (j : ℕ) → get j (clear id m) ≡ (if j == id then nil_index else get j m)
  unfolding clear get
  get-clear j = elim (Option-cases (m.directory (page_of id))) [
    | inl e ↦ ground arith
    | inr (p, e) ↦ get-clear-some j p e
  ]

  clear_in-IsValid :
      (entry : Option Page)
      → m.directory (page_of id) ≡ entry
      → IsValid (clear_in entry (page_of id) (slot_of id) m)
  unfolding clear_in write
  clear_in-IsValid none e = v
  clear_in-IsValid (some p) e = elim (Bool-cases (p.slots (slot_of id) == nil_index)) [
    | inl b ↦ rw b v
    | inr b ↦
        let c : Counts (cleared (slot_of id) p) =
          cleared-Counts (slot_of id) p (omega arith) (ground arith) (v.pages (page_of id) p e) in
        rw b
          (record { pages = λ i q d. ground (arith, v.pages i q); spare = ground (arith, v.spare) })
  ]

  -- Clearing an id keeps the live counters right, and a page put aside is empty.
  pub clear-IsValid : IsValid (clear id m)
  unfolding clear
  clear-IsValid = elim (Bool-cases (leb m.directory_size (page_of id))) [
    | inl b ↦ rw b v
    | inr b ↦ rw b (clear_in-IsValid (m.directory (page_of id)) refl)
  ]
