-- ===== src/Memory/IdIndexMap.antt =====
-- include/Memory/IdIndexMap.h: a paged table from order ids to pool indices.
pub mod Counting
pub mod Lookup
use limit_order_book_v.Prelude.{
  ℕ, zero, suc, ◌+◌, ◌-◌, ◌/◌, ◌%◌, ◌^◌, Bool, true, false, not, List, [], ◌∷◌, Option, none, some,
  leb, ltb, ◌==◌, if◌then◌else◌, write, length,
}
use limit_order_book_v.Domain.Pods.{nil_index}

abbrev pub page_bits : ℕ
page_bits = 12

abbrev pub page_size : ℕ
page_size = 2 ^ page_bits

pub record Page : Type 0 where
  pub slots : ℕ → ℕ
  pub live : ℕ

-- `directory` is the vector `directory_` of `directory_size` entries, `none` for `nullptr`; the head
-- of `free_pages` is the back of the vector.
pub record IdIndexMap : Type 0 where
  pub directory : ℕ → Option Page
  pub directory_size : ℕ
  pub free_pages : List Page
  pub allocated_pages : ℕ

unfoldable pub init : IdIndexMap
init = record { directory = λ _. none; directory_size = 0; free_pages = []; allocated_pages = 0 }

-- `id >> PAGE_BITS` and `id & PAGE_MASK`
abbrev pub page_of : ℕ → ℕ
page_of id = id / page_size

abbrev pub slot_of : ℕ → ℕ
slot_of id = id % page_size

-- What a directory entry says of a slot.
abbrev pub slot_at : Option Page → ℕ → ℕ
slot_at none slot = nil_index
slot_at (some p) slot = p.slots slot

unfoldable pub get : ℕ → IdIndexMap → ℕ
get id m =
    if leb m.directory_size (page_of id)
    then nil_index
    else slot_at (m.directory (page_of id)) (slot_of id)

-- `make_unique<Page>()` filled with `NIL`.
abbrev pub blank_page : Page
blank_page = record { slots = λ _. nil_index; live = 0 }

take_page : List Page → IdIndexMap → Page × IdIndexMap
take_page [] m = (blank_page, record m { free_pages = []; allocated_pages = m.allocated_pages + 1 })
take_page (p ∷ rest) m = (p, record m { free_pages = rest })

unfoldable pub acquire_page : IdIndexMap → Page × IdIndexMap
unfolding take_page
acquire_page m = take_page m.free_pages m

-- `directory_.resize(page + 1)` where `page` is past the end: the new entries are `nullptr`.
unfoldable pub resize : ℕ → IdIndexMap → IdIndexMap
resize page m =
    if leb m.directory_size page
    then record m {
      directory = λ i. if ltb i m.directory_size then m.directory i else none;
      directory_size = page + 1;
    }
    else m

-- The page of a directory entry, acquired when the entry is null.
unfoldable pub find_page : Option Page → IdIndexMap → Page × IdIndexMap
unfolding acquire_page
find_page (some p) m = (p, m)
find_page none m = acquire_page m

unfoldable pub set_slot : ℕ → ℕ → Page → Page
set_slot slot index p = record {
  slots = write p.slots slot index;
  live = if p.slots slot == nil_index then p.live + 1 else p.live;
}

unfoldable pub set : ℕ → ℕ → IdIndexMap → IdIndexMap
unfolding resize find_page set_slot
set id index m =
    let n = resize (page_of id) m in
    let (p, q) = find_page (n.directory (page_of id)) n in
    record q { directory = write q.directory (page_of id) (some (set_slot (slot_of id) index p)) }

-- The page once the slot of an id is cleared.
abbrev pub cleared : ℕ → Page → Page
cleared slot p = record { slots = write p.slots slot nil_index; live = p.live - 1 }

-- The last part of `Clear`: the slot is cleared, and an empty page goes to the free list.
unfoldable pub clear_slot : ℕ → ℕ → Page → IdIndexMap → IdIndexMap
clear_slot page slot p m =
    if (cleared slot p).live == 0
    then record m {
      directory = write m.directory page none;
      free_pages = cleared slot p ∷ m.free_pages;
    }
    else record m { directory = write m.directory page (some (cleared slot p)) }

-- `Clear` on the page of `id`, by its directory entry.
unfoldable pub clear_in : Option Page → ℕ → ℕ → IdIndexMap → IdIndexMap
unfolding clear_slot
clear_in none page slot m = m
clear_in (some p) page slot m = if p.slots slot == nil_index then m else clear_slot page slot p m

unfoldable pub clear : ℕ → IdIndexMap → IdIndexMap
unfolding clear_in
clear id m =
    if leb m.directory_size (page_of id)
    then m
    else clear_in (m.directory (page_of id)) (page_of id) (slot_of id) m

unfoldable pub active_pages : IdIndexMap → ℕ
active_pages m = m.allocated_pages - length m.free_pages
