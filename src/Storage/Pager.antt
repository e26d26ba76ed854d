-- ===== src/Storage/Pager.antt =====
-- The page file with its cache: src/storage/pager.cpp and include/storage/pager.h.
-- A method runs on the pager and leaves its new state also when it throws. The cache map holds
-- iterators into the list `lru`; here the page id itself says which place of the list is meant.
pub mod Ids
pub mod Invariant
pub mod Puts
pub mod PutCache
pub mod Uncached
pub mod Refinement
pub mod Reads
pub mod Flush
use cw_db.Prelude.{
  ℕ, zero, suc, ◌+◌, ◌%◌, ◌^◌, Bool, true, false, not, List, [], ◌∷◌, Option, none, some, ltb, leb,
  ◌==◌, if◌then◌else◌, length, replicate,
}
use cw_db.Prelude.Bytes.{Bytes}
use cw_db.Prelude.Map.{find, emplace, assign, put, erase, nat_eq}
use cw_db.Prelude.Error.{
  Error, Result, ok, throw, bad_page_size, diverges, read_past_end, read_failed, write_failed,
  cache_miss,
}
use cw_db.Storage.Page.{page_size}

-- `kDefaultPageCacheCapacity`
abbrev pub default_page_cache_capacity : ℕ
default_page_cache_capacity = 64

-- A file by its whole pages: how many there are, and what those hold that were written.
pub record File : Type 0 where
  pub count : ℕ
  pub pages : List (ℕ × Bytes)

abbrev pub empty_file : File
empty_file = record { count = 0; pages = [] }

-- A page that was never written is a gap of zeros.
unfoldable pub content : File → ℕ → Bytes
content f id = elim (find id f.pages) [ some page ↦ page | none ↦ replicate page_size 0 ]

pub record CacheSlot : Type 0 where
  pub bytes : Bytes
  pub dirty : Bool

-- `file` and `good` are the stream: `file` is the file with what the stream holds in its buffer, and the
-- stream stays bad once a read or a write has failed. `full` says that the device takes no more, so that
-- writes fail. `disk` is what the operating system was given.
pub record Pager : Type 0 where
  pub is_open : Bool
  pub good : Bool
  pub full : Bool
  pub file : File
  pub disk : File
  pub page_count : ℕ
  pub cache_capacity : ℕ
  pub lru : List ℕ
  pub cache : List (ℕ × CacheSlot)
  pub scratch : Bytes

abbrev pub M : Type 0 → Type 0
M A = Pager → Result A × Pager

abbrev pub and_then : {A B : Type 0} → Result A × Pager → (A → M B) → Result B × Pager
and_then (ok a, p) f = f a p
and_then (throw e, p) f = (throw e, p)

infixl 5 ◌>>=◌ ◌>>◌
abbrev pub ◌>>=◌ : {A B : Type 0} → M A → (A → M B) → M B
◌>>=◌ m f p = and_then (m p) f

abbrev pub ◌>>◌ : {B : Type 0} → M (Unit {0}) → M B → M B
◌>>◌ m k p = and_then (m p) (λ _. k)

abbrev pub pure : {A : Type 0} → A → M A
pure a p = (ok a, p)

abbrev pub fail : {A : Type 0} → Error → M A
fail e p = (throw e, p)

-- `seekp`, `write` of one page, and the test of the stream.
unfoldable pub stream_write : ℕ → Bytes → M (Unit {0})
stream_write id page p =
    if p.good
    then (if p.full then (throw (write_failed id), record p { good = false }) else (
      ok tt,
      record p {
        file = record {
          count = if ltb p.file.count (id + 1) then id + 1 else p.file.count;
          pages = put id page p.file.pages;
        };
      },
    ))
    else (throw (write_failed id), p)

-- `seekg`, `read` of one page, and the test of the stream.
unfoldable pub stream_read : ℕ → M Bytes
stream_read id p =
    if p.good
    then (if ltb id p.file.count
        then (ok (content p.file id), p)
        else (throw (read_failed id), record p { good = false }))
    else (throw (read_failed id), p)

-- The list without its last element, and without an element.
unfoldable pub pop_back : List ℕ → List ℕ
pop_back [] = []
pop_back (x ∷ []) = []
pop_back (x ∷ y ∷ xs) = x ∷ pop_back (y ∷ xs)

unfoldable pub back? : List ℕ → Option ℕ
back? [] = none
back? (x ∷ []) = some x
back? (x ∷ y ∷ xs) = back? (y ∷ xs)

unfoldable pub remove : ℕ → List ℕ → List ℕ
remove id [] = []
remove id (x ∷ xs) = if x == id then xs else x ∷ remove id xs

abbrev pub write_if_dirty : ℕ → CacheSlot → M (Unit {0})
write_if_dirty id slot = if slot.dirty then stream_write id slot.bytes else pure tt

-- The part of `evict_one` behind its first line, for the victim and its place in the cache.
unfoldable pub evict_victim : ℕ → Option CacheSlot → M (Unit {0})
evict_victim victim none p = (ok tt, record p { lru = pop_back p.lru })
evict_victim victim (some slot) p =
    and_then (write_if_dirty victim slot p)
      (λ _ q. (ok tt, record q { cache = erase victim q.cache; lru = pop_back q.lru }))

abbrev pub evict_back : Option ℕ → M (Unit {0})
evict_back none p = (ok tt, p)
evict_back (some victim) p = evict_victim victim (find victim p.cache) p

unfoldable pub evict_one : M (Unit {0})
unfolding evict_victim
evict_one p = evict_back (back? p.lru) p

-- `while (cache_.size() >= limit) evict_one();` in at most so many rounds.
unfoldable pub evict_while : ℕ → ℕ → M (Unit {0})
evict_while zero limit p = if leb limit (length p.cache) then (throw diverges, p) else (ok tt, p)
evict_while (suc rounds) limit p =
    let again = and_then (evict_one p) (λ _. evict_while rounds limit) in
    if leb limit (length p.cache) then again else (ok tt, p)

-- A round takes one page out of the cache, so its size is rounds enough.
abbrev pub evict_until : ℕ → M (Unit {0})
evict_until limit p = evict_while (length p.cache) limit p

unfoldable pub set_cache_capacity : ℕ → M (Unit {0})
set_cache_capacity capacity p = evict_until (capacity + 1) (record p { cache_capacity = capacity })

unfoldable pub clear_cache : Pager → Pager
clear_cache p = record p { lru = []; cache = [] }

unfoldable pub touch_cache : ℕ → Pager → Pager
touch_cache id p = elim (find id p.cache) [
  | none ↦ p
  | some slot ↦ record p { lru = id ∷ remove id p.lru }
]

-- The loop of `flush_dirty_pages` over the slots that it has not reached.
unfoldable pub flush_slots : List (ℕ × CacheSlot) → M (Unit {0})
flush_slots [] p = (ok tt, p)
flush_slots ((id, slot) ∷ slots) p = and_then (write_if_dirty id slot p) (λ _ q.
    flush_slots slots (record q { cache = assign id (record slot { dirty = false }) q.cache }))

unfoldable pub flush_dirty_pages : M (Unit {0})
unfolding flush_slots
flush_dirty_pages p = flush_slots p.cache p

unfoldable pub check_page_size : Bytes → M (Unit {0})
check_page_size bytes p = if length bytes == page_size then (ok tt, p) else (throw bad_page_size, p)

-- `put_cache` for a capacity of 0, for a page that is cached, and for a new one.
abbrev pub put_uncached : ℕ → Bytes → Bool → M (Unit {0})
put_uncached id bytes dirty p =
    and_then (write_if_dirty id (record { bytes = bytes; dirty = dirty }) p)
      (λ _ q. (ok tt, record q { scratch = bytes }))

abbrev pub put_slot : Option CacheSlot → ℕ → CacheSlot → M (Unit {0})
put_slot (some old) id slot p =
    (ok tt, touch_cache id (record p { cache = assign id slot p.cache }))
put_slot none id slot p =
    and_then (evict_until p.cache_capacity p)
      (λ _ q. (ok tt, record q { lru = id ∷ q.lru; cache = emplace id slot q.cache }))

unfoldable pub put_cache : ℕ → Bytes → Bool → M (Unit {0})
unfolding check_page_size
put_cache id bytes dirty = do
  check_page_size bytes
  λ p.
      if p.cache_capacity == 0
      then put_uncached id bytes dirty p
      else put_slot (find id p.cache) id (record { bytes = bytes; dirty = dirty }) p

unfoldable pub load_page_from_disk : ℕ → M (Unit {0})
load_page_from_disk id p =
    if leb p.page_count id
    then (throw (read_past_end id), p)
    else and_then (stream_read id p) (λ bytes. put_cache id bytes false)

-- The slot's bytes, by reference in the source, or the error of a page that is not there.
abbrev pub slot_bytes : ℕ → Option CacheSlot → M Bytes
slot_bytes id none = fail (cache_miss id)
slot_bytes id (some slot) = pure slot.bytes

abbrev pub read_uncached : ℕ → M Bytes
read_uncached id p =
    if leb p.page_count id
    then (throw (read_past_end id), p)
    else and_then (stream_read id (record p { scratch = replicate page_size 0 }))
        (λ bytes q. (ok bytes, record q { scratch = bytes }))

abbrev pub read_cached : Option CacheSlot → ℕ → M Bytes
read_cached (some slot) id p = (ok slot.bytes, touch_cache id p)
read_cached none id p =
    and_then (load_page_from_disk id p) (λ _ q. slot_bytes id (find id q.cache) q)

unfoldable pub read_page : ℕ → M Bytes
read_page id p =
    if p.cache_capacity == 0 then read_uncached id p else read_cached (find id p.cache) id p

-- `page_count_ = page_id + 1`, in 32 bits
unfoldable pub ensure_page_count : ℕ → Pager → Pager
ensure_page_count id p =
    if leb p.page_count id then record p { page_count = (id + 1) % 2 ^ 32 } else p

unfoldable pub write_page : ℕ → Bytes → M (Unit {0})
unfolding check_page_size
write_page id bytes = do
  check_page_size bytes
  λ p. put_cache id bytes true (ensure_page_count id p)

unfoldable pub allocate_page : M ℕ
allocate_page p =
    and_then (write_page p.page_count (replicate page_size 0) p) (λ _ q. (ok p.page_count, q))

-- `stream_.flush()`, and what `stream_.close()` does to the buffer; a bad stream does nothing.
abbrev pub stream_flush : Pager → Pager
stream_flush p = record p { disk = if p.good then (if p.full then p.disk else p.file) else p.disk }

unfoldable pub flush : M (Unit {0})
unfolding flush_dirty_pages
flush p =
    if p.is_open
    then and_then (flush_dirty_pages p) (λ _ q. (ok tt, stream_flush q))
    else (ok tt, p)

unfoldable pub close : M (Unit {0})
unfolding flush clear_cache
close p =
    and_then (flush p)
      (λ _ q. (ok tt, clear_cache (record (stream_flush q) { is_open = false; page_count = 0 })))

-- `open`: the file at the path, if there is one, and `create`. A file that is created, or that was
-- not there, starts empty.
unfoldable pub open_file : Option File → Bool → M (Unit {0})
unfolding close clear_cache
open_file existing create p = and_then (close p) λ _ q.
    let start : File =
      if create then empty_file else elim existing [ none ↦ empty_file | some f ↦ f ] in
    (
      ok tt,
      clear_cache (record q {
        is_open = true;
        good = true;
        file = start;
        disk = start;
        page_count = start.count % 2 ^ 32;
      }),
    )
