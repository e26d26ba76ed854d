-- ===== src/Storage/Pager/Invariant.antt =====
-- What the cache of src/storage/pager.cpp keeps true, and the pages that a reader of the pager sees.
use cw_db.Prelude.{
  ℕ, zero, suc, ◌+◌, ◌≤◌, ◌<◌, ◌≡◌, refl, Bool, true, false, none, some, ◌||◌, inl, inr, ltb, leb,
  ◌==◌, if◌then◌else◌, length, arith, ap, sym, ◌∙◌, Option-cases, Bool-cases, ==_iff,
}
use cw_db.Prelude.Bytes.{Bytes}
use cw_db.Prelude.Map.{find, put, erase, nat_eq, find-put, find-erase}
use cw_db.Prelude.Error.{ok}
use cw_db.Storage.Pager.{
  File, CacheSlot, Pager, content, stream_write, write_if_dirty, pop_back, back?, evict_one,
  evict_while,
}
use cw_db.Storage.Pager.Ids.{
  mem, Distinct, keys, is_some, mem-keys, back?-some, mem-back?, mem-pop_back, length-pop_back,
  pop_back-Distinct, erase-Distinct, length-erase,
}

-- The page as it is seen: from the cache, else from the file.
unfoldable pub view : Pager → ℕ → Bytes
view p id = elim (find id p.cache) [ some slot ↦ slot.bytes | none ↦ content p.file id ]

-- The page is in the cache or in the file.
unfoldable pub held : Pager → ℕ → Bool
held p id = is_some (find id p.cache) || ltb id p.file.count

-- The cache is well formed, and agrees with the file where it must.
pub record IsCoherent (p : Pager) : Type 0 where
  -- the stream is good, and the device takes what is written
  pub good : p.good ≡ true
  pub takes : p.full ≡ false
  -- the list and the map hold the same ids, each once
  pub sizes : length p.lru ≡ length p.cache
  pub listed : (id : ℕ) → mem id p.lru ≡ is_some (find id p.cache)
  pub lru_distinct : Distinct p.lru
  pub keys_distinct : Distinct (keys p.cache)
  -- a slot that is not dirty holds what the file holds
  pub clean :
      (id : ℕ) (slot : CacheSlot)
      → find id p.cache ≡ some slot
      → slot.dirty ≡ false
      → (content p.file id ≡ slot.bytes) × (id < p.file.count)

-- Two states between which only the places of pages moved.
pub record SamePages (p q : Pager) : Type 0 where
  pub view_eq : (id : ℕ) → view q id ≡ view p id
  pub held_mono : (id : ℕ) → held p id ≡ true → held q id ≡ true
  pub absent_mono : (id : ℕ) → find id p.cache ≡ none → find id q.cache ≡ none
  pub count_eq : q.page_count ≡ p.page_count
  pub capacity_eq : q.cache_capacity ≡ p.cache_capacity
  pub open_eq : q.is_open ≡ p.is_open

-- The file after a dirty slot is written back.
pub file_after : ℕ → CacheSlot → File → File
file_after id slot f =
    if slot.dirty
    then record {
      count = if ltb f.count (id + 1) then id + 1 else f.count;
      pages = put id slot.bytes f.pages;
    }
    else f

pub write_if_dirty-file_after :
    (id : ℕ) (slot : CacheSlot) (p : Pager)
    → p.good ≡ true
    → p.full ≡ false
    → write_if_dirty id slot p ≡ (ok tt, record p { file = file_after id slot p.file })
unfolding stream_write file_after
write_if_dirty-file_after id slot p h k = ground arith

pub content-file_after :
    (id j : ℕ) (slot : CacheSlot) (f : File)
    → (slot.dirty ≡ false → content f id ≡ slot.bytes)
    → content (file_after id slot f) j ≡ (if id == j then slot.bytes else content f j)
unfolding content file_after
content-file_after id j slot f h = ground (arith, h, find-put id j slot.bytes f.pages, ==_iff id j)

pub count-file_after :
    (id : ℕ) (slot : CacheSlot) (f : File)
    → (slot.dirty ≡ false → id < f.count)
    → (f.count ≤ (file_after id slot f).count) × (id < (file_after id slot f).count)
unfolding file_after
count-file_after id slot f h = ground (arith, h)

-- The state after the slot of the last page in the list is taken out of the cache.
abbrev evicted : ℕ → CacheSlot → Pager → Pager
evicted v slot p = record p {
  file = file_after v slot p.file;
  cache = erase v p.cache;
  lru = pop_back p.lru;
}

module _ (p : Pager) (c : IsCoherent p) (v : ℕ) (slot : CacheSlot) (last : back? p.lru ≡ some v)
    (here : find v p.cache ≡ some slot) where
  content-evicted :
      (j : ℕ)
      → content (evicted v slot p).file j ≡ (if v == j then slot.bytes else content p.file j)
  content-evicted j = content-file_after v j slot p.file (λ h. (c.clean v slot here h).0)

  count-evicted :
      (p.file.count ≤ (evicted v slot p).file.count) × (v < (evicted v slot p).file.count)
  count-evicted = count-file_after v slot p.file (λ h. (c.clean v slot here h).1)

  view-evicted : (j : ℕ) → view (evicted v slot p) j ≡ view p j
  unfolding view
  view-evicted j = ground (arith, find-erase v j p.cache, content-evicted j, here, ==_iff v j)

  held-evicted : (j : ℕ) → held p j ≡ true → held (evicted v slot p) j ≡ true
  unfolding held
  held-evicted j h = ground (arith, find-erase v j p.cache, count-evicted, ==_iff v j)

  evicted-IsCoherent : IsCoherent (evicted v slot p)
  evicted-IsCoherent = record {
    good = c.good;
    takes = c.takes;
    sizes = omega (
      arith,
      c.sizes,
      length-pop_back p.lru,
      length-erase v p.cache c.keys_distinct (mem-keys v p.cache ∙ ap is_some here),
    );
    listed = λ id.
        ground (
          arith,
          mem-pop_back p.lru v id c.lru_distinct last,
          find-erase v id p.cache,
          c.listed id,
        );
    lru_distinct = pop_back-Distinct p.lru v c.lru_distinct last;
    keys_distinct = erase-Distinct v p.cache c.keys_distinct;
    clean = λ id s h d.
        ground (arith, find-erase v id p.cache, content-evicted id, count-evicted, c.clean id s);
  }

  evict_one-evicted : evict_one p ≡ (ok tt, evicted v slot p)
  unfolding evict_one
  evict_one-evicted = ground (arith, last, here, write_if_dirty-file_after v slot p c.good c.takes)

-- `evict_one` on a cache that is not empty takes out one page and writes it back if it must; no page
-- that a reader sees changes.
pub evict_one_lem :
    (p : Pager)
    → IsCoherent p
    → 0 < length p.cache
    → (q : Pager) × (evict_one p ≡ (ok tt, q))
      × IsCoherent q
      × SamePages p q
      × (length q.cache + 1 ≡ length p.cache)
evict_one_lem p c h =
    let (v, last) = back?-some p.lru (omega (arith, c.sizes)) in
    let found = sym (c.listed v) ∙ mem-back? p.lru v last in
    elim (Option-cases (find v p.cache)) [
      | inl missing ↦ absurd (ground arith)
      | inr (slot, here) ↦ (
        evicted v slot p,
        evict_one-evicted p c v slot last here,
        evicted-IsCoherent p c v slot last here,
        record {
          view_eq = view-evicted p c v slot last here;
          held_mono = held-evicted p c v slot last here;
          absent_mono = λ id h. ground (arith, find-erase v id p.cache);
          count_eq = refl;
          capacity_eq = refl;
          open_eq = refl;
        },
        length-erase v p.cache c.keys_distinct (mem-keys v p.cache ∙ ap is_some here),
      )
    ]

pub SamePages-trans : {p q r : Pager} → SamePages p q → SamePages q r → SamePages p r
SamePages-trans s t = record {
  view_eq = λ id. t.view_eq id ∙ s.view_eq id;
  held_mono = λ id h. t.held_mono id (s.held_mono id h);
  absent_mono = λ id h. t.absent_mono id (s.absent_mono id h);
  count_eq = t.count_eq ∙ s.count_eq;
  capacity_eq = t.capacity_eq ∙ s.capacity_eq;
  open_eq = t.open_eq ∙ s.open_eq;
}

pub SamePages-refl : (p : Pager) → SamePages p p
SamePages-refl p = record {
  view_eq = λ id. refl;
  held_mono = λ id h. h;
  absent_mono = λ id h. h;
  count_eq = refl;
  capacity_eq = refl;
  open_eq = refl;
}

-- The eviction loop ends below its limit, and no page that a reader sees changes.
pub evict_while_lem :
    (rounds limit : ℕ) (p : Pager)
    → IsCoherent p
    → length p.cache ≤ rounds
    → 0 < limit
    → (q : Pager) × (evict_while rounds limit p ≡ (ok tt, q))
      × IsCoherent q
      × SamePages p q
      × (length q.cache < limit)
unfolding evict_while
evict_while_lem zero limit p c h pos = (p, ground arith, c, SamePages-refl p, omega arith)
evict_while_lem (suc rounds) limit p c h pos = elim (Bool-cases (leb limit (length p.cache))) [
  | inr below ↦ (p, rw below, c, SamePages-refl p, ground arith)
  | inl above ↦
      let (q, step, cq, same, less) = evict_one_lem p c (ground arith) in
      let (r, loop, cr, same', low) = evict_while_lem rounds limit q cq (omega arith) pos in
      (r, rw (above, step) loop, cr, SamePages-trans same same', low)
]
