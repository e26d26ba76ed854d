-- ===== src/Storage/Pager/Reads.antt =====
-- Reads through the cache of src/storage/pager.cpp, and the allocation of pages.
use cw_db.Prelude.{
  ℕ, ◌+◌, ◌^◌, ◌≤◌, ◌<◌, ◌≡◌, refl, true, false, none, some, inl, inr, leb, ◌==◌, length,
  length-replicate, replicate, arith, ap, sym, ◌∙◌, Option-cases, Bool-cases, ==_iff,
}
use cw_db.Prelude.Bytes.{Bytes}
use cw_db.Prelude.Map.{find, nat_eq}
use cw_db.Prelude.Error.{ok}
use cw_db.Storage.Page.{page_size}
use cw_db.Storage.Pager.{
  Pager, CacheSlot, content, stream_read, touch_cache, put_cache, load_page_from_disk, read_page,
  read_cached, read_uncached, allocate_page, and_then,
}
use cw_db.Storage.Pager.Invariant.{view, held, IsCoherent, SamePages}
use cw_db.Storage.Pager.Puts.{Puts, touch_cache_lem}
use cw_db.Storage.Pager.PutCache.{put_cache_lem, view_absent, held_absent}
use cw_db.Storage.Pager.Uncached.{find-empty}
use cw_db.Storage.Pager.Refinement.{IsValid, Wrote, write_page-Wrote}

-- A read changes neither the pages nor their count.
pub record ReadOk (p q : Pager) : Type 0 where
  pub valid : IsValid q
  pub view_eq : (j : ℕ) → view q j ≡ view p j
  pub count_eq : q.page_count ≡ p.page_count
  pub capacity_eq : q.cache_capacity ≡ p.cache_capacity
  pub open_eq : q.is_open ≡ p.is_open

stream_read-content :
    (id : ℕ) (p : Pager)
    → p.good ≡ true
    → id < p.file.count
    → stream_read id p ≡ (ok (content p.file id), p)
unfolding stream_read
stream_read-content id p good here = ground arith

pub SamePages-ReadOk :
    (p q : Pager)
    → IsValid p
    → IsCoherent q
    → length q.cache ≤ q.cache_capacity
    → SamePages p q
    → ReadOk p q
SamePages-ReadOk p q v c small same = record {
  valid = record {
    coherent = c;
    small = small;
    complete = λ j h. same.held_mono j (v.complete j (omega (arith, same.count_eq)));
    sized = λ j. ap length (same.view_eq j) ∙ v.sized j;
  };
  view_eq = same.view_eq;
  count_eq = same.count_eq;
  capacity_eq = same.capacity_eq;
  open_eq = same.open_eq;
}

scratch-ReadOk : (bytes : Bytes) (p : Pager) → IsValid p → ReadOk p (record p { scratch = bytes })
unfolding view held
scratch-ReadOk bytes p v =
    let c = v.coherent in
    record {
      valid = record {
        coherent = record {
          good = c.good;
          takes = c.takes;
          sizes = c.sizes;
          listed = c.listed;
          lru_distinct = c.lru_distinct;
          keys_distinct = c.keys_distinct;
          clean = c.clean;
        };
        small = v.small;
        complete = v.complete;
        sized = v.sized;
      };
      view_eq = λ j. refl;
      count_eq = refl;
      capacity_eq = refl;
      open_eq = refl;
    }

pub view_here :
    (id : ℕ) (p : Pager) {slot : CacheSlot} → find id p.cache ≡ some slot → view p id ≡ slot.bytes
unfolding view
view_here id p h = ground arith

-- A page that came from the file looks as it did there.
loaded-ReadOk :
    (id : ℕ) (p q : Pager)
    → IsValid p
    → IsCoherent q
    → length q.cache ≤ q.cache_capacity
    → Puts id (view p id) p q
    → ReadOk p q
loaded-ReadOk id p q v c small puts =
    let same : (j : ℕ) → view q j ≡ view p j = λ j. ground (arith, puts.view_eq j, ==_iff id j) in
    record {
      valid = record {
        coherent = c;
        small = small;
        complete = λ j h. puts.held_mono j (v.complete j (omega (arith, puts.count_eq)));
        sized = λ j. ap length (same j) ∙ v.sized j;
      };
      view_eq = same;
      count_eq = puts.count_eq;
      capacity_eq = puts.capacity_eq;
      open_eq = puts.open_eq;
    }

module _ (id : ℕ) (p : Pager) (v : IsValid p) (below : id < p.page_count) where
  -- With the cache off.
  read_uncached-view :
      p.cache_capacity ≡ 0 → (q : Pager) × (read_uncached id p ≡ (ok (view p id), q)) × ReadOk p q
  read_uncached-view zero_capacity =
      let absent = find-empty id p.cache (omega (arith, v.small)) in
      let seen = view_absent id p absent in
      let here = held_absent id p absent (v.complete id below) in
      let inside : leb p.page_count id ≡ false = ground arith in
      let start = record p { scratch = replicate page_size 0 } in
      (
        record p { scratch = view p id },
        rw inside (
            ap (λ r. and_then {B = Bytes} r (λ bytes q. (ok bytes, record q { scratch = bytes })))
              (stream_read-content id start v.coherent.good here)
            ∙ ap (λ b. (ok b, record p { scratch = b })) (sym seen)),
        scratch-ReadOk (view p id) p v,
      )

  -- A hit.
  read_hit :
      {slot : CacheSlot}
      → find id p.cache ≡ some slot
      → (q : Pager) × (read_cached (some slot) id p ≡ (ok (view p id), q)) × ReadOk p q
  read_hit {slot} here =
      let (c, same, kept) = touch_cache_lem id p v.coherent here in
      (
        touch_cache id p,
        ap (λ b. (ok b, touch_cache id p)) (sym (view_here id p here)),
        SamePages-ReadOk p (touch_cache id p) v c (rw (kept, same.capacity_eq) v.small) same,
      )

  load-put_cache :
      find id p.cache ≡ none → load_page_from_disk id p ≡ put_cache id (view p id) false p
  unfolding load_page_from_disk
  load-put_cache absent =
      let inside : leb p.page_count id ≡ false = ground arith in
      rw inside (
        ap (λ r. and_then {B = Unit {0}} r (λ bytes. put_cache id bytes false))
          (stream_read-content id p v.coherent.good (held_absent id p absent (v.complete id below)))
        ∙ ap (λ b. put_cache id b false p) (sym (view_absent id p absent)))

  -- A miss.
  read_miss :
      0 < p.cache_capacity
      → find id p.cache ≡ none
      → (q : Pager) × (read_cached none id p ≡ (ok (view p id), q)) × ReadOk p q
  read_miss pos absent =
      let slot : CacheSlot = record { bytes = view p id; dirty = false } in
      let seen = view_absent id p absent in
      let (q, e, c, small, puts, here) =
        put_cache_lem id slot p v.coherent pos v.small (v.sized id)
          (λ _. (absent, sym seen, v.complete id below)) in
      let load = load-put_cache absent ∙ e in
      (q, rw (load, here), loaded-ReadOk id p q v c small puts)

-- In a valid pager, reading any page below the count, whatever the capacity and the state of the
-- cache, returns the page as it was written last, and changes no page.
pub read_page-view :
    (id : ℕ) (p : Pager)
    → IsValid p
    → id < p.page_count
    → (q : Pager) × (read_page id p ≡ (ok (view p id), q)) × ReadOk p q
unfolding read_page
read_page-view id p v below = elim (Bool-cases (p.cache_capacity == 0)) [
  | inl uncached ↦ rw uncached (read_uncached-view id p v below (ground arith))
  | inr cached ↦ rw cached (elim (Option-cases (find id p.cache)) [
    | inl absent ↦ rw absent (read_miss id p v below (ground arith) absent)
    | inr (slot, here) ↦ rw here (read_hit id p v below here)
  ])
]

-- In a valid pager whose next count fits in 32 bits, allocating a page returns the first id past the
-- count, which was unused, and that page reads as zeros; every other page stays as it was.
pub allocate_page-Wrote :
    (p : Pager)
    → IsValid p
    → p.page_count + 1 < 2 ^ 32
    → (q : Pager) × (allocate_page p ≡ (ok p.page_count, q))
      × Wrote p.page_count (replicate page_size 0) p q
      × (q.page_count ≡ p.page_count + 1)
unfolding allocate_page
allocate_page-Wrote p v room =
    let zeros : Bytes = replicate page_size 0 in
    let (q, e, w) =
      write_page-Wrote p.page_count zeros p v (length-replicate {A = ℕ} page_size 0) (omega arith)
        room in
    (
      q,
      ap (λ r. and_then {B = ℕ} r (λ _ q'. (ok p.page_count, q'))) e,
      w,
      ground (arith, w.count_eq),
    )
