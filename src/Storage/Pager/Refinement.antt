-- ===== src/Storage/Pager/Refinement.antt =====
-- The pager of src/storage/pager.cpp is an array of pages: reads return what was written last, and
-- the cache, whatever its capacity, is not seen.
use cw_db.Prelude.{
  ℕ, ◌+◌, ◌^◌, ◌≤◌, ◌<◌, ◌≡◌, true, inl, inr, leb, ◌==◌, if◌then◌else◌, length, arith, ap, subst,
  ◌∙◌, Bool-cases, ==_iff,
}
use cw_db.Prelude.Bytes.{Bytes}
use cw_db.Prelude.Map.{nat_eq}
use cw_db.Prelude.Error.{ok}
use cw_db.Storage.Page.{page_size}
use cw_db.Storage.Pager.{Pager, put_cache, write_page, ensure_page_count, set_cache_capacity}
use cw_db.Storage.Pager.Invariant.{view, held, IsCoherent, evict_while_lem}
use cw_db.Storage.Pager.Puts.{Puts}
use cw_db.Storage.Pager.PutCache.{put_cache_lem}
use cw_db.Storage.Pager.Uncached.{written, written-IsCoherent, written-Puts, put_cache-written}

-- The cache keeps to its capacity, and every page below the count can be read.
pub record IsValid (p : Pager) : Type 0 where
  pub coherent : IsCoherent p
  pub small : length p.cache ≤ p.cache_capacity
  pub complete : (id : ℕ) → id < p.page_count → held p id ≡ true
  pub sized : (id : ℕ) → length (view p id) ≡ page_size

-- In a valid pager, changing the capacity, down to 0 as well, succeeds and keeps the pager valid;
-- the pages that readers see and their count stay as they were.
pub set_cache_capacity_lem :
    (capacity : ℕ) (p : Pager)
    → IsValid p
    → (q : Pager) × (set_cache_capacity capacity p ≡ (ok tt, q))
      × IsValid q
      × ((id : ℕ) → view q id ≡ view p id)
      × (q.page_count ≡ p.page_count)
      × (q.cache_capacity ≡ capacity)
unfolding set_cache_capacity view held
set_cache_capacity_lem capacity p v =
    let c = v.coherent in
    let start = record p { cache_capacity = capacity } in
    let c' : IsCoherent start = record {
      good = c.good;
      takes = c.takes;
      sizes = c.sizes;
      listed = c.listed;
      lru_distinct = c.lru_distinct;
      keys_distinct = c.keys_distinct;
      clean = c.clean;
    } in
    let (q, e, cq, same, low) =
      evict_while_lem (length p.cache) (capacity + 1) start c' (omega arith) (omega arith) in
    (
      q,
      e,
      record {
        coherent = cq;
        small = omega (arith, same.capacity_eq);
        complete = λ id h. same.held_mono id (v.complete id (omega (arith, same.count_eq)));
        sized = λ id. ap length (same.view_eq id) ∙ v.sized id;
      },
      same.view_eq,
      same.count_eq,
      same.capacity_eq,
    )

-- The count of pages after a write to page `id`.
abbrev pub count_after : ℕ → Pager → ℕ
count_after id p = if leb p.page_count id then id + 1 else p.page_count

-- The whole effect of a write, for a reader of the pager.
pub record Wrote (id : ℕ) (bytes : Bytes) (p q : Pager) : Type 0 where
  pub valid : IsValid q
  pub view_eq : (j : ℕ) → view q j ≡ (if id == j then bytes else view p j)
  pub count_eq : q.page_count ≡ count_after id p
  pub capacity_eq : q.cache_capacity ≡ p.cache_capacity
  pub open_eq : q.is_open ≡ p.is_open

-- From the pager with its new count to the one with the page put in.
Puts-Wrote :
    (id : ℕ) (bytes : Bytes) (p q : Pager)
    → IsValid p
    → length bytes ≡ page_size
    → id ≤ p.page_count
    → IsCoherent q
    → length q.cache ≤ q.cache_capacity
    → Puts id bytes (record p { page_count = count_after id p }) q
    → Wrote id bytes p q
unfolding view held
Puts-Wrote id bytes p q v size next c small puts = record {
  valid = record {
    coherent = c;
    small = small;
    complete = λ j h. elim (Bool-cases (id == j)) [
      | inl same ↦ subst (λ k. held q k ≡ true) ((==_iff id j).0 same) puts.held_self
      | inr other ↦ puts.held_mono j (v.complete j (ground (arith, puts.count_eq)))
    ];
    sized = λ j. ground (arith, puts.view_eq j, v.sized j);
  };
  view_eq = puts.view_eq;
  count_eq = puts.count_eq;
  capacity_eq = puts.capacity_eq;
  open_eq = puts.open_eq;
}

-- With the count raised the pager is as coherent as it was.
counted-IsCoherent : (n : ℕ) (p : Pager) → IsCoherent p → IsCoherent (record p { page_count = n })
counted-IsCoherent n p c = record {
  good = c.good;
  takes = c.takes;
  sizes = c.sizes;
  listed = c.listed;
  lru_distinct = c.lru_distinct;
  keys_distinct = c.keys_distinct;
  clean = c.clean;
}

write_page-put_cache :
    (id : ℕ) (bytes : Bytes) (p : Pager)
    → length bytes ≡ page_size
    → id + 1 < 2 ^ 32
    → write_page id bytes p ≡ put_cache id bytes true (record p { page_count = count_after id p })
unfolding write_page
write_page-put_cache id bytes p size small_id =
    let sized : (length bytes == page_size) ≡ true = (==_iff _ page_size).1 size in
    let counted : ensure_page_count id p ≡ record p { page_count = count_after id p } =
      unfold ensure_page_count in ground arith in
    rw sized (ap (put_cache id bytes true) counted)

-- In a valid pager, writing a page whose id and the next fit in 32 bits, of the right size, that is
-- there already or is the next one, whatever the capacity and the state of the cache, succeeds,
-- makes that page read as written, and changes no other page; the count grows to take the page in,
-- and the pager stays valid.
pub write_page-Wrote :
    (id : ℕ) (bytes : Bytes) (p : Pager)
    → IsValid p
    → length bytes ≡ page_size
    → id ≤ p.page_count
    → id + 1 < 2 ^ 32
    → (q : Pager) × (write_page id bytes p ≡ (ok tt, q)) × Wrote id bytes p q
write_page-Wrote id bytes p v size next small_id =
    let start = record p { page_count = count_after id p } in
    let c = counted-IsCoherent (count_after id p) p v.coherent in
    let entry = write_page-put_cache id bytes p size small_id in
    elim (Bool-cases (p.cache_capacity == 0)) [
      | inl uncached ↦
          let zero_capacity : p.cache_capacity ≡ 0 = ground arith in
          let empty : length p.cache ≤ 0 = omega (arith, v.small) in
          (
            written id bytes start c empty,
            entry ∙ put_cache-written id bytes start c empty zero_capacity size,
            Puts-Wrote id bytes p (written id bytes start c empty) v size next
                (written-IsCoherent id bytes start c empty) (unfold written in v.small)
                (written-Puts id bytes start c empty),
          )
      | inr cached ↦
          let (q, e, cq, low, puts, _) =
            put_cache_lem id (record { bytes = bytes; dirty = true }) start c (ground arith) v.small
              size (λ d. absurd (cc)) in
          (q, entry ∙ e, Puts-Wrote id bytes p q v size next cq low puts)
    ]
