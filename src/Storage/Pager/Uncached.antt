-- ===== src/Storage/Pager/Uncached.antt =====
-- Reads and writes of src/storage/pager.cpp with a cache capacity of 0: straight to the file.
use cw_db.Prelude.{
  ℕ, ◌≤◌, ◌≡◌, refl, true, List, [], ◌∷◌, none, ◌==◌, if◌then◌else◌, length, arith, ap, ==_iff,
}
use cw_db.Prelude.Bytes.{Bytes}
use cw_db.Prelude.Map.{find, nat_eq}
use cw_db.Prelude.Error.{ok}
use cw_db.Storage.Page.{page_size}
use cw_db.Storage.Pager.{Pager, CacheSlot, content, put_cache, and_then}
use cw_db.Storage.Pager.Invariant.{
  view, held, IsCoherent, file_after, write_if_dirty-file_after, content-file_after,
  count-file_after,
}
use cw_db.Storage.Pager.Puts.{Puts}

pub find-empty : (id : ℕ) (m : List (ℕ × CacheSlot)) → length m ≤ 0 → find id m ≡ none
unfolding find
find-empty id [] h = refl
find-empty id (x ∷ m) h = absurd (omega arith)

module _ (id : ℕ) (bytes : Bytes) (p : Pager) (c : IsCoherent p)
    (none_cached : length p.cache ≤ 0) where
  slot : CacheSlot
  slot = record { bytes = bytes; dirty = true }

  unfoldable pub written : Pager
  unfolding slot
  written = record p { file = file_after id slot p.file; scratch = bytes }

  content-written : (j : ℕ) → content written.file j ≡ (if id == j then bytes else content p.file j)
  unfolding written
  content-written j = content-file_after id j slot p.file (λ e. cc)

  pub written-IsCoherent : IsCoherent written
  unfolding written
  written-IsCoherent = record {
    good = c.good;
    takes = c.takes;
    sizes = c.sizes;
    listed = c.listed;
    lru_distinct = c.lru_distinct;
    keys_distinct = c.keys_distinct;
    clean = λ j s h d. absurd (cc (find-empty j p.cache none_cached));
  }

  pub written-Puts : Puts id bytes p written
  unfolding written view held
  written-Puts = record {
    view_eq = λ j. ground (arith, find-empty j p.cache none_cached, content-written j);
    held_self = ground (arith, count-file_after id slot p.file (λ e. cc));
    held_mono = λ j h. ground (arith, count-file_after id slot p.file (λ e. cc));
    count_eq = refl;
    capacity_eq = refl;
    open_eq = refl;
  }

  -- `put_cache` of a dirty page writes it to the file.
  pub put_cache-written :
      p.cache_capacity ≡ 0 → length bytes ≡ page_size → put_cache id bytes true p ≡ (ok tt, written)
  unfolding put_cache written slot
  put_cache-written zero_capacity size =
      let sized : (length bytes == page_size) ≡ true = (==_iff _ page_size).1 size in
      let capacity : (p.cache_capacity == 0) ≡ true = ground arith in
      rw (sized, capacity)
        (ap (λ r. and_then {B = Unit {0}} r (λ _ q. (ok tt, record q { scratch = bytes })))
          (write_if_dirty-file_after id slot p c.good c.takes))
