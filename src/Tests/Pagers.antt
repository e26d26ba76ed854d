-- ===== src/Tests/Pagers.antt =====
-- The pager at concrete states: storage/pager.cpp.
use cw_db.Prelude.{
  ℕ, zero, suc, ◌<◌, ◌≡◌, refl, true, false, [], ◌∷◌, length, replicate, length-replicate, arith,
}
use cw_db.Prelude.Bytes.{Bytes}
use cw_db.Prelude.Map.{find, nat_eq}
use cw_db.Prelude.Error.{ok}
use cw_db.Storage.Page.{page_size}
use cw_db.Storage.Pager.{Pager, empty_file, content, read_page, write_page, flush}
use cw_db.Storage.Pager.Ids.{mem}
use cw_db.Storage.Pager.Ids
use cw_db.Storage.Pager.Invariant.{view, held}
use cw_db.Storage.Pager.Refinement.{IsValid, Wrote, write_page-Wrote}
use cw_db.Storage.Pager.Reads.{ReadOk, read_page-view}
use cw_db.Storage.Pager.Flush.{flush-durable}

-- A new pager with one page, which stands dirty in its cache of one slot.
abbrev zeros : Bytes
zeros = replicate page_size 0

unfoldable pub pager : Pager
pager = record {
  is_open = true;
  good = true;
  full = false;
  file = empty_file;
  disk = empty_file;
  page_count = 1;
  cache_capacity = 1;
  lru = 0 ∷ [];
  cache = (0, record { bytes = zeros; dirty = true }) ∷ [];
  scratch = [];
}

length-view : (id : ℕ) → length (view pager id) ≡ page_size
unfolding pager view find content
length-view zero = length-replicate {A = ℕ} page_size 0
length-view (suc id) = grind (arith, length-replicate {A = ℕ} page_size 0)

listed : (id : ℕ) → mem id pager.lru ≡ Ids.is_some (find id pager.cache)
unfolding pager find mem
listed zero = refl
listed (suc id) = ground arith

pub pager-IsValid : IsValid pager
unfolding pager mem
pager-IsValid = record {
  coherent = record {
    good = refl;
    takes = refl;
    sizes = refl;
    listed = listed;
    lru_distinct = (refl, tt);
    keys_distinct = (refl, tt);
    clean = λ id slot h d. absurd (unfold find in ground arith);
  };
  small = omega arith;
  complete = λ id h. unfold held find in ground arith;
  sized = length-view;
}

read_page-view_example : (q : Pager) × (read_page 0 pager ≡ (ok (view pager 0), q)) × ReadOk pager q
read_page-view_example = read_page-view 0 pager pager-IsValid (unfold pager in omega arith)

-- The write of page 1 evicts page 0.
write_page-Wrote_example :
    (q : Pager) × (write_page 1 zeros pager ≡ (ok tt, q)) × Wrote 1 zeros pager q
write_page-Wrote_example =
    write_page-Wrote 1 zeros pager pager-IsValid (length-replicate {A = ℕ} page_size 0)
      (unfold pager in omega arith) (omega arith)

flush-durable_example :
    ((flush pager).0 ≡ ok tt)
    × (content (flush pager).1.disk 0 ≡ view pager 0)
    × (0 < (flush pager).1.disk.count)
    × ReadOk pager (flush pager).1
flush-durable_example =
    flush-durable pager 0 pager-IsValid (unfold pager in refl) (unfold pager in omega arith)
