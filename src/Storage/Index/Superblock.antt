-- ===== src/Storage/Index/Superblock.antt =====
-- The superblock of an index file, page 0: src/storage/disk_bsp_index.cpp.
use cw_db.Prelude.{
  ℕ, ◌-◌, ◌^◌, ◌<◌, ◌≡◌, refl, true, ◌++◌, length, replicate, arith, length-append,
  length-replicate, ap, ◌∙◌, if◌then◌else◌,
}
use cw_db.Prelude.Bytes.{Bytes, le_bytes, of_le, of_le-le_bytes}
use cw_db.Prelude.Error.{ok}
use cw_db.Storage.Page.{page_size}
use cw_db.Storage.Pager.{Pager, read_page, write_page}
use cw_db.Storage.Pager.Invariant.{view}
use cw_db.Storage.Pager.Refinement.{IsValid, Wrote, count_after, write_page-Wrote}
use cw_db.Storage.Pager.Reads.{read_page-view}
use cw_db.Storage.Index.{
  Root, idx_magic, idx_version, superblock_image, parse_superblock, write_superblock,
}

-- The fields fit their stored forms.
pub record IsStorable (root : Root) : Type 0 where
  pub root_page : root.root_page < 2 ^ 32
  pub first_leaf_page : root.first_leaf_page < 2 ^ 32
  pub size : root.size < 2 ^ 64

abbrev fields : Root → Bytes
fields root =
    le_bytes 4 idx_magic
    ++ (le_bytes 4 idx_version
        ++ (le_bytes 4 root.root_page ++ (le_bytes 4 root.first_leaf_page ++ le_bytes 8 root.size)))

pub length-superblock_image : (root : Root) → length (superblock_image root) ≡ page_size
unfolding superblock_image le_bytes
length-superblock_image root =
    let front : length (fields root) ≡ 24 = refl in
    length-append (fields root) (replicate (page_size - length (fields root)) 0)
    ∙ omega (arith, length-replicate {A = ℕ} (page_size - length (fields root)) 0)

parse_superblock-fields :
    (root : Root) (rest : Bytes)
    → IsStorable root
    → parse_superblock (fields root ++ rest) ≡ ok root
unfolding parse_superblock le_bytes of_le
parse_superblock-fields root rest s =
    let a : of_le (le_bytes 4 root.root_page) ≡ root.root_page =
      of_le-le_bytes 4 root.root_page (omega (arith, s.root_page)) in
    let b : of_le (le_bytes 4 root.first_leaf_page) ≡ root.first_leaf_page =
      of_le-le_bytes 4 root.first_leaf_page (omega (arith, s.first_leaf_page)) in
    let c : of_le (le_bytes 8 root.size) ≡ root.size =
      of_le-le_bytes 8 root.size (omega (arith, s.size)) in
    rw (a, b, c)

grown : (p : Pager) → 0 < p.page_count → count_after 0 p ≡ p.page_count
grown p h = ground arith

-- The superblock of fields that fit fills exactly one page, and reading it gives the fields back.
pub parse_superblock-image :
    (root : Root)
    → IsStorable root
    → (length (superblock_image root) ≡ page_size)
      × (parse_superblock (superblock_image root) ≡ ok root)
unfolding superblock_image
parse_superblock-image root s = (
  length-superblock_image root,
  parse_superblock-fields root (replicate (page_size - length (fields root)) 0) s,
)

-- Writing the superblock, of fields that fit, of an open index with a valid pager and at least page
-- 0 succeeds and changes no other page; reading page 0 through the pager, cached or not, then gives
-- bytes from which the fields read back.
pub read_page-write_superblock :
    (root : Root) (p : Pager)
    → IsStorable root
    → IsValid p
    → p.is_open ≡ true
    → 0 < p.page_count
    → (q r : Pager) × (raw : Bytes) × (write_superblock root p ≡ (ok tt, q))
      × Wrote 0 (superblock_image root) p q
      × (read_page 0 q ≡ (ok raw, r))
      × (parse_superblock raw ≡ ok root)
unfolding write_superblock
read_page-write_superblock root p s v is_open some_page =
    let (size, back) = parse_superblock-image root s in
    let (q, e, w) =
      write_page-Wrote 0 (superblock_image root) p v size (omega arith) (omega arith) in
    let (r, read, same) =
      read_page-view 0 q w.valid (omega (arith, w.count_eq, grown p some_page)) in
    (
      q,
      r,
      view q 0,
      ap (λ b. if b then write_page 0 (superblock_image root) p else (ok tt, p)) is_open ∙ e,
      w,
      read,
      ap parse_superblock (w.view_eq 0) ∙ back,
    )
