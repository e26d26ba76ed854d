-- ===== src/Storage/Index/Build/Chunks.antt =====
-- The leaves of a bulk build: the loop over the entries in src/storage/disk_bsp_index.cpp.
use cw_db.Prelude.{
  ℕ, ◌+◌, ◌≤◌, ◌≡◌, refl, false, List, [], ◌∷◌, ◌++◌, inl, inr, ltb, All, arith, ap, ◌∙◌,
  append_assoc, Bool-cases,
}
use cw_db.Storage.Page.{
  LeafEntry, page_size, leaf_header, leaf_entry_bytes, leaf_payload_from, leaf_payload_bytes,
  leaf_overflow,
}
use cw_db.Storage.Index.Vectors.{is_empty}
use cw_db.Storage.Index.Build.{chunks_from, leaf_chunks}

-- All the entries, chunk after chunk.
abbrev pub all_of : List (List LeafEntry) → List LeafEntry
all_of [] = []
all_of (c ∷ cs) = c ++ all_of cs

-- A leaf for a page: not empty, and within it.
abbrev pub IsLeafLoad : List LeafEntry → Type 0
IsLeafLoad c = (is_empty c ≡ false) × (leaf_overflow c ≡ false)

-- The entry fits on a page of its own.
abbrev pub FitsAlone : LeafEntry → Type 0
FitsAlone e = leaf_header + leaf_entry_bytes e.key_len ≤ page_size

leaf_payload_from-append :
    (es : List LeafEntry) (e : LeafEntry) (off : ℕ)
    → leaf_payload_from off (es ++ (e ∷ [])) ≡ leaf_payload_from off es + leaf_entry_bytes e.key_len
unfolding leaf_payload_from
leaf_payload_from-append [] e off = omega arith
leaf_payload_from-append (x ∷ es) e off = leaf_payload_from-append es e (off + (2 + x.key_len + 8))

chunks_from-all_of :
    (chunk : List LeafEntry) (bytes : ℕ) (flat : List LeafEntry)
    → all_of (chunks_from chunk bytes flat) ≡ chunk ++ flat
unfolding chunks_from
chunks_from-all_of [] bytes [] = refl
chunks_from-all_of (c ∷ chunk) bytes [] = refl
chunks_from-all_of [] bytes (e ∷ flat) =
    chunks_from-all_of (e ∷ []) (bytes + leaf_entry_bytes e.key_len) flat
chunks_from-all_of (c ∷ chunk) bytes (e ∷ flat) =
    elim (Bool-cases (ltb page_size (bytes + leaf_entry_bytes e.key_len))) [
      | inl over ↦ rw over (
          ap (λ r. c ∷ (chunk ++ r))
            (chunks_from-all_of (e ∷ []) (leaf_header + leaf_entry_bytes e.key_len) flat))
      | inr fits ↦ rw fits (
          chunks_from-all_of (c ∷ (chunk ++ (e ∷ []))) (bytes + leaf_entry_bytes e.key_len) flat
          ∙ append_assoc (c ∷ chunk) (e ∷ []) flat)
    ]

chunks_from-IsLeafLoad :
    (chunk : List LeafEntry) (bytes : ℕ) (flat : List LeafEntry)
    → bytes ≡ leaf_payload_bytes chunk
    → bytes ≤ page_size
    → All FitsAlone flat
    → All IsLeafLoad (chunks_from chunk bytes flat)
unfolding chunks_from leaf_payload_bytes leaf_payload_from leaf_overflow
chunks_from-IsLeafLoad [] bytes [] count small fits = tt
chunks_from-IsLeafLoad (c ∷ chunk) bytes [] count small fits = ((refl, ground arith), tt)
chunks_from-IsLeafLoad [] bytes (e ∷ flat) count small fits =
    chunks_from-IsLeafLoad (e ∷ []) (bytes + leaf_entry_bytes e.key_len) flat (omega arith)
      (omega (arith, fits.0)) fits.1
chunks_from-IsLeafLoad (c ∷ chunk) bytes (e ∷ flat) count small fits =
    elim (Bool-cases (ltb page_size (bytes + leaf_entry_bytes e.key_len))) [
      | inl over ↦ rw over (
        (refl, ground arith),
        chunks_from-IsLeafLoad (e ∷ []) (leaf_header + leaf_entry_bytes e.key_len) flat
            (omega arith) fits.0 fits.1,
      )
      | inr room ↦ rw room (
          chunks_from-IsLeafLoad (c ∷ (chunk ++ (e ∷ []))) (bytes + leaf_entry_bytes e.key_len) flat
            (omega (arith, leaf_payload_from-append (c ∷ chunk) e 12)) (ground arith) fits.1)
    ]

-- The leaves of a bulk build hold all the entries, in their order; where each entry fits on a page of
-- its own, no leaf is empty and none overflows its page.
pub leaf_chunks-all_of :
    (flat : List LeafEntry)
    → All FitsAlone flat
    → (all_of (leaf_chunks flat) ≡ flat) × All IsLeafLoad (leaf_chunks flat)
unfolding leaf_chunks leaf_payload_bytes leaf_payload_from
leaf_chunks-all_of flat fits = (
  chunks_from-all_of [] leaf_header flat,
  chunks_from-IsLeafLoad [] leaf_header flat refl (omega arith) fits,
)
