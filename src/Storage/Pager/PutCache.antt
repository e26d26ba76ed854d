-- ===== src/Storage/Pager/PutCache.antt =====
-- `put_cache` of src/storage/pager.cpp with a capacity, on every way through it.
use cw_db.Prelude.{
  ℕ, ◌≤◌, ◌<◌, ◌≡◌, refl, true, false, none, some, inl, inr, ◌==◌, if◌then◌else◌, length, arith, ap,
  sym, ◌∙◌, Option-cases, Bool-cases, ==_iff,
}
use cw_db.Prelude.Bytes.{Bytes}
use cw_db.Prelude.Map.{find, nat_eq}
use cw_db.Prelude.Error.{Result, ok}
use cw_db.Storage.Page.{page_size}
use cw_db.Storage.Pager.{Pager, CacheSlot, content, touch_cache, put_cache, put_slot}
use cw_db.Storage.Pager.Ids.{length-assign, length-emplace}
use cw_db.Storage.Pager.Invariant.{view, held, IsCoherent, SamePages, evict_while_lem}
use cw_db.Storage.Pager.Puts.{
  Puts, touch_cache_lem, assigned, find-assigned, assigned-IsCoherent, assigned-Puts, added,
  find-added, added-IsCoherent, added-Puts,
}

Puts-then_same :
    {id : ℕ} {bytes : Bytes} {p q r : Pager} → Puts id bytes p q → SamePages q r → Puts id bytes p r
Puts-then_same {id} s t = record {
  view_eq = λ j. t.view_eq j ∙ s.view_eq j;
  held_self = t.held_mono id s.held_self;
  held_mono = λ j h. t.held_mono j (s.held_mono j h);
  count_eq = t.count_eq ∙ s.count_eq;
  capacity_eq = t.capacity_eq ∙ s.capacity_eq;
  open_eq = t.open_eq ∙ s.open_eq;
}

same_then-Puts :
    {id : ℕ} {bytes : Bytes} {p q r : Pager} → SamePages p q → Puts id bytes q r → Puts id bytes p r
same_then-Puts {id} {bytes} s t = record {
  view_eq = λ j. t.view_eq j ∙ ap (λ b. if id == j then bytes else b) (s.view_eq j);
  held_self = t.held_self;
  held_mono = λ j h. t.held_mono j (s.held_mono j h);
  count_eq = t.count_eq ∙ s.count_eq;
  capacity_eq = t.capacity_eq ∙ s.capacity_eq;
  open_eq = t.open_eq ∙ s.open_eq;
}

-- The outcome of putting a page into the cache.
abbrev pub PutOk : ℕ → CacheSlot → Pager → Result (Unit {0}) × Pager → Type 0
PutOk id slot p r =
    (q : Pager) × (r ≡ (ok tt, q))
    × IsCoherent q
    × (length q.cache ≤ q.cache_capacity)
    × Puts id slot.bytes p q
    × (find id q.cache ≡ some slot)

-- Over the slot that is there.
put_over :
    (id : ℕ) (slot old : CacheSlot) (p : Pager)
    → IsCoherent p
    → length p.cache ≤ p.cache_capacity
    → find id p.cache ≡ some old
    → slot.dirty ≡ true
    → PutOk id slot p (put_slot (some old) id slot p)
put_over id slot old p c small here dirty =
    let q = assigned id slot p c here dirty in
    let cq = assigned-IsCoherent id slot p c here dirty in
    let at_id : find id q.cache ≡ some slot =
      find-assigned id slot p c here dirty id ∙ ground (arith, ==_iff id id) in
    let (cr, same, kept) = touch_cache_lem id q cq at_id in
    (
      touch_cache id q,
      unfold assigned in refl,
      cr,
      rw (kept, same.capacity_eq) (unfold assigned in omega (arith, length-assign id slot p.cache)),
      Puts-then_same (assigned-Puts id slot p c here dirty) same,
      rw kept at_id,
    )

pub view_absent : (id : ℕ) (p : Pager) → find id p.cache ≡ none → view p id ≡ content p.file id
unfolding view
view_absent id p h = ground arith

pub held_absent :
    (id : ℕ) (p : Pager) → find id p.cache ≡ none → held p id ≡ true → id < p.file.count
unfolding held
held_absent id p h k = ground arith

-- With room made for a new one.
put_new :
    (id : ℕ) (slot : CacheSlot) (p : Pager)
    → IsCoherent p
    → 0 < p.cache_capacity
    → find id p.cache ≡ none
    → (slot.dirty ≡ false → (content p.file id ≡ slot.bytes) × (held p id ≡ true))
    → PutOk id slot p (put_slot none id slot p)
put_new id slot p c pos absent from_file =
    let (m, loop, cm, same, low) =
      evict_while_lem (length p.cache) p.cache_capacity p c (omega arith) pos in
    let gone = same.absent_mono id absent in
    let from_m : slot.dirty ≡ false → (content m.file id ≡ slot.bytes) × (id < m.file.count) = λ d.
      (
        sym (view_absent id m gone) ∙ same.view_eq id ∙ view_absent id p absent ∙ (from_file d).0,
        held_absent id m gone (same.held_mono id (from_file d).1),
      ) in
    (
      added id slot m cm gone from_m,
      unfold added in rw loop,
      added-IsCoherent id slot m cm gone from_m,
      unfold added in omega (arith, length-emplace id slot m.cache gone, same.capacity_eq),
      same_then-Puts same (added-Puts id slot m cm gone from_m),
      find-added id slot m cm gone from_m id ∙ ground (arith, ==_iff id id),
    )

put_cache-put_slot :
    (id : ℕ) (slot : CacheSlot) (p : Pager)
    → 0 < p.cache_capacity
    → length slot.bytes ≡ page_size
    → put_cache id slot.bytes slot.dirty p ≡ put_slot (find id p.cache) id slot p
unfolding put_cache
put_cache-put_slot id slot p pos size =
    let sized : (length slot.bytes == page_size) ≡ true = (==_iff _ page_size).1 size in
    let capacity : (p.cache_capacity == 0) ≡ false = ground arith in rw (sized, capacity)

-- `put_cache` with a capacity: a dirty page over or beside what is there, or a page as the file has
-- it that is not cached yet.
pub put_cache_lem :
    (id : ℕ) (slot : CacheSlot) (p : Pager)
    → IsCoherent p
    → 0 < p.cache_capacity
    → length p.cache ≤ p.cache_capacity
    → length slot.bytes ≡ page_size
    → (slot.dirty ≡ false
        → (find id p.cache ≡ none) × (content p.file id ≡ slot.bytes) × (held p id ≡ true))
    → PutOk id slot p (put_cache id slot.bytes slot.dirty p)
put_cache_lem id slot p c pos small size from_file =
    rw (put_cache-put_slot id slot p pos size) (elim (Option-cases (find id p.cache)) [
      | inl absent ↦
          rw absent (put_new id slot p c pos absent (λ d. ((from_file d).1, (from_file d).2)))
      | inr (old, here) ↦ rw here (put_over id slot old p c small here (is_dirty old here))
    ])
  where
    is_dirty : (old : CacheSlot) → find id p.cache ≡ some old → slot.dirty ≡ true
    is_dirty old here = elim (Bool-cases slot.dirty) [
      | inl d ↦ d
      | inr clean ↦ absurd (ground (arith, from_file clean))
    ]
