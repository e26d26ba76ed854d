-- ===== src/Storage/Pager/Flush.antt =====
-- `flush` of src/storage/pager.cpp: afterwards the file holds what the readers of the pager see.
use cw_db.Prelude.{
  ℕ, ◌≤◌, ◌<◌, ◌≡◌, refl, true, false, List, [], ◌∷◌, none, some, inl, inr, ◌==◌, if◌then◌else◌,
  length, arith, ap, sym, ◌∙◌, Option-cases, ==_iff,
}
use cw_db.Prelude.Map.{find, assign, nat_eq, find-assign}
use cw_db.Prelude.Error.{ok}
use cw_db.Storage.Pager.{stream_flush, Pager, CacheSlot, content, flush, flush_slots, and_then}
use cw_db.Storage.Pager.Ids.{Distinct, keys, mem-keys, keys-assign, length-assign}
use cw_db.Storage.Pager.Invariant.{
  view, held, IsCoherent, SamePages, SamePages-refl, SamePages-trans, file_after,
  write_if_dirty-file_after, content-file_after, count-file_after,
}
use cw_db.Storage.Pager.PutCache.{view_absent, held_absent}
use cw_db.Storage.Pager.Reads.{ReadOk, SamePages-ReadOk, view_here}
use cw_db.Storage.Pager.Refinement.{IsValid}

-- The file has what the slot has.
abbrev Saved : Pager → ℕ → CacheSlot → Type 0
Saved p j s = (content p.file j ≡ s.bytes) × (j < p.file.count)

-- Where the loop stands: the slots ahead are in the cache, and all others are saved.
record Flushing (slots : List (ℕ × CacheSlot)) (p : Pager) : Type 0 where
  coherent : IsCoherent p
  ahead_distinct : Distinct (keys slots)
  ahead : (j : ℕ) (s : CacheSlot) → find j slots ≡ some s → find j p.cache ≡ some s
  behind : (j : ℕ) (s : CacheSlot) → find j p.cache ≡ some s → find j slots ≡ none → Saved p j s

module _ (id : ℕ) (slot : CacheSlot) (slots : List (ℕ × CacheSlot)) (p : Pager)
    (f : Flushing ((id, slot) ∷ slots) p) where
  saved_slot : CacheSlot
  saved_slot = record slot { dirty = false }

  saved : Pager
  unfolding saved_slot
  saved = record p { file = file_after id slot p.file; cache = assign id saved_slot p.cache }

  here : find id p.cache ≡ some slot
  unfolding find
  here = f.ahead id slot (ground (arith, ==_iff id id))

  find-saved : (j : ℕ) → find j saved.cache ≡ (if id == j then some saved_slot else find j p.cache)
  unfolding saved
  find-saved j = find-assign id j saved_slot slot p.cache here

  content-saved :
      (j : ℕ) → content saved.file j ≡ (if id == j then slot.bytes else content p.file j)
  unfolding saved
  content-saved j = content-file_after id j slot p.file (λ h. (f.coherent.clean id slot here h).0)

  count-saved : (p.file.count ≤ saved.file.count) × (id < saved.file.count)
  unfolding saved
  count-saved = count-file_after id slot p.file (λ h. (f.coherent.clean id slot here h).1)

  saved-IsCoherent : IsCoherent saved
  unfolding saved
  saved-IsCoherent =
      let c = f.coherent in
      record {
        good = c.good;
        takes = c.takes;
        sizes = omega (arith, c.sizes, length-assign id saved_slot p.cache);
        listed = λ j. ground (arith, c.listed j, find-saved j, here, ==_iff id j);
        lru_distinct = c.lru_distinct;
        keys_distinct = rw (keys-assign id saved_slot p.cache) c.keys_distinct;
        clean = λ j s h d.
            ground (arith, find-saved j, content-saved j, count-saved, c.clean j s, ==_iff id j);
      }

  saved-SamePages : SamePages p saved
  unfolding saved view held
  saved-SamePages = record {
    view_eq = λ j. ground (arith, find-saved j, content-saved j, here, ==_iff id j);
    held_mono = λ j h. ground (arith, find-saved j, count-saved, ==_iff id j);
    absent_mono = λ j h. ground (arith, find-saved j, here, ==_iff id j);
    count_eq = refl;
    capacity_eq = refl;
    open_eq = refl;
  }

  not_ahead : find id slots ≡ none
  not_ahead = ground (arith, mem-keys id slots, f.ahead_distinct)

  ahead-saved : (j : ℕ) (s : CacheSlot) → find j slots ≡ some s → find j saved.cache ≡ some s
  unfolding find
  ahead-saved j s h = ground (arith, find-saved j, f.ahead j s, not_ahead, ==_iff id j)

  behind-saved :
      (j : ℕ) (s : CacheSlot) → find j saved.cache ≡ some s → find j slots ≡ none → Saved saved j s
  unfolding find saved_slot
  behind-saved j s h k =
      ground (arith, find-saved j, content-saved j, count-saved, f.behind j s, ==_iff id j)

  saved-Flushing : Flushing slots saved
  saved-Flushing = record {
    coherent = saved-IsCoherent;
    ahead_distinct = f.ahead_distinct.1;
    ahead = ahead-saved;
    behind = behind-saved;
  }

  flush-saved : flush_slots ((id, slot) ∷ slots) p ≡ flush_slots slots saved
  unfolding flush_slots saved saved_slot
  flush-saved =
      ap
        (λ r. and_then {B = Unit {0}} r (λ _ q.
          flush_slots slots
            (record q { cache = assign id (record slot { dirty = false }) q.cache })))
        (write_if_dirty-file_after id slot p f.coherent.good f.coherent.takes)

  length-saved : length saved.cache ≡ length p.cache
  unfolding saved
  length-saved = length-assign id saved_slot p.cache

-- The loop over all slots ends with all of them saved.
flush_slots_lem :
    (slots : List (ℕ × CacheSlot)) (p : Pager)
    → Flushing slots p
    → (q : Pager) × (flush_slots slots p ≡ (ok tt, q))
      × IsCoherent q
      × SamePages p q
      × (length q.cache ≡ length p.cache)
      × ((j : ℕ) (s : CacheSlot) → find j q.cache ≡ some s → Saved q j s)
flush_slots_lem [] p f = (
  p,
  unfold flush_slots in refl,
  f.coherent,
  SamePages-refl p,
  refl,
  λ j s h. f.behind j s h (unfold find in refl),
)
flush_slots_lem ((id, slot) ∷ slots) p f =
    let (q, e, c, same, size, all) =
      flush_slots_lem slots (saved id slot slots p f) (saved-Flushing id slot slots p f) in
    (
      q,
      flush-saved id slot slots p f ∙ e,
      c,
      SamePages-trans (saved-SamePages id slot slots p f) same,
      size ∙ length-saved id slot slots p f,
      all,
    )

-- The disk does not show in what readers see.
disk-ReadOk : (p q : Pager) → ReadOk p q → ReadOk p (record q { disk = q.file })
unfolding view held
disk-ReadOk p q r = record {
  valid = record {
    coherent = record {
      good = r.valid.coherent.good;
      takes = r.valid.coherent.takes;
      sizes = r.valid.coherent.sizes;
      listed = r.valid.coherent.listed;
      lru_distinct = r.valid.coherent.lru_distinct;
      keys_distinct = r.valid.coherent.keys_distinct;
      clean = r.valid.coherent.clean;
    };
    small = r.valid.small;
    complete = r.valid.complete;
    sized = r.valid.sized;
  };
  view_eq = r.view_eq;
  count_eq = r.count_eq;
  capacity_eq = r.capacity_eq;
  open_eq = r.open_eq;
}

flush_lem :
    (p : Pager)
    → IsValid p
    → p.is_open ≡ true
    → (q : Pager) × (flush p ≡ (ok tt, q))
      × ReadOk p q
      × ((j : ℕ) → j < p.page_count → (content q.disk j ≡ view p j) × (j < q.disk.count))
unfolding flush
flush_lem p v is_open =
    let start : Flushing p.cache p = record {
      coherent = v.coherent;
      ahead_distinct = v.coherent.keys_distinct;
      ahead = λ j s h. h;
      behind = λ j s h k. absurd (ground arith);
    } in
    let (q, e, c, same, size, all) = flush_slots_lem p.cache p start in
    (
      record q { disk = q.file },
      ap
            (λ b.
              if b
              then and_then (flush_slots p.cache p) (λ _ q. (ok tt, stream_flush q))
              else (ok tt, p))
            is_open
          ∙ ap (λ m. and_then {B = Unit {0}} m (λ _ q. (ok tt, stream_flush q))) e
          ∙ ap
              (λ b. (
                ok tt,
                record q { disk = if b then (if q.full then q.disk else q.file) else q.disk },
              ))
              c.good
          ∙ ap (λ b. (ok tt, record q { disk = if b then q.disk else q.file })) c.takes,
      disk-ReadOk p q
          (SamePages-ReadOk p q v c (omega (arith, size, same.capacity_eq, v.small)) same),
      λ j h. saved_page q j (same.held_mono j (v.complete j h)) (same.view_eq j) all,
    )
  where
    saved_page :
        (q : Pager) (j : ℕ)
        → held q j ≡ true
        → view q j ≡ view p j
        → ((i : ℕ) (s : CacheSlot) → find i q.cache ≡ some s → Saved q i s)
        → (content q.file j ≡ view p j) × (j < q.file.count)
    saved_page q j h same all = elim (Option-cases (find j q.cache)) [
      | inl absent ↦ (sym (view_absent j q absent) ∙ same, held_absent j q absent h)
      | inr (s, hit) ↦
          let at_file = all j s hit in (at_file.0 ∙ sym (view_here j q hit) ∙ same, at_file.1)
    ]

-- After a flush of a valid, open pager, which succeeds, any page below the count has left the cache
-- and the buffer of the stream as readers see it; the pager stays valid, and no page that readers see has
-- changed.
pub flush-durable :
    (p : Pager) (j : ℕ)
    → IsValid p
    → p.is_open ≡ true
    → j < p.page_count
    → ((flush p).0 ≡ ok tt)
      × (content (flush p).1.disk j ≡ view p j)
      × (j < (flush p).1.disk.count)
      × ReadOk p (flush p).1
flush-durable p j v is_open below =
    let (q, e, r, saved_all) = flush_lem p v is_open in
    let (at_file, inside) = saved_all j below in rw e (refl, at_file, inside, r)
