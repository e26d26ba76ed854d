-- ===== src/Storage/Pager/Puts.antt =====
-- A page enters the cache of src/storage/pager.cpp: moved to the front, overwritten, or new.
use cw_db.Prelude.{
  ℕ, ◌<◌, ◌≡◌, refl, true, false, ◌∷◌, none, some, ◌==◌, if◌then◌else◌, arith, ap, ◌∙◌, ==_iff,
}
use cw_db.Prelude.Bytes.{Bytes}
use cw_db.Prelude.Map.{find, emplace, assign, nat_eq, find-assign, find-emplace}
use cw_db.Storage.Pager.{Pager, CacheSlot, content, touch_cache, remove}
use cw_db.Storage.Pager.Ids.{
  mem, is_some, mem-remove, length-remove, remove-Distinct, keys-assign, length-assign,
  emplace-Distinct, length-emplace,
}
use cw_db.Storage.Pager.Invariant.{view, held, IsCoherent, SamePages}

-- Page `id` now holds the bytes, and no other page changed.
pub record Puts (id : ℕ) (bytes : Bytes) (p q : Pager) : Type 0 where
  pub view_eq : (j : ℕ) → view q j ≡ (if id == j then bytes else view p j)
  pub held_self : held q id ≡ true
  pub held_mono : (j : ℕ) → held p j ≡ true → held q j ≡ true
  pub count_eq : q.page_count ≡ p.page_count
  pub capacity_eq : q.cache_capacity ≡ p.cache_capacity
  pub open_eq : q.is_open ≡ p.is_open

module _ (id : ℕ) (p : Pager) (c : IsCoherent p) {old : CacheSlot}
    (here : find id p.cache ≡ some old) where
  listed_here : mem id p.lru ≡ true
  listed_here = c.listed id ∙ ap is_some here

  touched : Pager
  touched = record p { lru = id ∷ remove id p.lru }

  touch_cache-touched : touch_cache id p ≡ touched
  unfolding touch_cache touched
  touch_cache-touched = rw (here, touch_cache)

  touched-IsCoherent : IsCoherent touched
  unfolding touched mem
  touched-IsCoherent = record {
    good = c.good;
    takes = c.takes;
    sizes = omega (arith, c.sizes, length-remove p.lru id listed_here);
    listed = λ j.
        ground (arith, mem-remove p.lru id j c.lru_distinct, c.listed j, listed_here, ==_iff id j);
    lru_distinct = (
      ground (arith, mem-remove p.lru id id c.lru_distinct),
      remove-Distinct p.lru id c.lru_distinct,
    );
    keys_distinct = c.keys_distinct;
    clean = c.clean;
  }

  -- `touch_cache` on a cached page moves it to the front, and nothing else.
  pub touch_cache_lem :
      IsCoherent (touch_cache id p)
      × SamePages p (touch_cache id p)
      × ((touch_cache id p).cache ≡ p.cache)
  unfolding touched view held
  touch_cache_lem = rw touch_cache-touched (
    touched-IsCoherent,
    record {
      view_eq = λ j. refl;
      held_mono = λ j h. h;
      absent_mono = λ j h. h;
      count_eq = refl;
      capacity_eq = refl;
      open_eq = refl;
    },
    refl,
  )

-- A dirty slot in the place of the one that is cached.
module _ (id : ℕ) (slot : CacheSlot) (p : Pager) (c : IsCoherent p) {old : CacheSlot}
    (here : find id p.cache ≡ some old) (dirty : slot.dirty ≡ true) where
  unfoldable pub assigned : Pager
  assigned = record p { cache = assign id slot p.cache }

  pub find-assigned :
      (j : ℕ) → find j assigned.cache ≡ (if id == j then some slot else find j p.cache)
  unfolding assigned
  find-assigned j = find-assign id j slot old p.cache here

  pub assigned-IsCoherent : IsCoherent assigned
  unfolding assigned
  assigned-IsCoherent = record {
    good = c.good;
    takes = c.takes;
    sizes = omega (arith, c.sizes, length-assign id slot p.cache);
    listed = λ j. ground (arith, c.listed j, find-assigned j, here, ==_iff id j);
    lru_distinct = c.lru_distinct;
    keys_distinct = rw (keys-assign id slot p.cache) c.keys_distinct;
    clean = λ j s h d. ground (arith, find-assigned j, c.clean j s, dirty);
  }

  pub assigned-Puts : Puts id slot.bytes p assigned
  unfolding assigned view held
  assigned-Puts = record {
    view_eq = λ j. ground (arith, find-assigned j);
    held_self = ground (arith, find-assigned id);
    held_mono = λ j h. ground (arith, find-assigned j);
    count_eq = refl;
    capacity_eq = refl;
    open_eq = refl;
  }

-- A new slot at the front, dirty or as the file has the page.
module _ (id : ℕ) (slot : CacheSlot) (p : Pager) (c : IsCoherent p)
    (absent : find id p.cache ≡ none)
    (from_file : slot.dirty ≡ false → (content p.file id ≡ slot.bytes) × (id < p.file.count)) where
  unfoldable pub added : Pager
  added = record p { lru = id ∷ p.lru; cache = emplace id slot p.cache }

  pub find-added : (j : ℕ) → find j added.cache ≡ (if id == j then some slot else find j p.cache)
  unfolding added
  find-added j = find-emplace id j slot p.cache absent

  pub added-IsCoherent : IsCoherent added
  unfolding added mem
  added-IsCoherent = record {
    good = c.good;
    takes = c.takes;
    sizes = omega (arith, c.sizes, length-emplace id slot p.cache absent);
    listed = λ j. ground (arith, c.listed j, find-added j, ==_iff id j);
    lru_distinct = (c.listed id ∙ ap is_some absent, c.lru_distinct);
    keys_distinct = emplace-Distinct id slot p.cache c.keys_distinct;
    clean = λ j s h d. ground (arith, find-added j, c.clean j s, from_file, ==_iff id j);
  }

  pub added-Puts : Puts id slot.bytes p added
  unfolding added view held
  added-Puts = record {
    view_eq = λ j. ground (arith, find-added j);
    held_self = ground (arith, find-added id);
    held_mono = λ j h. ground (arith, find-added j);
    count_eq = refl;
    capacity_eq = refl;
    open_eq = refl;
  }
