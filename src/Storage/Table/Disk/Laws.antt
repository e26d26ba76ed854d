-- ===== src/Storage/Table/Disk/Laws.antt =====
-- The disk index of src/storage/disk_bsp_index.cpp, as src/storage/table.cpp uses it, keeps the laws of an
-- index while its root is a leaf.
use cw_db.Prelude.{
  ℕ, ◌+◌, ◌%◌, ◌^◌, ◌≤◌, ◌<◌, ◌≡◌, refl, Bool, false, List, [], ◌∷◌, Option, none, some, inl, inr,
  ltb, length, take, All, arith, ap, sym, subst, ◌∙◌, Bool-cases,
}
use cw_db.Prelude.Error.{Result, ok, throw}
use cw_db.Core.Value.{Value, DataType, eq_value}
use cw_db.Core.Value.Order.{eq_value_iff}
use cw_db.Storage.ValueIo.{
  encoding, encode_value, decode_value, encoded_value_size, max_index_key_bytes,
}
use cw_db.Storage.ValueIo.RoundTrip.{IsStorable, decode_value_self}
use cw_db.Storage.Page.{LeafEntry, ParsedPage, page_size, parse}
use cw_db.Storage.Pager.{File}
use cw_db.Storage.Pager.Invariant.{view}
use cw_db.Storage.Index.{make_entry}
use cw_db.Storage.Index.Tree.{Tree}
use cw_db.Storage.Index.Change.{insert_key, erase_key}
use cw_db.Storage.Index.Change.Entries.{Holds, key_bytes}
use cw_db.Storage.Index.OneLeaf.{IsOneLeaf, entries_bytes}
use cw_db.Storage.Index.OneLeaf.Insert.{length-with_entry}
use cw_db.Storage.Index.OneLeaf.InsertKey.{insert_key-OneLeaf}
use cw_db.Storage.Index.OneLeaf.Erased.{entries_bytes-without}
use cw_db.Storage.Index.OneLeaf.EraseKey.{erase_key-OneLeaf}
use cw_db.Storage.Index.OneLeaf.FindKey.{find_key-OneLeaf}
use cw_db.Storage.Table.Laws.{IndexLaws, IsRange, IsKey, IsStart}
use cw_db.Storage.Table.Sorted.{
  Entries, lookup_entry, lookup_entry-with_entry, lookup_entry-without, with_entry, without,
  from_place-IsRange,
}
use cw_db.Storage.Table.Disk.{disk_ops, entries_from, start_at}
use cw_db.Storage.Table.Disk.Places.{entries_from-from_place}

-- The keys and record ids that the root page of an index encodes.
abbrev pub decoded : Result (Value × ℕ) → ℕ → Entries → Entries
decoded (throw e) rid rest = rest
decoded (ok (v, n)) rid rest = (v, rid) ∷ rest

unfoldable pub decode_all : List LeafEntry → Entries
decode_all [] = []
decode_all (e ∷ es) = decoded (decode_value (take e.key_len e.key)) e.rid (decode_all es)

abbrev pub entries_in : Result ParsedPage → Entries
entries_in (throw e) = []
entries_in (ok page) = decode_all page.leaf_entries

unfoldable pub entries_of : Tree → Entries
unfolding decode_all
entries_of t = entries_in (parse t.root.root_page (view t.pager t.root.root_page))

decode_all-Holds : (kvs : Entries) (es : List LeafEntry) → Holds kvs es → decode_all es ≡ kvs
unfolding decode_all
decode_all-Holds [] [] h = refl
decode_all-Holds [] (e ∷ es) h = absurd h
decode_all-Holds (kv ∷ kvs) [] h = absurd h
decode_all-Holds ((v, id) ∷ kvs) (e ∷ es) h =
    rw (key_bytes v id e h.0, decode_value_self v h.0.storable, h.0.rid_eq)
      (ap (◌∷◌ (v, id)) (decode_all-Holds kvs es h.1))

-- A key that an index page can take.
abbrev pub Fits : Value × ℕ → Type 0
Fits kv = IsStorable kv.0 × (encoded_value_size kv.0 ≤ max_index_key_bytes)

All-with_entry :
    (v : Value) (id : ℕ) (kvs : Entries)
    → Fits (v, id)
    → All Fits kvs
    → All Fits (with_entry v id kvs)
unfolding with_entry
All-with_entry v id [] fits all = (fits, tt)
All-with_entry v id ((w, i) ∷ kvs) fits all =
    let rest = All-with_entry v id kvs fits all.1 in ground (arith, rest, fits, all.0, all.1)

All-without : (v : Value) (kvs : Entries) → All Fits kvs → All Fits (without v kvs)
unfolding without
All-without v [] all = tt
All-without v ((w, i) ∷ kvs) all = elim (Bool-cases (eq_value w v)) [
  | inl on ↦ rw on (All-without v kvs all.1)
  | inr off ↦ rw off (all.0, All-without v kvs all.1)
]

Fits-lookup_entry :
    (v : Value) (id : ℕ) (kvs : Entries)
    → All Fits kvs
    → lookup_entry kvs v ≡ some id
    → Fits (v, id)
unfolding lookup_entry
Fits-lookup_entry v id [] all h = absurd (ground arith)
Fits-lookup_entry v id ((w, i) ∷ kvs) all h = elim (Bool-cases (eq_value w v)) [
  | inl same ↦ subst (λ x. Fits (x, id)) ((eq_value_iff w v).0 same) all.0
  | inr other ↦ Fits-lookup_entry v id kvs all.1 (ground (arith, h, other))
]

length-without : (v : Value) (kvs : Entries) → length (without v kvs) ≤ length kvs
unfolding without
length-without v [] = omega arith
length-without v ((w, i) ∷ kvs) = ground (arith, length-without v kvs)

make_entry-Fits : (v : Value) (id : ℕ) → Fits (v, id) → (e : LeafEntry) × (make_entry v id ≡ ok e)
unfolding make_entry encode_value
make_entry-Fits v id fits =
    let small : ltb max_index_key_bytes (encoded_value_size v) ≡ false = ground (arith, fits.1) in
    (
      record { key = encoding v; key_len = length (encoding v) % 2 ^ 16; rid = id },
      ground (arith, small),
    )

-- An insertion that returns made an entry of the key.
made_entry :
    (v : Value) (id : ℕ) (t : Tree)
    → IsStorable v
    → (insert_key v id t).0 ≡ ok tt
    → ((e : LeafEntry) × (make_entry v id ≡ ok e)) × (encoded_value_size v ≤ max_index_key_bytes)
unfolding insert_key make_entry encode_value
made_entry v id t storable h = elim (Bool-cases (ltb max_index_key_bytes (encoded_value_size v))) [
  | inl big ↦ absurd (ground (arith, h, big))
  | inr small ↦
      let fits : encoded_value_size v ≤ max_index_key_bytes = ground (arith, small) in
      (make_entry-Fits v id (storable, fits), fits)
]

-- The root is a leaf, which holds keys of the type and fits on its page.
pub record IsSmall (ty : DataType) (t : Tree) : Type 0 where
  pub kvs : Entries
  pub leaf : ParsedPage
  pub one : IsOneLeaf ty kvs t leaf
  pub few : length kvs < 256
  pub fits : entries_bytes 12 kvs ≤ page_size
  pub keys_fit : All Fits kvs

pub entries_of-IsOneLeaf :
    (ty : DataType) (kvs : Entries) (t : Tree) (leaf : ParsedPage)
    → IsOneLeaf ty kvs t leaf
    → entries_of t ≡ kvs
unfolding entries_of
entries_of-IsOneLeaf ty kvs t leaf h =
    ap entries_in h.page ∙ decode_all-Holds kvs leaf.leaf_entries h.holds

-- The entry can be stored, and the leaf with it fits on its page and has 255 entries at most.
abbrev pub LeafHasRoom : Tree → Value → ℕ → Type 0
LeafHasRoom t v id =
    IsStorable v
    × (id < 2 ^ 64)
    × (length (entries_of t) < 255)
    × (entries_bytes 12 (with_entry v id (entries_of t)) ≤ page_size)

pub added :
    (ty : DataType) (t : Tree) (v : Value) (id : ℕ)
    → IsSmall ty t
    → IsKey ty v
    → LeafHasRoom t v id
    → lookup_entry (entries_of t) v ≡ none
    → (insert_key v id t).0 ≡ ok tt
    → IsSmall ty (insert_key v id t).1
      × (entries_of (insert_key v id t).1 ≡ with_entry v id (entries_of t))
added ty t v id s key room free returns =
    let same = entries_of-IsOneLeaf ty s.kvs t s.leaf s.one in
    let ((e, made), short) = made_entry v id t room.0 returns in
    let few : length s.kvs < 255 = subst (λ l. length l < 255) same room.2 in
    let fits = subst (λ l. entries_bytes 12 (with_entry v id l) ≤ page_size) same room.3 in
    let grown = length-with_entry v id s.kvs in
    elim (insert_key-OneLeaf ty s.kvs t s.leaf v id e s.one key room.0 room.1 made few fits) [
      | inr (j, there, _, _, _) ↦
          absurd (ground (arith, there, ap (λ l. lookup_entry l v) same, free))
      | inl (_, u, node, done, one) ↦
          let small : IsSmall ty u = record {
            kvs = with_entry v id s.kvs;
            leaf = node;
            one = one;
            few = omega (arith, grown, few);
            fits = fits;
            keys_fit = All-with_entry v id s.kvs (room.0, short) s.keys_fit;
          } in
          let seen : entries_of u ≡ with_entry v id (entries_of t) =
            entries_of-IsOneLeaf ty (with_entry v id s.kvs) u node one
            ∙ ap (with_entry v id) (sym same) in
          subst (λ m. IsSmall ty m.1 × (entries_of m.1 ≡ with_entry v id (entries_of t))) (sym done)
            (small, seen)
    ]

pub dropped :
    (ty : DataType) (t : Tree) (v : Value) (id : ℕ)
    → IsSmall ty t
    → IsKey ty v
    → lookup_entry (entries_of t) v ≡ some id
    → IsSmall ty (erase_key v t).1 × (entries_of (erase_key v t).1 ≡ without v (entries_of t))
dropped ty t v id s key there =
    let same = entries_of-IsOneLeaf ty s.kvs t s.leaf s.one in
    let here : lookup_entry s.kvs v ≡ some id = ap (λ l. lookup_entry l v) (sym same) ∙ there in
    let key_fits = Fits-lookup_entry v id s.kvs s.keys_fit here in
    let (e, made) = make_entry-Fits v 0 key_fits in
    elim (erase_key-OneLeaf ty s.kvs t s.leaf v e s.one key key_fits.0 made s.few s.fits) [
      | inr (gone, _, _, _) ↦ absurd (ground (arith, gone, here))
      | inl (_, _, u, node, done, one) ↦
          let small : IsSmall ty u = record {
            kvs = without v s.kvs;
            leaf = node;
            one = one;
            few = omega (arith, length-without v s.kvs, s.few);
            fits = omega (arith, entries_bytes-without 12 v s.kvs, s.fits);
            keys_fit = All-without v s.kvs s.keys_fit;
          } in
          let seen : entries_of u ≡ without v (entries_of t) =
            entries_of-IsOneLeaf ty (without v s.kvs) u node one ∙ ap (without v) (sym same) in
          subst (λ m. IsSmall ty m.1 × (entries_of m.1 ≡ without v (entries_of t))) (sym done)
            (small, seen)
    ]

pub looked_up :
    (files : ℕ → Option File) (ty : DataType) (t : Tree) (v : Value)
    → IsSmall ty t
    → IsKey ty v
    → (disk_ops files).lookup t v ≡ ok (lookup_entry (entries_of t) v)
looked_up files ty t v s key =
    let (q, it, found, r, shown) =
      find_key-OneLeaf ty s.kvs t s.leaf v s.one key (omega (arith, s.few)) in
    rw found (
      ap ok
        (shown ∙ ap (λ l. lookup_entry l v) (sym (entries_of-IsOneLeaf ty s.kvs t s.leaf s.one))))

pub iterated :
    (ty : DataType) (t : Tree) (from : Option (Value × Bool))
    → IsSmall ty t
    → IsStart ty from
    → IsRange ty
        (lookup_entry (entries_of t))
        from
        (entries_from (t.root.size + 1) (start_at from t.root t.pager))
iterated ty t from s start =
    let same = entries_of-IsOneLeaf ty s.kvs t s.leaf s.one in
    subst
      (λ l.
        IsRange ty (lookup_entry l) from
          (entries_from (t.root.size + 1) (start_at from t.root t.pager)))
      (sym same)
      (subst (IsRange ty (lookup_entry s.kvs) from)
        (sym (entries_from-from_place ty s.kvs t s.leaf from s.one start (omega (arith, s.few))))
        (from_place-IsRange ty from s.kvs s.one.ascends))

-- The program's index keeps the laws while its root is a leaf with room for what is put in.
abbrev pub disk_laws : (files : ℕ → Option File) → IndexLaws (disk_ops files)
disk_laws files = record {
  IsSound = IsSmall;
  view = λ t. lookup_entry (entries_of t);
  HasRoom = LeafHasRoom;
  sound_open = λ ty t s. s.one.opened;
  lookup_view = λ ty t v s key. looked_up files ty t v s key;
  add_sound = λ ty t v id s key room free returns. (added ty t v id s key room free returns).0;
  add_view = λ ty t v k id s key room free returns.
      ap (λ l. lookup_entry l k) (added ty t v id s key room free returns).1
      ∙ lookup_entry-with_entry v k id (entries_of t) free;
  drop_sound = λ ty t v id b s key there returns. (dropped ty t v id s key there).0;
  drop_view = λ ty t v k id b s key there returns.
      ap (λ l. lookup_entry l k) (dropped ty t v id s key there).1
      ∙ lookup_entry-without v k (entries_of t);
  entries_range = λ ty t from s start. iterated ty t from s start;
}
