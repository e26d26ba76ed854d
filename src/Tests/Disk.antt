-- ===== src/Tests/Disk.antt =====
-- Tables over the disk index at concrete states: storage/table.cpp, sql/executor.cpp, storage/disk_bsp_index.cpp.
use cw_db.Prelude.{
  ℕ, zero, suc, ◌^◌, ◌<◌, ◌≤◌, ◌≡◌, ◌↔◌, refl, true, not, ◌==◌, List, [], ◌∷◌, Option, none, some,
  inl, inr, get_elem?, length, arith, ap, sym, subst, ◌∙◌, ==_iff,
}
use cw_db.Prelude.Int.{pos}
use cw_db.Prelude.Bytes.{codes, compare_bytes, le_bytes}
use cw_db.Prelude.Map.{find, nat_eq, assign}
use cw_db.Prelude.Error.{ok, throw_if, count_mismatch, ◌>>◌}
use cw_db.Core.Value.{Value, DataType, int, str, eq_value, matches, compare_value}
use cw_db.Core.Value.Order.{eq_value_iff}
use cw_db.Storage.ValueIo.{encoding, encoded_value_size}
use cw_db.Sql.Schema.{require_column, ColumnDef, column_is_indexed, index_of}
use cw_db.Sql.Ast.{CompareOp, Expr, column_ref, literal, compare}
use cw_db.Sql.Where.{Row, eval_where, eval_atom, to_bool_three_valued}
use cw_db.Sql.Hint.{derive_index_hint, first_hint, clauses_of, add_clauses, add_clause}
use cw_db.Sql.Select.{
  matched, select_candidates, filter_rows, delete_rows, erase_all, insert_rows, update_rows,
  resolve, update_all, evaluate, count_from, insert_all, positions_of,
}
use cw_db.Sql.Select.Matches.{IsKept}
use cw_db.Sql.Select.Complete.{matched-IsKept}
use cw_db.Sql.Select.Effects.{
  IsSynced, InsertsRoom, UpdatesRoom, insert_rows-IsSynced, update_rows-IsSynced,
  delete_rows-deletes,
}
use cw_db.Storage.Page.{page_size}
use cw_db.Storage.Page.RoundTrip.{stored}
use cw_db.Storage.Page.{NodeType, ParsedPage}
use cw_db.Storage.Pager.{File}
use cw_db.Storage.Pager.Ids.{mem}
use cw_db.Storage.Index.Tree.{Tree}
use cw_db.Storage.Index.Change.{insert_key, erase_key}
use cw_db.Storage.Index.OneLeaf.{IsOneLeaf, entries_bytes}
use cw_db.Storage.Index.OneLeaf.InsertKey.{insert_key-OneLeaf}
use cw_db.Storage.Index.OneLeaf.EraseKey.{erase_key-OneLeaf}
use cw_db.Storage.Table.{
  IndexOps, Table, insert, update, erase_row, assign_all, enforce_constraints, check_cells,
  check_keys, index_find, index_at, install_from, remove_from, change_index, open_indexes,
  open_from, materialize, fill_given, fill_rest,
}
use cw_db.Storage.Table.Rows.{IsValid}
use cw_db.Storage.Table.Laws.{IndexLaws}
use cw_db.Storage.ValueIo.RoundTrip.{IsStorable}
use cw_db.Storage.Table.Follow.{HaveRoom}
use cw_db.Storage.Table.Steps.{remove_from-SameRows}
use cw_db.Storage.Table.Tracks.{Follows}
use cw_db.Storage.Table.Agrees.{
  Agrees, UpdateRoom, column_of, update-Agrees, insert-Agrees, erase_row-Agrees,
}
use cw_db.Storage.Table.Sorted.{lookup_entry, with_entry, without}
use cw_db.Storage.Table.Disk.{disk_ops}
use cw_db.Storage.Table.Disk.Laws.{
  disk_laws, IsSmall, LeafHasRoom, entries_of, entries_of-IsOneLeaf,
}
use cw_db.Tests.Tables.{id_column, name_column, columns, no_match}
use cw_db.Tests.Leaves.{pager, two, leaf, tree, entry_of, made, tree-IsOneLeaf}

same_ok : {A : Type 0} (x y : A) → ok x ≡ ok y → x ≡ y
same_ok x y h = ground arith

abbrev no_files : ℕ → Option File
no_files col = none

abbrev ops : IndexOps
ops = disk_ops no_files

abbrev laws : IndexLaws ops
laws = disk_laws no_files

abbrev ann : Row
ann = int (pos 3) ∷ str (codes "ann") ∷ []

abbrev bob : Row
bob = int (pos 8) ∷ str (codes "bob") ∷ []

abbrev people : Table Tree
people = record {
  name = codes "people";
  schema = columns;
  records = (1, ann) ∷ (2, bob) ∷ [];
  order = 1 ∷ 2 ∷ [];
  indexes = (0, tree) ∷ [];
  bound = true;
  next_id = 3;
}

rows_fit :
    (id : ℕ) (row : Row)
    → find id people.records ≡ some row
    → (length row ≡ length columns) × (check_cells columns row ≡ ok tt)
unfolding find check_cells matches
rows_fit zero row h = ground (arith, h)
rows_fit (suc zero) row h =
    let e : ann ≡ row = ground (arith, h) in
    subst (λ r. (length r ≡ length columns) × (check_cells columns r ≡ ok tt)) e (refl, refl)
rows_fit (suc (suc zero)) row h =
    let e : bob ≡ row = ground (arith, h) in
    subst (λ r. (length r ≡ length columns) × (check_cells columns r ≡ ok tt)) e (refl, refl)
rows_fit (suc (suc (suc id))) row h = ground (arith, h)

people-IsValid : IsValid people
people-IsValid = record {
  listed = λ id. unfold mem find in ground arith;
  distinct = (unfold mem in refl, (unfold mem in refl, tt));
  below = λ id h. unfold mem in ground arith;
  rows = rows_fit;
}

tree-IsSmall : IsSmall DataType.int tree
tree-IsSmall = record {
  kvs = two;
  leaf = stored NodeType.leaf leaf;
  one = tree-IsOneLeaf;
  few = omega arith;
  fits = unfold encoding le_bytes in omega arith;
  keys_fit =
      unfold encoded_value_size in
      (((omega arith, omega arith), omega arith), (((omega arith, omega arith), omega arith), tt));
}

seen : (v : Value) → laws.view tree v ≡ lookup_entry two v
seen v =
    ap (λ l. lookup_entry l v)
      (entries_of-IsOneLeaf DataType.int two tree (stored NodeType.leaf leaf) tree-IsOneLeaf)

Follows-ids : Follows ops laws DataType.int (column_of people.records 0) tree
unfolding column_of lookup_entry find matches
Follows-ids = record {
  sound = tree-IsSmall;
  agrees = λ v key id. (
    λ h. ground (
      arith,
      h,
      seen v,
      eq_value_iff (int (pos 3)) v,
      eq_value_iff (int (pos 8)) v,
      ==_iff 1 id,
      ==_iff 2 id,
    ),
    λ h. ground (
      arith,
      h,
      seen v,
      eq_value_iff (int (pos 3)) v,
      eq_value_iff (int (pos 8)) v,
      ==_iff 1 id,
      ==_iff 2 id,
    ),
  );
}

people-Agrees : Agrees ops laws people
unfolding find
people-Agrees = record { bound = refl; follows = go }
  where
    go :
        (col : ℕ) (c : ColumnDef)
        → get_elem? people.schema col ≡ some c
        → c.indexed ≡ true
        → (idx : Tree) × (find col people.indexes ≡ some idx)
          × Follows ops laws c.type (column_of people.records col) idx
    go zero c here on =
        let e : id_column ≡ c = ground (arith, here) in
        (
          tree,
          refl,
          subst (λ d. Follows ops laws d.type (column_of people.records 0) tree) e Follows-ids,
        )
    go (suc zero) c here on = ground (arith, here, on)
    go (suc (suc col)) c here on = ground (arith, here)

people-IsSynced : IsSynced ops laws people
people-IsSynced = record { valid = people-IsValid; agrees = people-Agrees }

looked_eight : ops.lookup tree (int (pos 8)) ≡ ok (some 2)
unfolding lookup_entry eq_value
looked_eight =
    laws.lookup_view DataType.int tree (int (pos 8)) tree-IsSmall (refl, unfold matches in refl)
    ∙ ap ok (seen (int (pos 8)))

abbrev id_is_eight : Option Expr
id_is_eight = some (compare CompareOp.eq (column_ref (codes "id")) (literal (int (pos 8))))

found_eight : matched ops no_match id_is_eight people ≡ ok (2 ∷ [])
unfolding matched select_candidates derive_index_hint first_hint clauses_of add_clauses add_clause
    column_is_indexed index_find index_at eq_value matches filter_rows find eval_where eval_atom
    index_of compare_bytes compare_value to_bool_three_valued pager
found_eight = rw looked_eight refl

matched-IsKept_example : (mem 2 (2 ∷ []) ≡ true) ↔ IsKept ops no_match id_is_eight people 2
matched-IsKept_example =
    matched-IsKept ops laws no_match id_is_eight people (2 ∷ []) 2 people-IsValid people-Agrees
      found_eight

abbrev one_left : List (Value × ℕ)
one_left = (int (pos 3), 1) ∷ []

erased_eight :
    (u : Tree) × (node : ParsedPage) × (erase_key (int (pos 8)) tree ≡ (ok true, u))
    × IsOneLeaf DataType.int one_left u node
unfolding lookup_entry eq_value without
erased_eight =
    elim (erase_key-OneLeaf DataType.int two tree (stored NodeType.leaf leaf) (int (pos 8))
      (entry_of 8 0) tree-IsOneLeaf (refl, unfold matches in refl) (omega arith, omega arith)
      (made 8 0) (omega arith) (unfold encoding le_bytes in omega arith)) [
        | inl (_, _, u, node, done, one) ↦ (u, node, done, one)
        | inr (gone, _, _, _) ↦ absurd (ground (arith, gone))
      ]

erase_returns : (erase_row ops 2 people).0 ≡ ok tt
unfolding erase_row column_is_indexed remove_from change_index open_indexes open_from find
erase_returns = rw (erased_eight.2) refl

erase_row-Agrees_example : Agrees ops laws (erase_row ops 2 people).1
erase_row-Agrees_example =
    erase_row-Agrees ops laws 2 people people-IsValid people-Agrees erase_returns

delete_returns : (delete_rows ops no_match id_is_eight people).0 ≡ ok 1
unfolding delete_rows erase_all erase_row column_is_indexed remove_from change_index open_indexes
    open_from find
delete_returns = rw (found_eight, erased_eight.2) refl

delete_rows-deletes_example :
    IsSynced ops laws (delete_rows ops no_match id_is_eight people).1
    × ((id : ℕ)
        → IsKept ops no_match id_is_eight people id
        → find id (delete_rows ops no_match id_is_eight people).1.records ≡ none)
    × ((id : ℕ)
        → ¬ IsKept ops no_match id_is_eight people id
        → find id (delete_rows ops no_match id_is_eight people).1.records ≡ find id people.records)
delete_rows-deletes_example =
    delete_rows-deletes ops laws no_match id_is_eight people 1 people-IsSynced delete_returns

-- A new row, and the room for its key.
abbrev cid : Row
cid = int (pos 9) ∷ str (codes "cid") ∷ []

looked_nine : ops.lookup tree (int (pos 9)) ≡ ok none
unfolding lookup_entry eq_value
looked_nine =
    laws.lookup_view DataType.int tree (int (pos 9)) tree-IsSmall (refl, unfold matches in refl)
    ∙ ap ok (seen (int (pos 9)))

room_in :
    (t : Tree) (kvs : List (Value × ℕ)) (id : ℕ)
    → entries_of t ≡ kvs
    → id < 2 ^ 64
    → length kvs < 255
    → entries_bytes 12 (with_entry (int (pos 9)) id kvs) ≤ page_size
    → LeafHasRoom t (int (pos 9)) id
room_in t kvs id same small few fits =
    subst
      (λ l.
        IsStorable (int (pos 9))
        × (id < 2 ^ 64)
        × (length l < 255)
        × (entries_bytes 12 (with_entry (int (pos 9)) id l) ≤ page_size))
      (sym same) ((omega arith, omega arith), small, few, fits)

tree_room : LeafHasRoom tree (int (pos 9)) 3
tree_room =
    room_in tree two 3
      (entries_of-IsOneLeaf DataType.int two tree (stored NodeType.leaf leaf) tree-IsOneLeaf)
      (omega arith) (omega arith) (unfold with_entry compare_value encoding le_bytes in omega arith)

-- Only the first column has an index.
room_at :
    (name : Value) (id : ℕ) (t : Table Tree) (idx : Tree)
    → t.schema ≡ columns
    → find 0 t.indexes ≡ some idx
    → LeafHasRoom idx (int (pos 9)) id
    → HaveRoom ops laws id (int (pos 9) ∷ name ∷ []) 0 t
room_at name id t idx same at_zero room zero c v other le here on cell found =
    let e : idx ≡ other = ground (arith, at_zero, found) in
    let e' : int (pos 9) ≡ v = ground (arith, cell) in
    subst (λ x. LeafHasRoom x v id) e (subst (λ w. LeafHasRoom idx w id) e' room)
room_at name id t idx same at_zero room (suc zero) c v other le here on cell found =
    let e : some name_column ≡ some c = ap (λ s. get_elem? s 1) (sym same) ∙ here in
    absurd (ground (arith, e, on))
room_at name id t idx same at_zero room (suc (suc col)) c v other le here on cell found =
    absurd (ground (arith, cell))

inserted_nine : (u : Tree) × (insert_key (int (pos 9)) 3 tree ≡ (ok tt, u))
unfolding lookup_entry eq_value
inserted_nine =
    elim (insert_key-OneLeaf DataType.int two tree (stored NodeType.leaf leaf) (int (pos 9)) 3
      (entry_of 9 3) tree-IsOneLeaf (refl, unfold matches in refl) (omega arith, omega arith)
      (omega arith) (made 9 3) (omega arith)
      (unfold with_entry compare_value encoding le_bytes in omega arith)) [
        | inl (_, u, _, done, _) ↦ (u, done)
        | inr (j, there, _, _, _) ↦ absurd (ground (arith, there))
      ]

insert_returns : (insert ops cid people).0 ≡ ok 3
unfolding insert enforce_constraints check_cells check_keys matches index_find index_at
    column_is_indexed install_from change_index open_indexes open_from find pager
insert_returns = rw (looked_nine, inserted_nine.1) refl

insert-Agrees_example : Agrees ops laws (insert ops cid people).1
insert-Agrees_example =
    insert-Agrees ops laws cid people 3 people-IsValid people-Agrees
      (room_at (str (codes "cid")) 3 people tree refl (unfold find in refl) tree_room)
      insert_returns

inserted_after : (u : Tree) × (insert_key (int (pos 9)) 2 erased_eight.0 ≡ (ok tt, u))
unfolding lookup_entry eq_value
inserted_after =
    elim (insert_key-OneLeaf DataType.int one_left erased_eight.0 erased_eight.1 (int (pos 9)) 2
      (entry_of 9 2) erased_eight.3 (refl, unfold matches in refl) (omega arith, omega arith)
      (omega arith) (made 9 2) (omega arith)
      (unfold with_entry compare_value encoding le_bytes in omega arith)) [
        | inl (_, u, _, done, _) ↦ (u, done)
        | inr (j, there, _, _, _) ↦ absurd (ground (arith, there))
      ]

abbrev to_nine : List (ℕ × Value)
to_nine = (0, int (pos 9)) ∷ []

update_returns : (update ops 2 to_nine people).0 ≡ ok tt
unfolding update assign_all enforce_constraints check_cells check_keys matches index_find index_at
    column_is_indexed install_from remove_from change_index open_indexes open_from find assign pager
update_returns = rw (looked_nine, erased_eight.2, inserted_after.1) refl

removed_index : find 0 (remove_from ops 0 columns bob people).1.indexes ≡ some erased_eight.0
unfolding remove_from change_index column_is_indexed open_indexes open_from find assign
removed_index = rw (erased_eight.2) refl

removed_room : LeafHasRoom erased_eight.0 (int (pos 9)) 2
removed_room =
    room_in erased_eight.0 one_left 2
      (entries_of-IsOneLeaf DataType.int one_left erased_eight.0 erased_eight.1 erased_eight.3)
      (omega arith) (omega arith) (unfold with_entry compare_value encoding le_bytes in omega arith)

update_room : UpdateRoom ops laws 2 to_nine people
unfolding find assign_all
update_room old row here assigned =
    let e : bob ≡ old = ground (arith, here) in
    let e' : ok (int (pos 9) ∷ str (codes "bob") ∷ []) ≡ ok row =
      ap (assign_all to_nine) e ∙ assigned in
    let same : (int (pos 9) ∷ str (codes "bob") ∷ []) ≡ row = same_ok _ _ e' in
    subst (λ r. HaveRoom ops laws 2 r 0 (remove_from ops 0 columns old people).1) same
      (subst
        (λ o.
          HaveRoom ops laws 2 (int (pos 9) ∷ str (codes "bob") ∷ []) 0
            (remove_from ops 0 columns o people).1)
        e
        (room_at (str (codes "bob")) 2 (remove_from ops 0 columns bob people).1 erased_eight.0
          (remove_from-SameRows ops 0 columns bob people).schema_eq removed_index removed_room))

update-Agrees_example : Agrees ops laws (update ops 2 to_nine people).1
update-Agrees_example =
    update-Agrees ops laws 2 to_nine people people-IsValid people-Agrees update_room update_returns

insert_rows_returns : (insert_rows ops [] (cid ∷ []) people).0 ≡ ok 1
unfolding insert_rows count_from insert_all materialize fill_given fill_rest insert
    enforce_constraints check_cells check_keys matches index_find index_at column_is_indexed
    install_from change_index open_indexes open_from find pager
insert_rows_returns = rw (looked_nine, inserted_nine.1) refl

insert_rows_room :
    (positions : List ℕ)
    → positions_of ops columns [] ≡ ok positions
    → InsertsRoom ops laws positions (cid ∷ []) people
unfolding count_from materialize fill_given fill_rest find
insert_rows_room positions resolved row made =
    let e : ok (0 ∷ 1 ∷ []) ≡ ok positions = resolved in
    let made' : ok cid ≡ ok row =
      subst
        (λ p.
          (throw_if (not (length cid == length p)) count_mismatch >> materialize columns p cid)
          ≡ ok row)
        (sym (same_ok _ _ e)) made in
    (
      subst (λ r. HaveRoom ops laws 3 r 0 people) (same_ok _ _ made')
          (room_at (str (codes "cid")) 3 people tree refl refl tree_room),
      tt,
    )

insert_rows-IsSynced_example : IsSynced ops laws (insert_rows ops [] (cid ∷ []) people).1
insert_rows-IsSynced_example =
    insert_rows-IsSynced ops laws [] (cid ∷ []) people 1 people-IsSynced (omega arith)
      insert_rows_room insert_rows_returns

abbrev id_to_nine : List (List ℕ × Expr)
id_to_nine = (codes "id", literal (int (pos 9))) ∷ []

update_rows_returns : (update_rows ops no_match id_to_nine id_is_eight people).0 ≡ ok 1
unfolding update_rows require_column eval_atom resolve index_of compare_bytes update_all evaluate
    update assign_all enforce_constraints check_cells check_keys matches index_find index_at
    column_is_indexed install_from remove_from change_index open_indexes open_from find assign pager
update_rows_returns = rw (found_eight, looked_nine, erased_eight.2, inserted_after.1) refl

update_rows_room :
    (as_ : List (ℕ × Expr)) (ids : List ℕ)
    → resolve ops columns id_to_nine ≡ ok as_
    → matched ops no_match id_is_eight people ≡ ok ids
    → UpdatesRoom ops laws as_ ids people
unfolding require_column eval_atom resolve index_of compare_bytes evaluate find
update_rows_room as_ ids resolved selected =
    let e : ok ((0, literal (int (pos 9))) ∷ []) ≡ ok as_ = resolved in
    let e' : ok (2 ∷ []) ≡ ok ids = sym found_eight ∙ selected in
    subst (λ a. UpdatesRoom ops laws a ids people) (same_ok _ _ e)
      (subst (λ i. UpdatesRoom ops laws ((0, literal (int (pos 9))) ∷ []) i people) (same_ok _ _ e')
        (λ values evaluated.
          (subst (λ w. UpdateRoom ops laws 2 w people) (same_ok _ _ evaluated) update_room, tt)))

update_rows-IsSynced_example :
    IsSynced ops laws (update_rows ops no_match id_to_nine id_is_eight people).1
update_rows-IsSynced_example =
    update_rows-IsSynced ops laws no_match id_to_nine id_is_eight people 1 people-IsSynced
      update_rows_room update_rows_returns
