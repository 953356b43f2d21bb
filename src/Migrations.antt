-- ===== src/Migrations.antt =====
-- alembic/versions: the migrations as operations on a schema, and the schema that app/models
-- declares. The name of a foreign key is left out, which the models do not give. An operation that the database refuses has no result.
pub mod Revisions
pub mod Metadata
pub mod Laws
use bookmarks_api.Prelude.{
  ℕ, Bool, true, false, not, ◌&&◌, Option, none, some, List, [], ◌∷◌, ◌++◌, select, if◌then◌else◌,
}
use bookmarks_api.Text.{Text, codes, text_eq}
use bookmarks_api.Tags.{member}

-- `sa.Integer()`, `sa.String(length=…)` and `sa.DateTime(timezone=True)`
pub data ColumnType : Type 0 where
  integer timestamp : ColumnType
  string : ℕ → ColumnType

-- `sa.Column`; a default is the text of its expression.
pub record Column : Type 0 where
  pub name : Text
  pub type : ColumnType
  pub nullable : Bool
  pub server_default : Option Text

-- A column, the table whose `id` it refers to, and the `ondelete` rule.
pub record ForeignKey : Type 0 where
  pub column : Text
  pub target : Text
  pub ondelete : Option Text

pub record Table : Type 0 where
  pub name : Text
  pub columns : List Column
  pub primary_key : List Text
  pub foreign_keys : List ForeignKey

pub record Index : Type 0 where
  pub name : Text
  pub table : Text
  pub columns : List Text
  pub unique : Bool

-- The newest table and the newest index stand first.
pub record Schema : Type 0 where
  pub tables : List Table
  pub indexes : List Index

unfoldable pub find_table : Text → List Table → Option Table
find_table name [] = none
find_table name (t ∷ ts) =
    let rest = find_table name ts in if text_eq t.name name then some t else rest

unfoldable pub find_index : Text → List Index → Option Index
find_index name [] = none
find_index name (i ∷ is) =
    let rest = find_index name is in if text_eq i.name name then some i else rest

abbrev pub is_some {ℓ} : {A : Type ℓ} → Option A → Bool
is_some none = false
is_some (some a) = true

-- Whether a foreign key refers to the table.
unfoldable pub refers_to : Text → List ForeignKey → Bool
refers_to name [] = false
refers_to name (k ∷ ks) =
    let rest = refers_to name ks in if text_eq k.target name then true else rest

unfoldable pub is_referenced : Text → List Table → Bool
unfolding refers_to
is_referenced name [] = false
is_referenced name (t ∷ ts) =
    let rest = is_referenced name ts in if refers_to name t.foreign_keys then true else rest

-- The tables without the first of that name.
unfoldable pub remove_table : Text → List Table → List Table
remove_table name [] = []
remove_table name (t ∷ ts) =
    let rest = remove_table name ts in if text_eq t.name name then ts else t ∷ rest

unfoldable pub remove_index : Text → List Index → List Index
remove_index name [] = []
remove_index name (i ∷ is) =
    let rest = remove_index name is in if text_eq i.name name then is else i ∷ rest

unfoldable pub change_table : Text → (Table → Table) → List Table → List Table
change_table name f [] = []
change_table name f (t ∷ ts) =
    let rest = change_table name f ts in if text_eq t.name name then f t ∷ ts else t ∷ rest

-- The indexes that do not go with the table.
unfoldable pub indexes_without : Text → List Index → List Index
indexes_without name [] = []
indexes_without name (i ∷ is) =
    let rest = indexes_without name is in if text_eq i.table name then rest else i ∷ rest

unfoldable pub remove_column : Text → List Column → List Column
remove_column name [] = []
remove_column name (c ∷ cs) =
    let rest = remove_column name cs in if text_eq c.name name then cs else c ∷ rest

unfoldable pub change_type : Text → ColumnType → List Column → List Column
change_type name type [] = []
change_type name type (c ∷ cs) =
    let rest = change_type name type cs in
    if text_eq c.name name then record c { type = type } ∷ cs else c ∷ rest

-- The operations that the migrations call.
pub data Op : Type 0 where
  create_table : Table → Op
  drop_table : Text → Op
  create_index : Index → Op
  drop_index : Text → Op
  add_column : Text → Column → Op
  drop_column : Text → Text → Op
  alter_column : Text → Text → ColumnType → Op

unfoldable pub apply : Op → Schema → Option Schema
apply (create_table t) s =
    if is_some (find_table t.name s.tables) then none else some (record s { tables = t ∷ s.tables })
apply (drop_table name) s =
    if is_some (find_table name s.tables) && not (is_referenced name (remove_table name s.tables))
    then some
        (record s { tables = remove_table name s.tables; indexes = indexes_without name s.indexes })
    else none
apply (create_index i) s =
    if is_some (find_index i.name s.indexes)
    then none
    else if is_some (find_table i.table s.tables)
    then some (record s { indexes = i ∷ s.indexes })
    else none
apply (drop_index name) s =
    if is_some (find_index name s.indexes)
    then some (record s { indexes = remove_index name s.indexes })
    else none
apply (add_column table c) s =
    if is_some (find_table table s.tables)
    then some (record s {
      tables = change_table table (λ t. record t { columns = t.columns ++ c ∷ [] }) s.tables;
    })
    else none
apply (drop_column table name) s =
    if is_some (find_table table s.tables)
    then some (record s {
      tables =
          change_table table (λ t. record t { columns = remove_column name t.columns }) s.tables;
    })
    else none
apply (alter_column table name type) s =
    if is_some (find_table table s.tables)
    then some (record s {
      tables =
          change_table table (λ t. record t { columns = change_type name type t.columns }) s.tables;
    })
    else none

-- Operations one after the other.
unfoldable pub run : List Op → Schema → Option Schema
unfolding apply
run [] s = some s
run (op ∷ ops) s = elim (apply op s) [ none ↦ none | some s' ↦ run ops s' ]
