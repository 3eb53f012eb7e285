-- ===== src/RowCodec.antt =====
-- include/row_codec.h and src/row_codec.cpp: a row's columns but its key, as fixed-width bytes.
pub mod RoundTrip
pub mod Accepts
use toy_relational_database.Prelude.{
  Bool, Bytes, List, Option, [], false, if◌then◌else◌, length, ltb, none, replicate, some, ℕ, ℤ,
  ◌+◌, ◌==◌, ◌∷◌,
}
use toy_relational_database.Errors.{
  Result, ok, throw, row_encoding, wrong_count, expects_integer, expects_text, text_too_long, ◌>>=◌,
}
use toy_relational_database.Ast.{ColumnType, ColumnDef}
use toy_relational_database.Schema.{Value, TableSchema, primary_key_index}
use toy_relational_database.Words.{write_at, read_at, byte_at, store_int64, load_int64}

-- TEXT_COLUMN_CAPACITY
abbrev pub text_column_capacity : ℕ
text_column_capacity = 16

-- ColumnWidth, of the column's type
unfoldable pub column_width : ColumnType → ℕ
column_width ColumnType.integer = 8
column_width ColumnType.text = text_column_capacity

-- `static_cast<int>(i) == pk_index_`
abbrev pub is_key : Option ℕ → ℕ → Bool
is_key none i = false
is_key (some k) i = i == k

-- The constructor's loop from column `i` on.
unfoldable pub width_from : Option ℕ → ℕ → List ColumnDef → ℕ
unfolding column_width
width_from pk i [] = 0
width_from pk i (col ∷ cols) =
    (if is_key pk i then 0 else column_width col.type) + width_from pk (i + 1) cols

unfoldable pub encoded_size : TableSchema → ℕ
unfolding width_from primary_key_index
encoded_size schema = width_from (primary_key_index schema) 0 schema.columns

-- The body of Encode's loop, for a column of type `type`: the value written at `offset`, and the
-- offset behind it.
unfoldable pub encode_column : ColumnType → Value → ℕ → Bytes → Result (ℕ × Bytes)
unfolding write_at store_int64
encode_column ColumnType.integer (Value.int v) offset blob =
    ok (offset + 8, write_at blob offset (store_int64 v))
encode_column ColumnType.integer (Value.text s) offset blob = throw (row_encoding expects_integer)
encode_column ColumnType.text (Value.int v) offset blob = throw (row_encoding expects_text)
encode_column ColumnType.text (Value.text s) offset blob =
    if ltb 15 (length s)
    then throw (row_encoding text_too_long)
    else ok (
      offset + text_column_capacity,
      write_at (write_at blob offset (length s ∷ [])) (offset + 1) s,
    )

-- The loop of Encode from column `i` on. The two lists have one length.
unfoldable pub encode_from : Option ℕ → ℕ → List ColumnDef → List Value → ℕ → Bytes → Result Bytes
unfolding encode_column
encode_from pk i (col ∷ cols) (val ∷ vals) offset blob =
    let skip = encode_from pk (i + 1) cols vals offset blob in
    let store =
      encode_column col.type val offset blob >>= λ r. encode_from pk (i + 1) cols vals r.0 r.1 in
    if is_key pk i then skip else store
encode_from pk i _ _ offset blob = ok blob

unfoldable pub encode : TableSchema → List Value → Result Bytes
unfolding encode_from encoded_size
encode schema values =
    if length values == length schema.columns
    then encode_from (primary_key_index schema) 0 schema.columns values 0
        (replicate (encoded_size schema) 0)
    else throw (row_encoding wrong_count)

-- The body of Decode's loop, for a column of type `type`.
unfoldable pub decode_column : ColumnType → Bytes → ℕ → Value
unfolding load_int64 read_at byte_at
decode_column ColumnType.integer blob offset = Value.int (load_int64 (read_at blob offset 8))
decode_column ColumnType.text blob offset =
    Value.text (read_at blob (offset + 1) (byte_at blob offset))

-- The loop of Decode from column `i` on.
unfoldable pub decode_from : Option ℕ → ℕ → List ColumnDef → ℤ → Bytes → ℕ → List Value
unfolding decode_column column_width
decode_from pk i [] key blob offset = []
decode_from pk i (col ∷ cols) key blob offset =
    let skip = Value.int key ∷ decode_from pk (i + 1) cols key blob offset in
    let load =
      decode_column col.type blob offset
      ∷ decode_from pk (i + 1) cols key blob (offset + column_width col.type) in
    if is_key pk i then skip else load

unfoldable pub decode : TableSchema → ℤ → Bytes → List Value
unfolding decode_from primary_key_index
decode schema key blob = decode_from (primary_key_index schema) 0 schema.columns key blob 0
