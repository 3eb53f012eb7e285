-- ===== src/Tests/Codec.antt =====
-- src/row_codec.cpp at a table with an INTEGER key, a TEXT and an INTEGER column.
use toy_relational_database.Prelude.{
  Bytes, List, [], arith, false, length, negsuc, pos, refl, replicate, true, ◌↔◌, ◌∷◌, ◌≡◌,
}
use toy_relational_database.Errors.{ok, throw, row_encoding, text_too_long}
use toy_relational_database.Ast.{ColumnType}
use toy_relational_database.Schema.{Value, value_eq, value_eq_iff, TableSchema, primary_key_index}
use toy_relational_database.RowCodec.{encode, decode, encoded_size}
use toy_relational_database.RowCodec.RoundTrip.{decode-encode}
use toy_relational_database.RowCodec.Accepts.{decode-encode_ok}

-- users(id INTEGER PRIMARY KEY, name TEXT, age INTEGER)
abbrev users : TableSchema
users = record {
  table_name = 117 ∷ [];
  columns =
      record { name = 105 ∷ []; type = ColumnType.integer; is_primary_key = true }
      ∷ record { name = 110 ∷ []; type = ColumnType.text; is_primary_key = false }
      ∷ record { name = 97 ∷ []; type = ColumnType.integer; is_primary_key = false }
      ∷ [];
}

abbrev ada : List Value
ada = Value.int (pos 7) ∷ Value.text (65 ∷ 100 ∷ 97 ∷ []) ∷ Value.int (negsuc 0) ∷ []

abbrev ada_blob : Bytes
ada_blob =
    3 ∷ 65 ∷ 100 ∷ 97 ∷ 0 ∷ 0 ∷ 0 ∷ 0 ∷ 0 ∷ 0 ∷ 0 ∷ 0 ∷ 0 ∷ 0 ∷ 0 ∷ 0 ∷ 255 ∷ 255 ∷ 255 ∷ 255 ∷ 255
    ∷ 255 ∷ 255 ∷ 255 ∷ []

encode-ada : encode users ada ≡ ok ada_blob
unfolding encode
encode-ada = refl

decode-ada : decode users (pos 7) ada_blob ≡ ada
unfolding decode
decode-ada = refl

encode_long :
    encode users (Value.int (pos 7) ∷ Value.text (replicate 16 65) ∷ Value.int (pos 0) ∷ [])
    ≡ throw (row_encoding text_too_long)
unfolding encode
encode_long = refl

decode-encode_example :
    (blob : Bytes) × (encode users ada ≡ ok blob)
    × (length blob ≡ encoded_size users)
    × (decode users (pos 7) blob ≡ ada)
unfolding primary_key_index
decode-encode_example = decode-encode users (pos 7) ada (refl, (omega arith, (omega arith, tt)))

decode-encode_ok_example :
    (decode users (pos 7) ada_blob ≡ ada) × (length ada_blob ≡ encoded_size users)
unfolding primary_key_index
decode-encode_ok_example =
    decode-encode_ok users (pos 7) ada ada_blob (omega arith)
      ((λ e. refl), ((λ e. cc), ((λ e. cc), tt))) encode-ada

value_eq_iff_example :
    (value_eq (Value.int (pos 1)) (Value.int (pos 1)) ≡ true)
    ↔ (Value.int (pos 1) ≡ Value.int (pos 1))
value_eq_iff_example = value_eq_iff (Value.int (pos 1)) (Value.int (pos 1))
