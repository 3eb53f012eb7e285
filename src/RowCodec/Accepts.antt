-- ===== src/RowCodec/Accepts.antt =====
-- src/row_codec.cpp: which rows Encode accepts.
use toy_relational_database.Prelude.{
  ==_iff, All, Bool-cases, Bytes, IsInt64, List, Option, [], arith, inl, inr, length, replicate,
  true, ℕ, ℤ, ◌+◌, ◌==◌, ◌∷◌, ◌≡◌,
}
use toy_relational_database.Errors.{ok, bind-eq-ok}
use toy_relational_database.Ast.{ColumnType, ColumnDef}
use toy_relational_database.Schema.{Value, TableSchema, primary_key_index}
use toy_relational_database.RowCodec.{
  is_key, encode_column, encode_from, encode, decode, encoded_size,
}
use toy_relational_database.RowCodec.RoundTrip.{Fits, IsRowFrom, IsRow, decode-encode}

-- The integers of a row are `int64_t` values.
abbrev pub IsStored : Value → Type 0
IsStored (Value.int v) = IsInt64 v
IsStored (Value.text s) = Unit

-- The value at the primary key's place, if there is one from column `i` on, is `key`.
abbrev pub KeyAt : Option ℕ → ℕ → ℤ → List Value → Type 0
KeyAt pk i key [] = Unit
KeyAt pk i key (v ∷ vs) = (is_key pk i ≡ true → v ≡ Value.int key) × KeyAt pk (i + 1) key vs

encode_column-Fits :
    (t : ColumnType) (v : Value) (offset : ℕ) (blob : Bytes) {r : ℕ × Bytes}
    → IsStored v
    → encode_column t v offset blob ≡ ok r
    → Fits t v
unfolding encode_column
encode_column-Fits ColumnType.integer (Value.int v) offset blob s h = s
encode_column-Fits ColumnType.text (Value.text t) offset blob s h = ground arith
encode_column-Fits ColumnType.integer (Value.text t) offset blob s h = cc
encode_column-Fits ColumnType.text (Value.int v) offset blob s h = cc

encode_from-IsRowFrom :
    (pk : Option ℕ) (i : ℕ) (key : ℤ) (cols : List ColumnDef) (vals : List Value) (offset : ℕ)
    (blob : Bytes) {out : Bytes}
    → length vals ≡ length cols
    → All IsStored vals
    → KeyAt pk i key vals
    → encode_from pk i cols vals offset blob ≡ ok out
    → IsRowFrom pk i key cols vals
unfolding encode_from
encode_from-IsRowFrom pk i key [] [] offset blob e s k h = tt
encode_from-IsRowFrom pk i key [] (v ∷ vals) offset blob e s k h = absurd (omega arith)
encode_from-IsRowFrom pk i key (c ∷ cols) [] offset blob e s k h = absurd (omega arith)
encode_from-IsRowFrom pk i key (c ∷ cols) (v ∷ vals) offset blob e s k h =
    elim (Bool-cases (is_key pk i)) [
      | inl b ↦
          let rest = rw (b, encode_from) at h in
          (
            rw b (k.0 b),
            encode_from-IsRowFrom pk (i + 1) key cols vals offset blob (omega arith) s.1 k.1 rest,
          )
      | inr b ↦
          let step =
            bind-eq-ok (encode_column c.type v offset blob)
              (λ r. encode_from pk (i + 1) cols vals r.0 r.1) (rw (b, encode_from) at h) in
          (
            rw b (encode_column-Fits c.type v offset blob s.0 step.1),
            encode_from-IsRowFrom pk (i + 1) key cols vals step.0.0 step.0.1 (omega arith) s.1 k.1
                step.2,
          )
    ]

-- Encode accepts only rows that fit the schema: one value to a column, each of its column's type,
-- no text over fifteen bytes.
pub encode-IsRow :
    (schema : TableSchema) (key : ℤ) (values : List Value) {blob : Bytes}
    → All IsStored values
    → KeyAt (primary_key_index schema) 0 key values
    → encode schema values ≡ ok blob
    → IsRow schema key values
unfolding encode
encode-IsRow schema key values s k h = elim (Bool-cases (length values == length schema.columns)) [
  | inl e ↦
      encode_from-IsRowFrom (primary_key_index schema) 0 key schema.columns values 0
        (replicate (encoded_size schema) 0) ((==_iff _ _).0 e) s k (rw e at h)
  | inr e ↦ absurd (cc (rw e at h))
]

-- For a row of 64-bit integers and texts with the key at the primary key's place: what Encode
-- returned decodes, under that key, to the row, and it has the announced size.
pub decode-encode_ok :
    (schema : TableSchema) (key : ℤ) (values : List Value) (blob : Bytes)
    → All IsStored values
    → KeyAt (primary_key_index schema) 0 key values
    → encode schema values ≡ ok blob
    → (decode schema key blob ≡ values) × (length blob ≡ encoded_size schema)
decode-encode_ok schema key values blob s k h =
    let (blob', returned, size, back) =
      decode-encode schema key values (encode-IsRow schema key values s k h) in
    let same : blob' ≡ blob = cc (returned, h) in (rw (← same) back, rw (← same) size)
