-- ===== src/RowCodec/RoundTrip.antt =====
-- src/row_codec.cpp: the layout of an encoded row, and that Decode undoes Encode.
use native.Mathlib.Nat.{zero-add}
use toy_relational_database.Prelude.{
  ==_refl, Bool-cases, Bytes, IsInt64, List, Option, [], ap, append_assoc, arith, false,
  if◌then◌else◌, inl, inr, length, length-append, length-replicate, ltb, refl, replicate,
  replicate-add, suc, sym, ℕ, ℤ, ◌++◌, ◌+◌, ◌-◌, ◌∙◌, ◌∷◌, ◌≡◌, ◌≤◌,
}
use toy_relational_database.Errors.{ok}
use toy_relational_database.Ast.{ColumnType, ColumnDef}
use toy_relational_database.Schema.{Value, TableSchema, primary_key_index}
use toy_relational_database.Words.{
  read_at-append, byte_at-append, write_at-append, write_at, store_int64, length-store_int64,
  load-store_int64,
}
use toy_relational_database.RowCodec.{
  column_width, is_key, width_from, encoded_size, encode_column, encode_from, encode, decode_column,
  decode_from, decode,
}

-- The bytes of one column: a text is padded to its capacity.
unfoldable pub column_bytes : Value → Bytes
column_bytes (Value.int v) = store_int64 v
column_bytes (Value.text s) = length s ∷ (s ++ replicate (15 - length s) 0)

-- The value has the column's type and can be stored.
abbrev pub Fits : ColumnType → Value → Type 0
Fits ColumnType.integer (Value.int v) = IsInt64 v
Fits ColumnType.text (Value.text s) = length s ≤ 15
Fits _ _ = ⊥

length-column_bytes :
    (t : ColumnType) (v : Value) → Fits t v → length (column_bytes v) ≡ column_width t
unfolding column_bytes column_width
length-column_bytes ColumnType.integer (Value.int v) h = length-store_int64 v
length-column_bytes ColumnType.text (Value.text s) h = omega (
  arith,
  length-append s (replicate (15 - length s) 0),
  length-replicate {A = ℕ} (15 - length s) 0,
)
length-column_bytes ColumnType.integer (Value.text s) h = elim h [ ]
length-column_bytes ColumnType.text (Value.int v) h = elim h [ ]

module _ (front : Bytes) where
  encode_column_int :
      (v : ℤ) (m : ℕ)
      → write_at (front ++ replicate (8 + m) 0) (length front) (store_int64 v)
        ≡ (front ++ store_int64 v) ++ replicate m 0
  encode_column_int v m =
      rw
        (
          replicate-add {A = ℕ} 8 m 0,
          write_at-append front (replicate 8 0) (store_int64 v) (replicate m 0) (length front) refl
              (omega (arith, length-store_int64 v)),
        )
        (sym (append_assoc front (store_int64 v) (replicate m 0)))

  -- The length byte, then the content over the zeroes behind it.
  encode_column_text :
      (s : Bytes) (m : ℕ)
      → length s ≤ 15
      → write_at
          (write_at (front ++ replicate (16 + m) 0) (length front) (length s ∷ []))
          (length front + 1)
          s
        ≡ (front ++ length s ∷ (s ++ replicate (15 - length s) 0)) ++ replicate m 0
  encode_column_text s m h =
      rw (zeroes, first_write, regroup, second_write)
        (rw (append_assoc front (length s ∷ []) (s ++ (padding ++ replicate m 0))) (
          rw (
            append_assoc front (length s ∷ (s ++ padding)) (replicate m 0),
            append_assoc s padding (replicate m 0),
          )))
    where
      padding : Bytes
      padding = replicate (15 - length s) 0

      zeroes :
          replicate {A = ℕ} (16 + m) 0
          ≡ (0 ∷ []) ++ (replicate (length s) 0 ++ (padding ++ replicate m 0))
      zeroes =
          let e : 16 + m ≡ suc (length s + ((15 - length s) + m)) = omega arith in
          rw e (
            ap (λ t. 0 ∷ t)
              (replicate-add (length s) ((15 - length s) + m) 0
                ∙ ap (λ t. replicate (length s) 0 ++ t) (replicate-add (15 - length s) m 0)))

      tail_bytes : Bytes
      tail_bytes = replicate (length s) 0 ++ (padding ++ replicate m 0)

      first_write :
          write_at (front ++ ((0 ∷ []) ++ tail_bytes)) (length front) (length s ∷ [])
          ≡ front ++ ((length s ∷ []) ++ tail_bytes)
      first_write =
          write_at-append front (0 ∷ []) (length s ∷ []) tail_bytes (length front) refl refl

      regroup : front ++ ((length s ∷ []) ++ tail_bytes) ≡ (front ++ length s ∷ []) ++ tail_bytes
      regroup = sym (append_assoc front (length s ∷ []) tail_bytes)

      second_write :
          write_at ((front ++ length s ∷ []) ++ tail_bytes) (length front + 1) s
          ≡ (front ++ length s ∷ []) ++ (s ++ (padding ++ replicate m 0))
      second_write =
          write_at-append (front ++ length s ∷ []) (replicate (length s) 0) s
            (padding ++ replicate m 0) (length front + 1)
            (omega (arith, length-append front (length s ∷ []))) (length-replicate (length s) 0)

encode_column_lem :
    (t : ColumnType) (v : Value) (front : Bytes) (m : ℕ)
    → Fits t v
    → encode_column t v (length front) (front ++ replicate (column_width t + m) 0)
      ≡ ok (length front + column_width t, (front ++ column_bytes v) ++ replicate m 0)
unfolding encode_column column_bytes column_width
encode_column_lem ColumnType.integer (Value.int v) front m h = rw (encode_column_int front v m)
encode_column_lem ColumnType.text (Value.text s) front m h =
    let short : ltb 15 (length s) ≡ false = ground arith in
    rw (short, encode_column_text front s m h)
encode_column_lem ColumnType.integer (Value.text s) front m h = elim h [ ]
encode_column_lem ColumnType.text (Value.int v) front m h = elim h [ ]

decode_column_lem :
    (t : ColumnType) (v : Value) (front rest : Bytes)
    → Fits t v
    → decode_column t (front ++ (column_bytes v ++ rest)) (length front) ≡ v
unfolding decode_column column_bytes
decode_column_lem ColumnType.integer (Value.int v) front rest h =
    rw (read_at-append front (store_int64 v) rest (length front) 8 refl (length-store_int64 v))
      (rw (load-store_int64 v h))
decode_column_lem ColumnType.text (Value.text s) front rest h =
    let padding = replicate {A = ℕ} (15 - length s) 0 in
    rw (
      byte_at-append front ((s ++ padding) ++ rest) (length s) (length front) refl,
      append_assoc s padding rest,
      ← append_assoc front (length s ∷ []) (s ++ (padding ++ rest)),
      read_at-append (front ++ length s ∷ []) s (padding ++ rest) (length front + 1) (length s)
          (omega (arith, length-append front (length s ∷ []))) refl,
    )
decode_column_lem ColumnType.integer (Value.text s) front rest h = elim h [ ]
decode_column_lem ColumnType.text (Value.int v) front rest h = elim h [ ]

-- The bytes of a row from column `i` on.
row_bytes : Option ℕ → ℕ → List Value → Bytes
row_bytes pk i [] = []
row_bytes pk i (v ∷ vs) = (if is_key pk i then [] else column_bytes v) ++ row_bytes pk (i + 1) vs

-- Values that can be stored in the columns from `i` on, `key` standing at the primary key's place.
abbrev pub IsRowFrom : Option ℕ → ℕ → ℤ → List ColumnDef → List Value → Type 0
IsRowFrom pk i key [] [] = Unit
IsRowFrom pk i key (c ∷ cs) (v ∷ vs) =
    (if is_key pk i then v ≡ Value.int key else Fits c.type v) × IsRowFrom pk (i + 1) key cs vs
IsRowFrom pk i key _ _ = ⊥

encode_from_lem :
    (pk : Option ℕ) (i : ℕ) (key : ℤ) (cols : List ColumnDef) (vals : List Value) (front : Bytes)
    → IsRowFrom pk i key cols vals
    → encode_from pk i cols vals (length front) (front ++ replicate (width_from pk i cols) 0)
      ≡ ok (front ++ row_bytes pk i vals)
unfolding encode_from row_bytes width_from
encode_from_lem pk i key [] [] front h = refl
encode_from_lem pk i key [] (v ∷ vals) front h = elim h [ ]
encode_from_lem pk i key (c ∷ cols) [] front h = elim h [ ]
encode_from_lem pk i key (c ∷ cols) (v ∷ vals) front h = elim (Bool-cases (is_key pk i)) [
  | inl e ↦ rw (e, encode_from) (rw zero-add (encode_from_lem pk (i + 1) key cols vals front h.1))
  | inr e ↦
      let fits : Fits c.type v = rw e at (h.0) in
      let at_end : length front + column_width c.type ≡ length (front ++ column_bytes v) =
        omega (arith, length-append front (column_bytes v), length-column_bytes c.type v fits) in
      rw
        (
          e,
          encode_column_lem c.type v front (width_from pk (i + 1) cols) fits,
          at_end,
          encode_from_lem pk (i + 1) key cols vals (front ++ column_bytes v) h.1,
        )
        (ap ok (append_assoc front (column_bytes v) (row_bytes pk (i + 1) vals)))
]

decode_from_lem :
    (pk : Option ℕ) (i : ℕ) (key : ℤ) (cols : List ColumnDef) (vals : List Value) (front : Bytes)
    → IsRowFrom pk i key cols vals
    → decode_from pk i cols key (front ++ row_bytes pk i vals) (length front) ≡ vals
unfolding decode_from row_bytes
decode_from_lem pk i key [] [] front h = refl
decode_from_lem pk i key [] (v ∷ vals) front h = elim h [ ]
decode_from_lem pk i key (c ∷ cols) [] front h = elim h [ ]
decode_from_lem pk i key (c ∷ cols) (v ∷ vals) front h = elim (Bool-cases (is_key pk i)) [
  | inl e ↦
      let is_int : v ≡ Value.int key = rw e at (h.0) in
      rw (e, is_int, decode_from_lem pk (i + 1) key cols vals front h.1)
  | inr e ↦
      let fits : Fits c.type v = rw e at (h.0) in
      let at_end : length front + column_width c.type ≡ length (front ++ column_bytes v) =
        omega (arith, length-append front (column_bytes v), length-column_bytes c.type v fits) in
      rw (
        e,
        decode_column_lem c.type v front (row_bytes pk (i + 1) vals) fits,
        at_end,
        ← append_assoc front (column_bytes v) (row_bytes pk (i + 1) vals),
        decode_from_lem pk (i + 1) key cols vals (front ++ column_bytes v) h.1,
      )
]

length-row_bytes :
    (pk : Option ℕ) (i : ℕ) (key : ℤ) (cols : List ColumnDef) (vals : List Value)
    → IsRowFrom pk i key cols vals
    → (length (row_bytes pk i vals) ≡ width_from pk i cols) × (length vals ≡ length cols)
unfolding row_bytes width_from
length-row_bytes pk i key [] [] h = (refl, refl)
length-row_bytes pk i key [] (v ∷ vals) h = elim h [ ]
length-row_bytes pk i key (c ∷ cols) [] h = elim h [ ]
length-row_bytes pk i key (c ∷ cols) (v ∷ vals) h = elim (Bool-cases (is_key pk i)) [
  | inl e ↦
      let ih = length-row_bytes pk (i + 1) key cols vals h.1 in
      rw e (omega (arith, ih.0), omega (arith, ih.1))
  | inr e ↦
      let ih = length-row_bytes pk (i + 1) key cols vals h.1 in
      let fits : Fits c.type v = rw e at (h.0) in
      rw e (
        omega (
          arith,
          ih.0,
          length-append (column_bytes v) (row_bytes pk (i + 1) vals),
          length-column_bytes c.type v fits,
        ),
        omega (arith, ih.1),
      )
]

-- A row that can be stored in the columns of a schema, with the key `key`.
abbrev pub IsRow : TableSchema → ℤ → List Value → Type 0
IsRow schema key values = IsRowFrom (primary_key_index schema) 0 key schema.columns values

-- A row whose values fit the columns of the schema and which has the key at the primary key's place
-- is encoded, into as many bytes as EncodedSize announces, and decoding them under that key gives
-- the row back.
pub decode-encode :
    (schema : TableSchema) (key : ℤ) (values : List Value)
    → IsRow schema key values
    → (blob : Bytes) × (encode schema values ≡ ok blob)
      × (length blob ≡ encoded_size schema)
      × (decode schema key blob ≡ values)
unfolding encode decode encoded_size
decode-encode schema key values h =
    let pk = primary_key_index schema in
    let sizes = length-row_bytes pk 0 key schema.columns values h in
    (
      row_bytes pk 0 values,
      rw (sizes.1, ==_refl (length schema.columns))
          (encode_from_lem pk 0 key schema.columns values [] h),
      sizes.0,
      decode_from_lem pk 0 key schema.columns values [] h,
    )
