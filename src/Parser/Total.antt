-- ===== src/Parser/Total.antt =====
-- src/parser.cpp: the parser ends on every list of tokens that END_OF_INPUT closes.
use toy_relational_database.Prelude.{
  Bool, List, [], ap, arith, false, if◌then◌else◌, length, refl, suc, true, zero, ℕ, ◌+◌, ◌<◌, ◌==◌,
  ◌∷◌, ◌≡◌, ◌≤◌,
}
use toy_relational_database.Errors.{Result, ok, throw, parse_error, ◌>>=◌}
use toy_relational_database.Lexer.{Token, TokenType}
use toy_relational_database.Parser.{
  Parser, Parse, type_number, advance, advance_to, check, error, expect, parse_ident, parse_alias,
  parse_qualified, comma_loop, comma_list, parse_type_name, parse_primary_key, parse_column_def,
  parse_create_table, parse_literal, parse_insert_columns, parse_insert,
}

abbrev pub Ends : Token → List Token → Type 0
Ends t [] = t.type ≡ TokenType.end_of_input
Ends t (u ∷ us) = Ends u us

-- The last token is END_OF_INPUT.
abbrev pub Closed : Parser → Type 0
Closed s = Ends s.current s.behind

abbrev pub left : Parser → ℕ
left s = length s.behind

-- A method has stopped at most `n` tokens before the last one, or thrown a ParseError.
pub data Parsed {Answer : Type 0} (n : ℕ) : Result (Answer × Parser) → Type 0 where
  parsed : (answer : Answer) (s : Parser) → Closed s → left s ≤ n → Parsed n (ok (answer, s))
  refused : (line column : ℕ) → Parsed n (throw (parse_error line column))

-- From a parser with fewer than `bound` tokens behind it, without going back.
abbrev pub Within : {Answer : Type 0} → ℕ → Parse Answer → Type 0
Within bound p = (n : ℕ) (s : Parser) → Closed s → left s ≤ n → left s < bound → Parsed n (p s)

pub Parsed-bind :
    {A B : Type 0} {m n : ℕ} {r : Result (A × Parser)} (k : A × Parser → Result (B × Parser))
    → Parsed m r
    → ((answer : A) (s : Parser) → Closed s → left s ≤ m → Parsed n (k (answer, s)))
    → Parsed n (r >>= k)
Parsed-bind k (parsed answer s closed less) f = f answer s closed less
Parsed-bind k (refused line column) f = refused line column

pub if-Parsed :
    {A : Type 0} {n : ℕ} (b : Bool) {x y : Result (A × Parser)}
    → (b ≡ true → Parsed n x)
    → (b ≡ false → Parsed n y)
    → Parsed n (if b then x else y)
if-Parsed true f g = f refl
if-Parsed false f g = g refl

pub error-Parsed : {A : Type 0} (n : ℕ) (s : Parser) → Parsed {Answer = A} n (error s)
error-Parsed n s = refused s.current.line s.current.column

advance_to-less :
    (t : Token) (ts : List Token) (n : ℕ)
    → type_number t.type == n ≡ true
    → n < 32
    → Ends t ts
    → left (advance_to t ts) + 1 ≡ length ts × Closed (advance_to t ts)
advance_to-less t [] n here small ends =
    let at_end : type_number t.type ≡ 32 = ap type_number ends in
    let bad : ⊥ = ground (arith, here, at_end, small) in elim bad [ ]
advance_to-less t (u ∷ us) n here small ends = (omega arith, ends)

advance-less :
    (type : TokenType) (s : Parser)
    → check type s ≡ true
    → type_number type < 32
    → Closed s
    → left (advance s) + 1 ≡ left s × Closed (advance s)
unfolding check
advance-less type s here small closed =
    advance_to-less s.current s.behind (type_number type) here small closed

pub expect-Parsed :
    (type : TokenType) (n : ℕ) (s : Parser)
    → type_number type < 32
    → Closed s
    → left s ≤ n + 1
    → Parsed n (expect type s)
unfolding expect
expect-Parsed type n s small closed less =
    if-Parsed (check type s)
      (λ h.
        let next = advance-less type s h small closed in
        parsed s.current (advance s) next.1 (omega (arith, next.0, less)))
      (λ h. error-Parsed n s)

pub ident-Parsed : (n : ℕ) (s : Parser) → Closed s → left s ≤ n + 1 → Parsed n (parse_ident s)
unfolding parse_ident
ident-Parsed n s closed less =
    Parsed-bind _ (expect-Parsed TokenType.identifier n s (omega arith) closed less)
      (λ t u c l. parsed _ u c l)

-- A token that Match has seen.
pub matched-Parsed :
    {A : Type 0} (type : TokenType) (n : ℕ) (s : Parser) {x y : Result (A × Parser)}
    → type_number type < 32
    → Closed s
    → (left (advance s) + 1 ≡ left s → Closed (advance s) → Parsed n x)
    → Parsed n y
    → Parsed n (if check type s then x else y)
matched-Parsed type n s small closed f g =
    if-Parsed (check type s) (λ h. let next = advance-less type s h small closed in f next.0 next.1)
      (λ h. g)

pub alias-Parsed : (n : ℕ) (s : Parser) → Closed s → left s ≤ n → Parsed n (parse_alias s)
unfolding parse_alias
alias-Parsed n s closed less =
    matched-Parsed TokenType.as_word n s (omega arith) closed
      (λ e c.
        Parsed-bind _ (ident-Parsed n (advance s) c (omega (arith, e, less)))
          (λ t u c l. parsed _ u c l))
      (parsed _ s closed less)

pub qualified-Parsed :
    (n : ℕ) (s : Parser) → Closed s → left s ≤ n + 1 → Parsed n (parse_qualified s)
unfolding parse_qualified
qualified-Parsed n s closed less = Parsed-bind _ (ident-Parsed n s closed less) (λ name s c l.
    matched-Parsed TokenType.dot n s (omega arith) c
      (λ e d.
        Parsed-bind _ (ident-Parsed n (advance s) d (omega (arith, e, l)))
          (λ t u c l. parsed _ u c l))
      (parsed _ s c l))

comma_loop-Parsed :
    {Item : Type 0} (bound fuel : ℕ) (item : Parse Item)
    → Within bound item
    → (n : ℕ) (s : Parser) → Closed s
    → left s ≤ n
    → left s < bound
    → left s < fuel
    → Parsed n (comma_loop fuel item s)
unfolding comma_loop
comma_loop-Parsed bound zero item within n s closed less low enough =
    let bad : ⊥ = omega (arith, enough) in elim bad [ ]
comma_loop-Parsed bound (suc fuel) item within n s closed less low enough =
    matched-Parsed TokenType.comma n s (omega arith) closed
      (λ e c.
        Parsed-bind _
          (within (left (advance s)) (advance s) c (omega arith) (omega (arith, e, low)))
          (λ a t d l.
            Parsed-bind _
              (comma_loop-Parsed bound fuel item within n t d (omega (arith, e, l, less))
                (omega (arith, e, l, low)) (omega (arith, e, l, enough)))
              (λ b u f k. parsed _ u f k)))
      (parsed [] s closed less)

pub comma_list-Parsed :
    {Item : Type 0} (fuel : ℕ) (item : Parse Item)
    → Within fuel item
    → Within fuel (comma_list fuel item)
comma_list-Parsed fuel item within n s closed less low =
    Parsed-bind _ (within (left s) s closed (omega arith) low) (λ a t d l.
      Parsed-bind _
        (comma_loop-Parsed fuel fuel item within n t d (omega (arith, l, less))
          (omega (arith, l, low)) (omega (arith, l, low)))
        (λ b u f k. parsed _ u f k))

type_name-Parsed : (n : ℕ) (s : Parser) → Closed s → left s ≤ n → Parsed n (parse_type_name s)
unfolding parse_type_name
type_name-Parsed n s closed less =
    matched-Parsed TokenType.integer_type n s (omega arith) closed
      (λ e c. parsed _ (advance s) c (omega (arith, e, less)))
      (matched-Parsed TokenType.text_type n s (omega arith) closed
        (λ e c. parsed _ (advance s) c (omega (arith, e, less))) (error-Parsed n s))

primary_key-Parsed : (n : ℕ) (s : Parser) → Closed s → left s ≤ n → Parsed n (parse_primary_key s)
unfolding parse_primary_key
primary_key-Parsed n s closed less =
    matched-Parsed TokenType.primary n s (omega arith) closed
      (λ e c.
        Parsed-bind _
          (expect-Parsed TokenType.key n (advance s) (omega arith) c (omega (arith, e, less)))
          (λ t u c l. parsed _ u c l))
      (parsed _ s closed less)

column_def-Parsed : (n : ℕ) (s : Parser) → Closed s → left s ≤ n → Parsed n (parse_column_def s)
unfolding parse_column_def
column_def-Parsed n s closed less =
    Parsed-bind _ (ident-Parsed n s closed (omega (arith, less))) (λ a s c l.
      Parsed-bind _ (type_name-Parsed n s c l)
        (λ b s c l. Parsed-bind _ (primary_key-Parsed n s c l) (λ d s c l. parsed _ s c l)))

pub literal-Parsed : (n : ℕ) (s : Parser) → Closed s → left s ≤ n → Parsed n (parse_literal s)
unfolding parse_literal
literal-Parsed n s closed less =
    matched-Parsed TokenType.integer_literal n s (omega arith) closed
      (λ e c. parsed _ (advance s) c (omega (arith, e, less)))
      (matched-Parsed TokenType.string_literal n s (omega arith) closed
        (λ e c. parsed _ (advance s) c (omega (arith, e, less))) (error-Parsed n s))

-- A token that has to be there, where fewer may be left behind it.
pub token-Parsed :
    (type : TokenType) (n : ℕ) (s : Parser)
    → type_number type < 32
    → Closed s
    → left s ≤ n
    → Parsed n (expect type s)
token-Parsed type n s small closed less = expect-Parsed type n s small closed (omega (arith, less))

pub create_table-Parsed : (fuel : ℕ) → Within fuel (parse_create_table fuel)
unfolding parse_create_table
create_table-Parsed fuel n s closed less low =
    Parsed-bind _ (token-Parsed TokenType.create (left s) s (omega arith) closed (omega arith))
      λ a t c l.
        Parsed-bind _ (token-Parsed TokenType.table (left s) t (omega arith) c l) λ a t c l.
          Parsed-bind _ (ident-Parsed (left s) t c (omega (arith, l))) λ a t c l.
            Parsed-bind _ (token-Parsed TokenType.lparen (left s) t (omega arith) c l) λ a t c l.
              Parsed-bind _
                (comma_list-Parsed fuel parse_column_def (λ n s c l k. column_def-Parsed n s c l)
                  (left s) t c l (omega (arith, l, low)))
                λ a t c l.
                  Parsed-bind _
                    (token-Parsed TokenType.rparen n t (omega arith) c (omega (arith, l, less)))
                    λ a t c l. parsed _ t c l

insert_columns-Parsed : (fuel : ℕ) → Within fuel (parse_insert_columns fuel)
unfolding parse_insert_columns
insert_columns-Parsed fuel n s closed less low =
    matched-Parsed TokenType.lparen n s (omega arith) closed
      (λ e c.
        Parsed-bind _
          (comma_list-Parsed fuel parse_ident (λ n s c l k. ident-Parsed n s c (omega (arith, l))) n
            (advance s) c (omega (arith, e, less)) (omega (arith, e, low)))
          λ a t c l.
            Parsed-bind _ (token-Parsed TokenType.rparen n t (omega arith) c l)
              λ a t c l. parsed _ t c l)
      (parsed _ s closed less)

pub insert-Parsed : (fuel : ℕ) → Within fuel (parse_insert fuel)
unfolding parse_insert
insert-Parsed fuel n s closed less low =
    Parsed-bind _ (token-Parsed TokenType.insert (left s) s (omega arith) closed (omega arith))
      λ a t c l. Parsed-bind _ (token-Parsed TokenType.into (left s) t (omega arith) c l) λ a t c l.
        Parsed-bind _ (ident-Parsed (left s) t c (omega (arith, l))) λ a t c l.
          Parsed-bind _ (insert_columns-Parsed fuel (left s) t c l (omega (arith, l, low)))
            λ a t c l.
              Parsed-bind _ (token-Parsed TokenType.values (left s) t (omega arith) c l) λ a t c l.
                Parsed-bind _ (token-Parsed TokenType.lparen (left s) t (omega arith) c l)
                  λ a t c l.
                    Parsed-bind _
                      (comma_list-Parsed fuel parse_literal (λ n s c l k. literal-Parsed n s c l)
                        (left s) t c l (omega (arith, l, low)))
                      λ a t c l.
                        Parsed-bind _
                          (token-Parsed TokenType.rparen n t (omega arith) c
                            (omega (arith, l, less)))
                          λ a t c l. parsed _ t c l
