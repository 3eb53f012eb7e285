-- ===== src/Lexer/Total.antt =====
-- src/lexer.cpp: the loop ends, for every text.
use toy_relational_database.Prelude.{
  Bool, Bool-cases, Bytes, List, [], arith, false, if◌then◌else◌, inl, inr, length, ltb, refl, suc,
  true, zero, ℕ, ◌++◌, ◌+◌, ◌<◌, ◌==◌, ◌||◌, ◌∷◌, ◌≡◌, ◌≤◌,
}
use toy_relational_database.Errors.{Result, ok, throw, lex_error, out_of_range, ◌>>=◌}
use toy_relational_database.Lexer.{
  TokenType, Token, LexState, is_space, is_digit, is_alpha, is_word, advance, span, skip_whitespace,
  lex_word, lex_number, digits_value, string_body, push_char, lex_string, make_token, lex_second,
  lex_double, lex_symbol, lex_one, end_token, tokenize_step, tokenize_from, tokenize,
}

-- A call that consumed something of `n` characters, or failed as the lexer may.
pub data Progress {A : Type 0} (n : ℕ) : Result (A × LexState) → Type 0 where
  consumed : (a : A) (s : LexState) → length s.rest < n → Progress n (ok (a, s))
  bad_text : (line column : ℕ) → Progress n (throw (lex_error line column))
  bad_number : Progress n (throw out_of_range)

rest-advance : (c : ℕ) (cs : Bytes) (line column : ℕ) → (advance c cs line column).rest ≡ cs
unfolding advance
rest-advance c cs line column = elim (Bool-cases (c == 10)) [ inl e ↦ rw e | inr e ↦ rw e ]

span-le :
    (p : ℕ → Bool) (cs : Bytes) (line column : ℕ)
    → length (span p cs line column).1.rest ≤ length cs
unfolding span
span-le p [] line column = omega arith
span-le p (c ∷ cs) line column =
    let s = advance c cs line column in
    let shorter = span-le p cs s.line s.column in
    elim (Bool-cases (p c)) [ inl e ↦ rw e (omega (arith, shorter)) | inr e ↦ rw e (omega arith) ]

span-lt :
    (p : ℕ → Bool) (c : ℕ) (cs : Bytes) (line column : ℕ)
    → p c ≡ true
    → length (span p (c ∷ cs) line column).1.rest < suc (length cs)
unfolding span
span-lt p c cs line column e =
    let s = advance c cs line column in rw e (omega (arith, span-le p cs s.line s.column))

-- A later step that keeps the state.
Progress-bind :
    {A B : Type 0} {m n : ℕ} {r : Result (A × LexState)} (f : A → B)
    → Progress m r
    → m ≤ n
    → Progress n (r >>= λ x. ok (f x.0, x.1))
Progress-bind f (consumed a s h) le = consumed (f a) s (omega arith)
Progress-bind f (bad_text line column) le = bad_text line column
Progress-bind f bad_number le = bad_number

string_body-Progress :
    (l k : ℕ) (cs : Bytes) (line column : ℕ) → Progress (length cs) (string_body l k cs line column)
unfolding string_body push_char
string_body-Progress l k [] line column = bad_text l k
string_body-Progress l k (c ∷ []) line column = elim (Bool-cases (c == 39)) [
  | inl e ↦
      rw e
        (consumed [] (advance c [] line column) (rw (rest-advance c [] line column) (omega arith)))
  | inr e ↦ rw e (bad_text l k)
]
string_body-Progress l k (c ∷ d ∷ ds) line column =
    let s = advance c (d ∷ ds) line column in
    let t = advance d ds s.line s.column in
    elim (Bool-cases (c == 39)) [
      | inl e ↦ elim (Bool-cases (d == 39)) [
        | inl f ↦
            rw (e, f)
              (Progress-bind (λ w. 39 ∷ w) (string_body-Progress l k ds t.line t.column)
                (omega arith))
        | inr f ↦ rw (e, f) (consumed [] s (rw (rest-advance c (d ∷ ds) line column) (omega arith)))
      ]
      | inr e ↦ rw e (
          Progress-bind (λ w. c ∷ w) (string_body-Progress l k (d ∷ ds) s.line s.column)
            (omega arith))
    ]

token-Progress :
    (type : TokenType) (text : Bytes) (s : LexState) (n : ℕ)
    → length s.rest < n
    → Progress n (ok (make_token type text s))
unfolding make_token
token-Progress type text s n h = consumed _ s h

lex_second-Progress :
    (c : ℕ) (type : TokenType) (alone : Result (Token × LexState)) (s : LexState) (rest : Bytes)
    (n : ℕ)
    → length rest < n
    → Progress n alone
    → Progress n (lex_second c type alone s rest)
unfolding lex_second
lex_second-Progress c type alone s [] n h a = a
lex_second-Progress c type alone s (d ∷ ds) n h a = elim (Bool-cases (d == 61)) [
  | inl e ↦ rw e (
      token-Progress type (c ∷ 61 ∷ []) (advance d ds s.line s.column) n
        (rw (rest-advance d ds s.line s.column) (omega arith)))
  | inr e ↦ rw e a
]

if-Progress :
    (b : Bool) (n : ℕ) (x y : Result (Token × LexState))
    → Progress n x
    → Progress n y
    → Progress n (if b then x else y)
if-Progress true n x y h k = h
if-Progress false n x y h k = k

lex_symbol-Progress :
    (c : ℕ) (cs : Bytes) (s : LexState) → Progress (suc (length cs)) (lex_symbol c cs s)
unfolding lex_symbol lex_double
lex_symbol-Progress c cs s =
    let next = advance c cs s.line s.column in
    let n = suc (length cs) in
    let less : length next.rest < n = rw (rest-advance c cs s.line s.column) (omega arith) in
    let one : (type : TokenType) → Progress n (ok (make_token type (c ∷ []) next)) =
      λ type. token-Progress type (c ∷ []) next n less in
    let bad : Progress n (throw (lex_error s.line s.column)) = bad_text s.line s.column in
    if-Progress (c == 42) n _ _ (one TokenType.star) (
      if-Progress (c == 44) n _ _ (one TokenType.comma) (
        if-Progress (c == 46) n _ _ (one TokenType.dot) (
          if-Progress (c == 59) n _ _ (one TokenType.semicolon) (
            if-Progress (c == 40) n _ _ (one TokenType.lparen) (
              if-Progress (c == 41) n _ _ (one TokenType.rparen) (
                if-Progress (c == 61) n _ _ (one TokenType.eq) (
                  if-Progress (c == 60) n _ _
                    (lex_second-Progress c TokenType.lte _ next next.rest n less (one TokenType.lt))
                    (if-Progress (c == 62) n _ _
                      (lex_second-Progress c TokenType.gte _ next next.rest n less
                        (one TokenType.gt))
                      (if-Progress (c == 33) n _ _
                        (lex_second-Progress c TokenType.neq _ next next.rest n less bad)
                        bad)))))))))

-- A round at a character consumes it.
lex_one-Progress :
    (c : ℕ) (cs : Bytes) (s : LexState)
    → s.rest ≡ c ∷ cs
    → Progress (suc (length cs)) (lex_one c cs s)
unfolding lex_one lex_word lex_number lex_string
lex_one-Progress c cs s here =
    let n = suc (length cs) in
    let digits = span is_digit s.rest s.line s.column in
    let opened = advance c cs s.line s.column in
    elim (Bool-cases (is_alpha c || c == 95)) [
      | inl e ↦
          let word : is_word c ≡ true = ground arith in
          rw e (consumed _ _ (rw here (span-lt is_word c cs s.line s.column word)))
      | inr e ↦ elim (Bool-cases (is_digit c)) [
        | inl f ↦
            rw (e, f)
              (if-Progress (ltb 9223372036854775807 (digits_value 0 digits.0)) n _ _ bad_number
                (consumed _ _ (rw here (span-lt is_digit c cs s.line s.column f))))
        | inr f ↦
            rw (e, f)
              (if-Progress (c == 39) n _ _
                (Progress-bind _ (string_body-Progress s.line s.column cs opened.line opened.column)
                  (omega arith))
                (lex_symbol-Progress c cs s))
      ]
    ]

-- What Tokenize may do: return tokens of which the last one is the end of the input, report a
-- character, or report a number.
pub data Outcome : Result (List Token) → Type 0 where
  tokens :
      (front : List Token) (last : Token)
      → last.type ≡ TokenType.end_of_input
      → Outcome (ok (front ++ last ∷ []))
  bad_character : (line column : ℕ) → Outcome (throw (lex_error line column))
  big_number : Outcome (throw out_of_range)

push-Outcome : (t : Token) {r : Result (List Token)} → Outcome r → Outcome (r >>= λ ts. ok (t ∷ ts))
push-Outcome t (tokens front last e) = tokens (t ∷ front) last e
push-Outcome t (bad_character line column) = bad_character line column
push-Outcome t big_number = big_number

one-Outcome :
    (continue : LexState → Result (List Token)) {n : ℕ} {r : Result (Token × LexState)}
    → Progress n r
    → ((s : LexState) → length s.rest < n → Outcome (continue s))
    → Outcome (r >>= λ x. continue x.1 >>= λ ts. ok (x.0 ∷ ts))
one-Outcome continue (consumed t s h) more = push-Outcome t (more s h)
one-Outcome continue (bad_text line column) more = bad_character line column
one-Outcome continue bad_number more = big_number

tokenize_step-Outcome :
    (continue : LexState → Result (List Token)) (s : LexState) (cs : Bytes)
    → s.rest ≡ cs
    → ((t : LexState) → length t.rest < length cs → Outcome (continue t))
    → Outcome (tokenize_step continue s cs)
unfolding tokenize_step end_token
tokenize_step-Outcome continue s [] here more = tokens [] (end_token s) refl
tokenize_step-Outcome continue s (c ∷ cs) here more =
    one-Outcome continue (lex_one-Progress c cs s here) more

tokenize_from-Outcome :
    (fuel : ℕ) (s : LexState) → length s.rest < fuel → Outcome (tokenize_from fuel s)
unfolding tokenize_from skip_whitespace
tokenize_from-Outcome zero s h = absurd (omega arith)
tokenize_from-Outcome (suc fuel) s h =
    let start = (span is_space s.rest s.line s.column).1 in
    let fewer = span-le is_space s.rest s.line s.column in
    tokenize_step-Outcome (tokenize_from fuel) start start.rest refl
      (λ t k. tokenize_from-Outcome fuel t (omega (arith, fewer, k)))

-- Tokenize ends for every text: it returns tokens of which the last one is END_OF_INPUT, or throws a
-- LexError, or std::out_of_range for a number.
pub tokenize-Outcome : (source : Bytes) → Outcome (tokenize source)
unfolding tokenize
tokenize-Outcome source =
    tokenize_from-Outcome (length source + 1) (record { rest = source; line = 1; column = 1 })
      (omega arith)
