-- ===== src/Lexer.antt =====
-- include/token.h, include/lexer.h and src/lexer.cpp: the tokens of a statement's text. The position in
-- the text is what is left of it. The character classes are those of the C locale.
pub mod Total
use toy_relational_database.Prelude.{
  Bool, Bytes, List, [], if◌then◌else◌, leb, length, ltb, pos, str_eq, suc, zero, ℕ, ℤ, ◌&&◌, ◌*◌,
  ◌+◌, ◌-◌, ◌==◌, ◌||◌, ◌∷◌,
}
use toy_relational_database.Errors.{Result, ok, throw, lex_error, out_of_range, out_of_fuel, ◌>>=◌}

pub data TokenType : Type 0 where
  create table insert into values select from where_word join on as_word and or primary key :
      TokenType
  integer_type text_type : TokenType
  identifier integer_literal string_literal : TokenType
  star comma dot semicolon lparen rparen eq neq lt lte gt gte : TokenType
  end_of_input : TokenType

pub record Token : Type 0 where
  pub type : TokenType
  pub text : Bytes
  pub int_value : ℤ
  pub string_value : Bytes
  pub line : ℕ
  pub column : ℕ

-- pos_, line_ and column_
pub record LexState : Type 0 where
  pub rest : Bytes
  pub line : ℕ
  pub column : ℕ

abbrev pub between : ℕ → ℕ → ℕ → Bool
between low high c = leb low c && leb c high

abbrev pub is_space : ℕ → Bool
is_space c = c == 32 || between 9 13 c

abbrev pub is_digit : ℕ → Bool
is_digit c = between 48 57 c

abbrev pub is_alpha : ℕ → Bool
is_alpha c = between 65 90 c || between 97 122 c

-- `isalnum(c) || c == '_'`
abbrev pub is_word : ℕ → Bool
is_word c = (is_alpha c || is_digit c) || c == 95

-- ToUpper
unfoldable pub to_upper : Bytes → Bytes
to_upper [] = []
to_upper (c ∷ cs) = (if between 97 122 c then c - 32 else c) ∷ to_upper cs

-- KeywordTable
abbrev pub keyword_table : List (Bytes × TokenType)
keyword_table =
    (67 ∷ 82 ∷ 69 ∷ 65 ∷ 84 ∷ 69 ∷ [], TokenType.create)
    ∷ (84 ∷ 65 ∷ 66 ∷ 76 ∷ 69 ∷ [], TokenType.table)
    ∷ (73 ∷ 78 ∷ 83 ∷ 69 ∷ 82 ∷ 84 ∷ [], TokenType.insert)
    ∷ (73 ∷ 78 ∷ 84 ∷ 79 ∷ [], TokenType.into)
    ∷ (86 ∷ 65 ∷ 76 ∷ 85 ∷ 69 ∷ 83 ∷ [], TokenType.values)
    ∷ (83 ∷ 69 ∷ 76 ∷ 69 ∷ 67 ∷ 84 ∷ [], TokenType.select)
    ∷ (70 ∷ 82 ∷ 79 ∷ 77 ∷ [], TokenType.from)
    ∷ (87 ∷ 72 ∷ 69 ∷ 82 ∷ 69 ∷ [], TokenType.where_word)
    ∷ (74 ∷ 79 ∷ 73 ∷ 78 ∷ [], TokenType.join)
    ∷ (79 ∷ 78 ∷ [], TokenType.on)
    ∷ (65 ∷ 83 ∷ [], TokenType.as_word)
    ∷ (65 ∷ 78 ∷ 68 ∷ [], TokenType.and)
    ∷ (79 ∷ 82 ∷ [], TokenType.or)
    ∷ (80 ∷ 82 ∷ 73 ∷ 77 ∷ 65 ∷ 82 ∷ 89 ∷ [], TokenType.primary)
    ∷ (75 ∷ 69 ∷ 89 ∷ [], TokenType.key)
    ∷ (73 ∷ 78 ∷ 84 ∷ 69 ∷ 71 ∷ 69 ∷ 82 ∷ [], TokenType.integer_type)
    ∷ (84 ∷ 69 ∷ 88 ∷ 84 ∷ [], TokenType.text_type)
    ∷ []

-- `keywords.find(word)`, with IDENTIFIER for a miss.
unfoldable pub keyword_from : List (Bytes × TokenType) → Bytes → TokenType
keyword_from [] word = TokenType.identifier
keyword_from (k ∷ ks) word =
    let rest = keyword_from ks word in if str_eq k.0 word then k.1 else rest

-- Advance over the character `c`.
unfoldable pub advance : ℕ → Bytes → ℕ → ℕ → LexState
advance c cs line column =
    if c == 10
    then record { rest = cs; line = line + 1; column = 1 }
    else record { rest = cs; line = line; column = column + 1 }

-- `while (!IsAtEnd() && p(Peek())) text.push_back(Advance());`
unfoldable pub span : (ℕ → Bool) → Bytes → ℕ → ℕ → Bytes × LexState
unfolding advance
span p [] line column = ([], record { rest = []; line = line; column = column })
span p (c ∷ cs) line column =
    let s = advance c cs line column in
    let more = span p cs s.line s.column in
    if p c
    then (c ∷ more.0, more.1)
    else ([], record { rest = c ∷ cs; line = line; column = column })

unfoldable pub skip_whitespace : LexState → LexState
unfolding span
skip_whitespace s = (span is_space s.rest s.line s.column).1

-- LexIdentifierOrKeyword
unfoldable pub lex_word : LexState → Token × LexState
unfolding span keyword_from to_upper
lex_word s =
    let word = span is_word s.rest s.line s.column in
    (
      record {
        type = keyword_from keyword_table (to_upper word.0);
        text = word.0;
        int_value = pos 0;
        string_value = [];
        line = s.line;
        column = s.column;
      },
      word.1,
    )

-- The number that std::stoll reads from digits.
unfoldable pub digits_value : ℕ → Bytes → ℕ
digits_value n [] = n
digits_value n (c ∷ cs) = digits_value (n * 10 + (c - 48)) cs

-- LexNumber; std::stoll throws std::out_of_range above the 64-bit range.
unfoldable pub lex_number : LexState → Result (Token × LexState)
unfolding span digits_value
lex_number s =
    let digits = span is_digit s.rest s.line s.column in
    let value = digits_value 0 digits.0 in
    if ltb 9223372036854775807 value
    then throw out_of_range
    else ok (
      record {
        type = TokenType.integer_literal;
        text = digits.0;
        int_value = pos value;
        string_value = [];
        line = s.line;
        column = s.column;
      },
      digits.1,
    )

-- `value.push_back(c)` before the rest of the loop.
unfoldable pub push_char : ℕ → Bytes × LexState → Bytes × LexState
push_char c r = (c ∷ r.0, r.1)

-- The loop of LexString, for a literal that starts at `start_line` and `start_column`.
unfoldable pub string_body : ℕ → ℕ → Bytes → ℕ → ℕ → Result (Bytes × LexState)
unfolding advance push_char
string_body start_line start_column [] line column = throw (lex_error start_line start_column)
string_body start_line start_column (c ∷ []) line column =
    if c == 39 then ok ([], advance c [] line column) else throw (lex_error start_line start_column)
string_body start_line start_column (c ∷ d ∷ ds) line column =
    let s = advance c (d ∷ ds) line column in
    let t = advance d ds s.line s.column in
    let escaped = string_body start_line start_column ds t.line t.column in
    let more = string_body start_line start_column (d ∷ ds) s.line s.column in
    if c == 39
    then if d == 39 then (escaped >>= λ r. ok (push_char 39 r)) else ok ([], s)
    else (more >>= λ r. ok (push_char c r))

-- LexString, behind the opening quote.
unfoldable pub lex_string : ℕ → Bytes → LexState → Result (Token × LexState)
unfolding advance string_body
lex_string c cs s =
    let opened = advance c cs s.line s.column in
    string_body s.line s.column cs opened.line opened.column >>= λ body. ok (
      record {
        type = TokenType.string_literal;
        text = body.0;
        int_value = pos 0;
        string_value = body.0;
        line = s.line;
        column = s.column;
      },
      body.1,
    )

-- MakeToken
unfoldable pub make_token : TokenType → Bytes → LexState → Token × LexState
make_token type text s = (
  record {
    type = type;
    text = text;
    int_value = pos 0;
    string_value = [];
    line = s.line;
    column = s.column - length text;
  },
  s,
)

-- A symbol that a `=` may follow; `alone` is what it means without.
unfoldable pub lex_second :
    ℕ → TokenType → Result (Token × LexState) → LexState → Bytes → Result (Token × LexState)
unfolding advance make_token
lex_second c type alone s [] = alone
lex_second c type alone s (d ∷ ds) =
    if d == 61 then ok (make_token type (c ∷ 61 ∷ []) (advance d ds s.line s.column)) else alone

unfoldable pub lex_double :
    ℕ → TokenType → Result (Token × LexState) → LexState → Result (Token × LexState)
unfolding lex_second
lex_double c type alone s = lex_second c type alone s s.rest

-- The `switch`, for the character `c` of the state `s`.
unfoldable pub lex_symbol : ℕ → Bytes → LexState → Result (Token × LexState)
unfolding lex_double make_token advance
lex_symbol c cs s =
    let next = advance c cs s.line s.column in
    if c == 42
    then ok (make_token TokenType.star (c ∷ []) next)
    else if c == 44
    then ok (make_token TokenType.comma (c ∷ []) next)
    else if c == 46
    then ok (make_token TokenType.dot (c ∷ []) next)
    else if c == 59
    then ok (make_token TokenType.semicolon (c ∷ []) next)
    else if c == 40
    then ok (make_token TokenType.lparen (c ∷ []) next)
    else if c == 41
    then ok (make_token TokenType.rparen (c ∷ []) next)
    else if c == 61
    then ok (make_token TokenType.eq (c ∷ []) next)
    else if c == 60
    then lex_double c TokenType.lte (ok (make_token TokenType.lt (c ∷ []) next)) next
    else if c == 62
    then lex_double c TokenType.gte (ok (make_token TokenType.gt (c ∷ []) next)) next
    else if c == 33
    then lex_double c TokenType.neq (throw (lex_error s.line s.column)) next
    else throw (lex_error s.line s.column)

-- One round of Tokenize behind the whitespace, at the character `c`.
unfoldable pub lex_one : ℕ → Bytes → LexState → Result (Token × LexState)
unfolding lex_word lex_number lex_string lex_symbol
lex_one c cs s =
    if is_alpha c || c == 95
    then ok (lex_word s)
    else if is_digit c
    then lex_number s
    else if c == 39
    then lex_string c cs s
    else lex_symbol c cs s

unfoldable pub end_token : LexState → Token
end_token s = record {
  type = TokenType.end_of_input;
  text = [];
  int_value = pos 0;
  string_value = [];
  line = s.line;
  column = s.column;
}

unfoldable pub tokenize_step :
    (LexState → Result (List Token)) → LexState → Bytes → Result (List Token)
unfolding lex_one end_token
tokenize_step continue s [] = ok (end_token s ∷ [])
tokenize_step continue s (c ∷ cs) =
    lex_one c cs s >>= λ r. continue r.1 >>= λ tokens. ok (r.0 ∷ tokens)

-- The loop of Tokenize.
unfoldable pub tokenize_from : ℕ → LexState → Result (List Token)
unfolding tokenize_step skip_whitespace
tokenize_from zero s = throw out_of_fuel
tokenize_from (suc fuel) s =
    let start = skip_whitespace s in tokenize_step (tokenize_from fuel) start start.rest

-- Each token takes a character, so one round more than there are characters is enough.
unfoldable pub tokenize : Bytes → Result (List Token)
unfolding tokenize_from
tokenize source = tokenize_from (length source + 1) (record { rest = source; line = 1; column = 1 })
