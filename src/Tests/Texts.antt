-- ===== src/Tests/Texts.antt =====
-- src/lexer.cpp at short texts.
use toy_relational_database.Prelude.{Bytes, [], map, refl, str_eq, ℕ, ◌∷◌, ◌≡◌}
use toy_relational_database.Errors.{ok, throw, lex_error, ◌>>=◌}
use toy_relational_database.Lexer.{TokenType, tokenize}
use toy_relational_database.Lexer.Total.{Outcome, tokenize-Outcome}

-- `a <= 'b''c'`
abbrev source : Bytes
source = 97 ∷ 32 ∷ 60 ∷ 61 ∷ 32 ∷ 39 ∷ 98 ∷ 39 ∷ 39 ∷ 99 ∷ 39 ∷ []

tokenize_types :
    (tokenize source >>= λ ts. ok (map {B = TokenType × ℕ} (λ t. (t.type, t.column)) ts))
    ≡ ok (
        (TokenType.identifier, 1)
        ∷ (TokenType.lte, 3)
        ∷ (TokenType.string_literal, 6)
        ∷ (TokenType.end_of_input, 12)
        ∷ [])
unfolding tokenize str_eq
tokenize_types = refl

-- A literal without its closing quote.
tokenize_open : tokenize (32 ∷ 39 ∷ 98 ∷ []) ≡ throw (lex_error 1 2)
unfolding tokenize
tokenize_open = refl

tokenize-Outcome_example : Outcome (tokenize source)
tokenize-Outcome_example = tokenize-Outcome source
