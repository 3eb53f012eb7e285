-- ===== src/Parser/Spell.antt =====
-- src/parser.cpp: the tokens of an expression, with parentheses only where the precedence of OR, AND and
-- the comparisons asks for them, and the parser on single values.
use toy_relational_database.Prelude.{
  Bool, Bytes, List, [], ap, append_assoc, false, ltb, none, pos, refl, some, true, ℕ, ◌++◌, ◌==◌,
  ◌∷◌, ◌≡◌,
}
use toy_relational_database.Errors.{ok}
use toy_relational_database.Ast.{Literal, Expr, ComparisonOp}
use toy_relational_database.Lexer.{Token, TokenType}
use toy_relational_database.Parser.{
  Parser, type_number, advance, check, expect, parse_ident, parse_qualified, parse_literal,
}
use toy_relational_database.Parser.Select.{parse_comparison_op, parse_value, parse_comparison}

abbrev pub token : TokenType → Token
token type = record {
  type = type;
  text = [];
  int_value = pos 0;
  string_value = [];
  line = 0;
  column = 0;
}

abbrev pub name_token : Bytes → Token
name_token name = record (token TokenType.identifier) { text = name }

-- Empty for what is not a value.
abbrev pub spell_value : Expr → List Token
spell_value (Expr.column_ref none column) = name_token column ∷ []
spell_value (Expr.column_ref (some table) column) =
    name_token table ∷ token TokenType.dot ∷ name_token column ∷ []
spell_value (Expr.literal (Literal.integer i)) =
    record (token TokenType.integer_literal) { int_value = i } ∷ []
spell_value (Expr.literal (Literal.text x)) =
    record (token TokenType.string_literal) { string_value = x } ∷ []
spell_value (Expr.comparison op l r) = []
spell_value (Expr.and l r) = []
spell_value (Expr.or l r) = []

abbrev pub operator_type : ComparisonOp → TokenType
operator_type ComparisonOp.eq = TokenType.eq
operator_type ComparisonOp.neq = TokenType.neq
operator_type ComparisonOp.lt = TokenType.lt
operator_type ComparisonOp.lte = TokenType.lte
operator_type ComparisonOp.gt = TokenType.gt
operator_type ComparisonOp.gte = TokenType.gte

abbrev pub wrap : Bool → List Token → List Token
wrap false tokens = tokens
wrap true tokens = token TokenType.lparen ∷ tokens ++ token TokenType.rparen ∷ []

-- Level 0 is an operand of nothing, 1 one of OR, 2 one of AND.
abbrev pub spell : ℕ → Expr → List Token
spell level (Expr.or l r) = wrap (ltb 0 level) (spell 0 l ++ token TokenType.or ∷ spell 1 r)
spell level (Expr.and l r) = wrap (ltb 1 level) (spell 1 l ++ token TokenType.and ∷ spell 2 r)
spell level (Expr.comparison op l r) = spell_value l ++ token (operator_type op) ∷ spell_value r
spell level (Expr.column_ref table column) = []
spell level (Expr.literal l) = []

abbrev pub IsValue : Expr → Type 0
IsValue (Expr.column_ref table column) = Unit
IsValue (Expr.literal l) = Unit
IsValue (Expr.comparison op l r) = ⊥
IsValue (Expr.and l r) = ⊥
IsValue (Expr.or l r) = ⊥

-- The conditions of the grammar: comparisons of values under AND and OR.
abbrev pub IsCondition : Expr → Type 0
IsCondition (Expr.column_ref table column) = ⊥
IsCondition (Expr.literal l) = ⊥
IsCondition (Expr.comparison op l r) = IsValue l × IsValue r
IsCondition (Expr.and l r) = IsCondition l × IsCondition r
IsCondition (Expr.or l r) = IsCondition l × IsCondition r

-- The parser in front of these tokens.
abbrev pub stand : List Token → Parser
stand [] = record { current = token TokenType.end_of_input; behind = [] }
stand (t ∷ ts) = record { current = t; behind = ts }

abbrev pub IsNot : TokenType → Token → Type 0
IsNot type t = (type_number t.type == type_number type) ≡ false

pub advance-stand :
    (u : Token) (ws : List Token) (t : Token) (ts : List Token)
    → advance (stand (u ∷ ws ++ t ∷ ts)) ≡ stand (ws ++ t ∷ ts)
advance-stand u [] t ts = refl
advance-stand u (w ∷ ws) t ts = refl

pub value_lem :
    (v : Expr) (t : Token) (ts : List Token)
    → IsValue v
    → IsNot TokenType.dot t
    → parse_value (stand (spell_value v ++ t ∷ ts)) ≡ ok (v, stand (t ∷ ts))
unfolding parse_value parse_qualified parse_ident parse_literal expect check
value_lem (Expr.column_ref none column) t ts v n = rw n refl
value_lem (Expr.column_ref (some table) column) t ts v n = refl
value_lem (Expr.literal (Literal.integer i)) t ts v n = refl
value_lem (Expr.literal (Literal.text x)) t ts v n = refl
value_lem (Expr.comparison op l r) t ts v n = elim v [ ]
value_lem (Expr.and l r) t ts v n = elim v [ ]
value_lem (Expr.or l r) t ts v n = elim v [ ]

comparison_op_lem :
    (op : ComparisonOp) (ws : List Token) (t : Token) (ts : List Token)
    → parse_comparison_op (stand (token (operator_type op) ∷ ws ++ t ∷ ts))
      ≡ ok (op, stand (ws ++ t ∷ ts))
unfolding parse_comparison_op check
comparison_op_lem ComparisonOp.eq ws t ts =
    ap (λ s. ok (ComparisonOp.eq, s)) (advance-stand (token TokenType.eq) ws t ts)
comparison_op_lem ComparisonOp.neq ws t ts =
    ap (λ s. ok (ComparisonOp.neq, s)) (advance-stand (token TokenType.neq) ws t ts)
comparison_op_lem ComparisonOp.lt ws t ts =
    ap (λ s. ok (ComparisonOp.lt, s)) (advance-stand (token TokenType.lt) ws t ts)
comparison_op_lem ComparisonOp.lte ws t ts =
    ap (λ s. ok (ComparisonOp.lte, s)) (advance-stand (token TokenType.lte) ws t ts)
comparison_op_lem ComparisonOp.gt ws t ts =
    ap (λ s. ok (ComparisonOp.gt, s)) (advance-stand (token TokenType.gt) ws t ts)
comparison_op_lem ComparisonOp.gte ws t ts =
    ap (λ s. ok (ComparisonOp.gte, s)) (advance-stand (token TokenType.gte) ws t ts)

operator-IsNot : (op : ComparisonOp) → IsNot TokenType.dot (token (operator_type op))
operator-IsNot ComparisonOp.eq = refl
operator-IsNot ComparisonOp.neq = refl
operator-IsNot ComparisonOp.lt = refl
operator-IsNot ComparisonOp.lte = refl
operator-IsNot ComparisonOp.gt = refl
operator-IsNot ComparisonOp.gte = refl

pub comparison_lem :
    (op : ComparisonOp) (l r : Expr) (t : Token) (ts : List Token)
    → IsValue l
    → IsValue r
    → IsNot TokenType.dot t
    → parse_comparison
        (stand ((spell_value l ++ token (operator_type op) ∷ spell_value r) ++ t ∷ ts))
      ≡ ok (Expr.comparison op l r, stand (t ∷ ts))
unfolding parse_comparison
comparison_lem op l r t ts v w n =
    rw
      (
        append_assoc (spell_value l) (token (operator_type op) ∷ spell_value r) (t ∷ ts),
        value_lem l (token (operator_type op)) (spell_value r ++ t ∷ ts) v (operator-IsNot op),
        comparison_op_lem op (spell_value r) t ts,
        value_lem r t ts w n,
      )
      refl

-- A comparison does not begin with a parenthesis.
pub comparison-check :
    (op : ComparisonOp) (l r : Expr) (ts : List Token)
    → IsValue l
    → check TokenType.lparen
        (stand ((spell_value l ++ token (operator_type op) ∷ spell_value r) ++ ts))
      ≡ false
unfolding check
comparison-check op (Expr.column_ref none column) r ts v = refl
comparison-check op (Expr.column_ref (some table) column) r ts v = refl
comparison-check op (Expr.literal (Literal.integer i)) r ts v = refl
comparison-check op (Expr.literal (Literal.text x)) r ts v = refl
comparison-check op (Expr.comparison o l m) r ts v = elim v [ ]
comparison-check op (Expr.and l m) r ts v = elim v [ ]
comparison-check op (Expr.or l m) r ts v = elim v [ ]
