-- ===== src/Ast.antt =====
-- include/ast.h: the syntax tree, and src/ast.cpp.
use toy_relational_database.Prelude.{ℤ, Bytes, Bool, List, Option}

pub data ColumnType : Type 0 where
  integer text : ColumnType

pub record ColumnDef : Type 0 where
  pub name : Bytes
  pub type : ColumnType
  pub is_primary_key : Bool

-- `kind` selects the member that is meaningful.
pub data Literal : Type 0 where
  integer : ℤ → Literal
  text : Bytes → Literal

pub data ComparisonOp : Type 0 where
  eq neq lt lte gt gte : ComparisonOp

pub data Expr : Type 0 where
  column_ref : Option Bytes → Bytes → Expr
  literal : Literal → Expr
  comparison : ComparisonOp → Expr → Expr → Expr
  and or : Expr → Expr → Expr

pub record TableRef : Type 0 where
  pub table : Bytes
  pub alias : Option Bytes

pub record JoinClause : Type 0 where
  pub table : TableRef
  pub on_condition : Expr

pub record SelectItem : Type 0 where
  pub table : Option Bytes
  pub column : Bytes
  pub alias : Option Bytes

pub record SelectStmt : Type 0 where
  pub is_star : Bool
  pub select_items : List SelectItem
  pub from : TableRef
  pub joins : List JoinClause
  pub where_clause : Option Expr

pub record CreateTableStmt : Type 0 where
  pub table_name : Bytes
  pub columns : List ColumnDef

pub record InsertStmt : Type 0 where
  pub table_name : Bytes
  pub columns : List Bytes
  pub values : List Literal

pub data Statement : Type 0 where
  create_table : CreateTableStmt → Statement
  insert : InsertStmt → Statement
  select : SelectStmt → Statement
