-- ===== src/Planner/Names.antt =====
-- src/physical_plan.cpp, CollectReferencedTables: which tables a condition names.
use toy_relational_database.Prelude.{
  All, Bool-cases, Bytes, List, Option, [], arith, inl, inr, none, refl, some, str_eq_iff, subst,
  true, ◌↔◌, ◌∷◌, ◌≡◌, ◌⊎◌,
}
use toy_relational_database.Ast.{Expr, column_ref, literal, comparison, and, or}
use toy_relational_database.Planner.{
  TableNode, contains, insert_name, collect_referenced_tables, referenced, is_connected,
}

-- The tables of the qualified column references of an expression satisfy `P`.
abbrev pub EveryTable : (Bytes → Type 0) → Expr → Type 0
EveryTable P (column_ref none column) = Unit
EveryTable P (column_ref (some table) column) = P table
EveryTable P (comparison op l r) = EveryTable P l × EveryTable P r
EveryTable P (and l r) = EveryTable P l × EveryTable P r
EveryTable P (or l r) = EveryTable P l × EveryTable P r
EveryTable P (literal lit) = Unit

abbrev pub Among : List Bytes → Bytes → Type 0
Among [] name = ⊥
Among (x ∷ xs) name = (x ≡ name) ⊎ Among xs name

-- The ON condition names, in its qualified column references, no table but the node's own and the
-- joined ones.
abbrev pub NamesOnly : List Bytes → TableNode → Type 0
NamesOnly joined n = elim n.join_condition [
  | none ↦ Unit
  | some condition ↦ EveryTable (λ name. (name ≡ n.alias) ⊎ Among joined name) condition
]

contains_iff : (names : List Bytes) (name : Bytes) → (contains names name ≡ true) ↔ Among names name
unfolding contains
contains_iff [] name = ((λ h. cc), (λ h. elim h [ ]))
contains_iff (x ∷ xs) name = ground (arith, str_eq_iff x name, contains_iff xs name)

module _ (P : Bytes → Type 0) where
  Among-All : (names : List Bytes) (name : Bytes) → Among names name → All P names → P name
  Among-All [] name h a = elim h [ ]
  Among-All (x ∷ xs) name h a = elim h [ inl e ↦ subst P e a.0 | inr w ↦ Among-All xs name w a.1 ]

  insert_name-All :
      (name : Bytes) (names : List Bytes) → All P (insert_name name names) ↔ (P name × All P names)
  unfolding insert_name
  insert_name-All name names = elim (Bool-cases (contains names name)) [
    | inl e ↦ rw e ((λ a. (Among-All names name ((contains_iff names name).0 e) a, a)), (λ a. a.1))
    | inr e ↦ rw e ((λ a. a), (λ a. a))
  ]

  both :
      (l r : Expr) (out : List Bytes)
      → All P (collect_referenced_tables l out) ↔ (EveryTable P l × All P out)
      → All P (collect_referenced_tables r (collect_referenced_tables l out))
        ↔ (EveryTable P r × All P (collect_referenced_tables l out))
      → All P (collect_referenced_tables r (collect_referenced_tables l out))
        ↔ ((EveryTable P l × EveryTable P r) × All P out)
  both l r out f g = (
    (λ a. let b = g.0 a in let c = f.0 b.1 in ((c.0, b.0), c.1)),
    (λ a. g.1 (a.0.1, f.1 (a.0.0, a.1))),
  )

  collect-All :
      (e : Expr) (out : List Bytes)
      → All P (collect_referenced_tables e out) ↔ (EveryTable P e × All P out)
  unfolding collect_referenced_tables
  collect-All (column_ref none column) out = ((λ a. (tt, a)), (λ a. a.1))
  collect-All (column_ref (some table) column) out = insert_name-All table out
  collect-All (comparison op l r) out = both l r out (collect-All l out) (collect-All r _)
  collect-All (and l r) out = both l r out (collect-All l out) (collect-All r _)
  collect-All (or l r) out = both l r out (collect-All l out) (collect-All r _)
  collect-All (literal lit) out = ((λ a. (tt, a)), (λ a. a.1))

is_connected-All :
    (alias : Bytes) (joined refs : List Bytes)
    → (is_connected alias joined refs ≡ true)
      ↔ All (λ name. (name ≡ alias) ⊎ Among joined name) refs
unfolding is_connected
is_connected-All alias joined [] = ((λ h. tt), (λ h. refl))
is_connected-All alias joined (r ∷ refs) =
    ground (arith, str_eq_iff r alias, contains_iff joined r, is_connected-All alias joined refs)

pub connected_iff :
    (joined : List Bytes) (n : TableNode)
    → (is_connected n.alias joined (referenced n) ≡ true) ↔ NamesOnly joined n
connected_iff joined n = at_condition n.join_condition refl
  where
    at_condition :
        (condition : Option Expr)
        → n.join_condition ≡ condition
        → (is_connected n.alias joined (referenced n) ≡ true) ↔ NamesOnly joined n
    at_condition none e = rw e ((λ h. tt), (λ h. unfold is_connected in refl))
    at_condition (some c) e =
        let every = is_connected-All n.alias joined (collect_referenced_tables c []) in
        let names = collect-All (λ name. (name ≡ n.alias) ⊎ Among joined name) c [] in
        rw e ((λ h. (names.0 (every.0 h)).0), (λ h. every.1 (names.1 (h, tt))))
