-- ===== src/Planner/Equality.antt =====
-- The comparisons of a column with a literal, which the parser and the planner both look for.
use shard_db.Base.{
  ◌≡◌, refl, ap, ◌∙◌, true, Option, none, some, List, [], ◌∷◌, ◌++◌, All, arith, inl, inr, ◌⊎◌,
  Option-cases,
}
use shard_db.Bytes.{Bytes, bytes_equal, codes}
use shard_db.Bytes.Order.{eq_of_equal, equal_refl}
use shard_db.Sql.Parser.{SqlParser, equality_value}
use shard_db.Planner.{node_key, find_key}

-- The node is `left = right`, where `left` is a column and `right` is a literal with these bytes.
pub record IsEquality (P : SqlParser) (node : P.Node) (key : Bytes) : Type 0 where
  pub left : P.Node
  pub right : P.Node
  pub compares : P.as_comparison node ≡ some (codes "=", left, right)
  pub column : P.is_col_name left ≡ true
  pub literal : P.as_sql_val right ≡ some key

abbrev pub IsOther : (P : SqlParser) → P.Node → Type 0
IsOther P node = (key : Bytes) → ¬ IsEquality P node key

-- What a test for an equality finds.
abbrev pub Found : (P : SqlParser) → P.Node → Option Bytes → Type 0
Found P node o =
    ((key : Bytes) × IsEquality P node key × (o ≡ some key)) ⊎ (IsOther P node × (o ≡ none))

module _ (P : SqlParser) where
  pub equality_value-IsEquality :
      (node : P.Node) (key : Bytes) → IsEquality P node key → equality_value P node ≡ some key
  unfolding equality_value
  equality_value-IsEquality node key e =
      ground (arith, e.compares, e.column, e.literal, equal_refl (codes "="))

  IsEquality-equality_value :
      (node : P.Node) (key : Bytes) → equality_value P node ≡ some key → IsEquality P node key
  unfolding equality_value
  IsEquality-equality_value node key h = elim (Option-cases (P.as_comparison node)) [
    | inl nothing ↦ absurd (ground arith)
    | inr ((operator, left, right), compares) ↦
        let is_equals : bytes_equal operator (codes "=") ≡ true = ground arith in
        record {
          left = left;
          right = right;
          compares =
              compares
              ∙ ap (λ o. some (o, left, right)) (eq_of_equal operator (codes "=") is_equals);
          column = ground arith;
          literal = ground arith;
        }
  ]

  -- The planner's test is written apart from the parser's, and finds the same.
  pub node_key-equality_value : (node : P.Node) → node_key P node ≡ equality_value P node
  unfolding node_key equality_value
  node_key-equality_value node = refl

  not_found : (o : Option Bytes) (key : Bytes) → o ≡ none → o ≡ some key → ⊥
  not_found o key empty full = ground arith

  pub equality_value-Found : (node : P.Node) → Found P node (equality_value P node)
  equality_value-Found node = elim (Option-cases (equality_value P node)) [
    | inl e ↦ inr (
      (λ key is. not_found (equality_value P node) key e (equality_value-IsEquality node key is)),
      e,
    )
    | inr (key, e) ↦ inl (key, IsEquality-equality_value node key e, e)
  ]

  -- The first equality of the nodes, or no equality among them.
  abbrev pub First : List P.Node → Option Bytes → Type 0
  First nodes o =
      ((before : List P.Node) × (node : P.Node) × (after : List P.Node) × (key : Bytes) × (nodes
          ≡ before ++ node ∷ after)
        × All (IsOther P) before
        × IsEquality P node key
        × (o ≡ some key))
      ⊎ (All (IsOther P) nodes × (o ≡ none))

  pub find_key-First : (nodes : List P.Node) → First nodes (find_key P nodes)
  unfolding find_key
  find_key-First [] = inr (tt, refl)
  find_key-First (node ∷ nodes) =
      let same = node_key-equality_value node in
      elim (equality_value-Found node) [
        | inl (key, is, e) ↦ inl ([], node, nodes, key, refl, tt, is, ground (arith, same, e))
        | inr (other, e) ↦ elim (find_key-First nodes) [
          | inr (others, f) ↦ inr ((other, others), ground (arith, same, e, f))
          | inl (before, found, after, key, split, others, is, f) ↦ inl (
            node ∷ before,
            found,
            after,
            key,
            ap (λ ns. node ∷ ns) split,
            (other, others),
            is,
            ground (arith, same, e, f),
          )
        ]
      ]
