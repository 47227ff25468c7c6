-- ===== src/Scim/Filter/Placeholders.antt =====
-- The text of a query does not depend on the values of its filter (scim/filter.go).
use Prim.Native.String.{◌++◌}
use tamper.Prelude.{
  String, String_eq, ◌≡◌, refl, ap, sym, ◌∙◌, some, List, [], Option-cases, inl, inr, Result, ok,
  err, ◌>>=◌, arith,
}
use tamper.Prelude.Dict.{lookup}
use tamper.Scim.Filter.{
  Error, Value, AttributePath, CompareOperator, eq, ne, co, sw, ew, gt, ge, lt, le, pr,
  other_compare, LogicalOperator, and_op, or_op, other_logical, Expression, attribute, logical,
  negation, value_path, unknown, ColumnMapping, Translator, canonical_attr_name, write,
  emit_compare, emit_special, emit_attribute, write_operator, walk, translate,
}

-- The filter with another value in the place of each.
abbrev pub with_values : (Value → Value) → Expression → Expression
with_values f (attribute p op v) = attribute p op (f v)
with_values f (logical l op r) = logical (with_values f l) op (with_values f r)
with_values f (negation e) = negation (with_values f e)
with_values f value_path = value_path
with_values f unknown = unknown

-- What was written, or the error.
abbrev written : Result Error Translator → Result Error String
written (ok t) = ok t.sb
written (err e) = err e

-- The text of a query, or the error.
abbrev pub where_of : Result Error (String × List Value) → Result Error String
where_of (ok (s, args)) = ok s
where_of (err e) = err e

module _ (m : ColumnMapping) (f : Value → Value) where
  emit_compare-written :
      (col : String) (op : CompareOperator) (v : Value) (t t' : Translator)
      → t.sb ≡ t'.sb
      → written (emit_compare col op v t) ≡ written (emit_compare col op (f v) t')
  emit_compare-written col eq v t t' e = cc
  emit_compare-written col ne v t t' e = cc
  emit_compare-written col co v t t' e = cc
  emit_compare-written col sw v t t' e = cc
  emit_compare-written col ew v t t' e = cc
  emit_compare-written col gt v t t' e = cc
  emit_compare-written col ge v t t' e = cc
  emit_compare-written col lt v t t' e = cc
  emit_compare-written col le v t t' e = cc
  emit_compare-written col pr v t t' e = cc
  emit_compare-written col other_compare v t t' e = refl

  emit_special-written :
      (sql : String) (op : CompareOperator) (v : Value) (t t' : Translator)
      → t.sb ≡ t'.sb
      → written (emit_special sql op v t) ≡ written (emit_special sql op (f v) t')
  emit_special-written sql eq v t t' e = cc
  emit_special-written sql ne v t t' e = refl
  emit_special-written sql co v t t' e = refl
  emit_special-written sql sw v t t' e = refl
  emit_special-written sql ew v t t' e = refl
  emit_special-written sql gt v t t' e = refl
  emit_special-written sql ge v t t' e = refl
  emit_special-written sql lt v t t' e = refl
  emit_special-written sql le v t t' e = refl
  emit_special-written sql pr v t t' e = refl
  emit_special-written sql other_compare v t t' e = refl

  emit_attribute-written :
      (p : AttributePath) (op : CompareOperator) (v : Value) (t t' : Translator)
      → t.sb ≡ t'.sb
      → written (emit_attribute m p op v t) ≡ written (emit_attribute m p op (f v) t')
  unfolding emit_attribute
  emit_attribute-written p op v t t' e =
      elim (Option-cases (lookup (canonical_attr_name p) m.special)) [
        | inr (sql, s) ↦ rw (s, emit_attribute) (emit_special-written sql op v t t' e)
        | inl n ↦ elim (Option-cases (lookup (canonical_attr_name p) m.attrs)) [
          | inr (col, a) ↦
              rw (n, emit_attribute, a, emit_attribute) (emit_compare-written col op v t t' e)
          | inl n' ↦ rw (n, emit_attribute, n', emit_attribute) refl
        ]
      ]

  write_operator-written :
      (op : LogicalOperator) (t t' : Translator)
      → t.sb ≡ t'.sb
      → written (write_operator op t) ≡ written (write_operator op t')
  write_operator-written and_op t t' e = cc
  write_operator-written or_op t t' e = cc
  write_operator-written other_logical t t' e = refl

  -- Two chains write the same if their steps do.
  chain :
      (r r' : Result Error Translator) (k k' : Translator → Result Error Translator)
      → written r ≡ written r'
      → ((t t' : Translator) → t.sb ≡ t'.sb → written (k t) ≡ written (k' t'))
      → written (r >>= k) ≡ written (r' >>= k')
  chain (ok t) (ok t') k k' e h = h t t' (ground arith)
  chain (ok t) (err x) k k' e h = absurd (ground arith)
  chain (err x) (ok t') k k' e h = absurd (ground arith)
  chain (err x) (err y) k k' e h = ground arith

  walk-written :
      (e : Expression) (t t' : Translator)
      → t.sb ≡ t'.sb
      → written (walk m e t) ≡ written (walk m (with_values f e) t')
  unfolding walk
  walk-written (attribute p op v) t t' q = emit_attribute-written p op v t t' q
  walk-written value_path t t' q = refl
  walk-written unknown t t' q = refl
  walk-written (negation e) t t' q =
      chain (walk m e (write "NOT (" t)) (walk m (with_values f e) (write "NOT (" t')) _ _
        (walk-written e (write "NOT (" t) (write "NOT (" t') (ap (λ s. s ++ "NOT (") q))
        (λ u u' q'. ap (λ s. ok (s ++ ")")) q')
  walk-written (logical l op r) t t' q =
      chain (walk m l (write "(" t)) (walk m (with_values f l) (write "(" t')) _ _
        (walk-written l (write "(" t) (write "(" t') (ap (λ s. s ++ "(") q))
        (λ u u' q'.
          chain (write_operator op u) (write_operator op u') _ _ (write_operator-written op u u' q')
            (λ v v' q2.
              chain (walk m r v) (walk m (with_values f r) v') _ _ (walk-written r v v' q2)
                (λ w w' q3. ap (λ s. ok (s ++ ")")) q3)))

where_of-written :
    (r : Result Error Translator) → where_of (r >>= λ t. ok (t.sb, t.args)) ≡ written r
where_of-written (ok t) = refl
where_of-written (err e) = refl

-- The text of the query, or the refusal, is the same whatever values the filter compares with: they
-- reach the database as arguments only.
pub translate-with_values :
    (m : ColumnMapping) (f : Value → Value) (e : Expression)
    → where_of (translate (some (with_values f e)) m) ≡ where_of (translate (some e) m)
unfolding translate
translate-with_values m f e =
    let start : Translator = record { sb = ""; args = [] } in
    where_of-written (walk m (with_values f e) start)
    ∙ sym (walk-written m f e start start refl)
    ∙ sym (where_of-written (walk m e start))
