-- ===== src/Scim/Filter/Arguments.antt =====
-- A query has an argument for each placeholder (scim/filter.go).
use Prim.Native.Char.{code}
use Prim.Native.String.{◌++◌}
use Prim.Native.String.append
use native.Mathlib.Decide.{ℕ_discrete}
use tamper.Prelude.{
  ℕ, suc, ◌+◌, String, String_eq, ℕ_eq, ◌==◌, ◌≡◌, refl, subst, ap, sym, ◌∙◌, Option, none, some,
  List, [], ◌∷◌, length, length-append, Option-cases, inl, inr, if◌then◌else◌, Result, ok, err,
  ◌>>=◌, >>=-eq-ok, arith,
}
use tamper.Prelude.Dict.{lookup}
use tamper.Scim.Filter.{
  Error, Value, text, AttributePath, CompareOperator, eq, ne, co, sw, ew, gt, ge, lt, le, pr,
  other_compare, LogicalOperator, and_op, or_op, other_logical, Expression, attribute, logical,
  negation, value_path, unknown, ColumnMapping, Translator, canonical_attr_name, string_value,
  write, write_with, emit_compare, emit_special, emit_attribute, write_operator, walk, translate,
}

-- The placeholders of a text.
unfoldable pub marks : String → ℕ
marks String.[] = 0
marks (String.◌∷◌ c s) = let rest = marks s in if code c == b'?' then suc rest else rest

marks-append : (s t : String) → marks (s ++ t) ≡ marks s + marks t
unfolding marks
marks-append String.[] t = rw (append.nil t) (omega arith)
marks-append (String.◌∷◌ c s) t = rw (append.cons c s t) (ground (arith, marks-append s t))

-- What an application promises of its mapping: a column holds no placeholder, and the fragment of
-- a special attribute exactly one.
pub record IsMapping (m : ColumnMapping) : Type 0 where
  pub columns : (name col : String) → lookup name m.attrs ≡ some col → marks col ≡ 0
  pub fragments : (name sql : String) → lookup name m.special ≡ some sql → marks sql ≡ 1

-- As many placeholders were written as there are arguments.
abbrev IsBalanced : Translator → Type 0
IsBalanced t = marks t.sb ≡ length t.args

write-IsBalanced :
    (s : String) (t : Translator) → marks s ≡ 0 → IsBalanced t → IsBalanced (write s t)
write-IsBalanced s t z b = omega (arith, marks-append t.sb s)

write_with-IsBalanced :
    (s : String) (v : Value) (t : Translator)
    → marks s ≡ 1
    → IsBalanced t
    → IsBalanced (write_with s v t)
write_with-IsBalanced s v t z b = omega (arith, marks-append t.sb s, length-append t.args (v ∷ []))

-- A column and the comparison behind it.
compared : (col s : String) → marks col ≡ 0 → marks s ≡ 1 → marks (col ++ s) ≡ 1
compared col s z o = omega (arith, marks-append col s)

present :
    (col : String)
    → marks col ≡ 0
    → marks ("(" ++ (col ++ (" IS NOT NULL AND " ++ (col ++ " <> '')")))) ≡ 0
unfolding marks ℕ_discrete
present col z =
    let a : marks "(" ≡ 0 = refl in
    let b : marks " IS NOT NULL AND " ≡ 0 = refl in
    let c : marks " <> '')" ≡ 0 = refl in
    omega (
      arith,
      marks-append "(" (col ++ (" IS NOT NULL AND " ++ (col ++ " <> '')"))),
      marks-append col (" IS NOT NULL AND " ++ (col ++ " <> '')")),
      marks-append " IS NOT NULL AND " (col ++ " <> '')"),
      marks-append col " <> '')",
    )

-- A walk that succeeds is balanced.
abbrev EndsBalanced : Result Error Translator → Type 0
EndsBalanced (ok t) = IsBalanced t
EndsBalanced (err e) = Unit

chain :
    (r : Result Error Translator) (k : Translator → Result Error Translator)
    → EndsBalanced r
    → ((t : Translator) → IsBalanced t → EndsBalanced (k t))
    → EndsBalanced (r >>= k)
chain (ok t) k b h = h t b
chain (err e) k b h = tt

emit_compare-EndsBalanced :
    (col : String) (op : CompareOperator) (v : Value) (t : Translator)
    → marks col ≡ 0
    → IsBalanced t
    → EndsBalanced (emit_compare col op v t)
unfolding marks ℕ_discrete
emit_compare-EndsBalanced col eq v t z b =
    write_with-IsBalanced (col ++ " = ?") v t (compared col " = ?" z refl) b
emit_compare-EndsBalanced col ne v t z b =
    write_with-IsBalanced (col ++ " <> ?") v t (compared col " <> ?" z refl) b
emit_compare-EndsBalanced col co v t z b =
    write_with-IsBalanced (col ++ " LIKE ?") (text ("%" ++ (string_value v ++ "%"))) t
      (compared col " LIKE ?" z refl) b
emit_compare-EndsBalanced col sw v t z b =
    write_with-IsBalanced (col ++ " LIKE ?") (text (string_value v ++ "%")) t
      (compared col " LIKE ?" z refl) b
emit_compare-EndsBalanced col ew v t z b =
    write_with-IsBalanced (col ++ " LIKE ?") (text ("%" ++ string_value v)) t
      (compared col " LIKE ?" z refl) b
emit_compare-EndsBalanced col gt v t z b =
    write_with-IsBalanced (col ++ " > ?") v t (compared col " > ?" z refl) b
emit_compare-EndsBalanced col ge v t z b =
    write_with-IsBalanced (col ++ " >= ?") v t (compared col " >= ?" z refl) b
emit_compare-EndsBalanced col lt v t z b =
    write_with-IsBalanced (col ++ " < ?") v t (compared col " < ?" z refl) b
emit_compare-EndsBalanced col le v t z b =
    write_with-IsBalanced (col ++ " <= ?") v t (compared col " <= ?" z refl) b
emit_compare-EndsBalanced col pr v t z b = write-IsBalanced _ t (present col z) b
emit_compare-EndsBalanced col other_compare v t z b = tt

emit_special-EndsBalanced :
    (sql : String) (op : CompareOperator) (v : Value) (t : Translator)
    → marks sql ≡ 1
    → IsBalanced t
    → EndsBalanced (emit_special sql op v t)
emit_special-EndsBalanced sql eq v t z b = write_with-IsBalanced sql v t z b
emit_special-EndsBalanced sql ne v t z b = tt
emit_special-EndsBalanced sql co v t z b = tt
emit_special-EndsBalanced sql sw v t z b = tt
emit_special-EndsBalanced sql ew v t z b = tt
emit_special-EndsBalanced sql gt v t z b = tt
emit_special-EndsBalanced sql ge v t z b = tt
emit_special-EndsBalanced sql lt v t z b = tt
emit_special-EndsBalanced sql le v t z b = tt
emit_special-EndsBalanced sql pr v t z b = tt
emit_special-EndsBalanced sql other_compare v t z b = tt

module _ (m : ColumnMapping) (mapping : IsMapping m) where
  emit_attribute-EndsBalanced :
      (p : AttributePath) (op : CompareOperator) (v : Value) (t : Translator)
      → IsBalanced t
      → EndsBalanced (emit_attribute m p op v t)
  unfolding emit_attribute
  emit_attribute-EndsBalanced p op v t b =
      elim (Option-cases (lookup (canonical_attr_name p) m.special)) [
        | inr (sql, s) ↦
            rw (s, emit_attribute)
              (emit_special-EndsBalanced sql op v t (mapping.fragments _ sql s) b)
        | inl n ↦ elim (Option-cases (lookup (canonical_attr_name p) m.attrs)) [
          | inr (col, a) ↦
              rw (n, emit_attribute, a, emit_attribute)
                (emit_compare-EndsBalanced col op v t (mapping.columns _ col a) b)
          | inl n' ↦ rw (n, emit_attribute, n', emit_attribute) tt
        ]
      ]

  write_operator-EndsBalanced :
      (op : LogicalOperator) (t : Translator) → IsBalanced t → EndsBalanced (write_operator op t)
  unfolding marks ℕ_discrete
  write_operator-EndsBalanced and_op t b = write-IsBalanced " AND " t refl b
  write_operator-EndsBalanced or_op t b = write-IsBalanced " OR " t refl b
  write_operator-EndsBalanced other_logical t b = tt

  walk-EndsBalanced : (e : Expression) (t : Translator) → IsBalanced t → EndsBalanced (walk m e t)
  unfolding walk marks ℕ_discrete
  walk-EndsBalanced (attribute p op v) t b = emit_attribute-EndsBalanced p op v t b
  walk-EndsBalanced value_path t b = tt
  walk-EndsBalanced unknown t b = tt
  walk-EndsBalanced (negation e) t b =
      chain (walk m e (write "NOT (" t)) _
        (walk-EndsBalanced e (write "NOT (" t) (write-IsBalanced "NOT (" t refl b))
        (λ u c. write-IsBalanced ")" u refl c)
  walk-EndsBalanced (logical l op r) t b =
      chain (walk m l (write "(" t)) _
        (walk-EndsBalanced l (write "(" t) (write-IsBalanced "(" t refl b))
        (λ u c. chain (write_operator op u) _ (write_operator-EndsBalanced op u c) (λ v d.
          chain (walk m r v) _ (walk-EndsBalanced r v d) (λ w f. write-IsBalanced ")" w refl f)))

-- For a mapping whose columns hold no placeholder and whose special fragments hold exactly one,
-- the text of a query has exactly one placeholder for each of its arguments.
pub translate-marks :
    (m : ColumnMapping) (e : Option Expression) {sql : String} {args : List Value}
    → IsMapping m
    → translate e m ≡ ok (sql, args)
    → marks sql ≡ length args
unfolding translate marks
translate-marks m none {sql} {args} mapping h =
    let s : "" ≡ sql = ground arith in
    let a : ◌≡◌ {A = List Value} [] args = ground arith in sym (ap marks s) ∙ ap length a
translate-marks m (some e) {sql} {args} mapping h =
    let start : Translator = record { sb = ""; args = [] } in
    let (t, walked, last) = >>=-eq-ok (walk m e start) _ h in
    let balanced = subst EndsBalanced walked (walk-EndsBalanced m mapping e start refl) in
    let s : t.sb ≡ sql = ground arith in
    let a : t.args ≡ args = ground arith in sym (ap marks s) ∙ balanced ∙ ap length a
