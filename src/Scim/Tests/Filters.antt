-- ===== src/Scim/Tests/Filters.antt =====
-- A filter on users (scim/filter.go).
use native.Mathlib.Decide.{ℕ_discrete}
use tamper.Prelude.{
  String, String-dec, String_eq, ◌≡◌, refl, ap, ◌⊎◌, inl, inr, none, some, List, [], ◌∷◌, length,
  ok, arith,
}
use tamper.Prelude.Dict.{lookup}
use tamper.Scim.Filter.{
  Value, text, AttributePath, eq, co, Expression, attribute, logical, negation, and_op,
  ColumnMapping, canonical_attr_name, emit_attribute, walk, translate,
}
use tamper.Scim.Filter.Placeholders.{where_of, with_values, translate-with_values}
use tamper.Scim.Filter.Arguments.{marks, IsMapping, translate-marks}

program : Unit {0}
unfolding ℕ_discrete String-dec lookup canonical_attr_name emit_attribute walk translate marks
program = tt

abbrev users : ColumnMapping
users = record {
  attrs = ("userName", "user_name") ∷ ("name.familyName", "family") ∷ [];
  special = ("groups", "id IN (SELECT u FROM m WHERE g = ?)") ∷ [];
}

abbrev family : AttributePath
family = record { attribute_name = "name"; sub_attribute = some "familyName" }

abbrev group : AttributePath
group = record { attribute_name = "groups"; sub_attribute = none }

abbrev filter : Expression
filter =
    logical (attribute group eq (text "g1")) and_op
      (negation (attribute family co (text "' OR 1=1")))

abbrev query : String
query = "(id IN (SELECT u FROM m WHERE g = ?) AND NOT (family LIKE ?))"

abbrev args : List Value
args = text "g1" ∷ text "%' OR 1=1%" ∷ []

translated : translate (some filter) users ≡ ok (query, args)
unfolding program
translated = refl

abbrev blank : Value → Value
blank v = text ""

translate-with_values_example :
    where_of (translate (some (with_values blank filter)) users)
    ≡ where_of (translate (some filter) users)
translate-with_values_example = translate-with_values users blank filter

-- The entries of the mapping, one by one.
column_cases :
    (name col : String)
    → lookup name users.attrs ≡ some col
    → (col ≡ "user_name") ⊎ (col ≡ "family")
unfolding lookup
column_cases name col h = ground arith

fragment_cases :
    (name sql : String)
    → lookup name users.special ≡ some sql
    → sql ≡ "id IN (SELECT u FROM m WHERE g = ?)"
unfolding lookup
fragment_cases name sql h = ground arith

users-IsMapping : IsMapping users
unfolding program
users-IsMapping = record {
  columns =
      λ name col h. elim (column_cases name col h) [ inl p ↦ ap marks p | inr p ↦ ap marks p ];
  fragments = λ name sql h. ap marks (fragment_cases name sql h);
}

translate-marks_example : marks query ≡ length args
unfolding program
translate-marks_example =
    translate-marks users (some filter) {sql = query} {args = args} users-IsMapping refl
