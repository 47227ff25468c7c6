-- ===== src/Scim/Filter.antt =====
-- scim/filter.go: `Translate`, from a parsed filter to the text and the arguments of a query. The
-- parser is a library; its tree is the type of expressions here.
pub mod Placeholders
pub mod Arguments
use Prim.Native.String.{◌++◌}
use tamper.Prelude.{
  String, String_eq, Bool, true, false, not, Option, none, some, if◌then◌else◌, Result, ok, err,
  ◌>>=◌, ◌>>◌, fail_if,
}
use mathlib.Core.List.{List, [], ◌∷◌, ◌++◌ as append}
use tamper.Prelude.Dict.{Dict, lookup}

-- `ErrInvalidFilter`, which every `FilterError` wraps.
pub data Error : Type 0 where
  invalid_filter : Error

-- A compare value: a text, or another value by what `fmt.Sprint` prints of it.
pub data Value : Type 0 where
  text : String → Value
  printed : String → Value

pub record AttributePath : Type 0 where
  pub attribute_name : String
  pub sub_attribute : Option String

pub data CompareOperator : Type 0 where
  eq ne co sw ew gt ge lt le pr other_compare : CompareOperator

pub data LogicalOperator : Type 0 where
  and_op or_op other_logical : LogicalOperator

pub data Expression : Type 0 where
  attribute : AttributePath → CompareOperator → Value → Expression
  logical : Expression → LogicalOperator → Expression → Expression
  negation : Expression → Expression
  value_path unknown : Expression

pub record ColumnMapping : Type 0 where
  pub attrs : Dict String String
  pub special : Dict String String

-- The state of the walk: what was written, and the arguments.
pub record Translator : Type 0 where
  pub sb : String
  pub args : List Value

abbrev pub dotted : String → Option String → String
dotted name none = name
dotted name (some sub) = name ++ ("." ++ sub)

unfoldable pub canonical_attr_name : AttributePath → String
canonical_attr_name p = dotted p.attribute_name p.sub_attribute

abbrev pub string_value : Value → String
string_value (text s) = s
string_value (printed s) = s

abbrev pub write : String → Translator → Translator
write s t = record t { sb = t.sb ++ s }

-- A fragment with one placeholder, and its argument.
abbrev pub write_with : String → Value → Translator → Translator
write_with s v t = record { sb = t.sb ++ s; args = append t.args (v ∷ []) }

abbrev pub emit_compare : String → CompareOperator → Value → Translator → Result Error Translator
emit_compare col eq v t = ok (write_with (col ++ " = ?") v t)
emit_compare col ne v t = ok (write_with (col ++ " <> ?") v t)
emit_compare col co v t =
    ok (write_with (col ++ " LIKE ?") (text ("%" ++ (string_value v ++ "%"))) t)
emit_compare col sw v t = ok (write_with (col ++ " LIKE ?") (text (string_value v ++ "%")) t)
emit_compare col ew v t = ok (write_with (col ++ " LIKE ?") (text ("%" ++ string_value v)) t)
emit_compare col gt v t = ok (write_with (col ++ " > ?") v t)
emit_compare col ge v t = ok (write_with (col ++ " >= ?") v t)
emit_compare col lt v t = ok (write_with (col ++ " < ?") v t)
emit_compare col le v t = ok (write_with (col ++ " <= ?") v t)
emit_compare col pr v t = ok (write ("(" ++ (col ++ (" IS NOT NULL AND " ++ (col ++ " <> '')")))) t)
emit_compare col other_compare v t = err invalid_filter

abbrev pub emit_special : String → CompareOperator → Value → Translator → Result Error Translator
emit_special sql eq v t = ok (write_with sql v t)
emit_special sql _ v t = err invalid_filter

unfoldable pub emit_attribute :
    ColumnMapping → AttributePath → CompareOperator → Value → Translator → Result Error Translator
unfolding canonical_attr_name
emit_attribute m p op v t = elim (lookup (canonical_attr_name p) m.special) [
  | some sql ↦ emit_special sql op v t
  | none ↦ elim (lookup (canonical_attr_name p) m.attrs) [
    | some col ↦ emit_compare col op v t
    | none ↦ err invalid_filter
  ]
]

abbrev pub write_operator : LogicalOperator → Translator → Result Error Translator
write_operator and_op t = ok (write " AND " t)
write_operator or_op t = ok (write " OR " t)
write_operator other_logical t = err invalid_filter

unfoldable pub walk : ColumnMapping → Expression → Translator → Result Error Translator
unfolding emit_attribute
walk m (attribute p op v) t = emit_attribute m p op v t
walk m (logical l op r) t = do
  t1 ← walk m l (write "(" t)
  t2 ← write_operator op t1
  t3 ← walk m r t2
  ok (write ")" t3)
walk m (negation e) t = do t1 ← walk m e (write "NOT (" t); ok (write ")" t1)
walk m value_path t = err invalid_filter
walk m unknown t = err invalid_filter

-- `none` is the nil expression of an empty filter.
unfoldable pub translate : Option Expression → ColumnMapping → Result Error (String × List Value)
unfolding walk
translate none m = ok ("", [])
translate (some e) m = do t ← walk m e (record { sb = ""; args = [] }); ok (t.sb, t.args)
