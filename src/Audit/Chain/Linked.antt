-- ===== src/Audit/Chain/Linked.antt =====
-- What an intact chain is, as a predicate on its rows.
use tamper.Prelude.{◌≡◌, ◌≢◌, List, [], ◌∷◌}
use tamper.Audit.Bytes.{Bytes}
use tamper.Audit.Event.{Event, canonical_version_4}
use tamper.Audit.Payload.{canonical_payload_v4}
use tamper.Audit.Chain.{from_row, hash_chain_link}

-- Two byte strings with one hash.
abbrev pub Collision : (Bytes → Bytes) → Type 0
Collision sha256 = (x : Bytes) × (y : Bytes) × (x ≢ y) × (sha256 x ≡ sha256 y)

-- The row follows a row with the hash `prev`, and carries its own hash.
pub record Follows (sha256 : Bytes → Bytes) (prev : Bytes) (r : Event) : Type 0 where
  pub prev_hash : r.prev_hash ≡ prev
  pub version : r.canonical_version ≡ canonical_version_4
  pub hash : r.hash ≡ hash_chain_link sha256 prev (canonical_payload_v4 (from_row r) prev)

module _ (sha256 : Bytes → Bytes) where
  -- Every row follows the one before it, the first one a row with the hash `prev`.
  abbrev pub Linked : Bytes → List Event → Type 0
  Linked prev [] = Unit
  Linked prev (r ∷ rows) = Follows sha256 prev r × Linked r.hash rows

  -- A chain whose first row follows whatever it says that it follows.
  abbrev pub Intact : List Event → Type 0
  Intact [] = Unit
  Intact (r ∷ rows) = Linked r.prev_hash (r ∷ rows)

-- The hash of the last row, or of the row before the first.
abbrev pub final_hash : Bytes → List Event → Bytes
final_hash prev [] = prev
final_hash prev (r ∷ rows) = final_hash r.hash rows
