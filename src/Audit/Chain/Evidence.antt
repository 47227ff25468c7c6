-- ===== src/Audit/Chain/Evidence.antt =====
-- Why the chain is evidence: who rewrites a row and keeps the last hash has found a collision.
use tamper.Prelude.{◌≡◌, sym, ap, ◌∙◌, ◌⊎◌, inl, inr, List, [], ◌∷◌, ◌++◌, All, length, ◌≟◌, arith}
use tamper.Audit.Bytes.{Bytes, Bytes_eq}
use tamper.Audit.Bytes.Framing.{append-inj}
use tamper.Audit.Event.{Event, hash_size}
use tamper.Audit.Payload.{canonical_payload_v4}
use tamper.Audit.Payload.Content.{content, IsBounded}
use tamper.Audit.Payload.Injective.{canonical_payload_v4-inj}
use tamper.Audit.Chain.{from_row, hash_chain_link, walk_chain, clean}
use tamper.Audit.Chain.Linked.{Collision, Follows, Linked, Intact, final_hash}
use tamper.Audit.Chain.Walks.{walk_chain-Intact}

-- Row by row, the protected fields and both hashes.
abbrev pub SameRecord : List Event → List Event → Type 0
SameRecord [] [] = Unit
SameRecord (r ∷ rows) (s ∷ others) =
    (content r ≡ content s)
    × (r.prev_hash ≡ s.prev_hash)
    × (r.hash ≡ s.hash)
    × SameRecord rows others
SameRecord _ _ = ⊥

-- What the first row follows has the size of a hash.
abbrev pub Rooted : List Event → Type 0
Rooted [] = Unit
Rooted (r ∷ rows) = length r.prev_hash ≡ hash_size

from_row-IsBounded : (r : Event) → IsBounded r → IsBounded (from_row r)
unfolding from_row
from_row-IsBounded r b = ground arith

content-from_row : (r : Event) → content (from_row r) ≡ content r
unfolding content from_row
content-from_row r = ground arith

module _ (sha256 : Bytes → Bytes) where
  link-inj :
      (p q : Bytes) (x y : Bytes)
      → length p ≡ length q
      → hash_chain_link sha256 p x ≡ hash_chain_link sha256 q y
      → ((p ≡ q) × (x ≡ y)) ⊎ Collision sha256
  unfolding hash_chain_link
  link-inj p q x y l e = elim ((p ++ x) ≟ (q ++ y)) [
    | yes same ↦ inl (append-inj p q x y l same)
    | no differ ↦ inr (p ++ x, q ++ y, differ, e)
  ]

  row-inj :
      (p q : Bytes) (r s : Event)
      → length p ≡ hash_size
      → length q ≡ hash_size
      → IsBounded r
      → IsBounded s
      → Follows sha256 p r
      → Follows sha256 q s
      → r.hash ≡ s.hash
      → ((p ≡ q) × (content r ≡ content s)) ⊎ Collision sha256
  row-inj p q r s l k b c f g e =
      elim (link-inj p q (canonical_payload_v4 (from_row r) p) (canonical_payload_v4 (from_row s) q)
        (omega arith) (sym f.hash ∙ e ∙ g.hash)) [
          | inr found ↦ inr found
          | inl (same, payloads) ↦
              let (contents, _) =
                canonical_payload_v4-inj (from_row r) (from_row s) p q (from_row-IsBounded r b)
                  (from_row-IsBounded s c) (omega arith) (omega arith) payloads in
              inl (same, sym (content-from_row r) ∙ contents ∙ content-from_row s)
        ]

  pub hash_length :
      ((x : Bytes) → length (sha256 x) ≡ hash_size)
      → (p : Bytes) (r : Event) → Follows sha256 p r
      → length r.hash ≡ hash_size
  unfolding hash_chain_link
  hash_length size p r f = ap length f.hash ∙ size _

  rows-inj :
      ((x : Bytes) → length (sha256 x) ≡ hash_size)
      → (p q : Bytes) (rows others : List Event) → length rows ≡ length others
      → length p ≡ hash_size
      → length q ≡ hash_size
      → All IsBounded rows
      → All IsBounded others
      → Linked sha256 p rows
      → Linked sha256 q others
      → final_hash p rows ≡ final_hash q others
      → ((p ≡ q) × SameRecord rows others) ⊎ Collision sha256
  rows-inj size p q [] [] n l k b c f g e = inl (e, tt)
  rows-inj size p q [] (s ∷ others) n l k b c f g e = absurd (omega arith)
  rows-inj size p q (r ∷ rows) [] n l k b c f g e = absurd (omega arith)
  rows-inj size p q (r ∷ rows) (s ∷ others) n l k b c f g e =
      elim (rows-inj size r.hash s.hash rows others (omega arith) (hash_length size p r f.0)
        (hash_length size q s g.0) b.1 c.1 f.1 g.1 e) [
          | inr found ↦ inr found
          | inl (hashes, rest) ↦ elim (row-inj p q r s l k b.0 c.0 f.0 g.0 hashes) [
            | inr found ↦ inr found
            | inl (same, contents) ↦
                inl (same, (contents, f.0.prev_hash ∙ same ∙ sym g.0.prev_hash, hashes, rest))
          ]
        ]

  evidence :
      (rows others : List Event)
      → ((x : Bytes) → length (sha256 x) ≡ hash_size)
      → Intact sha256 rows
      → Intact sha256 others
      → Rooted rows
      → Rooted others
      → All IsBounded rows
      → All IsBounded others
      → length rows ≡ length others
      → final_hash [] rows ≡ final_hash [] others
      → SameRecord rows others ⊎ Collision sha256
  evidence [] [] size f g l k b c n e = inl tt
  evidence [] (s ∷ others) size f g l k b c n e = absurd (omega arith)
  evidence (r ∷ rows) [] size f g l k b c n e = absurd (omega arith)
  evidence (r ∷ rows) (s ∷ others) size f g l k b c n e =
      elim (rows-inj size r.prev_hash s.prev_hash (r ∷ rows) (s ∷ others) n l k b c f g e) [
        | inl (_, same) ↦ inl same
        | inr found ↦ inr found
      ]

  -- Two logs of one length that both pass `Verify` and end in the same hash agree, row by row, in
  -- every protected field and in both hashes, or else a collision of SHA-256 has been found. Hashes
  -- have 32 bytes, as has what the first row follows; fields are shorter than 4 GiB and times lie
  -- in the range of `UnixNano`.
  pub walk_chain-evidence :
      (rows others : List Event)
      → ((x : Bytes) → length (sha256 x) ≡ hash_size)
      → walk_chain sha256 rows ≡ clean (length rows)
      → walk_chain sha256 others ≡ clean (length others)
      → Rooted rows
      → Rooted others
      → All IsBounded rows
      → All IsBounded others
      → length rows ≡ length others
      → final_hash [] rows ≡ final_hash [] others
      → SameRecord rows others ⊎ Collision sha256
  walk_chain-evidence rows others size v w l k b c n e =
      evidence rows others size ((walk_chain-Intact sha256 rows).0 v)
        ((walk_chain-Intact sha256 others).0 w) l k b c n e
