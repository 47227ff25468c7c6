-- ===== src/Tenant/Ident.antt =====
-- tenant/id.go: the tenant identifier, which says whether it was set.
use tamper.Prelude.{
  String, String-dec, String_eq, Bool-dec, dec_pair, dec_via, Bool, true, false, not, ◌&&◌, ◌==◌,
  ◌≡◌, Eq, if◌then◌else◌, arith,
}

pub record TenantId : Type 0 where
  pub v : String
  pub set : Bool

pub TenantId-fields : (i j : TenantId) → ◌≡◌ {A = String × Bool} (i.v, i.set) (j.v, j.set) → i ≡ j
TenantId-fields i j e = ground arith

unfoldable pub TenantId-dec : Discrete TenantId
unfolding dec_via dec_pair String-dec Bool-dec
TenantId-dec = dec_via (λ i. (i.v, i.set)) TenantId-fields (dec_pair String-dec Bool-dec)

instance abbrev pub TenantId_eq : Eq TenantId
TenantId_eq = record { dec = TenantId-dec }

-- The zero value `ID{}`, which nobody set.
abbrev pub unset : TenantId
unset = record { v = ""; set = false }

abbrev pub single : TenantId
single = record { v = ""; set = true }

unfoldable pub new : String → TenantId
new s = if s == "" then unset else record { v = s; set = true }

unfoldable pub valid : TenantId → Bool
valid i = i.set

unfoldable pub is_single : TenantId → Bool
is_single i = i.set && i.v == ""

unfoldable pub to_string : TenantId → String
to_string i = i.v

unfoldable pub from_stored : String → TenantId
unfolding new
from_stored s = if s == "" then single else new s

-- What is stored of a tenant reads back as that tenant: an identifier that was set survives the
-- way through its text, and a stored text the way through its identifier, which is set, and is
-- the single tenant exactly for the empty text.
pub from_stored_roundtrip :
    (i : TenantId) (s : String)
    → valid i ≡ true
    → (from_stored (to_string i) ≡ i)
      × (to_string (from_stored s) ≡ s)
      × (valid (from_stored s) ≡ true)
      × (is_single (from_stored s) ≡ (s == ""))
unfolding from_stored to_string valid is_single
from_stored_roundtrip i s h = ground arith

-- A text that comes from outside never selects the single tenant: the empty text gives the
-- identifier that nobody set, and any other the set identifier that storage gives for it.
pub new_denies_empty :
    (s : String)
    → (is_single (new s) ≡ false)
      × (valid (new s) ≡ not (s == ""))
      × (new s ≡ (if s == "" then unset else from_stored s))
unfolding new from_stored valid is_single
new_denies_empty s = ground arith
