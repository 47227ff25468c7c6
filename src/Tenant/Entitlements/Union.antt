-- ===== src/Tenant/Entitlements/Union.antt =====
-- The union of two records of what was purchased (tenant/entitlements.go).
use tamper.Prelude.{ℕ, Bool, true, false, ◌≡◌, ◌≢◌, arith}
use tamper.Prelude.Int.{ℤ, pos, negsuc, NonNegative}
use tamper.Tenant.Entitlements.{Entitlements, is_zero, union, allows_another_idp}

-- The record of a tenant that bought nothing.
abbrev pub nothing : Entitlements
nothing = record { sso_enabled = false; scim_enabled = false; max_idp_connections = pos 0 }

-- A record with the cap -(n + 1).
abbrev pub negative : Bool → Bool → ℕ → Entitlements
negative sso scim n = record {
  sso_enabled = sso;
  scim_enabled = scim;
  max_idp_connections = negsuc n;
}

-- No negative cap.
abbrev pub IsSound : Entitlements → Type 0
IsSound e = NonNegative e.max_idp_connections

-- The order of the two sides does not matter, whatever the caps.
pub union_comm : (e f : Entitlements) → union e f ≡ union f e
unfolding union is_zero
union_comm e f = ground arith

pub union_laws :
    (e f g : Entitlements)
    → IsSound e
    → IsSound f
    → IsSound g
    → (union (union e f) g ≡ union e (union f g))
      × (union e e ≡ e)
      × (union nothing e ≡ e)
      × IsSound (union e f)
unfolding union is_zero
union_laws e f g a b c = ground arith

-- The record bought something, and with that many providers it allows another.
abbrev pub Offers : Entitlements → ℤ → Type 0
Offers e current = (is_zero e ≡ false) × (allows_another_idp e current ≡ true)

-- A negative cap, which `AllowsAnotherIdP` reads as no limit, is not kept by a union with itself:
-- the cap becomes 0, and a record that purchased nothing but the negative cap becomes the record
-- that bought nothing.
pub union-negative :
    (sso scim : Bool) (n : ℕ)
    → let e = negative sso scim n in
      (union e e ≢ e) × (union e e ≡ record e { max_idp_connections = pos 0 }) × (is_zero e ≡ false)
unfolding union is_zero
union-negative sso scim n = ground arith

-- `g` allows whatever `e` allows: each capability, and one more provider at each number of them.
pub record GrantsAtLeast (g e : Entitlements) : Type 0 where
  pub sso : e.sso_enabled ≡ true → g.sso_enabled ≡ true
  pub scim : e.scim_enabled ≡ true → g.scim_enabled ≡ true
  pub another_idp :
      (current : ℤ) → allows_another_idp e current ≡ true → allows_another_idp g current ≡ true

pub GrantsAtLeast-refl : (e : Entitlements) → GrantsAtLeast e e
GrantsAtLeast-refl e = record { sso = λ h. h; scim = λ h. h; another_idp = λ n h. h }

pub GrantsAtLeast-trans :
    {g f e : Entitlements} → GrantsAtLeast g f → GrantsAtLeast f e → GrantsAtLeast g e
GrantsAtLeast-trans a b = record {
  sso = λ h. a.sso (b.sso h);
  scim = λ h. a.scim (b.scim h);
  another_idp = λ n h. a.another_idp n (b.another_idp n h);
}

-- A union grants at least what a side that bought something granted.
pub union-GrantsAtLeast : (e f : Entitlements) → is_zero e ≡ false → GrantsAtLeast (union e f) e
unfolding union is_zero allows_another_idp
union-GrantsAtLeast e f z = record {
  sso = λ h. ground arith;
  scim = λ h. ground arith;
  another_idp = λ n h. ground arith;
}

-- Without negative caps, a union with a side that bought something is not empty.
pub union_not_zero :
    (e f : Entitlements) → IsSound e → IsSound f → is_zero e ≡ false → is_zero (union e f) ≡ false
unfolding union is_zero
union_not_zero e f a b z = ground arith
