-- ===== src/Tenant/Errors.antt =====
-- The sentinel errors of the package `tenant`. A `fmt.Errorf` that only adds text to an error
-- it wraps is that error; where it joins two, the constructor holds the second.
use tamper.Prelude.{ℕ, Bool, true, false}

pub data Error : Type 0 where
  not_found : Error
  hierarchy_cycle hierarchy_depth : Error
  hierarchy_dangling : Error → Error
  domain_not_normalised public_email_domain : Error
  conflict invalid_descriptor single_tenant : Error
  -- any other failure, such as a store that cannot be reached
  failure : ℕ → Error

-- `errors.Is(err, ErrNotFound)`.
abbrev pub is_not_found : Error → Bool
is_not_found not_found = true
is_not_found (hierarchy_dangling e) = is_not_found e
is_not_found _ = false

-- `errors.Is(err, ErrHierarchyDangling)`.
abbrev pub is_dangling : Error → Bool
is_dangling (hierarchy_dangling e) = true
is_dangling _ = false
