-- ===== src/Authz/MemStore/Grants.antt =====
-- Grants and revocations, under any sequence of them (authz/memstore.go).
use tamper.Prelude.{
  Bool, true, false, not, ◌==◌, ◌≡◌, refl, ap, ◌∙◌, List, [], ◌∷◌, ◌++◌, contains, keep,
  if◌then◌else◌, Result, ok, err, arith,
}
use tamper.Tenant.Ident.{valid}
use tamper.Authz.Types.{Error, Binding, Binding_eq, gate, scope_gate}
use tamper.Authz.MemStore.{MemStore, grant, revoke}

-- The binding names a scope and a subject with a home tenant.
abbrev pub IsAddressed : Binding → Type 0
IsAddressed b = (valid b.tenant ≡ true) × (valid b.subject.tenant ≡ true)

contains-snoc :
    (x b : Binding) (l : List Binding)
    → contains x (l ++ b ∷ []) ≡ (if x == b then true else contains x l)
unfolding contains
contains-snoc x b [] = ground arith
contains-snoc x b (y ∷ l) = ground (arith, contains-snoc x b l)

contains-drop :
    (x b : Binding) (l : List Binding)
    → contains x (keep (λ existing. not (existing == b)) l)
      ≡ (if x == b then false else contains x l)
unfolding contains keep
contains-drop x b [] = ground arith
contains-drop x b (y ∷ l) = ground (arith, contains-drop x b l)

-- The writes of the store; one that is refused leaves it as it was.
pub data Change : Type 0 where
  granted : Binding → Change
  revoked : Binding → Change

abbrev pub after : MemStore → Result Error MemStore → MemStore
after m (ok m') = m'
after m (err e) = m

unfoldable pub apply : Change → MemStore → MemStore
apply (granted b) m = after m (grant b m)
apply (revoked b) m = after m (revoke b m)

unfoldable pub run : List Change → MemStore → MemStore
run [] m = m
run (c ∷ cs) m = run cs (apply c m)

-- What a sequence of changes leaves of a binding that was there or not: the last change of it.
abbrev pub last_word : Binding → Bool → List Change → Bool
last_word b held [] = held
last_word b held (granted c ∷ cs) = last_word b (if b == c then true else held) cs
last_word b held (revoked c ∷ cs) = last_word b (if b == c then false else held) cs

contains_granted :
    (b c : Binding) (m : MemStore)
    → IsAddressed b
    → contains b (apply (granted c) m).bindings ≡ (if b == c then true else contains b m.bindings)
unfolding apply grant gate scope_gate
contains_granted b c m a = ground (arith, contains-snoc b c m.bindings)

contains_revoked :
    (b c : Binding) (m : MemStore)
    → IsAddressed b
    → contains b (apply (revoked c) m).bindings ≡ (if b == c then false else contains b m.bindings)
unfolding apply revoke gate scope_gate
contains_revoked b c m a = ground (arith, contains-drop b c m.bindings)

-- After any sequence of changes, a binding that names its tenants is in the store exactly if the
-- last change of it was a grant, or if there was none and it was there before.
pub run-last_word :
    (cs : List Change) (b : Binding) (m : MemStore)
    → IsAddressed b
    → contains b (run cs m).bindings ≡ last_word b (contains b m.bindings) cs
unfolding run
run-last_word [] b m a = refl
run-last_word (granted c ∷ cs) b m a =
    run-last_word cs b (apply (granted c) m) a
    ∙ ap (λ h. last_word b h cs) (contains_granted b c m a)
run-last_word (revoked c ∷ cs) b m a =
    run-last_word cs b (apply (revoked c) m) a
    ∙ ap (λ h. last_word b h cs) (contains_revoked b c m a)
