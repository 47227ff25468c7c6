-- ===== src/Identity/Action/Keeps.antt =====
-- What holds of the store before a call and after it, however the call ends; one rule for each way
-- that a call is put together.
use tamper.Prelude.{
  ◌≡◌, refl, Bool, true, false, Option, none, some, if◌then◌else◌, Result, ok, err,
}
use tamper.Identity.Types.{Error}
use tamper.Identity.MemStore.{MemStore, Answer}
use tamper.Identity.Action.{
  pure, raise, asks, given, some_or, refuse_if, writes, refuse_after, ◌>>=◌,
}

pub record Keeps {A : Type 0} (P : MemStore → Type 0) (m : Answer A) : Type 0 where
  pub after : (s : MemStore) → P s → P (m s).1

module _ (P : MemStore → Type 0) where
  pub Keeps-pure : {A : Type 0} (a : A) → Keeps P (pure a)
  Keeps-pure a = record { after = λ s p. p }

  pub Keeps-raise : {A : Type 0} (e : Error) → Keeps P (raise {A = A} e)
  Keeps-raise e = record { after = λ s p. p }

  pub Keeps-asks : {A : Type 0} (f : MemStore → Result Error A) → Keeps P (asks f)
  Keeps-asks f = record { after = λ s p. p }

  pub Keeps-given : {A : Type 0} (r : Result Error A) → Keeps P (given r)
  Keeps-given r = record { after = λ s p. p }

  pub Keeps-refuse_if : (b : Bool) (e : Error) → Keeps P (refuse_if b e)
  Keeps-refuse_if b e = record { after = λ s p. p }

  pub Keeps-some_or : {A : Type 0} (e : Error) (o : Option A) → Keeps P (some_or e o)
  Keeps-some_or e none = record { after = λ s p. p }
  Keeps-some_or e (some a) = record { after = λ s p. p }

  pub Keeps-writes :
      (f : MemStore → MemStore) → ((s : MemStore) → P s → P (f s)) → Keeps P (writes f)
  Keeps-writes f k = record { after = k }

  pub Keeps-refuse_after :
      (b : Bool) (f : MemStore → MemStore) (e : Error)
      → ((s : MemStore) → P s → P (f s))
      → Keeps P (refuse_after b f e)
  Keeps-refuse_after true f e k = record { after = k }
  Keeps-refuse_after false f e k = record { after = λ s p. p }

  pub Keeps-if :
      {A : Type 0} (b : Bool) (m n : Answer A)
      → Keeps P m
      → Keeps P n
      → Keeps P (if b then m else n)
  Keeps-if true m n km kn = km
  Keeps-if false m n km kn = kn

  Keeps-next :
      {A B : Type 0} (r : Result Error A) (k : A → Answer B) (s : MemStore)
      → ((a : A) → Keeps P (k a))
      → P s
      → P ((given r >>= k) s).1
  Keeps-next (err e) k s kk p = p
  Keeps-next (ok a) k s kk p = (kk a).after s p

  pub Keeps-bind :
      {A B : Type 0} (m : Answer A) (k : A → Answer B)
      → Keeps P m
      → ((a : A) → Keeps P (k a))
      → Keeps P (m >>= k)
  Keeps-bind m k km kk = record { after = λ s p. Keeps-next (m s).0 k (m s).1 kk (km.after s p) }

  -- The rest of the call may use what the option holds.
  pub Keeps-some_or_then :
      {A B : Type 0} (e : Error) (o : Option A) (k : A → Answer B)
      → ((a : A) → o ≡ some a → Keeps P (k a))
      → Keeps P (some_or e o >>= k)
  Keeps-some_or_then e none k kk = record { after = λ s p. p }
  Keeps-some_or_then e (some a) k kk = record { after = (kk a refl).after }

  chosen :
      {A : Type 0} (b : Bool) (x y : Result Error A × MemStore)
      → P x.1
      → P y.1
      → P (if b then x else y).1
  chosen true x y p q = p
  chosen false x y p q = q

  -- A test on the store.
  pub Keeps-test :
      {A : Type 0} (b : MemStore → Bool) (x y : Answer A)
      → Keeps P x
      → Keeps P y
      → Keeps P (λ s. if b s then x s else y s)
  Keeps-test b x y kx ky = record {
    after = λ s p. chosen (b s) (x s) (y s) (kx.after s p) (ky.after s p);
  }

  -- A step that first reads.
  pub Keeps-read :
      {A B : Type 0} (read : MemStore → A) (k : A → Answer B)
      → ((a : A) → Keeps P (k a))
      → Keeps P (λ s. k (read s) s)
  Keeps-read read k kk = record { after = λ s p. (kk (read s)).after s p }

pub ruleset keeping = (
  Keeps-pure, Keeps-asks, Keeps-given, Keeps-refuse_if, Keeps-some_or, Keeps-writes,
  Keeps-refuse_after, Keeps-if, Keeps-bind, Keeps-raise,
)
